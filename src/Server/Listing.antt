-- ===== src/Server/Listing.antt =====
-- `GetUserRooms` of app/server/grpc_server.go: the rooms of a user from PostgreSQL and from MongoDB,
-- merged under their canonical ids.
pub mod Merge
pub mod Covered
use chat_service.Server.Calls.{invalid_argument, Reply}
use chat_service.Text.Assoc.{lookup, insert}
use chat_service.RoomId.{normalize_room_id}
use chat_service.Prelude.{
  length, none, ok, ltb, not, false, ◌++◌, err, ◌||◌, pos, ◌&&◌, true, ◌∷◌, map, Result, eqb_ℤ,
  some, Bool, if◌then◌else◌, Option, ltb_ℤ, [], List, ℤ,
}
use chat_service.Proto.{dm, group, RoomType}
use chat_service.Text.{has_prefix, is_empty, lit, Bytes}

-- pb.UserRoom
pub record UserRoom : Type 0 where
  pub room_id : Bytes
  pub room_type : RoomType
  pub name : Bytes
  pub last_message : Bytes
  pub last_message_at : ℤ
  pub has_unread : Bool
  pub member_ids : List Bytes

-- repository.UserRoom, a row of GetUserRoomsDetailed
pub record RoomRow : Type 0 where
  pub room_id : Bytes
  pub room_type : ℤ
  pub name : Bytes
  pub last_message : Bytes
  pub last_message_at : ℤ
  pub has_unread : Bool
  pub member_ids : List Bytes

-- repository.UserRoomSummary
pub record UserRoomSummary : Type 0 where
  pub room_id : Bytes
  pub last_message : Bytes
  pub last_message_at : ℤ
  pub member_ids : List Bytes

-- `byID` and `order`
pub record Listed : Type 0 where
  pub by_id : List (Bytes × UserRoom)
  pub order : List Bytes

abbrev pub nothing_listed : Listed
nothing_listed = record { by_id = []; order = [] }

abbrev no_members : List Bytes → Bool
no_members [] = true
no_members (m ∷ ms) = false

-- What addRoom changes in a room that is there.
unfoldable pub merge_room : UserRoom → UserRoom → UserRoom
merge_room existing r =
    let newer = ltb_ℤ existing.last_message_at r.last_message_at in
    record existing {
      last_message = if newer then r.last_message else existing.last_message;
      last_message_at = if newer then r.last_message_at else existing.last_message_at;
      name = if is_empty existing.name && not (is_empty r.name) then r.name else existing.name;
      member_ids =
          if no_members existing.member_ids && not (no_members r.member_ids)
          then r.member_ids
          else existing.member_ids;
      has_unread = if r.has_unread then true else existing.has_unread;
    }

unfoldable pub put_listed : Option UserRoom → UserRoom → Listed → Listed
put_listed (some existing) r l = record l {
  by_id = insert r.room_id (merge_room existing r) l.by_id;
}
put_listed none r l = record {
  by_id = insert r.room_id r l.by_id;
  order = l.order ++ r.room_id ∷ [];
}

-- the closure `addRoom`
unfoldable pub add_room : Listed → UserRoom → Listed
unfolding put_listed
add_room l raw =
    let r = record raw { room_id = normalize_room_id raw.room_id } in
    if is_empty raw.room_id then l else put_listed (lookup r.room_id l.by_id) r l

pub of_row : RoomRow → UserRoom
of_row r = record {
  room_id = r.room_id;
  room_type = if eqb_ℤ r.room_type (pos 1) then group else dm;
  name = r.name;
  last_message = r.last_message;
  last_message_at = r.last_message_at;
  has_unread = r.has_unread;
  member_ids = r.member_ids;
}

pub of_summary : UserRoomSummary → UserRoom
of_summary r =
    let id = normalize_room_id r.room_id in
    record {
      room_id = id;
      room_type =
          if has_prefix id (lit "group:")
            || (ltb 6 (length r.room_id) && has_prefix r.room_id (lit "group:"))
          then group
          else dm;
      name = [];
      last_message = r.last_message;
      last_message_at = r.last_message_at;
      has_unread = false;
      member_ids = r.member_ids;
    }

unfoldable pub add_rooms : Listed → List UserRoom → Listed
add_rooms l [] = l
add_rooms l (r ∷ rs) = add_rooms (add_room l r) rs

-- A repository that is nil, and one that fails (which is logged), add no rooms.
abbrev pub found {ℓ} : {A : Type ℓ} → Option (Result Bytes (List A)) → List A
found none = []
found (some (err e)) = []
found (some (ok rs)) = rs

-- `byID[id]` for the ids in order; a missing key would be a nil room.
abbrev pub in_order : Listed → List (Option UserRoom)
in_order l = map (λ id. lookup id l.by_id) l.order

-- GetUserRooms, from the answers of the two repositories for the user.
pub get_user_rooms :
    Bytes
    → Option (Result Bytes (List RoomRow))
    → Option (Result Bytes (List UserRoomSummary))
    → Reply (List (Option UserRoom))
unfolding add_rooms
get_user_rooms user rows summaries =
    if is_empty user
    then err invalid_argument
    else ok (
        in_order (
          add_rooms (add_rooms nothing_listed (map of_row (found rows)))
            (map of_summary (found summaries))))
