-- ===== src/Rooms.antt =====
-- `RoomRepository` of app/repository/postgres.go: rooms, their members, the last message of a room
-- and the read cursors of users, in four tables of PostgreSQL.
pub mod Shuffled
pub mod Statements
pub mod Detailed
pub mod Rows
pub mod Stored
pub mod Users
pub mod Found
pub mod Direct
pub mod Unread
pub mod Sorted
pub mod Keyed
pub mod Instance
pub mod Tests
use chat_service.Prelude.{
  ◌||◌, ◌∷◌, map, ◌&&◌, some, ok, err, none, false, true, [], if◌then◌else◌, not, Result, List,
  Bool, Option, ℤ,
}
use chat_service.Rooms.Statements.{Sql}
use chat_service.Store.Engine.{Done, done}
use chat_service.Text.{is_empty, same, Bytes, lit}

-- A row of chat_rooms; avatar_url and is_archived keep their defaults and are left out.
pub record ChatRoom : Type 0 where
  pub id : Bytes
  pub room_type : ℤ
  pub name : Option Bytes
  pub created_by : Bytes
  pub property_id : Option ℤ
  pub created_at : ℤ
  pub updated_at : ℤ

-- A row of chat_room_members; role, joined_at, muted_until and is_pinned keep their defaults.
pub record Member : Type 0 where
  pub room_id : Bytes
  pub user_id : Bytes
  pub left_at : Option ℤ

-- A row of chat_room_last_activity
pub record Activity : Type 0 where
  pub room_id : Bytes
  pub last_message_at : ℤ
  pub last_message_id : Option Bytes
  pub last_sender_id : Option Bytes
  pub preview_text : Option Bytes

-- A row of chat_read_receipts
pub record Receipt : Type 0 where
  pub room_id : Bytes
  pub user_id : Bytes
  pub last_read_at : ℤ
  pub last_read_msg_id : Option Bytes

-- RoomMeta
pub record RoomMeta : Type 0 where
  pub room_id : Bytes
  pub room_type : ℤ
  pub name : Bytes
  pub created_by : Bytes
  pub property_id : Option ℤ
  pub member_ids : List Bytes
  pub created_at : ℤ

-- sql.NullString{String: s, Valid: s != ""}
unfoldable pub null_string : Bytes → Option Bytes
null_string s = if is_empty s then none else some s

-- COALESCE(s, '')
unfoldable pub or_empty : Option Bytes → Bytes
or_empty none = []
or_empty (some s) = s

abbrev pub is_null : Option ℤ → Bool
is_null none = true
is_null (some n) = false

-- id = $1
abbrev pub has_id : Bytes → ChatRoom → Bool
has_id room r = same r.id room

-- the conflict of (room_id, user_id) in chat_room_members
abbrev pub is_member : Bytes → Bytes → Member → Bool
is_member room user m = same m.room_id room && same m.user_id user

-- room_id = $1 AND left_at IS NULL
abbrev pub is_active_in : Bytes → Member → Bool
is_active_in room m = same m.room_id room && is_null m.left_at

-- user_id = $1 AND left_at IS NULL
abbrev pub is_active : Bytes → Member → Bool
is_active user m = same m.user_id user && is_null m.left_at

abbrev pub of_room : Bytes → Activity → Bool
of_room room a = same a.room_id room

abbrev pub is_receipt : Bytes → Bytes → Receipt → Bool
is_receipt room user r = same r.room_id room && same r.user_id user

-- REFERENCES public.chat_rooms(id)
unfoldable pub refers : Bytes → List ChatRoom → Bool
refers room [] = false
refers room (r ∷ rs) = has_id room r || refers room rs

-- The row that UpsertRoom inserts; its times are both created_at.
unfoldable pub room_row : RoomMeta → ChatRoom
unfolding null_string
room_row m = record {
  id = m.room_id;
  room_type = m.room_type;
  name = null_string m.name;
  created_by = m.created_by;
  property_id = m.property_id;
  created_at = m.created_at;
  updated_at = m.created_at;
}

-- What GetRoom scans from a row of chat_rooms; it does not ask for property_id.
unfoldable pub room_meta : ChatRoom → List Bytes → RoomMeta
unfolding or_empty
room_meta r members = record {
  room_id = r.id;
  room_type = r.room_type;
  name = or_empty r.name;
  created_by = r.created_by;
  property_id = none;
  member_ids = members;
  created_at = r.created_at;
}

-- The rest of a chain of calls, after one that may fail.
abbrev pub and_then {ℓ κ} :
    {A : Type ℓ} {B : Type κ} → Result Bytes A → (A → Result Bytes B) → Result Bytes B
and_then (err e) f = err e
and_then (ok a) f = f a

module _ (q : Sql) where
  pub record Tables : Type 0 where
    pub chat_rooms : q.Table ChatRoom
    pub chat_room_members : q.Table Member
    pub chat_room_last_activity : q.Table Activity
    pub chat_read_receipts : q.Table Receipt

  -- An error, and the tables after a statement.
  abbrev pub Method : Type 0
  Method = Tables → Result Bytes Done × Tables

  -- INSERT INTO chat_room_members of UpsertRoom
  unfoldable pub insert_member : Bytes → Bytes → Method
  unfolding refers
  insert_member room user t =
      let (r, ms) =
        q.insert_new (is_member room user)
          (not (is_empty user) && refers room (q.rows t.chat_rooms))
          (record { room_id = room; user_id = user; left_at = none }) t.chat_room_members in
      (r, record t { chat_room_members = ms })

  -- if err != nil { return err }, after a statement
  abbrev pub on_success : Result Bytes Done × Tables → Method → Result Bytes Done × Tables
  on_success (err e, t) f = (err e, t)
  on_success (ok d, t) f = f t

  -- the loop over m.MemberIDs
  unfoldable pub insert_members : Bytes → List Bytes → Method
  unfolding insert_member
  insert_members room [] t = (ok done, t)
  insert_members room (u ∷ us) t = on_success (insert_member room u t) (insert_members room us)

  -- INSERT INTO chat_rooms of UpsertRoom
  unfoldable pub insert_room : RoomMeta → Method
  unfolding room_row
  insert_room m t =
      let (r, rooms) =
        q.insert_new (has_id m.room_id) (not (is_empty m.created_by)) (room_row m) t.chat_rooms in
      (r, record t { chat_rooms = rooms })

  -- UpsertRoom
  unfoldable pub upsert_room : RoomMeta → Method
  unfolding insert_room insert_members
  upsert_room m t = on_success (insert_room m t) (insert_members m.room_id m.member_ids)

  -- The users of the members that a query for them returns.
  unfoldable pub get_members : Bytes → Tables → Result Bytes (List Bytes)
  get_members room t =
      and_then (q.select (is_active_in room) t.chat_room_members) λ ms. ok (map (λ m. m.user_id) ms)

  -- QueryRow: the first row, or sql.ErrNoRows
  abbrev pub first_room : List ChatRoom → Option ChatRoom
  first_room [] = none
  first_room (r ∷ rs) = some r

  unfoldable pub with_members : Option ChatRoom → Tables → Result Bytes (Option RoomMeta)
  unfolding get_members room_meta
  with_members none t = ok none
  with_members (some r) t = and_then (get_members r.id t) λ members. ok (some (room_meta r members))

  -- GetRoom; `none` is (nil, nil)
  unfoldable pub get_room : Bytes → Tables → Result Bytes (Option RoomMeta)
  unfolding with_members
  get_room room t =
      and_then (q.select (has_id room) t.chat_rooms) λ rs. with_members (first_room rs) t
