-- ===== src/Server/Creation.antt =====
-- `CreateRoom` of app/server/grpc_server.go, over the three stores of rooms, whose state is `S`.
pub mod Agreement
pub mod Parts
pub mod Refused
pub mod Tests
use chat_service.Prelude.{◌∷◌, [], List, ok, err}
use chat_service.Prelude.{none, ◌++◌, ok, [], some, err, if◌then◌else◌, Option, Result, List}
use chat_service.Server.Calls.{Reply, internal, invalid_argument}
use chat_service.Proto.{other_room_type, RoomType, dm, group}
use chat_service.Rooms.{RoomMeta}
use chat_service.RoomStore
use chat_service.Store.Groups.{ConversationDetail}
use chat_service.Text.{is_empty, Bytes, lit}

-- pb.CreateRoomRequest
pub record CreateRoomRequest : Type 0 where
  pub type : RoomType
  pub name : Bytes
  pub created_by : Bytes
  pub member_ids : List Bytes

-- pb.CreateRoomResponse
pub record CreateRoomResponse : Type 0 where
  pub room_id : Bytes
  pub name : Bytes

-- s.pgRooms
pub record PgRooms (S : Type 0) : Type 0 where
  pub get_or_create_dm : Bytes → Bytes → Bytes → S → Result Bytes RoomMeta × S
  pub create_group : Bytes → Bytes → Bytes → List Bytes → S → Result Bytes RoomMeta × S

-- s.msgRepo
pub record Conversations (S : Type 0) : Type 0 where
  pub create_or_get_direct_conversation :
      Bytes → Bytes → Bytes → S → Result Bytes ConversationDetail × S
  pub create_group_conversation :
      Bytes → Bytes → Bytes → Bytes → List Bytes → S → Result Bytes ConversationDetail × S

-- s.rooms
pub record RoomMap (S : Type 0) : Type 0 where
  pub create_dm : Bytes → Bytes → Bytes → S → Result Bytes RoomStore.RoomMeta × S
  pub create_group : Bytes → Bytes → List Bytes → S → Result Bytes RoomStore.RoomMeta × S

-- The parts of a server; two of them may be nil.
pub record Stores (S : Type 0) : Type 0 where
  pub pg_rooms : Option (PgRooms S)
  pub msg_repo : Option (Conversations S)
  pub rooms : RoomMap S
  -- uuid.NewString()
  pub new_id : Bytes

abbrev pub response : Bytes → Bytes → CreateRoomResponse
response id name = record { room_id = id; name = name }

abbrev pub or_id : Bytes → Result Bytes ConversationDetail → Bytes
or_id id (err e) = id
or_id id (ok conv) = if is_empty id then conv.conversation_id else id

module _ {S : Type 0} where
  abbrev pub of_pg : Result Bytes RoomMeta × S → Reply CreateRoomResponse × S
  of_pg (err e, s) = (err internal, s)
  of_pg (ok m, s) = (ok (response m.room_id m.name), s)

  abbrev pub of_map : Result Bytes RoomStore.RoomMeta × S → Reply CreateRoomResponse × S
  of_map (err e, s) = (err internal, s)
  of_map (ok m, s) = (ok (response m.room_id m.name), s)

  -- What is done when the two databases have been asked.
  unfoldable pub dm_from_map :
      Stores S → Bytes → Bytes → Bytes → Bytes → Bytes → S → Reply CreateRoomResponse × S
  dm_from_map st a b by id name s =
      if is_empty id then of_map (st.rooms.create_dm a b by s) else (ok (response id name), s)

  abbrev pub dm_in_mongo :
      Option (Conversations S)
      → Stores S
      → Bytes
      → Bytes
      → Bytes
      → Bytes
      → Bytes
      → S
      → Reply CreateRoomResponse × S
  dm_in_mongo none st a b by id name s = dm_from_map st a b by id name s
  dm_in_mongo (some r) st a b by id name s =
      let (conv, s') = r.create_or_get_direct_conversation a b by s in
      dm_from_map st a b by (or_id id conv) name s'

  abbrev pub after_pg :
      Stores S → Bytes → Bytes → Bytes → Result Bytes RoomMeta × S → Reply CreateRoomResponse × S
  after_pg st a b by (err e, s) = (err internal, s)
  after_pg st a b by (ok m, s) = dm_in_mongo st.msg_repo st a b by m.room_id m.name s

  abbrev pub dm_in_pg :
      Option (PgRooms S) → Stores S → Bytes → Bytes → Bytes → S → Reply CreateRoomResponse × S
  dm_in_pg none st a b by s = dm_in_mongo st.msg_repo st a b by [] [] s
  dm_in_pg (some p) st a b by s = after_pg st a b by (p.get_or_create_dm a b by s)

  -- case ROOM_TYPE_DM
  unfoldable pub create_dm_room : Stores S → List Bytes → Bytes → S → Reply CreateRoomResponse × S
  unfolding dm_from_map
  create_dm_room st (a ∷ b ∷ []) by s = dm_in_pg st.pg_rooms st a b by s
  create_dm_room st _ by s = (err invalid_argument, s)

  abbrev pub group_in_pg :
      Option (PgRooms S) → Stores S → CreateRoomRequest → S → Reply CreateRoomResponse × S
  group_in_pg none st req s =
      of_map (st.rooms.create_group req.name req.created_by req.member_ids s)
  group_in_pg (some p) st req s =
      of_pg (p.create_group (lit "group:" ++ st.new_id) req.name req.created_by req.member_ids s)

  -- An error of MongoDB is passed over.
  abbrev pub after_mongo :
      Stores S
      → CreateRoomRequest
      → Result Bytes ConversationDetail × S
      → Reply CreateRoomResponse × S
  after_mongo st req (err e, s) = group_in_pg st.pg_rooms st req s
  after_mongo st req (ok conv, s) = (ok (response conv.conversation_id conv.group_name), s)

  abbrev pub group_in_mongo :
      Option (Conversations S) → Stores S → CreateRoomRequest → S → Reply CreateRoomResponse × S
  group_in_mongo none st req s = group_in_pg st.pg_rooms st req s
  group_in_mongo (some r) st req s =
      after_mongo st req
        (r.create_group_conversation req.name [] [] req.created_by req.member_ids s)

  -- case ROOM_TYPE_GROUP
  unfoldable pub create_group_room : Stores S → CreateRoomRequest → S → Reply CreateRoomResponse × S
  create_group_room st req s =
      if is_empty req.name then (err invalid_argument, s) else group_in_mongo st.msg_repo st req s

  unfoldable pub create_by_type :
      RoomType → Stores S → CreateRoomRequest → S → Reply CreateRoomResponse × S
  unfolding create_dm_room create_group_room
  create_by_type dm st req s = create_dm_room st req.member_ids req.created_by s
  create_by_type group st req s = create_group_room st req s
  create_by_type (other_room_type n) st req s = (err invalid_argument, s)

  -- CreateRoom
  unfoldable pub create_room : Stores S → CreateRoomRequest → S → Reply CreateRoomResponse × S
  unfolding create_by_type
  create_room st req s =
      if is_empty req.created_by
      then (err invalid_argument, s)
      else create_by_type req.type st req s
