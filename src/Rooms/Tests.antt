-- ===== src/Rooms/Tests.antt =====
-- The repository of app/repository/postgres.go on tables that are lists, and each result at one run.
use chat_service.Rooms.Statements.{
  upsert_rows, beside_or_null, left_join_rows, join_rows, where_rows, insert_rows,
}
use chat_service.RoomId.{dm_room_id}
use chat_service.Server.Listing.{RoomRow}
use chat_service.Prelude.{inl, ◌↔◌, true, some, ok, refl, arith, ◌≡◌, ◌∷◌, none, pos, []}
use chat_service.Rooms.{
  Activity, ChatRoom, Member, Receipt, RoomMeta, Tables, get_room, insert_room, upsert_room,
}
use chat_service.Rooms.Direct.{get_or_create_dm}
use chat_service.Rooms.Detailed.{get_user_rooms_detailed, has_unread, update_last_activity}
use chat_service.Rooms.Found.{Agrees, get_or_create_dm-again, upsert_room-get_room}
use chat_service.Rooms.Instance.{list_tables, list_tables-IsSql}
use chat_service.Rooms.Keyed.{IsKeyed, Ran-IsKeyed, ran_also, ran_nothing, room_inserted}
use chat_service.Rooms.Shuffled.{Shuffled}
use chat_service.Rooms.Sorted.{IsRecentFirst, get_user_rooms_detailed-IsRecentFirst, rooms_of}
use chat_service.Rooms.Unread.{Behind, update_last_activity-has_unread}
use chat_service.Rooms.Users.{users}
use chat_service.Store.Groups.{add_users}
use chat_service.Text.{same, Bytes, lit}

abbrev alice : Bytes
alice = lit "alice"

abbrev bob : Bytes
bob = lit "bob"

abbrev empty : Tables list_tables
empty = record {
  chat_rooms = [];
  chat_room_members = [];
  chat_room_last_activity = [];
  chat_read_receipts = [];
}

abbrev pair : Bytes
pair = lit "dm:alice:bob"

abbrev dm_made : RoomMeta
dm_made = record {
  room_id = pair;
  room_type = pos 0;
  name = [];
  created_by = bob;
  property_id = none;
  member_ids = alice ∷ bob ∷ [];
  created_at = pos 7;
}

abbrev member_row : Bytes → Bytes → Member
member_row room user = record { room_id = room; user_id = user; left_at = none }

abbrev dm_row : ChatRoom
dm_row = record {
  id = pair;
  room_type = pos 0;
  name = none;
  created_by = bob;
  property_id = none;
  created_at = pos 7;
  updated_at = pos 7;
}

abbrev with_dm : Tables list_tables
with_dm = record {
  chat_rooms = dm_row ∷ [];
  chat_room_members = member_row pair alice ∷ member_row pair bob ∷ [];
  chat_room_last_activity = [];
  chat_read_receipts = [];
}

made : get_or_create_dm list_tables bob alice bob (pos 7) empty ≡ (ok dm_made, with_dm)
unfolding get_or_create_dm where_rows insert_rows same
made = refl

-- A pair with an empty id: the second insertion is refused, the room and the first member stay.
half_made :
    (get_or_create_dm list_tables bob [] bob (pos 7) empty).1.chat_rooms
    ≡ (record dm_row { id = lit "dm::bob" }) ∷ []
unfolding get_or_create_dm where_rows insert_rows
half_made = refl

get_or_create_dm-again_example :
    (with_dm ≡ with_dm)
    × (dm_made.room_id ≡ dm_room_id bob alice)
    × (dm_made.created_by ≡ bob)
    × (dm_made.created_at ≡ pos 7)
unfolding get_or_create_dm where_rows insert_rows same
get_or_create_dm-again_example =
    get_or_create_dm-again list_tables list_tables-IsSql bob alice bob alice bob alice (pos 7)
      (pos 9) dm_made dm_made empty with_dm with_dm (inl (refl, refl)) refl refl

upsert_room-get_room_example :
    (m' : RoomMeta) × (get_room list_tables pair with_dm ≡ ok (some m'))
    × Agrees dm_made m'
    × Shuffled m'.member_ids
        (add_users (users pair (list_tables.rows empty.chat_room_members)) dm_made.member_ids)
unfolding upsert_room get_room where_rows insert_rows same
upsert_room-get_room_example =
    upsert_room-get_room list_tables list_tables-IsSql dm_made empty with_dm with_dm.chat_rooms
      with_dm.chat_room_members tt refl refl refl refl

abbrev said : Activity
said = record {
  room_id = pair;
  last_message_at = pos 20;
  last_message_id = some (lit "m1");
  last_sender_id = some alice;
  preview_text = some (lit "hi");
}

abbrev spoken : Tables list_tables
spoken = record with_dm { chat_room_last_activity = said ∷ [] }

update_last_activity-has_unread_example :
    (has_unread list_tables pair bob spoken ≡ true) ↔ (¬ (alice ≡ bob) × Behind (pos 20) none)
unfolding update_last_activity same where_rows upsert_rows left_join_rows beside_or_null
update_last_activity-has_unread_example =
    update_last_activity-has_unread list_tables list_tables-IsSql pair (lit "m1") alice (lit "hi")
      bob (pos 20) with_dm spoken ((said, none) ∷ []) (omega arith) (omega arith) refl refl

abbrev seen : Receipt
seen = record {
  room_id = pair;
  user_id = bob;
  last_read_at = pos 20;
  last_read_msg_id = some (lit "m1");
}

abbrev read : Tables list_tables
read = record spoken { chat_read_receipts = seen ∷ [] }

abbrev listed : RoomRow
listed = record {
  room_id = pair;
  room_type = pos 0;
  name = [];
  last_message = lit "hi";
  last_message_at = pos 20;
  has_unread = true;
  member_ids = alice ∷ bob ∷ [];
}

get_user_rooms_detailed-IsRecentFirst_example :
    IsRecentFirst (listed ∷ [])
    × Shuffled (pair ∷ []) (
        rooms_of bob
          (list_tables.rows spoken.chat_rooms)
          (list_tables.rows spoken.chat_room_members))
unfolding get_user_rooms_detailed join_rows where_rows same left_join_rows beside_or_null
get_user_rooms_detailed-IsRecentFirst_example =
    get_user_rooms_detailed-IsRecentFirst list_tables list_tables-IsSql bob spoken (listed ∷ [])
      refl

abbrev with_room : Tables list_tables
with_room = record empty { chat_rooms = dm_row ∷ [] }

empty-IsKeyed : IsKeyed list_tables empty
unfolding where_rows
empty-IsKeyed = record {
  rooms = λ room. omega arith;
  members = λ room user. omega arith;
  activities = λ room. omega arith;
  receipts = λ room user. omega arith;
}

Ran-IsKeyed_example : IsKeyed list_tables with_room
unfolding insert_room insert_rows
Ran-IsKeyed_example =
    Ran-IsKeyed list_tables list_tables-IsSql empty with_room empty-IsKeyed
      (ran_also ran_nothing (room_inserted dm_made refl))
