-- ===== src/Server/Creation/Tests.antt =====
-- `CreateRoom` of app/server/grpc_server.go over stores that are lists.
use chat_service.Store.Groups.{doc_to_conversation_detail}
use chat_service.Store.Direct.{create_or_get_direct_conversation}
use chat_service.Rooms.Statements.{insert_rows, where_rows}
use chat_service.Rooms.Direct.{get_or_create_dm}
use chat_service.RoomStore.{get, create_dm}
use chat_service.Text.Assoc.{lookup}
use chat_service.Prelude.{◌↔◌, refl, pos, err, false, ok, ◌∷◌, none, ◌≡◌, true, Bool, []}
use chat_service.Server.Calls.{invalid_argument}
use chat_service.Server.Creation.{Stores, CreateRoomRequest, CreateRoomResponse, create_room}
use chat_service.Server.Creation.Agreement.{create_room-dm}
use chat_service.Server.Creation.Parts.{IsFiled, State, parts, parts-NamesPairs}
use chat_service.Server.Creation.Refused.{create_room-refused, is_valid}
use chat_service.Proto.{dm}
use chat_service.Rooms.Instance.{list_tables, list_tables-IsSql}
use chat_service.RoomStore.Instance.{a_redis, a_redis-IsRedis}
use chat_service.Store.Lists.{keep, head_of, lists, lists-IsEngine}
use chat_service.RoomId.{dm_room_id}
use chat_service.Text.{same, lit}

abbrev empty : State list_tables lists a_redis
empty = record {
  tables = record {
    chat_rooms = [];
    chat_room_members = [];
    chat_room_last_activity = [];
    chat_read_receipts = [];
  };
  repository = record {
    conversations = [];
    group_members = [];
    messages = [];
    message_read = [];
    receipts = [];
    media = [];
  };
  store = record { rdb = none; mem = [] };
}

empty-IsFiled : IsFiled list_tables lists a_redis empty
unfolding lookup get
empty-IsFiled = (λ id. none, λ id. refl, λ id m h. cc)

abbrev stores_of : Bool → Bool → Stores (State list_tables lists a_redis)
stores_of has_pg has_mongo =
    parts list_tables lists a_redis (λ e. false) (pos 5) (pos 7) (lit "u") has_pg has_mongo

abbrev request : CreateRoomRequest
request = record {
  type = dm;
  name = [];
  created_by = lit "bob";
  member_ids = lit "bob" ∷ lit "alice" ∷ [];
}

abbrev answer : CreateRoomResponse
answer = record { room_id = lit "dm:alice:bob"; name = [] }

-- With both databases, with MongoDB alone, and with neither.
all_agree :
    ((create_room (stores_of true true) request empty).0 ≡ ok answer)
    × ((create_room (stores_of false true) request empty).0 ≡ ok answer)
    × ((create_room (stores_of false false) request empty).0 ≡ ok answer)
unfolding create_room get_or_create_dm where_rows insert_rows same create_or_get_direct_conversation
    head_of keep doc_to_conversation_detail create_dm lookup
all_agree = (refl, refl, refl)

create_room-dm_example :
    (lit "dm:alice:bob" ≡ dm_room_id (lit "bob") (lit "alice"))
    × (lit "dm:alice:bob" ≡ dm_room_id (lit "alice") (lit "bob"))
unfolding create_room create_dm lookup
create_room-dm_example =
    create_room-dm (stores_of false false) (IsFiled list_tables lists a_redis)
      (parts-NamesPairs list_tables lists a_redis (λ e. false) (pos 5) (pos 7) (lit "u") false false
        list_tables-IsSql lists-IsEngine a_redis-IsRedis)
      (lit "bob") (lit "alice") [] (lit "bob") empty
      (create_room (stores_of false false) request empty).1 answer empty-IsFiled refl

create_room-refused_example :
    (((create_room (stores_of true true) (record request { created_by = [] }) empty).0
        ≡ err invalid_argument)
      ↔ (is_valid (record request { created_by = [] }) ≡ false))
    × (is_valid (record request { created_by = [] }) ≡ false
        → (create_room (stores_of true true) (record request { created_by = [] }) empty).1 ≡ empty)
create_room-refused_example =
    create_room-refused (stores_of true true) (record request { created_by = [] }) empty
