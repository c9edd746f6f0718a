-- ===== src/RoomStore/Tests.antt =====
-- `RoomStore` of app/chat/room_store.go over a Redis that is a list, and each result at one run.
use chat_service.RoomStore.Instance.{a_redis, a_redis-IsRedis}
use chat_service.Text.Assoc.{insert, lookup}
use chat_service.Prelude.{refl, pos, ◌≡◌, ◌∷◌, [], some, none}
use chat_service.RoomStore.{RoomMeta, RoomStore, create_dm, create_group, kind_dm, new_dm}
use chat_service.RoomStore.Refines.{Shows, create_dm-Shows, or_put}
use chat_service.Text.{lit}

abbrev in_memory : RoomStore a_redis
in_memory = record { rdb = none; mem = [] }

abbrev in_redis : RoomStore a_redis
in_redis = record { rdb = some []; mem = [] }

abbrev room : RoomMeta
room = record {
  room_id = lit "dm:alice:bob";
  name = [];
  kind = kind_dm;
  created_by = lit "bob";
  created_at = pos 7;
  member_ids = lit "alice" ∷ lit "bob" ∷ [];
}

abbrev redis_after : RoomStore a_redis
redis_after = record { rdb = some ((lit "chat:room:dm:alice:bob", room) ∷ []); mem = [] }

too_small :
    (create_group a_redis (lit "u") (lit "g") (lit "bob") (lit "bob" ∷ []) (pos 7) in_memory).1
    ≡ in_memory
unfolding create_group
too_small = refl

create_dm-Shows_example :
    (room
      ≡ (or_put (new_dm a_redis (lit "bob") (lit "alice") (lit "bob") (pos 7)) none (λ id. none)).0)
    × Shows a_redis redis_after
        (or_put (new_dm a_redis (lit "bob") (lit "alice") (lit "bob") (pos 7)) none (λ id. none)).1
unfolding create_dm lookup insert
create_dm-Shows_example =
    create_dm-Shows a_redis a_redis-IsRedis (lit "bob") (lit "alice") (lit "bob") (pos 7) room
      in_redis redis_after (λ id. none) (λ id. refl) refl
