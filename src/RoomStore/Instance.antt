-- ===== src/RoomStore/Instance.antt =====
-- A Redis that is a list, for the runs of app/chat/room_store.go.
use chat_service.Text.Assoc.{lookup-insert, insert, lookup}
use chat_service.Prelude.{refl, ◌∙◌, sym, ok, ap, List}
use chat_service.RoomStore.{IsRedis, Redis, RoomMeta}
use chat_service.Store.Engine.{done}
use chat_service.Text.{same_refl, Bytes}

abbrev pub a_redis : Redis
a_redis = record {
  Db = List (Bytes × RoomMeta);
  Data = RoomMeta;
  get = λ k d. ok (lookup k d);
  set = λ k v d. (ok done, insert k v d);
  marshal = λ m. ok m;
  unmarshal = λ m. ok m;
}

pub a_redis-IsRedis : IsRedis a_redis
a_redis-IsRedis = record {
  set_get = λ k v d d' h.
      ap (λ x. ok (lookup k x.1)) (sym h) ∙ ap ok (lookup-insert k k v d ∙ rw (same_refl k) refl);
  set_other = λ k j v d d' h n.
      ap (λ x. ok (lookup j x.1)) (sym h) ∙ ap ok (lookup-insert k j v d ∙ rw n refl);
  decoded = λ m v h. sym h;
}
