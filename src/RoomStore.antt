-- ===== src/RoomStore.antt =====
-- `RoomStore` of app/chat/room_store.go: rooms under their ids, in Redis or in a map. Redis and the
-- JSON encoding are parameters; the clock and uuid.NewString() are arguments.
pub mod Again
pub mod Refines
pub mod Instance
pub mod Tests
use chat_service.Text.Order.{sort_strings}
use chat_service.Text.Assoc.{insert, lookup}
use chat_service.Prelude.{
  length, ltb, ◌||◌, ◌∷◌, false, none, if◌then◌else◌, [], some, err, ok, List, ◌++◌, Option, ◌≡◌,
  Result, ℤ,
}
use chat_service.RoomId.{dm_room_id}
use chat_service.Store.Engine.{Done, done}
use chat_service.Text.{is_empty, same, Bytes, lit}

pub data RoomKind : Type 0 where
  kind_dm kind_group : RoomKind

-- RoomMeta
pub record RoomMeta : Type 0 where
  pub room_id : Bytes
  pub name : Bytes
  pub kind : RoomKind
  pub created_by : Bytes
  pub created_at : ℤ
  pub member_ids : List Bytes

-- The two calls of the Redis client, and encoding/json for a room.
pub record Redis : Type 1 where
  pub Db : Type 0
  -- the bytes of an encoded room
  pub Data : Type 0
  -- `none` is redis.Nil
  pub get : Bytes → Db → Result Bytes (Option Data)
  pub set : Bytes → Data → Db → Result Bytes Done × Db
  pub marshal : RoomMeta → Result Bytes Data
  pub unmarshal : Data → Result Bytes RoomMeta

module _ (r : Redis) where
  -- What Redis and the encoding promise: a value that was set is got, and no other key changes; a
  -- room that was encoded is decoded.
  pub record IsRedis : Type 0 where
    pub set_get :
        (k : Bytes) (v : r.Data) (d d' : r.Db)
        → r.set k v d ≡ (ok done, d')
        → r.get k d' ≡ ok (some v)
    pub set_other :
        (k j : Bytes) (v : r.Data) (d d' : r.Db)
        → r.set k v d ≡ (ok done, d')
        → same k j ≡ false
        → r.get j d' ≡ r.get j d
    pub decoded : (m : RoomMeta) (v : r.Data) → r.marshal m ≡ ok v → r.unmarshal v ≡ ok m

  -- `rdb` may be nil; `mem` is used only then.
  pub record RoomStore : Type 0 where
    pub rdb : Option r.Db
    pub mem : List (Bytes × RoomMeta)

  -- key
  abbrev pub key : Bytes → Bytes
  key room = lit "chat:room:" ++ room

  abbrev pub some_room : Result Bytes RoomMeta → Result Bytes (Option RoomMeta)
  some_room (err e) = err e
  some_room (ok m) = ok (some m)

  abbrev pub decode : Result Bytes (Option r.Data) → Result Bytes (Option RoomMeta)
  decode (err e) = err e
  decode (ok none) = ok none
  decode (ok (some bytes)) = some_room (r.unmarshal bytes)

  abbrev pub get_from :
      Option r.Db → Bytes → List (Bytes × RoomMeta) → Result Bytes (Option RoomMeta)
  get_from (some d) room mem = decode (r.get (key room) d)
  get_from none room mem = ok (lookup room mem)

  -- Get
  unfoldable pub get : Bytes → RoomStore → Result Bytes (Option RoomMeta)
  get room s = get_from s.rdb room s.mem

  abbrev pub save_to : Option r.Db → RoomMeta → r.Data → RoomStore → Result Bytes Done × RoomStore
  save_to (some d) m bytes s =
      let (e, d') = r.set (key m.room_id) bytes d in (e, record s { rdb = some d' })
  save_to none m bytes s = (ok done, record s { mem = insert m.room_id m s.mem })

  abbrev pub save_marshalled :
      Result Bytes r.Data → RoomMeta → RoomStore → Result Bytes Done × RoomStore
  save_marshalled (err e) m s = (err e, s)
  save_marshalled (ok bytes) m s = save_to s.rdb m bytes s

  -- save
  unfoldable pub save : RoomMeta → RoomStore → Result Bytes Done × RoomStore
  save m s = save_marshalled (r.marshal m) m s

  -- `return meta, s.save(ctx, meta)`: the callers look at the room only where there is no error.
  abbrev pub saved : RoomMeta → Result Bytes Done × RoomStore → Result Bytes RoomMeta × RoomStore
  saved m (err e, s) = (err e, s)
  saved m (ok d, s) = (ok m, s)

  -- The room that CreateDM makes.
  unfoldable pub new_dm : Bytes → Bytes → Bytes → ℤ → RoomMeta
  new_dm user_a user_b created_by now = record {
    room_id = dm_room_id user_a user_b;
    name = [];
    kind = kind_dm;
    created_by = created_by;
    created_at = now;
    member_ids = sort_strings (user_a ∷ user_b ∷ []);
  }

  -- `if existing, _ := s.Get(ctx, roomID); existing != nil`: an error counts as no room.
  abbrev pub or_save :
      Result Bytes (Option RoomMeta) → RoomMeta → RoomStore → Result Bytes RoomMeta × RoomStore
  or_save (ok (some existing)) m s = (ok existing, s)
  or_save (ok none) m s = saved m (save m s)
  or_save (err e) m s = saved m (save m s)

  -- CreateDM
  unfoldable pub create_dm :
      Bytes → Bytes → Bytes → ℤ → RoomStore → Result Bytes RoomMeta × RoomStore
  unfolding get save new_dm dm_room_id
  create_dm user_a user_b created_by now s =
      let m = new_dm user_a user_b created_by now in
      if is_empty user_a || is_empty user_b
      then (err (lit "both member IDs are required for a DM"), s)
      else or_save (get m.room_id s) m s

  -- CreateGroup
  unfoldable pub create_group :
      Bytes → Bytes → Bytes → List Bytes → ℤ → RoomStore → Result Bytes RoomMeta × RoomStore
  unfolding save
  create_group uuid name created_by member_ids now s =
      let m : RoomMeta = record {
        room_id = lit "group:" ++ uuid;
        name = name;
        kind = kind_group;
        created_by = created_by;
        created_at = now;
        member_ids = member_ids;
      } in
      if is_empty name
      then (err (lit "group name is required"), s)
      else if ltb (length member_ids) 2
      then (err (lit "a group requires at least 2 members"), s)
      else saved m (save m s)
