-- ===== src/Rooms/Direct.antt =====
-- `GetOrCreateDM` and `CreateGroup` of app/repository/postgres.go. The clock is an argument.
use chat_service.Text.Order.{sort_strings}
use chat_service.Prelude.{◌∷◌, some, err, none, [], Option, ok, pos, Result, List, ℤ}
use chat_service.Rooms.{RoomMeta, Tables, get_room, upsert_room, and_then}
use chat_service.Rooms.Statements.{Sql}
use chat_service.RoomId.{dm_room_id}
use chat_service.Text.{Bytes}

-- The room that GetOrCreateDM stores where there is none.
unfoldable pub direct_room : Bytes → Bytes → Bytes → ℤ → RoomMeta
direct_room user_a user_b created_by now = record {
  room_id = dm_room_id user_a user_b;
  room_type = pos 0;
  name = [];
  created_by = created_by;
  property_id = none;
  member_ids = sort_strings (user_a ∷ user_b ∷ []);
  created_at = now;
}

-- The room that CreateGroup stores.
unfoldable pub group_room : Bytes → Bytes → Bytes → List Bytes → ℤ → RoomMeta
group_room room name created_by members now = record {
  room_id = room;
  room_type = pos 1;
  name = name;
  created_by = created_by;
  property_id = none;
  member_ids = members;
  created_at = now;
}

module _ (q : Sql) where
  -- `return m, r.UpsertRoom(ctx, m)`: the callers look at `m` only where there is no error.
  unfoldable pub stored : RoomMeta → Tables q → Result Bytes RoomMeta × Tables q
  unfolding upsert_room
  stored m t = let (r, t') = upsert_room q m t in (and_then r λ d. ok m, t')

  abbrev pub or_create :
      Result Bytes (Option RoomMeta) → RoomMeta → Tables q → Result Bytes RoomMeta × Tables q
  or_create (err e) m t = (err e, t)
  or_create (ok (some existing)) m t = (ok existing, t)
  or_create (ok none) m t = stored m t

  -- GetOrCreateDM
  unfoldable pub get_or_create_dm :
      Bytes → Bytes → Bytes → ℤ → Tables q → Result Bytes RoomMeta × Tables q
  unfolding direct_room get_room stored dm_room_id
  get_or_create_dm user_a user_b created_by now t =
      let m = direct_room user_a user_b created_by now in or_create (get_room q m.room_id t) m t

  -- CreateGroup
  unfoldable pub create_group :
      Bytes → Bytes → Bytes → List Bytes → ℤ → Tables q → Result Bytes RoomMeta × Tables q
  unfolding group_room stored
  create_group room name created_by members now t =
      stored (group_room room name created_by members now) t
