-- ===== src/Rooms/Found.antt =====
-- `GetRoom` of app/repository/postgres.go after `UpsertRoom`, and `GetOrCreateDM` twice.
use chat_service.Rooms.Rows.{where_rows-All}
use chat_service.RoomId.Canonical.{dm_room_id_comm}
use chat_service.Prelude.{
  map, ◌≢◌, inl, inr, err, ◌⊎◌, Option, ℤ, Result, subst, none, sym, ap, ◌∙◌, ◌∷◌, some, ok, [],
  refl, List, ◌≡◌,
}
use chat_service.Rooms.{
  ChatRoom, Member, and_then, first_room, is_active_in, with_members, RoomMeta, Tables, get_members,
  get_room, has_id, room_meta, room_row, upsert_room,
}
use chat_service.Rooms.Statements.{IsSql, Sql, where_rows}
use chat_service.Rooms.Direct.{direct_room, get_or_create_dm, or_create, stored}
use chat_service.Rooms.Shuffled.{All-Shuffled, Shuffled, one_of}
use chat_service.Rooms.Stored.{
  some_same, done_only, and_then_ok, no_row_found, get_room_row, null_string-or_empty, ok_same,
  upsert_room_rows,
}
use chat_service.Rooms.Users.{get_members-Shuffled, users-upsert_room, NobodyLeft, users}
use chat_service.Store.Groups.{add_users}
use chat_service.Store.Engine.{done}
use chat_service.RoomId.{dm_room_id}
use chat_service.Text.{same_iff, Bytes}

-- What GetRoom finds of the room that UpsertRoom was given.
pub record Agrees (m m' : RoomMeta) : Type 0 where
  pub same_id : m'.room_id ≡ m.room_id
  pub same_type : m'.room_type ≡ m.room_type
  pub same_name : m'.name ≡ m.name
  pub same_creator : m'.created_by ≡ m.created_by
  pub same_time : m'.created_at ≡ m.created_at

row-Agrees : (m : RoomMeta) (members : List Bytes) → Agrees m (room_meta (room_row m) members)
unfolding room_meta room_row
row-Agrees m members = record {
  same_id = refl;
  same_type = refl;
  same_name = null_string-or_empty m.name;
  same_creator = refl;
  same_time = refl;
}

module _ (q : Sql) (laws : IsSql q) where
  found_row :
      (m m' : RoomMeta) (t t' : Tables q)
      → where_rows (has_id m.room_id) (q.rows t.chat_rooms) ≡ []
      → upsert_room q m t ≡ (ok done, t')
      → get_room q m.room_id t' ≡ ok (some m')
      → (members : List Bytes) × (get_members q m.room_id t' ≡ ok members)
        × (m' ≡ room_meta (room_row m) members)
  unfolding room_row
  found_row m m' t t' fresh h found =
      let (r, rs, members, sel, got, e) = get_room_row q laws m.room_id t' m' found in
      let all : r ∷ rs ≡ room_row m ∷ [] =
        one_of (laws.selected (has_id m.room_id) t'.chat_rooms (r ∷ rs) sel)
          (upsert_room_rows q laws m t t' fresh h) in
      let row : r ≡ room_row m = cc in
      (
        members,
        sym (ap (λ x. get_members q x.id t') row) ∙ got,
        e ∙ ap (λ x. room_meta x members) row,
      )

  -- A room that UpsertRoom has stored under a new id is found by GetRoom whenever its two queries
  -- succeed: its id, type, name, creator and time are those that were given, and its members are those
  -- that the id had before, if any, and then the ones that were given, each once, in some order. It is
  -- assumed that nobody has left, since no statement of the service says so of anybody.
  pub upsert_room-get_room :
      (m : RoomMeta) (t t' : Tables q) (rooms : List ChatRoom) (members : List Member)
      → NobodyLeft (q.rows t.chat_room_members)
      → get_room q m.room_id t ≡ ok none
      → upsert_room q m t ≡ (ok done, t')
      → q.select (has_id m.room_id) t'.chat_rooms ≡ ok rooms
      → q.select (is_active_in m.room_id) t'.chat_room_members ≡ ok members
      → (m' : RoomMeta) × (get_room q m.room_id t' ≡ ok (some m'))
        × Agrees m m'
        × Shuffled m'.member_ids
            (add_users (users m.room_id (q.rows t.chat_room_members)) m.member_ids)
  unfolding room_meta get_room get_members with_members room_row
  upsert_room-get_room m t t' rooms members left unknown h room_found members_found =
      let fresh = no_row_found q laws m.room_id t unknown in
      let row : rooms ≡ room_row m ∷ [] =
        one_of (laws.selected (has_id m.room_id) t'.chat_rooms rooms room_found)
          (upsert_room_rows q laws m t t' fresh h) in
      let us = map (λ x. x.user_id) members in
      let got : get_members q m.room_id t' ≡ ok us =
        ap (λ x. and_then x λ ms. ok (map (λ y. y.user_id) ms)) members_found in
      (
        room_meta (room_row m) us,
        ap (λ x. and_then x λ rs. with_members q (first_room q rs) t') (room_found ∙ ap ok row)
            ∙ ap (λ x. and_then x λ ms. ok (some (room_meta (room_row m) ms))) got,
        row-Agrees m us,
        subst (Shuffled us) (users-upsert_room q laws m t t' left h)
            (get_members-Shuffled q laws m.room_id t' us got),
      )

  or_create_cases :
      (g : Result Bytes (Option RoomMeta)) (made m : RoomMeta) (t t' : Tables q)
      → or_create q g made t ≡ (ok m, t')
      → ((g ≡ ok (some m)) × (t' ≡ t)) ⊎ ((g ≡ ok none) × (stored q made t ≡ (ok m, t')))
  or_create_cases (err e) made m t t' h = absurd (cc (ap (λ r. r.0) h))
  or_create_cases (ok none) made m t t' h = inr (refl, h)
  or_create_cases (ok (some x)) made m t t' h =
      let same_room : x ≡ m = ok_same (ap (λ r. r.0) h) in
      inl (rw same_room refl, sym (ap (λ r. r.1) h))

  stored_ok :
      (made m : RoomMeta) (t t' : Tables q)
      → stored q made t ≡ (ok m, t')
      → (upsert_room q made t ≡ (ok done, t')) × (m ≡ made)
  unfolding stored
  stored_ok made m t t' h =
      let (d, sent, e) = and_then_ok (upsert_room q made t).0 (λ d. ok made) m (ap (λ r. r.0) h) in
      let saved : (upsert_room q made t).0 ≡ ok done = sent ∙ ap ok (done_only d) in
      ((λ i. (saved i, (h i).1)), sym (ok_same e))

  -- What the second call of GetOrCreateDM answers with, when the first has made the room or found it.
  found_again :
      (made m' : RoomMeta) (t t' : Tables q)
      → where_rows (has_id made.room_id) (q.rows t.chat_rooms) ≡ []
      → upsert_room q made t ≡ (ok done, t')
      → get_room q made.room_id t' ≡ ok (some m')
      → Agrees made m'
  found_again made m' t t' fresh h found =
      let (members, got, e) = found_row made m' t t' fresh h found in
      subst (Agrees made) (sym e) (row-Agrees made members)

  not_lost :
      (made : RoomMeta) (t t' : Tables q)
      → where_rows (has_id made.room_id) (q.rows t.chat_rooms) ≡ []
      → upsert_room q made t ≡ (ok done, t')
      → get_room q made.room_id t' ≢ ok none
  not_lost made t t' fresh h lost =
      cc
        (sym (upsert_room_rows q laws made t t' fresh h) ∙ no_row_found q laws made.room_id t' lost)

  get_room_id :
      (room : Bytes) (t : Tables q) (m : RoomMeta)
      → get_room q room t ≡ ok (some m)
      → m.room_id ≡ room
  unfolding room_meta
  get_room_id room t m h =
      let (r, rs, members, sel, got, e) = get_room_row q laws room t m h in
      let all =
        All-Shuffled _ (laws.selected (has_id room) t.chat_rooms (r ∷ rs) sel)
          (where_rows-All (has_id room) (q.rows t.chat_rooms)) in
      ap (λ x. x.room_id) e ∙ (same_iff r.id room).0 all.0

  -- How the first call has ended.
  abbrev First : Bytes → RoomMeta → RoomMeta → Tables q → Tables q → Type 0
  First room made m t t' =
      ((get_room q room t ≡ ok (some m)) × (t' ≡ t))
      ⊎ ((get_room q room t ≡ ok none) × (stored q made t ≡ (ok m, t')))

  same_again :
      (room : Bytes) (made m m' : RoomMeta) (t t' : Tables q)
      → made.room_id ≡ room
      → First room made m t t'
      → get_room q room t' ≡ ok (some m')
      → (m'.created_by ≡ m.created_by) × (m'.created_at ≡ m.created_at)
  same_again room made m m' t t' id (inl (first, kept)) found =
      let e : m' ≡ m = some_same (ok_same (sym found ∙ ap (get_room q room) kept ∙ first)) in
      (ap (λ x. x.created_by) e, ap (λ x. x.created_at) e)
  same_again room made m m' t t' id (inr (unknown, saved)) found =
      let (up, e) = stored_ok made m t t' saved in
      let fresh = no_row_found q laws made.room_id t (ap (λ r. get_room q r t) id ∙ unknown) in
      let agrees = found_again made m' t t' fresh up (ap (λ r. get_room q r t') id ∙ found) in
      (
        agrees.same_creator ∙ sym (ap (λ x. x.created_by) e),
        agrees.same_time ∙ sym (ap (λ x. x.created_at) e),
      )

  never_lost :
      (room : Bytes) (made m : RoomMeta) (t t' : Tables q)
      → made.room_id ≡ room
      → First room made m t t'
      → get_room q room t' ≢ ok none
  never_lost room made m t t' id (inl (first, kept)) lost =
      cc (sym first ∙ ap (get_room q room) (sym kept) ∙ lost)
  never_lost room made m t t' id (inr (unknown, saved)) lost =
      let (up, e) = stored_ok made m t t' saved in
      let fresh = no_row_found q laws made.room_id t (ap (λ r. get_room q r t) id ∙ unknown) in
      not_lost made t t' fresh up (ap (λ r. get_room q r t') id ∙ lost)

  same_pair :
      (a b c d : Bytes)
      → ((c ≡ a) × (d ≡ b)) ⊎ ((c ≡ b) × (d ≡ a))
      → dm_room_id c d ≡ dm_room_id a b
  same_pair a b c d (inl (e, f)) = cc (e, f)
  same_pair a b c d (inr (e, f)) = dm_room_id_comm c d ∙ cc (e, f)

  -- GetOrCreateDM asked twice for a pair, in either order and by whomever, answers with the room that
  -- the first call found or made: the second changes no table, and its room has the id of the pair and
  -- the creator and the time of the first. Where the two calls succeed.
  pub get_or_create_dm-again :
      (a b c d by by' : Bytes) (now now' : ℤ) (m m' : RoomMeta) (t t' t'' : Tables q)
      → ((c ≡ a) × (d ≡ b)) ⊎ ((c ≡ b) × (d ≡ a))
      → get_or_create_dm q a b by now t ≡ (ok m, t')
      → get_or_create_dm q c d by' now' t' ≡ (ok m', t'')
      → (t'' ≡ t')
        × (m'.room_id ≡ dm_room_id a b)
        × (m'.created_by ≡ m.created_by)
        × (m'.created_at ≡ m.created_at)
  unfolding get_or_create_dm direct_room
  get_or_create_dm-again a b c d by by' now now' m m' t t' t'' pair h k =
      let room = dm_room_id a b in
      let flipped : dm_room_id c d ≡ room = same_pair a b c d pair in
      let first = or_create_cases (get_room q room t) (direct_room a b by now) m t t' h in
      elim (or_create_cases (get_room q (dm_room_id c d) t') (direct_room c d by' now') m' t' t''
        k) [
          | inl (found, kept) ↦
              let (same_by, same_at) =
                same_again room (direct_room a b by now) m m' t t' refl first
                  (ap (λ r. get_room q r t') (sym flipped) ∙ found) in
              (kept, get_room_id (dm_room_id c d) t' m' found ∙ flipped, same_by, same_at)
          | inr (lost, saved) ↦ absurd (
              never_lost room (direct_room a b by now) m t t' refl first
                (ap (λ r. get_room q r t') (sym flipped) ∙ lost))
        ]

  -- The room that GetOrCreateDM answers with has the id of the pair.
  pub get_or_create_dm_id :
      (a b by : Bytes) (now : ℤ) (m : RoomMeta) (t t' : Tables q)
      → get_or_create_dm q a b by now t ≡ (ok m, t')
      → m.room_id ≡ dm_room_id a b
  unfolding get_or_create_dm direct_room
  get_or_create_dm_id a b by now m t t' h =
      let made = direct_room a b by now in
      elim (or_create_cases (get_room q (dm_room_id a b) t) made m t t' h) [
        | inl (found, kept) ↦ get_room_id (dm_room_id a b) t m found
        | inr (unknown, saved) ↦ ap (λ x. x.room_id) (stored_ok made m t t' saved).1
      ]
