-- ===== src/Rooms/Users.antt =====
-- The members of a room after the insertions of `UpsertRoom` in app/repository/postgres.go.
use chat_service.Rooms.Shuffled.{Shuffled-map, Shuffled}
use chat_service.RoomId.{contains}
use chat_service.Prelude.{
  arith, ◌&&◌, subst, not, ◌∙◌, ap, sym, inr, refl, inl, [], false, Bool-cases, true, ◌∷◌, ok, All,
  map, ◌≡◌, none, List,
}
use chat_service.Rooms.{
  insert_room, RoomMeta, get_members, upsert_room, Member, Tables, insert_member, insert_members,
  is_active_in, is_member, is_null, refers,
}
use chat_service.Rooms.Statements.{IsSql, Sql, where_rows, insert_rows}
use chat_service.Rooms.Stored.{ok_same, insert_room_ok, and_then_ok, on_success_ok}
use chat_service.Store.Groups.{add_user, add_users}
use chat_service.Store.Engine.{done}
use chat_service.Text.{is_empty, same_refl, same, Bytes}

-- The users of a room, in the order of the rows.
abbrev pub users : Bytes → List Member → List Bytes
users room ms = map (λ m. m.user_id) (where_rows (is_active_in room) ms)

-- Nobody has left; no statement of the service sets left_at.
abbrev pub NobodyLeft : List Member → Type 0
NobodyLeft = All (λ m. is_null m.left_at ≡ true)

abbrev new_member : Bytes → Bytes → Member
new_member room user = record { room_id = room; user_id = user; left_at = none }

NobodyLeft-insert :
    (room user : Bytes) (ms : List Member)
    → NobodyLeft ms
    → NobodyLeft (insert_rows (is_member room user) (new_member room user) ms)
unfolding insert_rows
NobodyLeft-insert room user [] h = (refl, tt)
NobodyLeft-insert room user (m ∷ ms) h = elim (Bool-cases (is_member room user m)) [
  | inl y ↦ rw y h
  | inr n ↦ rw n (h.0, NobodyLeft-insert room user ms h.1)
]

add_user-head : (u v : Bytes) (us : List Bytes) → same v u ≡ true → add_user (v ∷ us) u ≡ v ∷ us
unfolding add_user contains
add_user-head u v us h = rw h refl

add_user-tail :
    (u v : Bytes) (us : List Bytes) → same v u ≡ false → add_user (v ∷ us) u ≡ v ∷ add_user us u
unfolding add_user contains
add_user-tail u v us h = elim (Bool-cases (contains us u)) [
  | inl y ↦ rw (h, y) refl
  | inr n ↦ rw (h, n) refl
]

users-insert :
    (room user : Bytes) (ms : List Member)
    → NobodyLeft ms
    → users room (insert_rows (is_member room user) (new_member room user) ms)
      ≡ add_user (users room ms) user
unfolding insert_rows where_rows
users-insert room user [] h = unfold add_user contains in rw (same_refl room) refl
users-insert room user (m ∷ ms) h = elim (Bool-cases (same m.room_id room)) [
  | inr n ↦ rw n (rw n (users-insert room user ms h.1))
  | inl y ↦ elim (Bool-cases (same m.user_id user)) [
    | inl u ↦ rw (y, u, h.0) (rw y (sym (add_user-head user m.user_id (users room ms) u)))
    | inr u ↦
        rw (y, u, h.0)
          (rw y (
            ap (◌∷◌ m.user_id) (users-insert room user ms h.1)
            ∙ sym (add_user-tail user m.user_id (users room ms) u)))
  ]
]

module _ (q : Sql) (laws : IsSql q) where
  insert_member_ok :
      (room user : Bytes) (t t' : Tables q)
      → insert_member q room user t ≡ (ok done, t')
      → (is_empty user ≡ false)
        × (q.rows t'.chat_room_members
            ≡ insert_rows (is_member room user) (new_member room user) (q.rows t.chat_room_members))
  unfolding insert_member
  insert_member_ok room user t t' h =
      let table =
        q.insert_new (is_member room user)
          (not (is_empty user) && refers room (q.rows t.chat_rooms)) (new_member room user)
          t.chat_room_members in
      let answer : table.0 ≡ ok done = ap (λ x. x.0) h in
      let after : table.1 ≡ t'.chat_room_members = ap (λ x. x.1.chat_room_members) h in
      let (allowed, rows) =
        laws.inserted _ _ (new_member room user) t.chat_room_members t'.chat_room_members
          (λ i. (answer i, after i)) in
      (ground (arith, allowed), rows)

  -- The members after a run of insertions that succeeded: those from before, and then the new ones,
  -- each once.
  pub users-insert_members :
      (room : Bytes) (us : List Bytes) (t t' : Tables q)
      → NobodyLeft (q.rows t.chat_room_members)
      → insert_members q room us t ≡ (ok done, t')
      → users room (q.rows t'.chat_room_members)
        ≡ add_users (users room (q.rows t.chat_room_members)) us
  unfolding insert_members add_users
  users-insert_members room [] t t' left h =
      ap (λ x. users room (q.rows x.1.chat_room_members)) (sym h)
  users-insert_members room (u ∷ us) t t' left h =
      let first = insert_member q room u t in
      let (one, more) = on_success_ok q laws first (insert_members q room us) t' h in
      let (e, rows) = insert_member_ok room u t first.1 (λ i. (one i, first.1)) in
      let left' : NobodyLeft (q.rows first.1.chat_room_members) =
        subst NobodyLeft (sym rows) (NobodyLeft-insert room u (q.rows t.chat_room_members) left) in
      let added : users room (q.rows first.1.chat_room_members)
          ≡ add_user (users room (q.rows t.chat_room_members)) u =
        ap (users room) rows ∙ users-insert room u (q.rows t.chat_room_members) left in
      users-insert_members room us first.1 t' left' more
      ∙ ap (λ v. add_users v us) added
      ∙ rw e refl

  pub users-upsert_room :
      (m : RoomMeta) (t t' : Tables q)
      → NobodyLeft (q.rows t.chat_room_members)
      → upsert_room q m t ≡ (ok done, t')
      → users m.room_id (q.rows t'.chat_room_members)
        ≡ add_users (users m.room_id (q.rows t.chat_room_members)) m.member_ids
  unfolding upsert_room
  users-upsert_room m t t' left h =
      let first = insert_room q m t in
      let (one, more) = on_success_ok q laws first (insert_members q m.room_id m.member_ids) t' h in
      let (created, rows, members) = insert_room_ok q laws m t first.1 (λ i. (one i, first.1)) in
      users-insert_members m.room_id m.member_ids first.1 t'
        (subst (λ c. NobodyLeft (q.rows c)) (sym members) left) more
      ∙ ap (λ c. add_users (users m.room_id (q.rows c)) m.member_ids) members

  pub get_members-Shuffled :
      (room : Bytes) (t : Tables q) (us : List Bytes)
      → get_members q room t ≡ ok us
      → Shuffled us (users room (q.rows t.chat_room_members))
  unfolding get_members
  get_members-Shuffled room t us h =
      let (ms, sel, e) =
        and_then_ok (q.select (is_active_in room) t.chat_room_members)
          (λ ms. ok (map (λ m. m.user_id) ms)) us h in
      subst (λ v. Shuffled v (users room (q.rows t.chat_room_members))) (ok_same e)
        (Shuffled-map (λ m. m.user_id)
          (laws.selected (is_active_in room) t.chat_room_members ms sel))
