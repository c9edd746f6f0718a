-- ===== src/Rooms/Sorted.antt =====
-- The list of `GetUserRoomsDetailed` in app/repository/postgres.go: which rooms are in it, and in
-- which order.
use chat_service.Prelude.{
  some, none, ◌&&◌, refl, ◌∙◌, All-map, sym, inr, subst, ap, map, inl, [], ok, Bool-cases, true,
  All, false, ◌∷◌, ◌≡◌, arith, List, ltb_ℤ,
}
use chat_service.Rooms.{ChatRoom, Member, Tables, and_then, is_active}
use chat_service.Rooms.Detailed.{
  all_detailed, detailed, members_read, get_user_rooms_detailed, in_room, insert_recent,
  sort_recent,
}
use chat_service.Rooms.Statements.{IsSql, Sql, join_rows, where_rows}
use chat_service.Rooms.Shuffled.{
  swapped, All-Shuffled, same_head, twice, same_nil, Shuffled, Shuffled-map, Shuffled-refl,
}
use chat_service.Rooms.Stored.{and_then_ok, ok_same}
use chat_service.Server.Listing.{RoomRow}
use chat_service.Text.{same, Bytes}

-- No room is after one with an earlier last message.
abbrev pub NotAfter : RoomRow → RoomRow → Type 0
NotAfter r s = ltb_ℤ r.last_message_at s.last_message_at ≡ false

abbrev pub IsRecentFirst : List RoomRow → Type 0
IsRecentFirst [] = Unit
IsRecentFirst (r ∷ rs) = All (NotAfter r) rs × IsRecentFirst rs

NotAfter-trans : (r s u : RoomRow) → NotAfter r s → NotAfter s u → NotAfter r u
NotAfter-trans r s u h k = ground arith

NotAfter-swap : (r s : RoomRow) → ltb_ℤ r.last_message_at s.last_message_at ≡ true → NotAfter s r
NotAfter-swap r s h = ground arith

insert_recent-Shuffled : (r : RoomRow) (rs : List RoomRow) → Shuffled (insert_recent r rs) (r ∷ rs)
unfolding insert_recent
insert_recent-Shuffled r [] = Shuffled-refl (r ∷ [])
insert_recent-Shuffled r (s ∷ rs) = elim (Bool-cases (ltb_ℤ r.last_message_at s.last_message_at)) [
  | inl y ↦ rw y (twice (same_head s (insert_recent-Shuffled r rs)) (swapped r s rs))
  | inr n ↦ rw n (Shuffled-refl (r ∷ s ∷ rs))
]

sort_recent-Shuffled : (rs : List RoomRow) → Shuffled (sort_recent rs) rs
unfolding sort_recent
sort_recent-Shuffled [] = same_nil
sort_recent-Shuffled (r ∷ rs) =
    twice (insert_recent-Shuffled r (sort_recent rs)) (same_head r (sort_recent-Shuffled rs))

insert_recent-IsRecentFirst :
    (r : RoomRow) (rs : List RoomRow) → IsRecentFirst rs → IsRecentFirst (insert_recent r rs)
unfolding insert_recent
insert_recent-IsRecentFirst r [] h = (tt, tt)
insert_recent-IsRecentFirst r (s ∷ rs) h =
    elim (Bool-cases (ltb_ℤ r.last_message_at s.last_message_at)) [
      | inl y ↦ rw y (
        All-Shuffled (NotAfter s) (insert_recent-Shuffled r rs) (NotAfter-swap r s y, h.0),
        insert_recent-IsRecentFirst r rs h.1,
      )
      | inr n ↦
          rw n ((n, All-map (NotAfter s) (NotAfter r) (λ u k. NotAfter-trans r s u n k) rs h.0), h)
    ]

sort_recent-IsRecentFirst : (rs : List RoomRow) → IsRecentFirst (sort_recent rs)
unfolding sort_recent
sort_recent-IsRecentFirst [] = tt
sort_recent-IsRecentFirst (r ∷ rs) =
    insert_recent-IsRecentFirst r (sort_recent rs) (sort_recent-IsRecentFirst rs)

map-fst :
    (bs : List (ChatRoom × Member)) → map (λ r. r.id) (map (λ b. b.0) bs) ≡ map (λ b. b.0.id) bs
map-fst [] = refl
map-fst (b ∷ bs) = ap (◌∷◌ b.0.id) (map-fst bs)

-- The ids of the rooms of a user, once for each row that says that the user is an active member.
abbrev pub rooms_of : Bytes → List ChatRoom → List Member → List Bytes
rooms_of user rooms members =
    map (λ b. b.0.id)
      (join_rows (λ r m. same m.room_id r.id) rooms
        (where_rows (λ m. same m.user_id user && (elim m.left_at [ none ↦ true | some at ↦ false ]))
          members))

module _ (q : Sql) (laws : IsSql q) where
  ids-all_detailed :
      (user : Bytes) (t : Tables q) (rs : List ChatRoom) (rows : List RoomRow)
      → all_detailed q user t rs ≡ ok rows
      → map (λ r. r.room_id) rows ≡ map (λ r. r.id) rs
  unfolding all_detailed detailed
  ids-all_detailed user t [] rows h = ap (map (λ r. r.room_id)) (sym (ok_same h))
  ids-all_detailed user t (r ∷ rs) rows h =
      let (members, got, rest) =
        and_then_ok (members_read q r.id t)
          (λ members.
            and_then (all_detailed q user t rs) λ rows. ok (detailed q user t r members ∷ rows))
          rows h in
      let (more, got', e) =
        and_then_ok (all_detailed q user t rs) (λ rows. ok (detailed q user t r members ∷ rows))
          rows rest in
      ap (map (λ r. r.room_id)) (sym (ok_same e))
      ∙ ap (◌∷◌ r.id) (ids-all_detailed user t rs more got')

  -- The rooms that GetUserRoomsDetailed lists are those in which the user is an active member, once for
  -- each such row of the tables, and a room with a later last message is before one with an earlier.
  pub get_user_rooms_detailed-IsRecentFirst :
      (user : Bytes) (t : Tables q) (rows : List RoomRow)
      → get_user_rooms_detailed q user t ≡ ok rows
      → IsRecentFirst rows
        × Shuffled
            (map (λ r. r.room_id) rows)
            (rooms_of user (q.rows t.chat_rooms) (q.rows t.chat_room_members))
  unfolding get_user_rooms_detailed
  get_user_rooms_detailed-IsRecentFirst user t rows h =
      let (bases, sel, rest) =
        and_then_ok (q.select_join (in_room q) (is_active user) t.chat_rooms t.chat_room_members)
          (λ bases.
            and_then (all_detailed q user t (map (λ b. b.0) bases)) λ rows. ok (sort_recent rows))
          rows h in
      let (made, got, e) =
        and_then_ok (all_detailed q user t (map (λ b. b.0) bases)) (λ rows. ok (sort_recent rows))
          rows rest in
      let sorted : sort_recent made ≡ rows = ok_same e in
      (
        subst IsRecentFirst sorted (sort_recent-IsRecentFirst made),
        subst
            (λ v.
              Shuffled (map (λ r. r.room_id) v)
                (rooms_of user (q.rows t.chat_rooms) (q.rows t.chat_room_members)))
            sorted
            (twice (Shuffled-map (λ r. r.room_id) (sort_recent-Shuffled made)) (
              subst
                (λ v. Shuffled v (rooms_of user (q.rows t.chat_rooms) (q.rows t.chat_room_members)))
                (sym (ids-all_detailed user t (map (λ b. b.0) bases) made got ∙ map-fst bases))
                (Shuffled-map (λ b. b.0.id) (laws.joined _ _ _ _ bases sel)))),
      )
