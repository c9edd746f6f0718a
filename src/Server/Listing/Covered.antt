-- ===== src/Server/Listing/Covered.antt =====
-- No room that a repository has found is missing from the merged list.
use chat_service.RoomId.{normalize_room_id}
use chat_service.Text.Assoc.{lookup-insert, lookup}
use chat_service.Server.Listing.Merge.{
  nothing_listed-IsListing, add_rooms-IsListing, IsListing, merge_room-newest, canonical, Covers,
  ListedAs,
}
use chat_service.Server.Listing.{
  of_summary, found, of_row, nothing_listed, in_order, UserRoomSummary, RoomRow, get_user_rooms,
  add_rooms, add_room, merge_room, UserRoom, Listed, put_listed,
}
use chat_service.Prelude.{
  map, ok, ap, [], ◌⊎◌, ◌∙◌, not, ◌∷◌, Result, All, true, sym, ◌&&◌, List, Bool, refl, none, inr,
  inl, some, Bool-cases, negsuc, arith, pos, Option, false, ◌≡◌, ltb_ℤ, ℤ,
}
use chat_service.Text.{is_empty, same_iff, same_refl, same, Bytes}

ltb_ℤ-refl : (a : ℤ) → ltb_ℤ a a ≡ false
ltb_ℤ-refl (pos n) = ground arith
ltb_ℤ-refl (negsuc n) = ground arith

not_later : (a b c : ℤ) → ltb_ℤ a b ≡ false → ltb_ℤ b c ≡ false → ltb_ℤ a c ≡ false
not_later a b c h k = ground arith

stays_unread : (x a b : Bool) → (a && not b) ≡ false → (x && not a) ≡ false → (x && not b) ≡ false
stays_unread x a b h k = ground arith

Covers-put :
    (l : Listed) (raw : UserRoom) (o : Option UserRoom)
    → Covers (put_listed o (canonical raw) l) raw
unfolding put_listed
Covers-put l raw none = (
  canonical raw,
  rw (lookup-insert, same_refl) refl,
  ltb_ℤ-refl raw.last_message_at,
  ground arith,
)
Covers-put l raw (some a) =
    let newest = merge_room-newest a (canonical raw) in
    (merge_room a (canonical raw), rw (lookup-insert, same_refl) refl, newest.0, newest.2)

-- A room that is listed stays so when another one is put in, under whatever id.
kept_put :
    (l : Listed) (raw r : UserRoom) (o : Option UserRoom)
    → lookup r.room_id l.by_id ≡ o
    → Covers l raw
    → Covers (put_listed o r l) raw
unfolding put_listed
kept_put l raw r none e (q, f, at, unread) =
    elim (Bool-cases (same r.room_id (normalize_room_id raw.room_id))) [
      | inl g ↦ absurd (
          let key = (same_iff r.room_id (normalize_room_id raw.room_id)).0 g in
          let clash : some q ≡ none = sym f ∙ ap (λ id. lookup id l.by_id) (sym key) ∙ e in cc)
      | inr g ↦ (q, (rw (lookup-insert, g) f), at, unread)
    ]
kept_put l raw r (some a) e (q, f, at, unread) =
    elim (Bool-cases (same r.room_id (normalize_room_id raw.room_id))) [
      | inl g ↦
          let key = (same_iff r.room_id (normalize_room_id raw.room_id)).0 g in
          let entry : some q ≡ some a = sym f ∙ ap (λ id. lookup id l.by_id) (sym key) ∙ e in
          let same_room : q ≡ a = cc in
          let newest = merge_room-newest a r in
          (
            merge_room a r,
            (rw (lookup-insert, g) refl),
            not_later (merge_room a r).last_message_at a.last_message_at raw.last_message_at
                newest.1
                (ap (λ x. ltb_ℤ x.last_message_at raw.last_message_at) (sym same_room) ∙ at),
            stays_unread raw.has_unread a.has_unread _ newest.3
                (ap (λ x. raw.has_unread && not x.has_unread) (sym same_room) ∙ unread),
          )
      | inr g ↦ (q, (rw (lookup-insert, g) f), at, unread)
    ]

add_room-Covers :
    (l : Listed) (raw : UserRoom) → is_empty raw.room_id ≡ false → Covers (add_room l raw) raw
unfolding add_room
add_room-Covers l raw ne = rw ne (Covers-put l raw _)

add_room_kept : (l : Listed) (raw r : UserRoom) → Covers l raw → Covers (add_room l r) raw
unfolding add_room
add_room_kept l raw r h = elim (Bool-cases (is_empty r.room_id)) [
  | inl e ↦ rw e h
  | inr e ↦ rw e (kept_put l raw (canonical r) _ refl h)
]

-- Found under an empty id, or listed.
abbrev pub Covered : Listed → UserRoom → Type 0
Covered l raw = (is_empty raw.room_id ≡ true) ⊎ Covers l raw

add_rooms_kept :
    (l : Listed) (raw : UserRoom) (rs : List UserRoom) → Covers l raw → Covers (add_rooms l rs) raw
unfolding add_rooms
add_rooms_kept l raw [] h = h
add_rooms_kept l raw (r ∷ rs) h = add_rooms_kept (add_room l r) raw rs (add_room_kept l raw r h)

pub add_rooms-Covers : (l : Listed) (rs : List UserRoom) → All (Covered (add_rooms l rs)) rs
unfolding add_rooms
add_rooms-Covers l [] = tt
add_rooms-Covers l (r ∷ rs) =
    (first (Bool-cases (is_empty r.room_id)), add_rooms-Covers (add_room l r) rs)
  where
    first :
        (is_empty r.room_id ≡ true) ⊎ (is_empty r.room_id ≡ false)
        → Covered (add_rooms (add_room l r) rs) r
    first (inl e) = inl e
    first (inr e) = inr (add_rooms_kept (add_room l r) r rs (add_room-Covers l r e))

Covered-kept :
    (l : Listed) (rs qs : List UserRoom) → All (Covered l) rs → All (Covered (add_rooms l qs)) rs
Covered-kept l [] qs h = tt
Covered-kept l (r ∷ rs) qs (inl e, h) = (inl e, Covered-kept l rs qs h)
Covered-kept l (r ∷ rs) qs (inr c, h) = (inr (add_rooms_kept l r qs c), Covered-kept l rs qs h)

All-of_map :
    {A : Type 0} (P : UserRoom → Type 0) (f : A → UserRoom) (xs : List A)
    → All P (map f xs)
    → All (λ x. P (f x)) xs
All-of_map P f [] h = tt
All-of_map P f (x ∷ xs) h = (h.0, All-of_map P f xs h.1)

-- A row of PostgreSQL is listed under its canonical id, unless it has no id.
abbrev pub RowListed : Listed → RoomRow → Type 0
RowListed l r =
    (is_empty r.room_id ≡ true)
    ⊎ ListedAs l (normalize_room_id r.room_id) r.last_message_at r.has_unread

-- A room of MongoDB is listed under what normalising its id twice gives, unless normalising it once
-- leaves nothing.
abbrev pub SummaryListed : Listed → UserRoomSummary → Type 0
SummaryListed l r =
    (is_empty (normalize_room_id r.room_id) ≡ true)
    ⊎ ListedAs l (normalize_room_id (normalize_room_id r.room_id)) r.last_message_at false

-- For a user, whatever the two repositories answer, the response lists the rooms of a map in which no
-- id stands twice and each listed id has its room. Each room that PostgreSQL has found under an id
-- that is not empty is listed under its canonical id, with a last message at least as new as the one
-- found, and unread if it was found unread. Each room that MongoDB has found is listed under the
-- canonical id of its canonical id, with a last message at least as new, unless its canonical id is
-- empty.
pub get_user_rooms_merged :
    (user : Bytes) (rows : Option (Result Bytes (List RoomRow)))
    (summaries : Option (Result Bytes (List UserRoomSummary)))
    → is_empty user ≡ false
    → (l : Listed) × (get_user_rooms user rows summaries ≡ ok (in_order l))
      × IsListing l
      × All (RowListed l) (found rows)
      × All (SummaryListed l) (found summaries)
unfolding get_user_rooms of_row of_summary
get_user_rooms_merged user rows summaries ne =
    let first = add_rooms nothing_listed (map of_row (found rows)) in
    let all = add_rooms first (map of_summary (found summaries)) in
    (
      all,
      rw ne refl,
      add_rooms-IsListing first (map of_summary (found summaries))
          (add_rooms-IsListing nothing_listed (map of_row (found rows)) nothing_listed-IsListing),
      All-of_map (Covered all) of_row (found rows) (
          Covered-kept first (map of_row (found rows)) (map of_summary (found summaries))
            (add_rooms-Covers nothing_listed (map of_row (found rows)))),
      All-of_map (Covered all) of_summary (found summaries)
          (add_rooms-Covers first (map of_summary (found summaries))),
    )
