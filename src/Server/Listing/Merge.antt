-- ===== src/Server/Listing/Merge.antt =====
-- What the merged list of rooms holds.
use chat_service.Text.Assoc.{lookup-insert, insert, lookup-nil, lookup}
use chat_service.Prelude.{
  Bool, ℤ, sym, ap, ◌∙◌, [], ◌∷◌, Bool-cases, ◌++◌, Option, List, inl, refl, arith, none, not, ◌⊎◌,
  ◌&&◌, some, false, true, ltb_ℤ, inr, ◌≡◌,
}
use chat_service.RoomId.Aliases.{contains-append, Distinct-append, Distinct}
use chat_service.RoomId.{normalize_room_id, contains}
use chat_service.Server.Listing.{
  add_rooms, add_room, put_listed, UserRoom, nothing_listed, merge_room, Listed,
}
use chat_service.Text.{same_iff, is_empty, same, Bytes}

-- Whether an id is listed, and then with a room under that id.
abbrev pub Keyed : List Bytes → List (Bytes × UserRoom) → Bytes → Type 0
Keyed order by_id id =
    ((contains order id ≡ true) × ((r : UserRoom) × (lookup id by_id ≡ some r) × (r.room_id ≡ id)))
    ⊎ ((contains order id ≡ false) × (lookup id by_id ≡ none))

-- The list of ids has none twice, and the map has a room for exactly the listed ids, under its id.
pub record IsListing (l : Listed) : Type 0 where
  pub once : Distinct l.order
  pub keyed : (id : Bytes) → Keyed l.order l.by_id id

pub nothing_listed-IsListing : IsListing nothing_listed
unfolding contains
nothing_listed-IsListing = record {
  once = tt;
  keyed = λ id. inr (refl, lookup-nil {V = UserRoom} id);
}

-- A room stands in the list under an id, with a last message at least as new, and unread if it is to be.
abbrev pub ListedAs : Listed → Bytes → ℤ → Bool → Type 0
ListedAs l id at unread =
    (r : UserRoom) × (lookup id l.by_id ≡ some r)
    × (ltb_ℤ r.last_message_at at ≡ false)
    × ((unread && not r.has_unread) ≡ false)

abbrev pub Covers : Listed → UserRoom → Type 0
Covers l raw = ListedAs l (normalize_room_id raw.room_id) raw.last_message_at raw.has_unread

pub merge_room-newest :
    (a r : UserRoom)
    → (ltb_ℤ (merge_room a r).last_message_at r.last_message_at ≡ false)
      × (ltb_ℤ (merge_room a r).last_message_at a.last_message_at ≡ false)
      × ((r.has_unread && not (merge_room a r).has_unread) ≡ false)
      × ((a.has_unread && not (merge_room a r).has_unread) ≡ false)
      × ((merge_room a r).room_id ≡ a.room_id)
unfolding merge_room
merge_room-newest a r = ground arith

-- A room under its canonical id.
abbrev pub canonical : UserRoom → UserRoom
canonical raw = record raw { room_id = normalize_room_id raw.room_id }

module _ (order : List Bytes) (by_id : List (Bytes × UserRoom)) (key : Bytes) (r : UserRoom)
    (k : r.room_id ≡ key) where
  -- The room under one id is replaced, or a room is listed under a new id.
  Keyed-replaced :
      contains order key ≡ true
      → (id : Bytes) → Keyed order by_id id
      → Keyed order (insert key r by_id) id
  Keyed-replaced c id h = elim (Bool-cases (same key id)) [
    | inl e ↦
        rw (lookup-insert, e)
          (let e' = (same_iff key id).0 e in
            inl (ap (contains order) (sym e') ∙ c, (r, refl, k ∙ e')))
    | inr e ↦ rw (lookup-insert, e) h
  ]

  Keyed-listed :
      (id : Bytes) → Keyed order by_id id → Keyed (order ++ key ∷ []) (insert key r by_id) id
  unfolding contains
  Keyed-listed id h = elim (Bool-cases (same key id)) [
    | inl e ↦
        rw (contains-append, lookup-insert, e)
          (inl (ground arith, (r, refl, k ∙ (same_iff key id).0 e)))
    | inr e ↦
        rw (contains-append, lookup-insert, e)
          (elim h [
            | inl (c, (a, f, g)) ↦ inl (ground arith, (a, f, g))
            | inr (c, f) ↦ inr (ground arith, f)
          ])
  ]

put_listed-IsListing :
    (l : Listed) (raw : UserRoom) (o : Option UserRoom)
    → lookup raw.room_id l.by_id ≡ o
    → IsListing l
    → IsListing (put_listed o raw l)
unfolding put_listed
put_listed-IsListing l raw none e h = record {
  once = Distinct-append l.order raw.room_id h.once (unlisted (h.keyed raw.room_id));
  keyed = λ id. Keyed-listed l.order l.by_id raw.room_id raw refl id (h.keyed id);
}
  where
    unlisted : Keyed l.order l.by_id raw.room_id → contains l.order raw.room_id ≡ false
    unlisted (inl (c, (r, f, k))) = absurd (ground arith)
    unlisted (inr (c, f)) = c
put_listed-IsListing l raw (some a) e h = listed (h.keyed raw.room_id)
  where
    listed : Keyed l.order l.by_id raw.room_id → IsListing (put_listed (some a) raw l)
    listed (inl (c, (r, f, k))) = record {
      once = h.once;
      keyed = λ id.
          Keyed-replaced l.order l.by_id raw.room_id (merge_room a raw)
            (let same_room : some a ≡ some r = sym e ∙ f in (merge_room-newest a raw).4 ∙ cc) c id
            (h.keyed id);
    }
    listed (inr (c, f)) = absurd (ground arith)

-- Adding a room keeps the list well formed.
add_room-IsListing : (l : Listed) (raw : UserRoom) → IsListing l → IsListing (add_room l raw)
unfolding add_room
add_room-IsListing l raw h = elim (Bool-cases (is_empty raw.room_id)) [
  | inl e ↦ rw e h
  | inr e ↦ rw e (put_listed-IsListing l (canonical raw) _ refl h)
]

pub add_rooms-IsListing :
    (l : Listed) (rs : List UserRoom) → IsListing l → IsListing (add_rooms l rs)
unfolding add_rooms
add_rooms-IsListing l [] h = h
add_rooms-IsListing l (r ∷ rs) h = add_rooms-IsListing (add_room l r) rs (add_room-IsListing l r h)
