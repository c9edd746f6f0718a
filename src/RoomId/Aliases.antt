-- ===== src/RoomId/Aliases.antt =====
-- `roomIDAliases`: under which ids the history of a room is looked for.
use chat_service.Text.Split.{split}
use chat_service.Text.Trim.{trim_space}
use chat_service.RoomId.{
  add_aliases, legacy_pair, colon, alias_parts, pair_aliases, canonical_dm, add_alias,
  aliases_of_trimmed, room_id_aliases, contains,
}
use chat_service.Prelude.{
  none, some, inr, All-append, some, All, true, inl, refl, Bool-cases, [], arith, ◌∷◌, false, ◌||◌,
  ◌≡◌, ◌++◌, Option, List,
}
use chat_service.Text.{same_refl, is_empty, lit, has_prefix, same_comm, Bytes}

abbrev pub Distinct : List Bytes → Type 0
Distinct [] = Unit
Distinct (x ∷ xs) = (contains xs x ≡ false) × Distinct xs

pub contains-append :
    (xs ys : List Bytes) (id : Bytes) → contains (xs ++ ys) id ≡ (contains xs id || contains ys id)
unfolding contains
contains-append [] ys id = refl
contains-append (x ∷ xs) ys id = ground (arith, contains-append xs ys id)

pub Distinct-append :
    (xs : List Bytes) (id : Bytes) → Distinct xs → contains xs id ≡ false → Distinct (xs ++ id ∷ [])
unfolding contains
Distinct-append [] id h n = (refl, tt)
Distinct-append (x ∷ xs) id h n =
    ground (arith, contains-append xs (id ∷ []) x, same_comm x id, Distinct-append xs id h.1)

-- What the closure `add` does to the list.
add_alias-Distinct : (out : List Bytes) (raw : Bytes) → Distinct out → Distinct (add_alias out raw)
unfolding add_alias
add_alias-Distinct out raw h = ground (arith, Distinct-append out (trim_space raw) h)

add_alias-contains_old :
    (out : List Bytes) (raw id : Bytes)
    → contains out id ≡ true
    → contains (add_alias out raw) id ≡ true
unfolding add_alias
add_alias-contains_old out raw id h = ground (arith, contains-append out (trim_space raw ∷ []) id)

add_alias-contains_new :
    (out : List Bytes) (raw : Bytes)
    → is_empty raw ≡ false
    → trim_space raw ≡ raw
    → contains (add_alias out raw) raw ≡ true
unfolding add_alias contains
add_alias-contains_new out raw ne e =
    rw (e, add_alias) (ground (arith, ne, contains-append out (raw ∷ []) raw, same_refl raw))

module _ {κ} (P : Bytes → Type κ) where
  add_alias-All :
      (out : List Bytes) (raw : Bytes) → All P out → P (trim_space raw) → All P (add_alias out raw)
  unfolding add_alias
  add_alias-All out raw h p = ground (arith, All-append P out (trim_space raw ∷ []) h (p, tt))

add_aliases-Distinct : (out raws : List Bytes) → Distinct out → Distinct (add_aliases out raws)
unfolding add_aliases
add_aliases-Distinct out [] h = h
add_aliases-Distinct out (raw ∷ raws) h =
    add_aliases-Distinct (add_alias out raw) raws (add_alias-Distinct out raw h)

add_aliases-contains_old :
    (out raws : List Bytes) (id : Bytes)
    → contains out id ≡ true
    → contains (add_aliases out raws) id ≡ true
unfolding add_aliases
add_aliases-contains_old out [] id h = h
add_aliases-contains_old out (raw ∷ raws) id h =
    add_aliases-contains_old (add_alias out raw) raws id (add_alias-contains_old out raw id h)

-- A non-empty text with nothing to trim that is added is then in the list.
abbrev pub IsClean : Bytes → Type 0
IsClean id = (is_empty id ≡ false) × (trim_space id ≡ id)

pub add_aliases-contains_new :
    (out raws : List Bytes)
    → All IsClean raws
    → All (λ id. contains (add_aliases out raws) id ≡ true) raws
unfolding add_aliases
add_aliases-contains_new out [] h = tt
add_aliases-contains_new out (raw ∷ raws) h = (
  add_aliases-contains_old (add_alias out raw) raws raw
      (add_alias-contains_new out raw h.0.0 h.0.1),
  add_aliases-contains_new (add_alias out raw) raws h.1,
)

module _ {κ} (P : Bytes → Type κ) where
  pub add_aliases-All :
      (out raws : List Bytes)
      → All P out
      → All (λ raw. P (trim_space raw)) raws
      → All P (add_aliases out raws)
  unfolding add_aliases
  add_aliases-All out [] h p = h
  add_aliases-All out (raw ∷ raws) h p =
      add_aliases-All (add_alias out raw) raws (add_alias-All P out raw h p.0) p.1

canonical_dm-Distinct :
    (a b : Bytes) (out : List Bytes) → Distinct out → Distinct (canonical_dm a b out)
unfolding canonical_dm
canonical_dm-Distinct a b out h = elim (Bool-cases (is_empty a || is_empty b)) [
  | inl e ↦ rw e h
  | inr e ↦ rw e (add_aliases-Distinct out _ h)
]

pair_aliases-Distinct :
    (pair : Option (Bytes × Bytes)) (out : List Bytes)
    → Distinct out
    → Distinct (pair_aliases pair out)
pair_aliases-Distinct none out h = h
pair_aliases-Distinct (some (a, b)) out h = canonical_dm-Distinct a b out h

-- The list of aliases has no id twice, whatever the room id is.
pub room_id_aliases-Distinct : (room_id : Bytes) → Distinct (room_id_aliases room_id)
unfolding room_id_aliases contains
room_id_aliases-Distinct room_id = go (trim_space room_id)
  where
    go : (id : Bytes) → Distinct (aliases_of_trimmed id)
    go [] = tt
    go (c ∷ s) = elim (Bool-cases (has_prefix (c ∷ s) (lit "dm:"))) [
      | inl e ↦ rw e (pair_aliases-Distinct (alias_parts (split colon (c ∷ s))) _ (refl, tt))
      | inr e ↦ rw e (pair_aliases-Distinct (legacy_pair (c ∷ s)) _ (refl, tt))
    ]
