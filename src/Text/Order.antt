-- ===== src/Text/Order.antt =====
-- Go's order on strings, byte by byte, and `sort.Strings`.
use chat_service.Prelude.{
  ap, ◌≡◌, refl, Bool, true, false, ◌&&◌, ◌||◌, List, [], ◌∷◌, arith, ltb, ◌==◌, if◌then◌else◌,
  Bool-cases, inl, inr, ◌⊎◌,
}
use mathlib.Core.List.{Perm}
use mathlib.Core.List.Perm
use chat_service.Text.{Bytes}

-- s < t
unfoldable pub before : Bytes → Bytes → Bool
before [] [] = false
before [] (b ∷ t) = true
before (a ∷ s) [] = false
before (a ∷ s) (b ∷ t) = ltb a b || ((a == b) && before s t)

pub before_irrefl : (s : Bytes) → before s s ≡ false
unfolding before
before_irrefl [] = refl
before_irrefl (a ∷ s) = ground (arith, before_irrefl s)

pub before_asymm : (s t : Bytes) → before s t ≡ true → before t s ≡ false
unfolding before
before_asymm [] [] h = refl
before_asymm [] (b ∷ t) h = refl
before_asymm (a ∷ s) [] h = cc
before_asymm (a ∷ s) (b ∷ t) h = ground (arith, before_asymm s t)

pub before_total : (s t : Bytes) → before s t ≡ false → before t s ≡ false → s ≡ t
unfolding before
before_total [] [] h k = refl
before_total [] (b ∷ t) h k = cc
before_total (a ∷ s) [] h k = cc
before_total (a ∷ s) (b ∷ t) h k = ground (arith, before_total s t)

pub before_trans : (s t u : Bytes) → before t s ≡ false → before u t ≡ false → before u s ≡ false
unfolding before
before_trans [] [] u h k = k
before_trans [] (b ∷ t) [] h k = refl
before_trans [] (b ∷ t) (c ∷ u) h k = refl
before_trans (a ∷ s) [] u h k = cc
before_trans (a ∷ s) (b ∷ t) [] h k = cc
before_trans (a ∷ s) (b ∷ t) (c ∷ u) h k = ground (arith, before_trans s t u)

insert_sorted : Bytes → List Bytes → List Bytes
insert_sorted s [] = s ∷ []
insert_sorted s (t ∷ ts) =
    let rest = t ∷ insert_sorted s ts in if before t s then rest else s ∷ t ∷ ts

-- sort.Strings(ss): the order is total, so that every sorting algorithm has this result.
unfoldable pub sort_strings : List Bytes → List Bytes
unfolding insert_sorted before
sort_strings [] = []
sort_strings (s ∷ ss) = insert_sorted s (sort_strings ss)

insert_sorted-perm : (s : Bytes) (ts : List Bytes) → Perm (insert_sorted s ts) (s ∷ ts)
unfolding insert_sorted
insert_sorted-perm s [] = Perm.refl (s ∷ [])
insert_sorted-perm s (t ∷ ts) = elim (Bool-cases (before t s)) [
  | inl h ↦ rw h (Perm.trans (Perm.cons t (insert_sorted-perm s ts)) (Perm.swap s t ts))
  | inr h ↦ rw h (Perm.refl (s ∷ t ∷ ts))
]

pub sort_strings-perm : (ss : List Bytes) → Perm (sort_strings ss) ss
unfolding sort_strings
sort_strings-perm [] = Perm.refl []
sort_strings-perm (s ∷ ss) =
    Perm.trans (insert_sorted-perm s (sort_strings ss)) (Perm.cons s (sort_strings-perm ss))

-- Sorting a pair forgets in which order it was given.
pub sort_strings_pair_comm : (a b : Bytes) → sort_strings (a ∷ b ∷ []) ≡ sort_strings (b ∷ a ∷ [])
unfolding sort_strings
sort_strings_pair_comm a b =
    ground (arith, before_asymm a b, before_asymm b a, before_total a b, before_total b a)

-- A sorted pair is one of the two arrangements.
pub sort_strings_pair :
    (a b : Bytes)
    → ((before b a ≡ false) × (sort_strings (a ∷ b ∷ []) ≡ a ∷ b ∷ []))
      ⊎ ((before a b ≡ false) × (sort_strings (a ∷ b ∷ []) ≡ b ∷ a ∷ []))
unfolding sort_strings
sort_strings_pair a b = elim (Bool-cases (before b a)) [
  | inl h ↦ inr (before_asymm b a h, rw h)
  | inr h ↦ inl (h, rw h)
]

pub sort_strings_sorted_pair :
    (a b : Bytes) → before b a ≡ false → sort_strings (a ∷ b ∷ []) ≡ a ∷ b ∷ []
unfolding sort_strings
sort_strings_sorted_pair a b h = rw h

-- Sorting two entries in, in either order.
insert_sorted_comm :
    (a b : Bytes) (ts : List Bytes)
    → insert_sorted a (insert_sorted b ts) ≡ insert_sorted b (insert_sorted a ts)
unfolding insert_sorted
insert_sorted_comm a b [] =
    ground (arith, before_asymm a b, before_asymm b a, before_total a b, before_total b a)
insert_sorted_comm a b (t ∷ ts) = ground (
  arith,
  insert_sorted_comm a b ts,
  before_asymm a b,
  before_asymm b a,
  before_total a b,
  before_total b a,
  before_trans a b t,
  before_trans b a t,
  before_trans a t b,
  before_trans b t a,
  before_trans t a b,
  before_trans t b a,
  before_asymm t a,
  before_asymm t b,
  before_asymm a t,
  before_asymm b t,
)

pub sort_strings_swap :
    (a b : Bytes) (ts : List Bytes) → sort_strings (a ∷ b ∷ ts) ≡ sort_strings (b ∷ a ∷ ts)
unfolding sort_strings
sort_strings_swap a b ts = insert_sorted_comm a b (sort_strings ts)

pub sort_strings_cons :
    (a : Bytes) (ts us : List Bytes)
    → sort_strings ts ≡ sort_strings us
    → sort_strings (a ∷ ts) ≡ sort_strings (a ∷ us)
unfolding sort_strings
sort_strings_cons a ts us e = ap (insert_sorted a) e
