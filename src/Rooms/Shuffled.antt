-- ===== src/Rooms/Shuffled.antt =====
-- The rows of a query without ORDER BY in app/repository/postgres.go: the same rows in some order.
use chat_service.Prelude.{map, ap, refl, ◌∷◌, All, ◌≡◌, [], List}
use mathlib.Core.List.{tail, Perm}
use mathlib.Core.List.Perm

module _ {ℓ} {A : Type ℓ} where
  pub data Shuffled : List A → List A → Type ℓ where
    same_nil : Shuffled [] []
    same_head : (x : A) {xs ys : List A} → Shuffled xs ys → Shuffled (x ∷ xs) (x ∷ ys)
    swapped : (x y : A) (xs : List A) → Shuffled (y ∷ x ∷ xs) (x ∷ y ∷ xs)
    twice : {xs ys zs : List A} → Shuffled xs ys → Shuffled ys zs → Shuffled xs zs

  pub Shuffled-refl : (xs : List A) → Shuffled xs xs
  Shuffled-refl [] = same_nil
  Shuffled-refl (x ∷ xs) = same_head x (Shuffled-refl xs)

  pub Shuffled-Perm : {xs ys : List A} → Shuffled xs ys → Perm xs ys
  Shuffled-Perm same_nil = Perm.refl []
  Shuffled-Perm (same_head x s) = Perm.cons x (Shuffled-Perm s)
  Shuffled-Perm (swapped x y xs) = Perm.swap x y xs
  Shuffled-Perm (twice s t) = Perm.trans (Shuffled-Perm s) (Shuffled-Perm t)

  -- There is one order of no rows, and one of a single row.
  pub none_of : {xs ys : List A} → Shuffled xs ys → ys ≡ [] → xs ≡ []
  none_of same_nil e = refl
  none_of (same_head x s) e = cc
  none_of (swapped x y xs) e = cc
  none_of (twice s t) e = none_of s (none_of t e)

  pub one_of : {xs ys : List A} {y : A} → Shuffled xs ys → ys ≡ y ∷ [] → xs ≡ y ∷ []
  one_of same_nil e = cc
  one_of {y = y} (same_head x {xs = xs} s) e =
      let rest : xs ≡ [] = none_of s (ap tail e) in let first : x ≡ y = cc in cc
  one_of (swapped x y xs) e = cc
  one_of (twice s t) e = one_of s (one_of t e)

  pub none_from : {xs ys : List A} → Shuffled xs ys → xs ≡ [] → ys ≡ []
  none_from same_nil e = refl
  none_from (same_head x s) e = cc
  none_from (swapped x y xs) e = cc
  none_from (twice s t) e = none_from t (none_from s e)

  pub All-Shuffled {κ} : (P : A → Type κ) {xs ys : List A} → Shuffled xs ys → All P ys → All P xs
  All-Shuffled P same_nil h = h
  All-Shuffled P (same_head x s) h = (h.0, All-Shuffled P s h.1)
  All-Shuffled P (swapped x y xs) h = (h.1.0, (h.0, h.1.1))
  All-Shuffled P (twice s t) h = All-Shuffled P s (All-Shuffled P t h)

module _ {ℓ κ} {A : Type ℓ} {B : Type κ} (f : A → B) where
  pub Shuffled-map : {xs ys : List A} → Shuffled xs ys → Shuffled (map f xs) (map f ys)
  Shuffled-map same_nil = same_nil
  Shuffled-map (same_head x s) = same_head (f x) (Shuffled-map s)
  Shuffled-map (swapped x y xs) = swapped (f x) (f y) (map f xs)
  Shuffled-map (twice s t) = twice (Shuffled-map s) (Shuffled-map t)
