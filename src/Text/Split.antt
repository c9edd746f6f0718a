-- ===== src/Text/Split.antt =====
-- Go's `strings.Split` and `strings.Join`, at a separator of one byte.
use chat_service.Prelude.{
  ◌≢◌, ℕ, ◌≡◌, refl, List, [], ◌∷◌, ◌++◌, arith, ◌==◌, if◌then◌else◌, Bool-cases, inl, inr,
}
use chat_service.Text.{Bytes, Lacks}

push_head : ℕ → List Bytes → List Bytes
push_head c [] = (c ∷ []) ∷ []
push_head c (p ∷ ps) = (c ∷ p) ∷ ps

-- strings.Split(s, sep)
unfoldable pub split : ℕ → Bytes → List Bytes
unfolding push_head
split sep [] = [] ∷ []
split sep (c ∷ s) = let rest = split sep s in if c == sep then [] ∷ rest else push_head c rest

-- strings.Join(parts, sep)
unfoldable pub join : Bytes → List Bytes → Bytes
join sep [] = []
join sep (p ∷ []) = p
join sep (p ∷ q ∷ ps) = p ++ (sep ++ join sep (q ∷ ps))

-- A separator after a part that has none ends the part.
pub split_at : (sep : ℕ) (p s : Bytes) → Lacks sep p → split sep (p ++ sep ∷ s) ≡ p ∷ split sep s
unfolding split
split_at sep [] s h = ground arith
split_at sep (c ∷ p) s h = ground (arith, split_at sep p s h.1)

split_cons : (sep : ℕ) (s : Bytes) → (p : Bytes) × (ps : List Bytes) × (split sep s ≡ p ∷ ps)
unfolding split
split_cons sep [] = ([], [], refl)
split_cons sep (c ∷ s) =
    let (p, ps, e) = split_cons sep s in
    elim (Bool-cases (c == sep)) [
      | inl h ↦ ([], p ∷ ps, rw (h, e))
      | inr h ↦ (c ∷ p, ps, rw (h, e))
    ]

join_push :
    (sep : ℕ) (c : ℕ) (ps : List Bytes) → join (sep ∷ []) (push_head c ps) ≡ c ∷ join (sep ∷ []) ps
unfolding join push_head
join_push sep c [] = refl
join_push sep c (p ∷ []) = refl
join_push sep c (p ∷ q ∷ ps) = refl

join_nil :
    (sep : ℕ) (p : Bytes) (ps : List Bytes)
    → join (sep ∷ []) ([] ∷ p ∷ ps) ≡ sep ∷ join (sep ∷ []) (p ∷ ps)
unfolding join
join_nil sep p ps = refl

-- Joining the parts with the separator gives the text back.
pub join-split : (sep : ℕ) (s : Bytes) → join (sep ∷ []) (split sep s) ≡ s
unfolding split
join-split sep [] = unfold join in refl
join-split sep (c ∷ s) =
    let (p, ps, e) = split_cons sep s in
    ground (arith, e, join_push sep c (split sep s), join_nil sep p ps, join-split sep s)

-- A text without the separator is one part.
pub split-Lacks : (sep : ℕ) (s : Bytes) → Lacks sep s → split sep s ≡ s ∷ []
unfolding split
split-Lacks sep [] h = refl
split-Lacks sep (c ∷ s) h = ground (arith, split-Lacks sep s h.1)

-- The first part of a text that does not begin with the separator is not empty.
pub split_head :
    (sep : ℕ) (c : ℕ) (s : Bytes)
    → c ≢ sep
    → (p : Bytes) × (ps : List Bytes) × (split sep (c ∷ s) ≡ (c ∷ p) ∷ ps)
      × (join (sep ∷ []) ((c ∷ p) ∷ ps) ≡ c ∷ s)
split_head sep c s h =
    let (p, ps, e) = split_cons sep s in
    let parts : split sep (c ∷ s) ≡ (c ∷ p) ∷ ps = unfold split in ground (arith, e) in
    (p, ps, parts, rw (← parts) (join-split sep (c ∷ s)))
