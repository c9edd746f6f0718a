-- ===== src/Rooms/Rows.antt =====
-- The rows that a condition selects, after the insertions of app/repository/postgres.go.
use chat_service.Prelude.{
  subst, if◌then◌else◌, ◌∙◌, ap, sym, inr, inl, arith, Bool-cases, refl, [], suc, ◌≤◌, false, true,
  ◌∷◌, ℕ, length, All, ◌≡◌, List, Bool,
}
use chat_service.Rooms.Statements.{where_rows, insert_rows, upsert_rows}

nil_of_length : {A : Type 0} (xs : List A) → length xs ≤ 0 → xs ≡ []
nil_of_length [] h = refl
nil_of_length (x ∷ xs) h = absurd (omega arith)

module _ {R : Type 0} (p : R → Bool) where
  where_rows-yes : (r : R) (rs : List R) → p r ≡ true → where_rows p (r ∷ rs) ≡ r ∷ where_rows p rs
  unfolding where_rows
  where_rows-yes r rs h = rw h refl

  where_rows-no : (r : R) (rs : List R) → p r ≡ false → where_rows p (r ∷ rs) ≡ where_rows p rs
  unfolding where_rows
  where_rows-no r rs h = rw h refl

  pub where_rows-All : (rs : List R) → All (λ r. p r ≡ true) (where_rows p rs)
  unfolding where_rows
  where_rows-All [] = tt
  where_rows-All (r ∷ rs) = elim (Bool-cases (p r)) [
    | inl e ↦ rw e (e, where_rows-All rs)
    | inr e ↦ rw e (where_rows-All rs)
  ]

  -- The primary key: no two rows meet the condition.
  abbrev pub AtMostOne : List R → Type 0
  AtMostOne rs = length (where_rows p rs) ≤ 1

  -- A new row is the one that the condition selects.
  pub where_rows-insert :
      (r : R) (rs : List R)
      → p r ≡ true
      → where_rows p rs ≡ []
      → where_rows p (insert_rows p r rs) ≡ r ∷ []
  unfolding insert_rows where_rows
  where_rows-insert r [] h e = rw h refl
  where_rows-insert r (s ∷ rs) h e = elim (Bool-cases (p s)) [
    | inl y ↦ cc (sym (where_rows-yes s rs y) ∙ e)
    | inr n ↦ rw (n, n) (where_rows-insert r rs h (sym (where_rows-no s rs n) ∙ e))
  ]

  insert_rows-present :
      (r : R) (rs : List R) (n : ℕ) → length (where_rows p rs) ≡ suc n → insert_rows p r rs ≡ rs
  unfolding insert_rows where_rows
  insert_rows-present r [] n e = absurd (omega arith)
  insert_rows-present r (s ∷ rs) n e = elim (Bool-cases (p s)) [
    | inl y ↦ rw y refl
    | inr k ↦
        rw k (ap (◌∷◌ s) (insert_rows-present r rs n (sym (ap length (where_rows-no s rs k)) ∙ e)))
  ]

  AtMostOne-insert_from :
      (r : R) (rs ws : List R)
      → p r ≡ true
      → where_rows p rs ≡ ws
      → AtMostOne rs
      → AtMostOne (insert_rows p r rs)
  AtMostOne-insert_from r rs [] h e one = rw (where_rows-insert r rs h e) (omega arith)
  AtMostOne-insert_from r rs (w ∷ ws) h e one =
      rw (insert_rows-present r rs (length ws) (ap length e)) one

  pub AtMostOne-insert :
      (r : R) (rs : List R) → p r ≡ true → AtMostOne rs → AtMostOne (insert_rows p r rs)
  AtMostOne-insert r rs h one = AtMostOne-insert_from r rs (where_rows p rs) h refl one

  -- What DO UPDATE leaves where the rows in conflict are those given.
  abbrev pub upserted : (R → R) → R → List R → R
  upserted f r [] = r
  upserted f r (s ∷ rs) = f s

  pub where_rows-upsert :
      (f : R → R) (r : R) (rs : List R)
      → p r ≡ true
      → ((s : R) → p s ≡ true → p (f s) ≡ true)
      → AtMostOne rs
      → where_rows p (upsert_rows p f r rs) ≡ upserted f r (where_rows p rs) ∷ []
  unfolding upsert_rows where_rows
  where_rows-upsert f r [] h k one = rw h refl
  where_rows-upsert f r (s ∷ rs) h k one = elim (Bool-cases (p s)) [
    | inl y ↦
        rw (y, k s y)
          (ap (◌∷◌ (f s))
            (nil_of_length (where_rows p rs) (omega (arith, ap length (where_rows-yes s rs y)))))
    | inr n ↦
        rw (n, n)
          (where_rows-upsert f r rs h k (subst (λ w. length w ≤ 1) (where_rows-no s rs n) one))
  ]

  module _ (q : R → Bool) where
    -- A condition that no row in conflict meets selects what it did.
    pub where_rows-insert_other :
        (r : R) (rs : List R) → q r ≡ false → where_rows q (insert_rows p r rs) ≡ where_rows q rs
    unfolding insert_rows where_rows
    where_rows-insert_other r [] h = rw h refl
    where_rows-insert_other r (s ∷ rs) h = elim (Bool-cases (p s)) [
      | inl y ↦ rw y refl
      | inr n ↦ rw n (ap (λ rest. if q s then s ∷ rest else rest) (where_rows-insert_other r rs h))
    ]

    pub where_rows-upsert_other :
        (f : R → R) (r : R) (rs : List R)
        → q r ≡ false
        → ((s : R) → p s ≡ true → (q s ≡ false) × (q (f s) ≡ false))
        → where_rows q (upsert_rows p f r rs) ≡ where_rows q rs
    unfolding upsert_rows where_rows
    where_rows-upsert_other f r [] h k = rw h refl
    where_rows-upsert_other f r (s ∷ rs) h k = elim (Bool-cases (p s)) [
      | inl y ↦ rw (y, (k s y).0, (k s y).1) refl
      | inr n ↦
          rw n (ap (λ rest. if q s then s ∷ rest else rest) (where_rows-upsert_other f r rs h k))
    ]
