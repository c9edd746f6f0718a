-- ===== src/Store/Once.antt =====
-- An update of one document, where at most one meets the filter, in app/repository/mongodb.go.
use chat_service.Prelude.{
  [], inr, All-append, ◌∙◌, inl, arith, All-map, All-append_right, ◌+◌, Bool-cases, ◌≢◌, suc, refl,
  ◌≤◌, sym, ◌++◌, ◌∷◌, true, false, All, ◌≡◌, ℕ, List, Bool,
}
use chat_service.Store.Engine.{Updated, count_where, hit, missed}

module _ {D : Type 0} (p : D → Bool) where
  count_where-no : (d : D) (ds : List D) → p d ≡ false → count_where p (d ∷ ds) ≡ count_where p ds
  unfolding count_where
  count_where-no d ds h = rw h refl

  count_where-yes :
      (d : D) (ds : List D) → p d ≡ true → count_where p (d ∷ ds) ≡ suc (count_where p ds)
  unfolding count_where
  count_where-yes d ds h = rw h refl

  counted_suc : (d : D) (ds : List D) → p d ≡ true → count_where p (d ∷ ds) ≢ 0
  unfolding count_where
  counted_suc d ds h e = absurd (omega (arith, e, count_where-yes d ds h))

  none_counted : (ds : List D) → count_where p ds ≡ 0 → All (λ d. p d ≡ false) ds
  unfolding count_where
  none_counted [] h = tt
  none_counted (d ∷ ds) h = elim (Bool-cases (p d)) [
    | inl y ↦ absurd (counted_suc d ds y h)
    | inr n ↦ (n, none_counted ds (sym (count_where-no d ds n) ∙ h))
  ]

  count_where-split :
      (before after : List D) (d : D)
      → p d ≡ true
      → count_where p (before ++ d ∷ after) ≡ count_where p before + suc (count_where p after)
  unfolding count_where
  count_where-split [] after d h = rw h (omega arith)
  count_where-split (e ∷ before) after d h = elim (Bool-cases (p e)) [
    | inl y ↦ rw y (omega (arith, count_where-split before after d h))
    | inr n ↦ rw n (count_where-split before after d h)
  ]

  module _ (f : D → D) where
    -- No document meets the filter: none is changed.
    pub Updated-none :
        (n : ℕ) (ds ds' : List D) → Updated p f ds n ds' → All (λ d. p d ≡ false) ds → n ≡ 0
    Updated-none n ds ds' (missed h) all = refl
    Updated-none n ds ds' (hit {d = d} before after h) all =
        cc (sym (All-append_right (λ e. p e ≡ false) before (d ∷ after) all).0 ∙ h)

    -- After an update of the only document that can meet the filter, none meets a narrower one that
    -- changed documents do not meet.
    pub Updated-once :
        (a : D → Bool) (n : ℕ) (ds ds' : List D)
        → ((d : D) → p d ≡ false → a d ≡ false)
        → ((d : D) → a (f d) ≡ false)
        → Updated p f ds n ds'
        → count_where p ds ≤ 1
        → All (λ d. a d ≡ false) ds'
    Updated-once a n ds ds' narrow changed (missed h) one =
        All-map (λ d. p d ≡ false) (λ d. a d ≡ false) narrow ds h
    Updated-once a n ds ds' narrow changed (hit {d = d} before after h) one =
        let split = count_where-split before after d h in
        All-append (λ e. a e ≡ false) before (f d ∷ after)
          (All-map (λ d. p d ≡ false) (λ d. a d ≡ false) narrow before
            (none_counted before (omega (arith, split))))
          (
            changed d,
            All-map (λ d. p d ≡ false) (λ d. a d ≡ false) narrow after
                (none_counted after (omega (arith, split))),
          )
