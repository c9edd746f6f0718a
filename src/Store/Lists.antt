-- ===== src/Store/Lists.antt =====
-- A database whose collections are lists: an instance of `Engine`, for the runs of the repository.
use chat_service.Store.Engine.{
  update_all, hit, count_where, missed, done, Updated, IsEngine, Engine,
}
use chat_service.Prelude.{
  ◌∙◌, not, zero, length-take-le, ◌≤◌, ◌==◌, suc, inr, length, take, inl, subst, ◌++◌, true,
  Bool-cases, false, [], ap, ◌≡◌, if◌then◌else◌, ◌∷◌, sym, ok, err, All, ℕ, Result, List, Bool,
}
use chat_service.Text.{lit, Bytes}

module _ {D : Type 0} (p : D → Bool) (f : D → D) where
  unfoldable pub update_first : List D → ℕ × List D
  update_first [] = (0, [])
  update_first (d ∷ ds) =
      let (n, rest) = update_first ds in if p d then (1, f d ∷ ds) else (n, d ∷ rest)

  Updated-cons :
      (d : D) {n : ℕ} {ds ds' : List D}
      → p d ≡ false
      → Updated p f ds n ds'
      → Updated p f (d ∷ ds) n (d ∷ ds')
  Updated-cons d e (missed h) = missed (e, h)
  Updated-cons d e (hit before after h) = hit (d ∷ before) after h

  update_first-Updated : (ds : List D) → Updated p f ds (update_first ds).0 (update_first ds).1
  unfolding update_first
  update_first-Updated [] = missed tt
  update_first-Updated (d ∷ ds) = elim (Bool-cases (p d)) [
    | inl e ↦ rw e (hit [] ds e)
    | inr e ↦ rw e (Updated-cons d e (update_first-Updated ds))
  ]

module _ {D : Type 0} (p : D → Bool) where
  unfoldable pub keep : List D → List D
  keep [] = []
  keep (d ∷ ds) = let rest = keep ds in if p d then d ∷ rest else rest

  keep-All : (ds : List D) → All (λ d. p d ≡ true) (keep ds)
  unfolding keep
  keep-All [] = tt
  keep-All (d ∷ ds) = elim (Bool-cases (p d)) [
    | inl e ↦ rw e (e, keep-All ds)
    | inr e ↦ rw e (keep-All ds)
  ]

  All-take : (n : ℕ) (ds : List D) → All (λ d. p d ≡ true) ds → All (λ d. p d ≡ true) (take n ds)
  All-take zero ds h = tt
  All-take (suc n) [] h = tt
  All-take (suc n) (d ∷ ds) h = (h.0, All-take n ds h.1)

unfoldable pub head_of : {D : Type 0} → List D → Result Bytes D
head_of [] = err (lit "no documents")
head_of (d ∷ ds) = ok d

abbrev pub lists : Engine
lists = record {
  Coll = λ D. List D;
  docs = λ c. c;
  insert_one = λ d c. (ok done, c ++ d ∷ []);
  insert_many = λ ds c. (ok done, c ++ ds);
  update_one = λ p f c. let (n, c') = update_first p f c in (ok n, c');
  upsert_one =
      λ p f d c. (ok 1, if count_where p c == 0 then c ++ d ∷ [] else (update_first p f c).1);
  update_many = λ p f c. (ok (count_where p c), update_all p f c);
  delete_one = λ p c. (ok done, keep (λ d. not (p d)) c);
  delete_many = λ p c. (ok done, keep (λ d. not (p d)) c);
  count_documents = λ p c. ok (count_where p c);
  find_one = λ p c. head_of (keep p c);
  find = λ p c. ok (keep p c);
  find_sorted = λ p before limit c. ok (take limit (keep p c));
}

ok_inj : {A : Type 0} {x y : A} → Path (Result Bytes A) (ok x) (ok y) → x ≡ y
ok_inj h = cc

head_of-All :
    {D : Type 0} (p : D → Bool) (ds : List D) (d : D)
    → All (λ e. p e ≡ true) ds
    → head_of ds ≡ ok d
    → p d ≡ true
unfolding head_of
head_of-All p [] d h e = cc
head_of-All p (x ∷ ds) d h e = ap p (sym (ok_inj e)) ∙ h.0

pub lists-IsEngine : IsEngine lists
lists-IsEngine = record {
  inserted = λ d c c' h. sym (ap (λ x. x.1) h);
  inserted_many = λ ds c c' h. sym (ap (λ x. x.1) h);
  updated = λ p f n c c' h.
      subst (λ m. Updated p f c m c') (ok_inj (ap (λ x. x.0) h))
        (subst (λ ds. Updated p f c (update_first p f c).0 ds) (ap (λ x. x.1) h)
          (update_first-Updated p f c));
  updated_many = λ p f n c c' h. sym (ap (λ x. x.1) h);
  counted = λ p n c h. sym (ok_inj h);
  found_one = λ p c d h. head_of-All p (keep p c) d (keep-All p c) h;
  found_sorted = λ p before limit c ds h.
      subst (λ ds. All (λ d. p d ≡ true) ds × (length ds ≤ limit)) (ok_inj h)
        (All-take p limit (keep p c) (keep-All p c), length-take-le limit (keep p c));
}
