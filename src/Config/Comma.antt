-- ===== src/Config/Comma.antt =====
-- `splitComma` of app/config/config.go: the loop over the bytes is the split at the commas, each
-- part trimmed.
use chat_service.Text.Split.{split_at, split-Lacks, split}
use chat_service.Text.Trim.{trim_space}
use chat_service.Prelude.{
  sym, length-append, get_elem?-append, arith, ◌∙◌, append_assoc, All-append, take-append_eq, ap,
  inr, zero, inl, Bool-cases, if◌then◌else◌, get_elem?, none, append-nil, suc, refl, drop-append,
  ◌∷◌, ◌==◌, drop, some, [], ◌-◌, false, map, length, ◌++◌, take, Bool, ◌≡◌, List, Option, ℕ,
}
use chat_service.Text.{Lacks, Bytes}

abbrev comma : ℕ
comma = b','

-- s[i] == ','
abbrev is_comma : Option ℕ → Bool
is_comma none = false
is_comma (some c) = c == comma

-- s[start:i]
abbrev pub between : Bytes → ℕ → ℕ → Bytes
between s start i = take (i - start) (drop start s)

-- `for i := 0; i < len(s); i++`, with len(s) - i as fuel, and the append after it
unfoldable pub split_from : Bytes → ℕ → ℕ → ℕ → List Bytes → List Bytes
split_from s zero start i out = out ++ trim_space (drop start s) ∷ []
split_from s (suc fuel) start i out =
    let found = is_comma (get_elem? s i) in
    split_from s fuel (if found then suc i else start) (suc i)
      (if found then out ++ trim_space (between s start i) ∷ [] else out)

-- splitComma
unfoldable pub split_comma : Bytes → List Bytes
unfolding split_from
split_comma s = split_from s (length s) 0 0 []

-- A round at a comma, and at another byte.
split_from-comma :
    (s : Bytes) (n start i : ℕ) (out : List Bytes)
    → get_elem? s i ≡ some comma
    → split_from s (suc n) start i out
      ≡ split_from s n (suc i) (suc i) (out ++ trim_space (between s start i) ∷ [])
unfolding split_from
split_from-comma s n start i out e =
    ap
      (λ o.
        split_from s n (if is_comma o then suc i else start) (suc i)
          (if is_comma o then out ++ trim_space (between s start i) ∷ [] else out))
      e

split_from-other :
    (s : Bytes) (n start i : ℕ) (out : List Bytes) (c : ℕ)
    → get_elem? s i ≡ some c
    → (c == comma) ≡ false
    → split_from s (suc n) start i out ≡ split_from s n start (suc i) out
unfolding split_from
split_from-other s n start i out c e h =
    ap
      (λ o.
        split_from s n (if is_comma o then suc i else start) (suc i)
          (if is_comma o then out ++ trim_space (between s start i) ∷ [] else out))
      e
    ∙ rw h refl

between_lem :
    (pre cur rest s : Bytes) (i : ℕ)
    → s ≡ pre ++ (cur ++ rest)
    → i ≡ length (pre ++ cur)
    → between s (length pre) i ≡ cur
between_lem pre cur rest s i e ei =
    rw (e, drop-append pre (cur ++ rest))
      (take-append_eq cur rest (i - length pre) (omega (arith, length-append pre cur)))

Lacks-snoc :
    (cur : Bytes) (c : ℕ) → Lacks comma cur → (c == comma) ≡ false → Lacks comma (cur ++ c ∷ [])
Lacks-snoc cur c h k = All-append _ cur (c ∷ []) h (ground arith, tt)

-- The state of the loop: `pre` is dealt with, `cur` is the part being read, `rest` is to come.
split_from_lem :
    (pre cur rest s : Bytes) (start i : ℕ) (out : List Bytes)
    → s ≡ pre ++ (cur ++ rest)
    → start ≡ length pre
    → i ≡ length (pre ++ cur)
    → Lacks comma cur
    → split_from s (length rest) start i out ≡ out ++ map trim_space (split comma (cur ++ rest))
split_from_lem pre cur [] s start i out e es ei lacks =
    unfold split_from in
    rw (e, es, drop-append pre (cur ++ []), append-nil cur, split-Lacks comma cur lacks) refl
split_from_lem pre cur (c ∷ rest) s start i out e es ei lacks =
    let at : get_elem? s i ≡ some c =
      rw (e, ei, ← append_assoc pre cur (c ∷ rest))
        (get_elem?-append (pre ++ cur) c rest (length (pre ++ cur)) refl) in
    let moved : s ≡ pre ++ ((cur ++ c ∷ []) ++ rest) = rw (append_assoc cur (c ∷ []) rest) e in
    let after : suc i ≡ length (pre ++ (cur ++ c ∷ [])) = omega (
      arith,
      length-append pre cur,
      length-append pre (cur ++ c ∷ []),
      length-append cur (c ∷ []),
    ) in
    elim (Bool-cases (c == comma)) [
      | inl h ↦
          let q : c ≡ comma = ground arith in
          split_from-comma s (length rest) start i out (at ∙ ap some q)
          ∙ split_from_lem (pre ++ (cur ++ c ∷ [])) [] rest s (suc i) (suc i) _
              (moved ∙ sym (append_assoc pre (cur ++ c ∷ []) rest)) after
              (after ∙ ap length (sym (append-nil (pre ++ (cur ++ c ∷ []))))) tt
          ∙ rw
              (
                es,
                between_lem pre cur (c ∷ rest) s i e ei,
                q,
                split_at comma cur rest lacks,
                append_assoc out (trim_space cur ∷ []) (map trim_space (split comma rest)),
              )
              refl
      | inr h ↦
          split_from-other s (length rest) start i out c at h
          ∙ split_from_lem pre (cur ++ c ∷ []) rest s start (suc i) out moved es after
              (Lacks-snoc cur c lacks h)
          ∙ ap (λ v. out ++ map trim_space (split comma v)) (append_assoc cur (c ∷ []) rest)
    ]

-- The loop is the split of the text at its commas, with the white space around each part removed.
pub split_comma-split : (s : Bytes) → split_comma s ≡ map trim_space (split b',' s)
unfolding split_comma
split_comma-split s = split_from_lem [] [] s s 0 0 [] refl refl refl tt
