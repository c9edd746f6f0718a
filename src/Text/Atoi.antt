-- ===== src/Text/Atoi.antt =====
-- Go's `strconv.Atoi` at 64 bits: a sign, then one or more digits, and the value within an int64.
use chat_service.Prelude.{
  if_cases, Bool-cases, false, ◌∙◌, sym, ap, ◌⊎◌, ◌%◌, ◌/◌, inr, inl, ◌+◌, zero, [], refl, arith,
  ◌==◌, ◌*◌, ◌&&◌, ◌∷◌, negsuc, ◌≤◌, ◌-◌, if◌then◌else◌, suc, leb, ◌≡◌, ◌<◌, ◌++◌, ◌^◌, pos, none,
  some, Bool, ℤ, Option, ℕ,
}
use chat_service.Text.{is_empty, lit, Bytes}
use chat_service.Text.Decimal.{digits, itoa}

is_digit : ℕ → Bool
is_digit c = leb b'0' c && leb c b'9'

-- The digits after the value `n` of those before them.
scan : Bytes → ℕ → Option ℕ
unfolding is_digit
scan [] n = some n
scan (c ∷ s) n = let rest = scan s (n * 10 + (c - b'0')) in if is_digit c then rest else none

-- At least one digit, and nothing else.
magnitude : Bytes → Option ℕ
unfolding scan
magnitude [] = none
magnitude (c ∷ s) = scan (c ∷ s) 0

abbrev negated : ℕ → ℤ
negated zero = pos 0
negated (suc n) = negsuc n

-- ErrSyntax and ErrRange are both `none`.
at_most : ℕ → (ℕ → ℤ) → Option ℕ → Option ℤ
at_most cap sign none = none
at_most cap sign (some n) = if leb n cap then some (sign n) else none

abbrev max_int : ℕ
max_int = 2 ^ 63 - 1

-- strconv.Atoi(s)
unfoldable pub atoi : Bytes → Option ℤ
unfolding at_most magnitude
atoi [] = none
atoi (c ∷ s) =
    if c == b'-'
    then at_most (2 ^ 63) negated (magnitude s)
    else if c == b'+'
    then at_most max_int pos (magnitude s)
    else at_most max_int pos (magnitude (c ∷ s))

-- A value out of range becomes the nearest one; no number at all becomes 0.
clamped : ℕ → (ℕ → ℤ) → Option ℕ → ℤ
clamped cap sign none = pos 0
clamped cap sign (some n) = if leb n cap then sign n else sign cap

-- `n, _ := strconv.ParseInt(s, 10, 64)`
unfoldable pub parse_int : Bytes → ℤ
unfolding clamped magnitude
parse_int [] = pos 0
parse_int (c ∷ s) =
    if c == b'-'
    then clamped (2 ^ 63) negated (magnitude s)
    else if c == b'+'
    then clamped max_int pos (magnitude s)
    else clamped max_int pos (magnitude (c ∷ s))

-- The value is an int64.
abbrev pub IsInt64 : ℤ → Type 0
IsInt64 (pos n) = n ≤ max_int
IsInt64 (negsuc n) = n ≤ max_int

abbrev bind_scan : Option ℕ → Bytes → Option ℕ
bind_scan none t = none
bind_scan (some n) t = scan t n

scan-append : (s t : Bytes) (n : ℕ) → scan (s ++ t) n ≡ bind_scan (scan s n) t
unfolding scan
scan-append [] t n = refl
scan-append (c ∷ s) t n = ground (arith, scan-append s t (n * 10 + (c - 48)))

-- A digit is the whole text, or the last byte of it.
digits_cases :
    (fuel n : ℕ)
    → ((n < 10) × (digits (suc fuel) n ≡ (48 + n) ∷ []))
      ⊎ ((9 < n) × (digits (suc fuel) n ≡ digits fuel (n / 10) ++ ((48 + n % 10) ∷ [])))
unfolding digits
digits_cases fuel n = ground arith

scan_digit : (d n : ℕ) → d < 10 → scan ((48 + d) ∷ []) n ≡ some (n * 10 + d)
unfolding scan is_digit
scan_digit d n h = ground arith

-- Any fuel above the number is enough: the digits read back as the number.
scan-digits : (fuel n : ℕ) → n < fuel → scan (digits fuel n) 0 ≡ some n
scan-digits zero n h = absurd (omega arith)
scan-digits (suc fuel) n h = elim (digits_cases fuel n) [
  | inl (l, e) ↦ rw (e, scan_digit n 0 l) (ap some (omega arith))
  | inr (l, e) ↦
      rw
        (
          e,
          scan-append (digits fuel (n / 10)) ((48 + n % 10) ∷ []) 0,
          scan-digits fuel (n / 10) (omega arith),
          scan_digit (n % 10) (n / 10) (omega arith),
        )
        (ap some (omega arith))
]

-- The text of a number begins with a digit.
digits_cons : (fuel n : ℕ) → n < fuel → (c : ℕ) × (s : Bytes) × (digits fuel n ≡ c ∷ s) × (48 ≤ c)
digits_cons zero n h = absurd (omega arith)
digits_cons (suc fuel) n h = elim (digits_cases fuel n) [
  | inl (l, e) ↦ (48 + n, [], e, omega arith)
  | inr (l, e) ↦
      let (c, s, q, k) = digits_cons fuel (n / 10) (omega arith) in
      (c, s ++ ((48 + n % 10) ∷ []), rw (e, q) refl, k)
]

magnitude-digits : (fuel n : ℕ) → n < fuel → magnitude (digits fuel n) ≡ some n
unfolding magnitude
magnitude-digits fuel n h =
    let (c, s, q, l) = digits_cons fuel n h in
    rw q (sym (ap (λ t. scan t 0) q) ∙ scan-digits fuel n h)

atoi_unsigned :
    (t : Bytes) (c : ℕ) (s : Bytes)
    → t ≡ c ∷ s
    → 48 ≤ c
    → atoi t ≡ at_most max_int pos (magnitude t)
unfolding atoi
atoi_unsigned t c s e h = rw e (ground arith)

-- Reading what Itoa writes gives the number back, for every int64.
pub atoi-itoa : (n : ℤ) → IsInt64 n → atoi (itoa n) ≡ some n
unfolding atoi itoa at_most
atoi-itoa (pos n) h =
    let (c, s, q, l) = digits_cons (suc n) n (omega arith) in
    atoi_unsigned (digits (suc n) n) c s q l
    ∙ rw (magnitude-digits (suc n) n (omega arith)) (ground arith)
atoi-itoa (negsuc n) h = rw (magnitude-digits (suc (suc n)) (suc n) (omega arith)) (ground arith)

pub is_empty-itoa : (n : ℕ) → is_empty (itoa (pos n)) ≡ false
unfolding itoa
is_empty-itoa n = let (c, s, q, l) = digits_cons (suc n) n (omega arith) in ap is_empty q

some_inj : {x y : ℤ} → Path (Option ℤ) (some x) (some y) → x ≡ y
some_inj h = cc

clamped_lem :
    (cap : ℕ) (sign : ℕ → ℤ) (o : Option ℕ) (n : ℤ)
    → at_most cap sign o ≡ some n
    → clamped cap sign o ≡ n
unfolding at_most clamped
clamped_lem cap sign none n h = cc
clamped_lem cap sign (some m) n h = elim (Bool-cases (leb m cap)) [
  | inl y ↦ rw y (some_inj (sym (ap (λ b. if b then some (sign m) else none) y) ∙ h))
  | inr k ↦ cc (sym (ap (λ b. if b then some (sign m) else none) k) ∙ h)
]

-- ParseInt, its error dropped, and Atoi agree on what Atoi reads.
pub parse_int-atoi : (s : Bytes) (n : ℤ) → atoi s ≡ some n → parse_int s ≡ n
unfolding parse_int atoi
parse_int-atoi [] n h = cc
parse_int-atoi (c ∷ s) n h = elim (if_cases (c == b'-') _ _ (some n) h) [
  | inl (y, e) ↦ rw y (clamped_lem (2 ^ 63) negated (magnitude s) n e)
  | inr (k, e) ↦ elim (if_cases (c == b'+') _ _ (some n) e) [
    | inl (y, q) ↦ rw (k, y) (clamped_lem max_int pos (magnitude s) n q)
    | inr (l, q) ↦ rw (k, l) (clamped_lem max_int pos (magnitude (c ∷ s)) n q)
  ]
]

tests :
    (atoi (lit "-0042") ≡ some (negsuc 41))
    × (atoi (lit "+") ≡ none)
    × (atoi (lit "9223372036854775808") ≡ none)
    × (atoi (lit "-9223372036854775808") ≡ some (negsuc max_int))
    × (atoi (lit "1_0") ≡ none)
unfolding atoi
tests = (refl, refl, refl, refl, refl)
