-- ===== src/Text/Trim.antt =====
-- Go's `strings.TrimSpace`: the white space of Unicode, in UTF-8, is taken off both ends.
use mathlib.Core.List.{reverse, reverse-reverse, reverse-cons}
use chat_service.Prelude.{
  ℕ, zero, suc, ◌≡◌, refl, Bool, ◌&&◌, ◌||◌, [], ◌∷◌, arith, leb, ◌==◌, if◌then◌else◌, length, drop,
  All, All-append,
}
use chat_service.Text.{Bytes, IsVisible}

-- '\t', '\n', '\v', '\f', '\r', ' '
ascii_space : ℕ → Bool
ascii_space c = (c == 32) || (leb 9 c && leb c 13)

-- U+0085, U+00A0
space_of_two : ℕ → ℕ → Bool
space_of_two a b = (a == 0xc2) && ((b == 0x85) || (b == 0xa0))

-- U+1680, U+2000 to U+200A, U+2028, U+2029, U+202F, U+205F, U+3000
space_of_three : ℕ → ℕ → ℕ → Bool
space_of_three a b c =
    ((a == 0xe1) && (b == 0x9a) && (c == 0x80))
    || ((a == 0xe2)
        && (b == 0x80)
        && ((leb 0x80 c && leb c 0x8a) || (c == 0xa8) || (c == 0xa9) || (c == 0xaf)))
    || ((a == 0xe2) && (b == 0x81) && (c == 0x9f))
    || ((a == 0xe3) && (b == 0x80) && (c == 0x80))

-- The bytes of the white space character that the text begins with; 0 if it begins with another.
width_front : Bytes → ℕ
unfolding ascii_space space_of_two space_of_three
width_front [] = 0
width_front (a ∷ []) = if ascii_space a then 1 else 0
width_front (a ∷ b ∷ []) = if ascii_space a then 1 else if space_of_two a b then 2 else 0
width_front (a ∷ b ∷ c ∷ s) =
    if ascii_space a
    then 1
    else if space_of_two a b
    then 2
    else if space_of_three a b c
    then 3
    else 0

-- The same at the end of the text, which is given backwards.
width_back : Bytes → ℕ
unfolding ascii_space space_of_two space_of_three
width_back [] = 0
width_back (a ∷ []) = if ascii_space a then 1 else 0
width_back (a ∷ b ∷ []) = if ascii_space a then 1 else if space_of_two b a then 2 else 0
width_back (a ∷ b ∷ c ∷ s) =
    if ascii_space a
    then 1
    else if space_of_two b a
    then 2
    else if space_of_three c b a
    then 3
    else 0

-- Each round takes one character, so that as many rounds as bytes are enough.
strip : (Bytes → ℕ) → ℕ → Bytes → Bytes
strip width zero s = s
strip width (suc fuel) s = elim (width s) [ zero ↦ s | suc n ↦ strip width fuel (drop (suc n) s) ]

-- strings.TrimSpace(s)
unfoldable pub trim_space : Bytes → Bytes
unfolding strip width_front width_back
trim_space s =
    let front = strip width_front (length s) s in
    let back = reverse front in reverse (strip width_back (length back) back)

strip_stop : (width : Bytes → ℕ) (fuel : ℕ) (s : Bytes) → width s ≡ 0 → strip width fuel s ≡ s
unfolding strip
strip_stop width zero s h = refl
strip_stop width (suc fuel) s h = rw (h, strip)

width_front_visible : (s : Bytes) → IsVisible s → width_front s ≡ 0
unfolding width_front
width_front_visible [] h = refl
width_front_visible (a ∷ []) h = ground arith
width_front_visible (a ∷ b ∷ []) h = ground arith
width_front_visible (a ∷ b ∷ c ∷ s) h = ground arith

width_back_visible : (s : Bytes) → IsVisible s → width_back s ≡ 0
unfolding width_back
width_back_visible [] h = refl
width_back_visible (a ∷ []) h = ground arith
width_back_visible (a ∷ b ∷ []) h = ground arith
width_back_visible (a ∷ b ∷ c ∷ s) h = ground arith

All-reverse {κ} : (P : ℕ → Type κ) (s : Bytes) → All P s → All P (reverse s)
All-reverse P [] h = tt
All-reverse P (c ∷ s) h =
    rw (reverse-cons c s) (All-append P (reverse s) (c ∷ []) (All-reverse P s h.1) (h.0, tt))

-- A text of visible characters has nothing to trim.
pub trim_space_visible : (s : Bytes) → IsVisible s → trim_space s ≡ s
unfolding trim_space
trim_space_visible s h = rw (strip_stop width_front (length s) s (width_front_visible s h)) (
    rw
      (strip_stop width_back (length (reverse s)) (reverse s)
        (width_back_visible (reverse s) (All-reverse _ s h)))
      (reverse-reverse s))

trim_space_wide :
    trim_space (32 ∷ 0xe2 ∷ 0x80 ∷ 0x83 ∷ 97 ∷ 32 ∷ 98 ∷ 0xc2 ∷ 0xa0 ∷ 10 ∷ []) ≡ 97 ∷ 32 ∷ 98 ∷ []
unfolding trim_space
trim_space_wide = refl
