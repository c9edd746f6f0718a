-- ===== src/Text/Decimal.antt =====
-- Numbers in decimal, as `%d` and strconv.Itoa write them.
use chat_service.Prelude.{
  false, true, zero, ◌%◌, ◌++◌, ◌+◌, ltb, ◌∷◌, negsuc, ◌/◌, suc, pos, [], ℤ, ℕ,
}
use chat_service.Text.{Bytes}

-- The digits of a number, on a fuel that is above the number of its digits.
unfoldable pub digits : ℕ → ℕ → Bytes
digits zero n = []
digits (suc fuel) n = elim (ltb n 10) [
  | true ↦ (48 + n) ∷ []
  | false ↦ digits fuel (n / 10) ++ ((48 + n % 10) ∷ [])
]

unfoldable pub itoa : ℤ → Bytes
unfolding digits
itoa (pos n) = digits (suc n) n
itoa (negsuc n) = b'-' ∷ digits (suc (suc n)) (suc n)
