-- ===== src/Trading/Doubles.antt =====
-- The arithmetic of `double` and of the signed integers that trading/strategy/ mixes with it.
use hft_system.Base.{
  ℕ, ◌-◌, ◌%◌, ◌^◌, ◌≡◌, Bool, true, false, ltb, leb, if◌then◌else◌, Outcome, done, undefined,
}
use hft_system.Base.Int.{ℤ, pos, negsuc, ltb_ℤ, abs}

-- The operations of the floating-point type and what the code relies on of its NaN.
pub record Doubles (R : Type 0) : Type 0 where
  pub of_int : ℤ → R
  pub add : R → R → R
  pub sub : R → R → R
  pub mul : R → R → R
  pub div : R → R → R
  pub less : R → R → Bool
  pub at_least : R → R → Bool
  pub differs : R → R → Bool
  pub half : R
  pub nan : R
  -- A comparison by `!=` with NaN holds of every number, NaN among them.
  pub nan-differs : (x : R) → differs x nan ≡ true

-- A signed result of 64 or of 32 bits, for which an overflow is undefined.
abbrev pub int64 : ℤ → Outcome ℤ
int64 (pos n) = if ltb n (2 ^ 63) then done (pos n) else undefined
int64 (negsuc n) = if ltb n (2 ^ 63) then done (negsuc n) else undefined

abbrev pub int32 : ℤ → Outcome ℤ
int32 (pos n) = if ltb n (2 ^ 31) then done (pos n) else undefined
int32 (negsuc n) = if ltb n (2 ^ 31) then done (negsuc n) else undefined

-- A conversion to `int32_t`, which keeps the low bits.
abbrev pub signed32 : ℕ → ℤ
signed32 w = if ltb w (2 ^ 31) then pos w else negsuc (2 ^ 32 - w - 1)

abbrev pub to_int32 : ℕ → ℤ
to_int32 n = signed32 (n % 2 ^ 32)

abbrev pub is_zero : ℤ → Bool
is_zero (pos n) = leb n 0
is_zero (negsuc n) = false

abbrev pub min_ℤ : ℤ → ℤ → ℤ
min_ℤ a b = if ltb_ℤ b a then b else a

-- `std::abs` of an `int32_t`
unfoldable pub abs32 : ℤ → Outcome ℤ
abs32 a = int32 (abs a)
