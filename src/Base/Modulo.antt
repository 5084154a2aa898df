-- ===== src/Base/Modulo.antt =====
-- Remainders of numbers that are less than twice the modulus.
use Prim.Native.Nat.{ℕ, ◌+◌, ◌-◌, ◌%◌, ◌^◌, ◌≤◌, ◌<◌}
use mathlib.Core.Path.{◌≡◌}
use mathlib.Core.Logic.{◌⊎◌, ◌≢◌, inl, inr}
use native.Mathlib.Nat.{mod-eq_of_lt, mod-eq-sub-mod}
use native.Mathlib.Decide.{dec_lt}
use native.Mathlib.Omega.{arith}

-- A number below `2 * c` is its own remainder, or `c` above it.
pub mod_cases : (x c : ℕ) → x < c + c → ((x < c) × (x % c ≡ x)) ⊎ ((c ≤ x) × (x % c ≡ x - c))
mod_cases x c h = elim (dec_lt x c) [
  | yes p ↦ inl (p, mod-eq_of_lt p)
  | no p ↦ inr (
    omega arith,
    omega (
      arith,
      mod-eq-sub-mod {n = x} {m = c} (omega arith),
      mod-eq_of_lt {n = x - c} {m = c} (omega arith),
    ),
  )
]

module _ (w r n c : ℕ) where
  -- The writer's index moves on with the count.
  pub advance_write : w < c → r < c → n < c → w ≡ (r + n) % c → (w + 1) % c ≡ (r + (n + 1)) % c
  advance_write hw hr hn e = omega (
    arith,
    mod_cases (w + 1) c (omega arith),
    mod_cases (r + n) c (omega arith),
    mod_cases (r + (n + 1)) c (omega arith),
  )

  -- The reader's index moves on and the count goes down.
  pub advance_read : r < c → n < c → n ≢ 0 → w ≡ (r + n) % c → w ≡ ((r + 1) % c + (n - 1)) % c
  advance_read hr hn ne e = omega (
    arith,
    mod_cases (r + 1) c (omega arith),
    mod_cases (r + n) c (omega arith),
    mod_cases ((r + 1) % c + (n - 1)) c (omega arith),
  )

  -- The two indices meet exactly when nothing is stored.
  pub meet_iff_empty : r < c → n < c → w ≡ (r + n) % c → ((r ≡ w) → (n ≡ 0)) × ((n ≡ 0) → (r ≡ w))
  meet_iff_empty hr hn e = omega (arith, mod_cases (r + n) c (omega arith))

-- Nothing wraps at 2 ^ 64 below a length of at most 2 ^ 63.
pub add_size-small : (a c : ℕ) → a < c → c ≤ 2 ^ 63 → (a + 1) % 2 ^ 64 ≡ a + 1
add_size-small a c h small = omega arith
