-- ===== src/Base/Faults.antt =====
-- What running a piece of the program leads to, and the monad of it.
use mathlib.Core.Bool.{Bool, true, false}
use mathlib.Core.Option.{Option, none, some}

-- `exits` is `exit(EXIT_FAILURE)` of `ASSERT` and `FATAL` (utils/macros.h). `undefined` is an access
-- outside a container, or through a null pointer, for which C++ promises nothing.
pub data Outcome {ℓ} (A : Type ℓ) : Type ℓ where
  done : A → Outcome A
  exits : Outcome A
  undefined : Outcome A

infixl 5 ◌>>=◌ ◌>>◌
abbrev pub ◌>>=◌ {ℓ κ} : {A : Type ℓ} {B : Type κ} → Outcome A → (A → Outcome B) → Outcome B
done a >>= f = f a
exits >>= f = exits
undefined >>= f = undefined

abbrev pub ◌>>◌ {ℓ} : {B : Type ℓ} → Outcome (Unit {0}) → Outcome B → Outcome B
m >> k = m >>= λ _. k

-- `ASSERT(cond, msg)` of utils/macros.h.
abbrev pub assert : Bool → Outcome (Unit {0})
assert true = done tt
assert false = exits

-- A read that is undefined where there is nothing to read.
abbrev pub defined {ℓ} : {A : Type ℓ} → Option A → Outcome A
defined none = undefined
defined (some a) = done a
