-- ===== src/Common/AlgoTypes.antt =====
-- utils/types.h: the kinds of trading algorithm, their names, and the search of a name.
use Prim.Native.String.{String}
use text.Mathlib.Text.{◌==◌ as ◌is◌}
use text.Mathlib.TextEquality.{eq_iff}
use hft_system.Base.{
  ℕ, zero, suc, ◌≡◌, ◌≢◌, refl, if◌then◌else◌, Bool-cases, inl, inr, ◌↔◌, sym, ◌∙◌, subst, ◌==◌,
}
use hft_system.Common.Types.{Side}

pub data AlgoType : Type 0 where
  invalid random maker taker max : AlgoType

-- `static_cast<AlgoType>(i)`, for the values that the search casts.
abbrev pub algo_type_at : ℕ → AlgoType
algo_type_at i =
    if i == 0
    then AlgoType.invalid
    else if i == 1
    then AlgoType.random
    else if i == 2
    then AlgoType.maker
    else if i == 3
    then AlgoType.taker
    else AlgoType.max

unfoldable pub algo_type_to_string : AlgoType → String
algo_type_to_string AlgoType.random = "RANDOM"
algo_type_to_string AlgoType.maker = "MAKER"
algo_type_to_string AlgoType.taker = "TAKER"
algo_type_to_string AlgoType.invalid = "INVALID"
algo_type_to_string AlgoType.max = "MAX"

-- The values from `i` on, `count` of them.
unfoldable pub search_from : ℕ → ℕ → String → AlgoType
search_from zero i str = AlgoType.invalid
search_from (suc count) i str =
    if algo_type_to_string (algo_type_at i) is str
    then algo_type_at i
    else search_from count (suc i) str

unfoldable pub string_to_algo_type : String → AlgoType
string_to_algo_type str = search_from 5 0 str

unfoldable pub side_to_string : Side → String
side_to_string Side.buy = "BUY"
side_to_string Side.sell = "SELL"
side_to_string Side.invalid = "INVALID"

search_from-hit :
    (count i : ℕ) (str : String)
    → search_from count i str ≢ AlgoType.invalid
    → algo_type_to_string (search_from count i str) ≡ str
unfolding search_from
search_from-hit zero i str found = absurd (found refl)
search_from-hit (suc count) i str found =
    elim (Bool-cases (algo_type_to_string (algo_type_at i) is str)) [
      | inl e ↦ rw e ((eq_iff (algo_type_to_string (algo_type_at i)) str).0 e)
      | inr e ↦ rw e (search_from-hit count (suc i) str (λ none. found (rw e none)))
    ]

name-found : (a : AlgoType) → string_to_algo_type (algo_type_to_string a) ≡ a
unfolding string_to_algo_type search_from algo_type_to_string
name-found AlgoType.invalid = refl
name-found AlgoType.random = refl
name-found AlgoType.maker = refl
name-found AlgoType.taker = refl
name-found AlgoType.max = refl

-- A kind other than INVALID is what a text gives exactly if the text is the kind's name.
pub string_to_algo_type-inverts :
    (str : String) (a : AlgoType)
    → a ≢ AlgoType.invalid
    → (string_to_algo_type str ≡ a) ↔ (algo_type_to_string a ≡ str)
unfolding string_to_algo_type
string_to_algo_type-inverts str a valid = (
  λ e.
      subst (λ v. algo_type_to_string v ≡ str) e
        (search_from-hit 5 0 str (λ none. valid (sym e ∙ none))),
  λ e. subst (λ v. string_to_algo_type v ≡ a) e (name-found a),
)
