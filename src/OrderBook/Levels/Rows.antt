-- ===== src/OrderBook/Levels/Rows.antt =====
-- One side of the book as a list of rows, best price first, and how it is laid out in the pool.
use hft_system.Base.{
  ℕ, ◌≡◌, ◌≢◌, refl, sym, ap, Bool, true, false, Option, none, some, List, [], ◌∷◌, ◌++◌,
  if◌then◌else◌, arith, Bool-cases, inl, inr,
}
use hft_system.Base.Int.{ℤ, eq_of_parts}
use hft_system.Common.Types.{Side}
use hft_system.Common.MemPool.{MemPool, live}
use hft_system.Common.Node.{next_at, prev_at, read_payload}
use hft_system.Common.Node.Writes.{Edits}
use hft_system.Common.Ring.{All, Distinct, Ring}
use hft_system.OrderBook.Levels.{OrdersAtPrice, level_node, is_worse, is_better}

abbrev pub opposite : Side → Side
opposite Side.buy = Side.sell
opposite Side.sell = Side.buy
opposite Side.invalid = Side.invalid

-- A price level: where it lies, its price, and its first order.
pub record Row : Type 0 where
  pub at : ℕ
  pub price : ℤ
  pub first_order : Option ℕ

abbrev pub places : List Row → List ℕ
places [] = []
places (r ∷ rs) = r.at ∷ places rs

abbrev pub heads : List Row → Option ℕ
heads [] = none
heads (r ∷ rs) = some r.at

-- The place of a new row: before the first that it is not worse than.
unfoldable pub insert_row : Side → Row → List Row → List Row
insert_row side new [] = new ∷ []
insert_row side new (r ∷ rs) =
    if is_worse side new.price r.price then r ∷ insert_row side new rs else new ∷ r ∷ rs

-- Each row is worse than those before it.
abbrev pub IsSorted : Side → List Row → Type 0
IsSorted side [] = Unit
IsSorted side (r ∷ rs) =
    All (λ (q : Row). is_worse side q.price r.price ≡ true) rs × IsSorted side rs

-- The level of a row is in use, with its side, its price and its first order.
abbrev pub IsLevel : MemPool OrdersAtPrice → Side → Row → Type 0
IsLevel p side r =
    (l : OrdersAtPrice) × (live p r.at ≡ some l)
    × (l.side ≡ side)
    × (l.price ≡ r.price)
    × (l.first_order ≡ r.first_order)

abbrev pub IsThreaded : MemPool OrdersAtPrice → List Row → Type 0
IsThreaded p [] = Unit
IsThreaded p (r ∷ rs) = Ring (next_at p) (prev_at p) r.at (places rs)

-- The side's levels, from the best on, in the pool.
pub record Laid (p : MemPool OrdersAtPrice) (side : Side) (rows : List Row) : Type 0 where
  pub levels : All (IsLevel p side) rows
  pub threaded : IsThreaded p rows
  pub distinct : Distinct (places rows)
  pub sorted : IsSorted side rows

Edits-level :
    (o o' : Option OrdersAtPrice) (side : Side) (price : ℤ) (orders : Option ℕ)
    → read_payload o' ≡ read_payload o
    → (l : OrdersAtPrice) × (o ≡ some l)
      × (l.side ≡ side)
      × (l.price ≡ price)
      × (l.first_order ≡ orders)
    → (l : OrdersAtPrice) × (o' ≡ some l)
      × (l.side ≡ side)
      × (l.price ≡ price)
      × (l.first_order ≡ orders)
Edits-level o none side price orders e (l, at, s, q, f) = absurd (ground arith)
Edits-level o (some l') side price orders e (l, at, s, q, f) =
    (l', refl, ground arith, ground arith, ground arith)

pub Edits-IsLevel :
    {p q : MemPool OrdersAtPrice} (side : Side) (r : Row)
    → Edits p q
    → IsLevel p side r
    → IsLevel q side r
Edits-IsLevel {p} {q} side r e h =
    Edits-level (live p r.at) (live q r.at) side r.price r.first_order (e.payloads r.at) h

pub Edits-levels :
    {p q : MemPool OrdersAtPrice} (side : Side) (rs : List Row)
    → Edits p q
    → All (IsLevel p side) rs
    → All (IsLevel q side) rs
Edits-levels side [] e h = tt
Edits-levels side (r ∷ rs) e h = (Edits-IsLevel side r e h.0, Edits-levels side rs e h.1)

is_worse_trans :
    (side : Side) (a b c : ℤ)
    → is_worse side b a ≡ true
    → is_worse side c b ≡ true
    → is_worse side c a ≡ true
unfolding is_worse
is_worse_trans Side.buy a b c h k = ground arith
is_worse_trans Side.sell a b c h k = ground arith
is_worse_trans Side.invalid a b c h k = h

-- Of two different prices of one side, one is worse.
pub is_worse-total :
    (side : Side) (a b : ℤ)
    → side ≢ Side.invalid
    → a ≢ b
    → is_worse side a b ≡ false
    → is_worse side b a ≡ true
unfolding is_worse
is_worse-total Side.buy a b s ne h = ground (arith, eq_of_parts a b)
is_worse-total Side.sell a b s ne h = ground (arith, eq_of_parts a b)
is_worse-total Side.invalid a b s ne h = absurd (s refl)

All-is_worse :
    (side : Side) (a b : ℤ) (rs : List Row)
    → is_worse side b a ≡ true
    → All (λ (q : Row). is_worse side q.price b ≡ true) rs
    → All (λ (q : Row). is_worse side q.price a ≡ true) rs
All-is_worse side a b [] h k = tt
All-is_worse side a b (r ∷ rs) h k =
    (is_worse_trans side a b r.price h k.0, All-is_worse side a b rs h k.1)

pub insert_row-All {κ} :
    (P : Row → Type κ) (side : Side) (new : Row) (rs : List Row)
    → P new
    → All P rs
    → All P (insert_row side new rs)
unfolding insert_row
insert_row-All P side new [] h k = (h, tt)
insert_row-All P side new (r ∷ rs) h k = elim (Bool-cases (is_worse side new.price r.price)) [
  | inl worse ↦ rw worse (k.0, insert_row-All P side new rs h k.1)
  | inr better ↦ rw better (h, k)
]

-- A new price keeps the side sorted.
pub insert_row-IsSorted :
    (side : Side) (new : Row) (rs : List Row)
    → side ≢ Side.invalid
    → All (λ (q : Row). new.price ≢ q.price) rs
    → IsSorted side rs
    → IsSorted side (insert_row side new rs)
unfolding insert_row
insert_row-IsSorted side new [] s ne h = (tt, tt)
insert_row-IsSorted side new (r ∷ rs) s ne h = elim (Bool-cases (is_worse side new.price r.price)) [
  | inl worse ↦ rw worse (
    insert_row-All (λ (q : Row). is_worse side q.price r.price ≡ true) side new rs worse h.0,
    insert_row-IsSorted side new rs s ne.1 h.1,
  )
  | inr better ↦
      let behind = is_worse-total side new.price r.price s ne.0 better in
      rw better ((behind, All-is_worse side new.price r.price rs behind h.0), h)
]

pub is_better-eq : (side : Side) (a b : ℤ) → is_better side a b ≡ is_worse side b a
unfolding is_better is_worse
is_better-eq Side.buy a b = refl
is_better-eq Side.sell a b = refl
is_better-eq Side.invalid a b = refl

pub is_worse-asym : (side : Side) (a b : ℤ) → is_worse side a b ≡ true → is_worse side b a ≡ false
unfolding is_worse
is_worse-asym Side.buy a b h = ground arith
is_worse-asym Side.sell a b h = ground arith
is_worse-asym Side.invalid a b h = refl

pub places-append : (xs ys : List Row) → places (xs ++ ys) ≡ places xs ++ places ys
places-append [] ys = refl
places-append (x ∷ xs) ys = ap (◌∷◌ x.at) (places-append xs ys)

pub at_places {κ} :
    (P : ℕ → Type κ) (rs : List Row) → All P (places rs) → All (λ (q : Row). P q.at) rs
at_places P [] h = tt
at_places P (r ∷ rs) h = (h.0, at_places P rs h.1)

pub in_places {κ} :
    (P : ℕ → Type κ) (rs : List Row) → All (λ (q : Row). P q.at) rs → All P (places rs)
in_places P [] h = tt
in_places P (r ∷ rs) h = (h.0, in_places P rs h.1)

pub insert_row-places {κ} :
    (P : ℕ → Type κ) (side : Side) (new : Row) (rs : List Row)
    → P new.at
    → All P (places rs)
    → All P (places (insert_row side new rs))
insert_row-places P side new rs h k =
    in_places P (insert_row side new rs)
      (insert_row-All (λ (q : Row). P q.at) side new rs h (at_places P rs k))

pub insert_row-Distinct :
    (side : Side) (new : Row) (rs : List Row)
    → All (λ y. new.at ≢ y) (places rs)
    → Distinct (places rs)
    → Distinct (places (insert_row side new rs))
unfolding insert_row
insert_row-Distinct side new [] ne d = (tt, tt)
insert_row-Distinct side new (r ∷ rs) ne d = elim (Bool-cases (is_worse side new.price r.price)) [
  | inl worse ↦ rw worse (
    insert_row-places (λ y. r.at ≢ y) side new rs (λ e. ne.0 (sym e)) d.0,
    insert_row-Distinct side new rs ne.1 d.1,
  )
  | inr better ↦ rw better (ne, d)
]

-- Where the search for the place of `new` stops among rows that lie behind `best`.
abbrev pub stops : Side → ℤ → ℕ → List Row → ℕ × Bool
stops side price best [] = (best, true)
stops side price best (r ∷ rs) =
    if is_worse side price r.price then stops side price best rs else (r.at, false)

abbrev pub stop_at : ℕ → List Row → ℕ × Bool
stop_at best [] = (best, true)
stop_at best (r ∷ rs) = (r.at, false)

-- The rows before that place, and those behind it.
pub record Divided (side : Side) (new : Row) (best : ℕ) (rs : List Row) : Type 0 where
  pub before : List Row
  pub behind : List Row
  pub whole : rs ≡ before ++ behind
  pub with_new : insert_row side new rs ≡ before ++ new ∷ behind
  pub target : stops side new.price best rs ≡ stop_at best behind

pub divide : (side : Side) (new : Row) (best : ℕ) (rs : List Row) → Divided side new best rs
unfolding insert_row
divide side new best [] = record {
  before = [];
  behind = [];
  whole = refl;
  with_new = refl;
  target = refl;
}
divide side new best (r ∷ rs) = elim (Bool-cases (is_worse side new.price r.price)) [
  | inl worse ↦
      let d = divide side new best rs in
      record {
        before = r ∷ d.before;
        behind = d.behind;
        whole = ap (◌∷◌ r) d.whole;
        with_new = rw worse (ap (◌∷◌ r) d.with_new);
        target = rw worse d.target;
      }
  | inr better ↦ record {
    before = [];
    behind = r ∷ rs;
    whole = refl;
    with_new = rw better;
    target = rw better;
  }
]
