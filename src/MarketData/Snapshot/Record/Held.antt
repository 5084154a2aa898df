-- ===== src/MarketData/Snapshot/Record/Held.antt =====
-- exchange/market_data/snapshot_synthesizer.cpp, `addToSnapshot`: the orders held are those that the
-- updates have left.
use hft_system.Base.{
  ℕ, ◌<◌, ◌≡◌, ◌≢◌, refl, sym, ap, ◌∙◌, Bool, true, false, ◌&&◌, Option, none, some, List, ◌==◌,
  arith, if◌then◌else◌, length, get_elem?, set, get_elem?-set, lt-length, Option-cases, Bool-cases,
  inl, inr,
}
use hft_system.Common.MemPool.{MemPool, live}
use hft_system.Common.MemPool.Access.{Untouched}
use hft_system.MarketData.Updates.{MarketUpdateType, MarketUpdate}
use hft_system.MarketData.Snapshot.{Synthesizer}
use hft_system.MarketData.Snapshot.Record.{same_side, set_entry, modified}

abbrev pub entry : Option (Option ℕ) → Option ℕ
entry none = none
entry (some v) = v

abbrev pub row_at : Option (List (Option ℕ)) → ℕ → Option ℕ
row_at none i = none
row_at (some orders) i = entry (get_elem? orders i)

abbrev pub pointer : Synthesizer → ℕ → ℕ → Option ℕ
pointer s t i = row_at (get_elem? s.ticker_orders t) i

abbrev pub behind : MemPool MarketUpdate → Option ℕ → Option MarketUpdate
behind p none = none
behind p (some j) = live p j

-- The order of an instrument under a number.
abbrev pub held : Synthesizer → ℕ → ℕ → Option MarketUpdate
held s t i = behind s.order_pool (pointer s t i)

abbrev pub here : MarketUpdate → ℕ → ℕ → Bool
here u t i = (t == u.ticker_id) && (i == u.order_id)

-- Every pointer leads to an order in use of that number, and to one that no other leads to.
pub record IsSnapshot (s : Synthesizer) : Type 0 where
  pub pool : Untouched s.order_pool
  pub points :
      (t i j : ℕ)
      → pointer s t i ≡ some j
      → (o : MarketUpdate) × (live s.order_pool j ≡ some o) × (o.order_id ≡ i)
  pub apart :
      (t i t' i' j : ℕ) → pointer s t i ≡ some j → pointer s t' i' ≡ some j → (t ≡ t') × (i ≡ i')

-- What an update of a type does to the order that it names.
abbrev pub effect : MarketUpdateType → MarketUpdate → Option MarketUpdate → Option MarketUpdate
effect MarketUpdateType.add u o = some u
effect MarketUpdateType.modify u none = none
effect MarketUpdateType.modify u (some o) = some (modified u o)
effect MarketUpdateType.cancel u o = none
effect MarketUpdateType.snapshot_start u o = o
effect MarketUpdateType.clear u o = o
effect MarketUpdateType.snapshot_end u o = o
effect MarketUpdateType.trade u o = o
effect MarketUpdateType.invalid u o = o

-- An add is of an order not held, and a modify or a cancel of one held, on its side.
abbrev pub Fits : MarketUpdateType → MarketUpdate → Option MarketUpdate → Type 0
Fits MarketUpdateType.add u o = o ≡ none
Fits MarketUpdateType.modify u o =
    (x : MarketUpdate) × (o ≡ some x) × (same_side x.side u.side ≡ true)
Fits MarketUpdateType.cancel u o =
    (x : MarketUpdate) × (o ≡ some x) × (same_side x.side u.side ≡ true)
Fits MarketUpdateType.snapshot_start u o = Unit
Fits MarketUpdateType.clear u o = Unit
Fits MarketUpdateType.snapshot_end u o = Unit
Fits MarketUpdateType.trade u o = Unit
Fits MarketUpdateType.invalid u o = Unit

row_at-set :
    (orders : List (Option ℕ)) (i j : ℕ) (v : Option ℕ)
    → i < length orders
    → entry (get_elem? (set orders i v) j) ≡ (if j == i then v else entry (get_elem? orders j))
row_at-set orders i j v h = ap entry (get_elem?-set orders i j v h) ∙ ground arith

pub pointer-set_entry :
    (s : Synthesizer) (u : MarketUpdate) (orders : List (Option ℕ)) (v : Option ℕ) (t i : ℕ)
    → get_elem? s.ticker_orders u.ticker_id ≡ some orders
    → u.order_id < length orders
    → pointer (set_entry u.ticker_id orders u.order_id v s) t i
      ≡ (if here u t i then v else pointer s t i)
pointer-set_entry s u orders v t i at inside =
    ap (λ r. row_at r i)
      (get_elem?-set s.ticker_orders u.ticker_id t (set orders u.order_id v)
        (lt-length s.ticker_orders u.ticker_id at))
    ∙ elim (Bool-cases (t == u.ticker_id)) [
      | inl same ↦
          let e : t ≡ u.ticker_id = ground (arith, same) in
          rw same (
            row_at-set orders u.order_id i v inside
            ∙ ap (λ r. if i == u.order_id then v else row_at r i)
                (sym at ∙ ap (λ k. get_elem? s.ticker_orders k) (sym e)))
      | inr other ↦ rw other
    ]

-- The entry that an update names becomes `v`, behind which `o` lies.
pub record Rewrites (s s' : Synthesizer) (u : MarketUpdate) (v : Option ℕ) (o : Option MarketUpdate)
    : Type 0 where
  pub pool : Untouched s'.order_pool
  pub pointers : (t i : ℕ) → pointer s' t i ≡ (if here u t i then v else pointer s t i)
  pub others :
      (t i j : ℕ)
      → here u t i ≡ false
      → pointer s t i ≡ some j
      → live s'.order_pool j ≡ live s.order_pool j
  pub alone : (t i j : ℕ) → here u t i ≡ false → pointer s t i ≡ some j → v ≢ some j
  pub value : behind s'.order_pool v ≡ o
  pub named :
      (j : ℕ)
      → v ≡ some j
      → (x : MarketUpdate) × (live s'.order_pool j ≡ some x) × (x.order_id ≡ u.order_id)

module _ (s s' : Synthesizer) (u : MarketUpdate) (v : Option ℕ) (o : Option MarketUpdate)
    (h : IsSnapshot s) (r : Rewrites s s' u v o) where
  pointer-here : (t i : ℕ) → here u t i ≡ true → pointer s' t i ≡ v
  pointer-here t i e = r.pointers t i ∙ rw e

  pointer-there : (t i : ℕ) → here u t i ≡ false → pointer s' t i ≡ pointer s t i
  pointer-there t i e = r.pointers t i ∙ rw e

  pub Rewrites-IsSnapshot : IsSnapshot s'
  Rewrites-IsSnapshot = record {
    pool = r.pool;
    points = λ t i j at. elim (Bool-cases (here u t i)) [
      | inl e ↦
          let (x, in_use, named) = r.named j (sym (pointer-here t i e) ∙ at) in
          let same : i ≡ u.order_id = ground (arith, e) in (x, in_use, named ∙ sym same)
      | inr e ↦
          let old = sym (pointer-there t i e) ∙ at in
          let (x, in_use, named) = h.points t i j old in (x, r.others t i j e old ∙ in_use, named)
    ];
    apart = λ t i t' i' j at at'. elim (Bool-cases (here u t i)) [
      | inl e ↦ elim (Bool-cases (here u t' i')) [
        | inl e' ↦ (ground (arith, e, e'), ground (arith, e, e'))
        | inr e' ↦ absurd (
            r.alone t' i' j e' (sym (pointer-there t' i' e') ∙ at') (sym (pointer-here t i e) ∙ at))
      ]
      | inr e ↦ elim (Bool-cases (here u t' i')) [
        | inl e' ↦
            absurd
              (r.alone t i j e (sym (pointer-there t i e) ∙ at) (sym (pointer-here t' i' e') ∙ at'))
        | inr e' ↦
            h.apart t i t' i' j (sym (pointer-there t i e) ∙ at)
              (sym (pointer-there t' i' e') ∙ at')
      ]
    ];
  }

  pub Rewrites-held : (t i : ℕ) → held s' t i ≡ (if here u t i then o else held s t i)
  Rewrites-held t i = elim (Bool-cases (here u t i)) [
    | inl e ↦ ap (behind s'.order_pool) (pointer-here t i e) ∙ r.value ∙ sym (rw e refl)
    | inr e ↦ ap (behind s'.order_pool) (pointer-there t i e) ∙ unmoved t i e ∙ sym (rw e refl)
  ]
    where
      unmoved : (t i : ℕ) → here u t i ≡ false → behind s'.order_pool (pointer s t i) ≡ held s t i
      unmoved t i e = elim (Option-cases (pointer s t i)) [
        | inl gone ↦ rw gone
        | inr (j, at) ↦ rw at (r.others t i j e at)
      ]
