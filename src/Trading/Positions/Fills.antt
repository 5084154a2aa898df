-- ===== src/Trading/Positions/Fills.antt =====
-- trading/strategy/position_keeper.h: a position over a run of fills.
use hft_system.Base.{
  ℕ, ◌+◌, ◌%◌, ◌^◌, ◌≤◌, ◌<◌, ◌≡◌, refl, ◌∙◌, ap, true, List, [], ◌∷◌, arith, Bool-cases, inl, inr,
  Outcome, done, ◌>>=◌,
}
use hft_system.Base.Int.{
  ℤ, pos, negsuc, pos_part, neg_part, ltb_ℤ, abs, sub_ℕ, ◌+ℤ◌, ◌-ℤ◌, ◌*ℤ◌, +ℤ_assoc, int_laws,
}
use hft_system.Common.Types.{Side, side_to_value}
use hft_system.Common.Ring.{All}
use hft_system.OrderFlow.Responses.{ClientResponse}
use hft_system.Trading.Doubles.{Doubles, int64, is_zero, abs32}
use hft_system.Trading.Positions.{
  PositionInfo, position_moved, is_increase, increase, unrealised, revalue, add_fill,
}

abbrev pub size : ℤ → ℕ
size a = pos_part a + neg_part a

abbrev pub IsInt64 : ℤ → Type 0
IsInt64 a = (pos_part a < 2 ^ 63) × (neg_part a ≤ 2 ^ 63)

-- What a fill adds to a position.
abbrev pub signed_qty : Side → ℕ → ℤ
signed_qty Side.buy qty = pos qty
signed_qty Side.sell qty = sub_ℕ 0 qty
signed_qty Side.invalid qty = pos 0

pub size-signed_qty :
    (p : ℤ) (side : Side) (qty : ℕ) → size (p +ℤ signed_qty side qty) ≤ size p + qty
unfolding ◌+ℤ◌
size-signed_qty p Side.buy qty = ground arith
size-signed_qty p Side.sell qty = ground arith
size-signed_qty p Side.invalid qty = ground arith

-- The sum in 64 bits without a sign, cut to 32 with one, is the sum.
pub position_moved-exact :
    (p : ℤ) (side : Side) (qty : ℕ)
    → size p + qty < 2 ^ 31
    → position_moved p side qty ≡ p +ℤ signed_qty side qty
unfolding ◌+ℤ◌ side_to_value
position_moved-exact p Side.buy qty h = ground arith
position_moved-exact p Side.sell qty h = ground arith
position_moved-exact p Side.invalid qty h = ground arith

pub int64-done : (a : ℤ) → IsInt64 a → int64 a ≡ done a
int64-done (pos n) h = ground arith
int64-done (negsuc n) h = ground arith

pub abs32-done : (a : ℤ) → size a < 2 ^ 31 → abs32 a ≡ done (abs a)
unfolding abs32 abs ◌-ℤ◌
abs32-done a h = ground arith

module _ {R : Type 0} ⦃d : Doubles R⦄ where
  -- What every valuation leaves alone.
  pub record SameHolding (p q : PositionInfo R) : Type 0 where
    pub position : q.position ≡ p.position
    pub volume : q.volume ≡ p.volume
    pub real_pnl : q.real_pnl ≡ p.real_pnl

  pub unrealised-done :
      (price : R) (p : PositionInfo R)
      → size p.position < 2 ^ 31
      → (v : R) × (unrealised price p ≡ done v)
  unfolding unrealised
  unrealised-done price p small = elim (Bool-cases (ltb_ℤ (pos 0) p.position)) [
    | inl e ↦ rw (abs32-done p.position small, e) (_, refl)
    | inr e ↦ rw (abs32-done p.position small, e) (_, refl)
  ]

  revalue-done :
      (r : ClientResponse) (p : PositionInfo R)
      → size p.position < 2 ^ 31
      → (p' : PositionInfo R) × (revalue r p ≡ done p') × SameHolding p p'
  unfolding revalue
  revalue-done r p small = elim (Bool-cases (is_zero p.position)) [
    | inl e ↦ rw e (_, refl, record { position = refl; volume = refl; real_pnl = refl })
    | inr e ↦
        let (v, ok) = unrealised-done (d.of_int r.price) p small in
        (
          record p { unreal_pnl = v },
          rw (e, ok) refl,
          record { position = refl; volume = refl; real_pnl = refl },
        )
  ]

  increase-done :
      (r : ClientResponse) (p : PositionInfo R)
      → IsInt64 (r.price *ℤ pos r.exec_qty)
      → (p' : PositionInfo R) × (increase r p ≡ done p') × SameHolding p p'
  unfolding increase
  increase-done r p fits =
      rw (int64-done (r.price *ℤ pos r.exec_qty) fits)
        (_, refl, record { position = refl; volume = refl; real_pnl = refl })

  abbrev filled_holding : ClientResponse → PositionInfo R → PositionInfo R
  filled_holding r p = record p {
    position = position_moved p.position r.side r.exec_qty;
    volume = (p.volume + r.exec_qty) % 2 ^ 32;
  }

  -- One fill: the branch for a decrease is not reached.
  pub add_fill-moves :
      (r : ClientResponse) (p : PositionInfo R)
      → size p.position + r.exec_qty < 2 ^ 31
      → IsInt64 (r.price *ℤ pos r.exec_qty)
      → (p' : PositionInfo R) × (add_fill r p ≡ done p')
        × (p'.position ≡ p.position +ℤ signed_qty r.side r.exec_qty)
        × (p'.volume ≡ (p.volume + r.exec_qty) % 2 ^ 32)
        × (p'.real_pnl ≡ p.real_pnl)
        × (p'.total_pnl ≡ d.add p'.unreal_pnl p.real_pnl)
  unfolding add_fill
  add_fill-moves r p small fits =
      let grows : is_increase p.position r.side ≡ true = ground arith in
      let exact = position_moved-exact p.position r.side r.exec_qty small in
      let (p₂, ok, same) = increase-done r (filled_holding r p) fits in
      let now : p₂.position ≡ p.position +ℤ signed_qty r.side r.exec_qty = same.position ∙ exact in
      let (p₃, ok', same') =
        revalue-done r p₂
          (omega (arith, size-signed_qty p.position r.side r.exec_qty, ap size now)) in
      (
        record p₃ { total_pnl = d.add p₃.unreal_pnl p₃.real_pnl },
        rw (grows, ok, ok') refl,
        same'.position ∙ now,
        same'.volume ∙ same.volume,
        same'.real_pnl ∙ same.real_pnl,
        ap (λ v. d.add p₃.unreal_pnl v) (same'.real_pnl ∙ same.real_pnl),
      )

  unfoldable pub add_fills : List ClientResponse → PositionInfo R → Outcome (PositionInfo R)
  add_fills [] p = done p
  add_fills (r ∷ rs) p = add_fill r p >>= add_fills rs

abbrev pub traded : List ClientResponse → ℕ
traded [] = 0
traded (r ∷ rs) = r.exec_qty + traded rs

abbrev pub net : List ClientResponse → ℤ
net [] = pos 0
net (r ∷ rs) = signed_qty r.side r.exec_qty +ℤ net rs

abbrev pub IsPriced : ClientResponse → Type 0
IsPriced r = IsInt64 (r.price *ℤ pos r.exec_qty)

module _ {R : Type 0} ⦃d : Doubles R⦄ where
  -- A run of fills, each with price times quantity in 64 bits, from a position whose size is below 2 ^ 31
  -- together with all that is traded, and a volume below 2 ^ 32, returns. The position is the exact sum of
  -- the signed quantities, the volume is the sum of the quantities modulo 2 ^ 32, and the realised profit
  -- is what it was before.
  pub add_fills-net :
      (rs : List ClientResponse) (p : PositionInfo R)
      → size p.position + traded rs < 2 ^ 31
      → p.volume < 2 ^ 32
      → All IsPriced rs
      → (p' : PositionInfo R) × (add_fills rs p ≡ done p')
        × (p'.position ≡ p.position +ℤ net rs)
        × (p'.volume ≡ (p.volume + traded rs) % 2 ^ 32)
        × (p'.real_pnl ≡ p.real_pnl)
  unfolding add_fills
  add_fills-net [] p small volume priced = (p, refl, omega (int_laws), omega arith, refl)
  add_fills-net (r ∷ rs) p small volume priced =
      let (p₁, ok, position, vol, real, total) = add_fill-moves r p (omega arith) priced.0 in
      let bound = size-signed_qty p.position r.side r.exec_qty in
      let (p₂, ok', position', vol', real') =
        add_fills-net rs p₁ (omega (arith, bound, ap size position)) (omega (arith, vol))
          priced.1 in
      (
        p₂,
        rw ok ok',
        rw (position', position) (+ℤ_assoc _ _ _),
        omega (arith, vol, vol'),
        real' ∙ real,
      )
