-- ===== src/Trading/Positions.antt =====
-- trading/strategy/position_keeper.h: position, volume and profit of an instrument.
pub mod Fills
use hft_system.Base.{
  ℕ, ◌+◌, ◌*◌, ◌%◌, ◌^◌, Bool, true, false, not, ◌&&◌, ◌==◌, leb, ltb, if◌then◌else◌, Outcome, done,
  exits, undefined, ◌>>=◌,
}
use hft_system.Base.Int.{ℤ, pos, ◌*ℤ◌, ◌+ℤ◌, ltb_ℤ, pos_part, neg_part}
use hft_system.Common.Types.{
  Side, side_to_index, side_to_value, to_unsigned, me_max_tickers, price_invalid,
}
use hft_system.OrderFlow.Responses.{ClientResponse}
use hft_system.OrderBook.Market.{Bbo}
use hft_system.Trading.OrderManager.{same_price}
use hft_system.Trading.Doubles.{Doubles, int64, int32, to_int32, is_zero, min_ℤ, abs32}

-- The pointer to the best bid and offer is only printed.
pub record PositionInfo (R : Type 0) : Type 0 where
  pub position : ℤ
  pub real_pnl : R
  pub unreal_pnl : R
  pub total_pnl : R
  pub open_vwap : ℕ → R
  pub volume : ℕ

-- `client_response->side_ == Side::BUY ? Side::SELL : Side::BUY`
abbrev pub opposite_of : Side → Side
opposite_of Side.buy = Side.sell
opposite_of Side.sell = Side.buy
opposite_of Side.invalid = Side.buy

-- `position_ += exec_qty_ * side_value`, in 64 bits without a sign.
abbrev pub position_moved : ℤ → Side → ℕ → ℤ
position_moved position side qty =
    to_int32 ((to_unsigned position + qty * side_to_value side % 2 ^ 64) % 2 ^ 64)

-- `sideToValue()` has no sign, so the product is at least 0 for every fill.
abbrev pub is_increase : ℤ → Side → Bool
is_increase old_position side = leb 0 (to_unsigned old_position * side_to_value side % 2 ^ 64)

abbrev pub both_valid : Bbo → Bool
both_valid b =
    not (same_price b.bid_price price_invalid) && not (same_price b.ask_price price_invalid)

module _ {R : Type 0} ⦃d : Doubles R⦄ where
  abbrev pub set_vwap : ℕ → R → PositionInfo R → PositionInfo R
  set_vwap i v p = record p { open_vwap = λ j. if j == i then v else p.open_vwap j }

  unfoldable pub increase : ClientResponse → PositionInfo R → Outcome (PositionInfo R)
  increase r p = do
    value ← int64 (r.price *ℤ pos r.exec_qty)
    done (
        set_vwap (side_to_index r.side)
          (d.add (p.open_vwap (side_to_index r.side)) (d.of_int value)) p)

  unfoldable pub flip : ClientResponse → ℤ → PositionInfo R → Outcome (PositionInfo R)
  flip r old_position p = do
    product ← int32 (p.position *ℤ old_position)
    if ltb_ℤ product (pos 0)
        then (do
          size ← abs32 p.position
          value ← int64 (r.price *ℤ size)
          done (
              set_vwap (side_to_index (opposite_of r.side)) (d.of_int (pos 0))
                (set_vwap (side_to_index r.side) (d.of_int value) p)))
        else done p

  unfoldable pub decrease : ClientResponse → ℤ → PositionInfo R → Outcome (PositionInfo R)
  decrease r old_position p = do
    old_size ← abs32 old_position
    size ← abs32 p.position
    let opp = side_to_index (opposite_of r.side)
    let opp_side_vwap = d.div (p.open_vwap opp) (d.of_int old_size)
    let closed =
        d.mul (d.of_int (min_ℤ (to_int32 r.exec_qty) old_size))
          (d.sub opp_side_vwap (d.of_int r.price))
    flip r old_position (
        set_vwap opp (d.mul opp_side_vwap (d.of_int size)) (record p {
          real_pnl = d.add p.real_pnl (d.mul closed (d.of_int (pos (side_to_value r.side))));
        }))

  -- The profit of the open position at a price.
  unfoldable pub unrealised : R → PositionInfo R → Outcome R
  unrealised price p = do
    size ← abs32 p.position
    let n = d.of_int size
    if ltb_ℤ (pos 0) p.position
        then done (d.mul (d.sub price (d.div (p.open_vwap (side_to_index Side.buy)) n)) n)
        else done (d.mul (d.sub (d.div (p.open_vwap (side_to_index Side.sell)) n) price) n)

  unfoldable pub revalue : ClientResponse → PositionInfo R → Outcome (PositionInfo R)
  revalue r p =
      let zero = d.of_int (pos 0) in
      if is_zero p.position
      then done
          (record (set_vwap (side_to_index Side.buy) zero
            (set_vwap (side_to_index Side.sell) zero p)) { unreal_pnl = zero })
      else (unrealised (d.of_int r.price) p >>= λ v. done (record p { unreal_pnl = v }))

  unfoldable pub add_fill : ClientResponse → PositionInfo R → Outcome (PositionInfo R)
  add_fill r p = do
    let p₁ = record p {
      position = position_moved p.position r.side r.exec_qty;
      volume = (p.volume + r.exec_qty) % 2 ^ 32;
    }
    p₂ ← if is_increase p.position r.side then increase r p₁ else decrease r p.position p₁
    p₃ ← revalue r p₂
    done (record p₃ { total_pnl = d.add p₃.unreal_pnl p₃.real_pnl })

  unfoldable pub position_update_bbo : Bbo → PositionInfo R → Outcome (PositionInfo R)
  position_update_bbo b p =
      if not (is_zero p.position) && both_valid b
      then (do
        sum ← int64 (b.bid_price +ℤ b.ask_price)
        v ← unrealised (d.mul (d.of_int sum) d.half) p
        done (record p { unreal_pnl = v; total_pnl = d.add v p.real_pnl }))
      else done p

-- `ticker_position_.at(ticker_id)`; an instrument beyond the array ends the process.
abbrev pub PositionKeeper : Type 0 → Type 0
PositionKeeper R = ℕ → PositionInfo R

module _ {R : Type 0} ⦃d : Doubles R⦄ where
  unfoldable pub at_position :
      ℕ
      → (PositionInfo R → Outcome (PositionInfo R))
      → PositionKeeper R
      → Outcome (PositionKeeper R)
  at_position ticker_id change k =
      if ltb ticker_id me_max_tickers
      then (change (k ticker_id) >>= λ p. done (λ t. if t == ticker_id then p else k t))
      else exits
