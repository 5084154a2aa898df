-- ===== src/MarketData/Consumer/Receive.antt =====
-- trading/market_data/market_data_consumer.cpp, `recvCallback`: the loop over a socket's buffer.
use hft_system.Base.{
  ℕ, zero, suc, ◌≤◌, ◌<◌, ◌≡◌, ap, ◌∙◌, Bool, true, false, not, ◌&&◌, List, [], ◌==◌, leb, arith,
  length, length-drop, take, drop, Bool-cases, inl, inr, done,
}
use hft_system.Common.LfQueue.{push, add_size}
use hft_system.MarketData.Updates.{MdpMarketUpdate}
use hft_system.MarketData.Consumer.{Consumer, on_update, take_updates, recv_callback}
use hft_system.MarketData.Consumer.Queued.{IsRising}
use hft_system.MarketData.Consumer.Stream.{on_update-Recovers, on_update-passes}

module _ (joins : Bool) (read_update : List ℕ → MdpMarketUpdate) where
  -- Any update leaves a consumer with its queue in order.
  on_update-IsRising :
      (is_snapshot : Bool) (r : MdpMarketUpdate) (s : Consumer)
      → joins ≡ true
      → IsRising s.incremental_queued_msgs
      → (s' : Consumer) × (on_update joins read_update is_snapshot r s ≡ done s')
        × IsRising s'.incremental_queued_msgs
  unfolding on_update
  on_update-IsRising is_snapshot r s joined rising = elim (Bool-cases s.in_recovery) [
    | inl already ↦
        let (s', ok, _, still) =
          on_update-Recovers joins read_update is_snapshot r s rising (inl already) in
        (s', ok, still)
    | inr passing ↦ elim (Bool-cases (r.seq_num == s.next_exp_inc_seq_num)) [
      | inl next ↦ elim (Bool-cases is_snapshot) [
        | inl snapshot ↦ (record s { in_recovery = false }, rw (snapshot, passing, next), rising)
        | inr incremental ↦
            let passes = on_update-passes joins read_update r s passing (ground (arith, next)) in
            (
              record s {
                in_recovery = false;
                next_exp_inc_seq_num = add_size s.next_exp_inc_seq_num 1;
                incoming_md_updates = push s.incoming_md_updates r.me_market_update;
              },
              ap (λ b. on_update joins read_update b r s) incremental ∙ passes,
              rising,
            )
      ]
      | inr gap ↦
          let (s', ok, _, still) =
            on_update-Recovers joins read_update is_snapshot r s rising
              (inr ((λ e. ground (arith, e, gap)), joined)) in
          (s', ok, still)
    ]
  ]

  take_updates-done :
      (fuel : ℕ) (is_snapshot : Bool) (bytes : List ℕ) (s : Consumer)
      → joins ≡ true
      → IsRising s.incremental_queued_msgs
      → length bytes < fuel
      → (rest : List ℕ) × (s' : Consumer) × (take_updates joins read_update fuel is_snapshot bytes s
          ≡ done (rest, s'))
        × (length rest < 42)
        × IsRising s'.incremental_queued_msgs
  unfolding take_updates
  take_updates-done zero is_snapshot bytes s joined rising enough = absurd (omega arith)
  take_updates-done (suc fuel) is_snapshot bytes s joined rising enough =
      elim (Bool-cases (leb 42 (length bytes))) [
        | inl whole ↦
            let (s₁, ok₁, rising₁) =
              on_update-IsRising is_snapshot (read_update (take 42 bytes)) s joined rising in
            let shorter = length-drop 42 bytes in
            let fits : 42 ≤ length bytes = ground (arith, whole) in
            let (rest, s', ok, few, rising') =
              take_updates-done fuel is_snapshot (drop 42 bytes) s₁ joined rising₁ (omega arith) in
            (rest, s', rw (whole, ok₁) ok, few, rising')
        | inr part ↦ (bytes, s, rw part, ground (arith, part), rising)
      ]

  -- Where the snapshot group can be joined and the increments are queued in rising order, the callback
  -- returns on any buffer, leaves less than one update in it, and keeps the order of the queue.
  pub recv_callback-done :
      (is_snapshot : Bool) (inbound : List ℕ) (s : Consumer)
      → joins ≡ true
      → IsRising s.incremental_queued_msgs
      → (rest : List ℕ) × (s' : Consumer) × (recv_callback joins read_update is_snapshot inbound s
          ≡ done (rest, s'))
        × (length rest < 42)
        × IsRising s'.incremental_queued_msgs
  unfolding recv_callback
  recv_callback-done is_snapshot inbound s joined rising =
      elim (Bool-cases (is_snapshot && not s.in_recovery)) [
        | inl unexpected ↦ ([], s, rw unexpected, omega arith, rising)
        | inr expected ↦
            let (rest, s', ok, few, rising') =
              take_updates-done (suc (length inbound)) is_snapshot inbound s joined rising
                (omega arith) in
            (rest, s', rw expected ok, few, rising')
      ]
