-- ===== src/MarketData/Consumer/Stream.antt =====
-- trading/market_data/market_data_consumer.cpp, `recvCallback`: what one update and a run of updates do.
use hft_system.Base.{
  ℕ, ◌≡◌, ◌≢◌, refl, ap, ◌∙◌, Bool, true, false, List, [], ◌∷◌, ◌==◌, arith, map, Bool-cases, inl,
  inr, ◌⊎◌, Outcome, done, ◌>>=◌,
}
use hft_system.Common.LfQueue.{push, add_size}
use hft_system.MarketData.Updates.{MdpMarketUpdate}
use hft_system.MarketData.Consumer.{
  Consumer, push_all, queue_message, start_snapshot_sync, on_update,
}
use hft_system.MarketData.Consumer.Queued.{IsRising}
use hft_system.MarketData.Consumer.Intake.{Recovers, queue_message-Recovers}

-- Numbered from `next` on, without a gap.
abbrev pub IsStream : ℕ → List MdpMarketUpdate → Type 0
IsStream next [] = Unit
IsStream next (r ∷ rs) = (r.seq_num ≡ next) × IsStream (add_size next 1) rs

abbrev pub number_after : ℕ → List MdpMarketUpdate → ℕ
number_after next [] = next
number_after next (r ∷ rs) = number_after (add_size next 1) rs

module _ (joins : Bool) (read_update : List ℕ → MdpMarketUpdate) where
  -- With the increments queued in rising order, an update of either stream met in a recovery, or one with
  -- an unexpected number where the snapshot group can be joined, is taken in without fault. It is in the
  -- queue of its stream, with all that was queued before if a recovery was on and else alone; a
  -- snapshot queued before goes if the update is of a snapshot and it held its number. From these queues the consumer has recovered, if they
  -- are complete, or it waits: it is recovering, has passed nothing on, has all the increments, and has
  -- dropped the queued snapshot only if it is of no use. The queued increments rise.
  pub on_update-Recovers :
      (is_snapshot : Bool) (r : MdpMarketUpdate) (s : Consumer)
      → IsRising s.incremental_queued_msgs
      → (s.in_recovery ≡ true) ⊎ ((r.seq_num ≢ s.next_exp_inc_seq_num) × (joins ≡ true))
      → (s' : Consumer) × (on_update joins read_update is_snapshot r s ≡ done s')
        × Recovers is_snapshot r s s'
        × IsRising s'.incremental_queued_msgs
  unfolding on_update start_snapshot_sync
  on_update-Recovers is_snapshot r s rising why = elim (Bool-cases s.in_recovery) [
    | inl already ↦
        let (a, b) =
          queue_message-Recovers is_snapshot r s (record s { in_recovery = true }) rising
            (record {
              recovering = refl;
              joined = rw already;
              silent = refl;
              expects = refl;
              snapshot = rw already;
              increments = rw already;
            }) in
        (queue_message is_snapshot r (record s { in_recovery = true }), rw already, a, b)
    | inr passing ↦ elim why [
      | inl already ↦ absurd (ground (arith, passing, already))
      | inr (gap, joined) ↦
          let differs : (r.seq_num == s.next_exp_inc_seq_num) ≡ false = ground (arith, gap) in
          let s₁ : Consumer = record s {
            in_recovery = true;
            snapshot_queued_msgs = [];
            incremental_queued_msgs = [];
            snapshot_joined = true;
          } in
          let (a, b) = queue_message-Recovers is_snapshot r s s₁ tt (record {
            recovering = refl;
            joined = rw passing;
            silent = refl;
            expects = refl;
            snapshot = rw passing;
            increments = rw passing;
          }) in
          (queue_message is_snapshot r s₁, rw (passing, differs, joined), a, b)
    ]
  ]

  -- The incremental stream, update by update.
  abbrev pub on_updates : List MdpMarketUpdate → Consumer → Outcome Consumer
  on_updates [] s = done s
  on_updates (r ∷ rs) s = on_update joins read_update false r s >>= λ s'. on_updates rs s'

  pub on_update-passes :
      (r : MdpMarketUpdate) (s : Consumer)
      → s.in_recovery ≡ false
      → r.seq_num ≡ s.next_exp_inc_seq_num
      → on_update joins read_update false r s
        ≡ done (record s {
          in_recovery = false;
          next_exp_inc_seq_num = add_size s.next_exp_inc_seq_num 1;
          incoming_md_updates = push s.incoming_md_updates r.me_market_update;
        })
  unfolding on_update
  on_update-passes r s passing next =
      let same : (r.seq_num == s.next_exp_inc_seq_num) ≡ true = ground (arith, next) in
      rw (passing, same)

  -- Outside a recovery, a stream numbered from the expected number on without a gap is passed on whole and
  -- in order, starts no recovery, and moves the expected number past it.
  pub on_updates-push_all :
      (rs : List MdpMarketUpdate) (s : Consumer)
      → s.in_recovery ≡ false
      → IsStream s.next_exp_inc_seq_num rs
      → (s' : Consumer) × (on_updates rs s ≡ done s')
        × (s'.in_recovery ≡ false)
        × (s'.next_exp_inc_seq_num ≡ number_after s.next_exp_inc_seq_num rs)
        × (s'.incoming_md_updates
            ≡ push_all s.incoming_md_updates (map (λ (r : MdpMarketUpdate). r.me_market_update) rs))
  unfolding push_all
  on_updates-push_all [] s passing h = (s, refl, passing, refl, refl)
  on_updates-push_all (r ∷ rs) s passing h =
      let s₁ : Consumer = record s {
        in_recovery = false;
        next_exp_inc_seq_num = add_size s.next_exp_inc_seq_num 1;
        incoming_md_updates = push s.incoming_md_updates r.me_market_update;
      } in
      let (s', ok, off, number, pushed) = on_updates-push_all rs s₁ refl h.1 in
      (
        s',
        ap (λ o. o >>= λ t. on_updates rs t) (on_update-passes r s passing h.0) ∙ ok,
        off,
        number,
        pushed,
      )
