-- ===== src/MarketData/Consumer/Intake.antt =====
-- trading/market_data/market_data_consumer.cpp, `queueMessage`: the queues with an update in, and what the
-- check of them comes to.
use hft_system.Base.{
  ℕ, ◌<◌, ◌≡◌, ◌≢◌, refl, sym, ap, ◌∙◌, subst, Bool, true, false, Option, none, some, if◌then◌else◌,
  [], ◌∷◌, ◌==◌, ltb, arith, Bool-cases, Option-cases, inl, inr, ◌⊎◌,
}
use hft_system.Common.Ring.{All, All-map}
use hft_system.MarketData.Updates.{MarketUpdate, MdpMarketUpdate}
use hft_system.MarketData.Consumer.{
  Consumer, QueuedMarketUpdates, check_snapshot_sync, queue_message, insert_or_assign, contains,
}
use hft_system.MarketData.Consumer.Queued.{IsRising}
use hft_system.MarketData.Consumer.Recovery.{
  IsComplete, recovered, Waits, check_snapshot_sync-recovers, check_snapshot_sync-Waits,
}

insert_or_assign-All {κ} :
    (P : ℕ × MarketUpdate → Type κ) (k : ℕ) (u : MarketUpdate) (es : QueuedMarketUpdates)
    → P (k, u)
    → All P es
    → All P (insert_or_assign k u es)
unfolding insert_or_assign
insert_or_assign-All P k u [] h a = (h, tt)
insert_or_assign-All P k u (e ∷ es) h a = elim (Bool-cases (ltb k e.0)) [
  | inl less ↦ rw less (h, a)
  | inr more ↦ elim (Bool-cases (k == e.0)) [
    | inl same ↦ rw (more, same) (h, a.1)
    | inr other ↦ rw (more, other) (a.0, insert_or_assign-All P k u es h a.1)
  ]
]

pub insert_or_assign-IsRising :
    (k : ℕ) (u : MarketUpdate) (es : QueuedMarketUpdates)
    → IsRising es
    → IsRising (insert_or_assign k u es)
unfolding insert_or_assign
insert_or_assign-IsRising k u [] r = (tt, tt)
insert_or_assign-IsRising k u (e ∷ es) r = elim (Bool-cases (ltb k e.0)) [
  | inl less ↦ rw less (
    (
      ground (arith, less),
      All-map _ (λ (f : ℕ × MarketUpdate). k < f.0) es (λ f h. ground (arith, less, h)) r.0,
    ),
    r,
  )
  | inr more ↦ elim (Bool-cases (k == e.0)) [
    | inl same ↦
        rw (more, same)
          (
            All-map _ (λ (f : ℕ × MarketUpdate). k < f.0) es (λ f h. ground (arith, same, h)) r.0,
            r.1,
          )
    | inr other ↦
        rw (more, other)
          (
            insert_or_assign-All (λ (f : ℕ × MarketUpdate). e.0 < f.0) k u es
                (ground (arith, more, other)) r.0,
            insert_or_assign-IsRising k u es r.1,
          )
  ]
]

-- The first update with the number `k`.
abbrev pub find : ℕ → QueuedMarketUpdates → Option MarketUpdate
find k [] = none
find k (e ∷ es) = if k == e.0 then some e.1 else find k es

find-insert_or_assign :
    (j k : ℕ) (u : MarketUpdate) (es : QueuedMarketUpdates)
    → find j (insert_or_assign k u es) ≡ (if j == k then some u else find j es)
unfolding insert_or_assign
find-insert_or_assign j k u [] = refl
find-insert_or_assign j k u (e ∷ es) = elim (Bool-cases (ltb k e.0)) [
  | inl less ↦ rw less
  | inr more ↦ elim (Bool-cases (k == e.0)) [
    | inl same ↦ rw (more, same) (ground (arith, same))
    | inr other ↦ rw (more, other) (ground (arith, other, find-insert_or_assign j k u es))
  ]
]

-- A queued snapshot that held a number before it came once more is of no use.
abbrev pub unless_held : Option MarketUpdate → Option MarketUpdate → Option MarketUpdate
unless_held none u = u
unless_held (some v) u = none

holds : (k : ℕ) (es : QueuedMarketUpdates) → contains k es ≡ true → find k es ≢ none
holds k (e ∷ es) held missing = elim (Bool-cases (k == e.0)) [
  | inl here ↦ ground (arith, here, missing)
  | inr there ↦ holds k es (ground (arith, there, held)) (ground (arith, there, missing))
]
holds k [] held missing = ground (arith, held)

absent : (k : ℕ) (es : QueuedMarketUpdates) → contains k es ≡ false → find k es ≡ none
absent k [] fresh = refl
absent k (e ∷ es) fresh = elim (Bool-cases (k == e.0)) [
  | inl here ↦ absurd (ground (arith, here, fresh))
  | inr there ↦ rw there (absent k es (ground (arith, there, fresh)))
]

find-seen :
    (j k : ℕ) (es : QueuedMarketUpdates)
    → find j (if contains k es then [] else es) ≡ unless_held (find k es) (find j es)
find-seen j k es = elim (Bool-cases (contains k es)) [
  | inl held ↦ elim (Option-cases (find k es)) [
    | inl missing ↦ absurd (holds k es held missing)
    | inr (u, found) ↦ rw (held, found)
  ]
  | inr fresh ↦ rw (fresh, absent k es fresh)
]

-- What was queued before an update: nothing if it begins the recovery.
abbrev pub held_over : Bool → QueuedMarketUpdates → QueuedMarketUpdates
held_over already es = if already then es else []

-- The update with the number `j` in the queue of the snapshot, once `r` is in.
abbrev pub snapshot_with : Bool → MdpMarketUpdate → QueuedMarketUpdates → ℕ → Option MarketUpdate
snapshot_with true r es j =
    if j == r.seq_num then some r.me_market_update else unless_held (find r.seq_num es) (find j es)
snapshot_with false r es j = find j es

-- The update with the number `j` in the queue of the increments, once `r` is in.
abbrev pub increments_with : Bool → MdpMarketUpdate → QueuedMarketUpdates → ℕ → Option MarketUpdate
increments_with true r es j = find j es
increments_with false r es j = if j == r.seq_num then some r.me_market_update else find j es

-- `s₀` is `s` in a recovery, with the update in the queue of its stream and all else that was queued.
pub record Takes (is_snapshot : Bool) (r : MdpMarketUpdate) (s s₀ : Consumer) : Type 0 where
  pub recovering : s₀.in_recovery ≡ true
  pub joined : s₀.snapshot_joined ≡ (if s.in_recovery then s.snapshot_joined else true)
  pub silent : s₀.incoming_md_updates ≡ s.incoming_md_updates
  pub expects : s₀.next_exp_inc_seq_num ≡ s.next_exp_inc_seq_num
  pub snapshot :
      (j : ℕ)
      → find j s₀.snapshot_queued_msgs
        ≡ snapshot_with is_snapshot r (held_over s.in_recovery s.snapshot_queued_msgs) j
  pub increments :
      (j : ℕ)
      → find j s₀.incremental_queued_msgs
        ≡ increments_with is_snapshot r (held_over s.in_recovery s.incremental_queued_msgs) j
  pub rises : IsRising s₀.incremental_queued_msgs

-- After `s`: with the update queued, recovered from complete queues, or waiting.
abbrev pub Recovers : Bool → MdpMarketUpdate → Consumer → Consumer → Type 0
Recovers is_snapshot r s s' =
    (s₀ : Consumer) × Takes is_snapshot r s s₀
    × (((e : ℕ × MarketUpdate) × (es : QueuedMarketUpdates) × IsComplete s₀ e es
          × (s' ≡ recovered e es s₀))
        ⊎ Waits s₀ s')

check_snapshot_sync-Recovers :
    (is_snapshot : Bool) (r : MdpMarketUpdate) (s s₀ : Consumer)
    → Takes is_snapshot r s s₀
    → Recovers is_snapshot r s (check_snapshot_sync s₀)
      × IsRising (check_snapshot_sync s₀).incremental_queued_msgs
check_snapshot_sync-Recovers is_snapshot r s s₀ takes =
    elim (check_snapshot_sync-Waits s₀ takes.rises) [
      | inl (e, es, c) ↦
          let ends = check_snapshot_sync-recovers s₀ e es takes.rises c in
          (
            (s₀, takes, inl (e, es, c, ends)),
            subst (λ (t : Consumer). IsRising t.incremental_queued_msgs) (sym ends) tt,
          )
      | inr waits ↦
          ((s₀, takes, inr waits), subst (λ q. IsRising q) (sym waits.increments) takes.rises)
    ]

-- `s₁` is what `s` is when the update is queued.
pub record Begins (s s₁ : Consumer) : Type 0 where
  pub recovering : s₁.in_recovery ≡ true
  pub joined : s₁.snapshot_joined ≡ (if s.in_recovery then s.snapshot_joined else true)
  pub silent : s₁.incoming_md_updates ≡ s.incoming_md_updates
  pub expects : s₁.next_exp_inc_seq_num ≡ s.next_exp_inc_seq_num
  pub snapshot : s₁.snapshot_queued_msgs ≡ held_over s.in_recovery s.snapshot_queued_msgs
  pub increments : s₁.incremental_queued_msgs ≡ held_over s.in_recovery s.incremental_queued_msgs

pub queue_message-Recovers :
    (is_snapshot : Bool) (r : MdpMarketUpdate) (s s₁ : Consumer)
    → IsRising s₁.incremental_queued_msgs
    → Begins s s₁
    → Recovers is_snapshot r s (queue_message is_snapshot r s₁)
      × IsRising (queue_message is_snapshot r s₁).incremental_queued_msgs
unfolding queue_message
queue_message-Recovers true r s s₁ rising b = check_snapshot_sync-Recovers true r s _ (record {
  recovering = b.recovering;
  joined = b.joined;
  silent = b.silent;
  expects = b.expects;
  snapshot = λ j.
      find-insert_or_assign j r.seq_num r.me_market_update _
      ∙ rw (find-seen j r.seq_num s₁.snapshot_queued_msgs, b.snapshot);
  increments = λ j. ap (λ q. find j q) b.increments;
  rises = rising;
})
queue_message-Recovers false r s s₁ rising b = check_snapshot_sync-Recovers false r s _ (record {
  recovering = b.recovering;
  joined = b.joined;
  silent = b.silent;
  expects = b.expects;
  snapshot = λ j. ap (λ q. find j q) b.snapshot;
  increments = λ j. find-insert_or_assign j r.seq_num r.me_market_update _ ∙ rw b.increments;
  rises = insert_or_assign-IsRising r.seq_num r.me_market_update s₁.incremental_queued_msgs rising;
})
