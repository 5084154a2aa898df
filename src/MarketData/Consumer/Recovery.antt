-- ===== src/MarketData/Consumer/Recovery.antt =====
-- trading/market_data/market_data_consumer.cpp: when a recovery ends, and what it passes on.
use hft_system.Base.{
  ℕ, ◌≡◌, refl, arith, sym, subst, ap, ◌∙◌, true, false, none, some, List, [], ◌∷◌, ◌++◌,
  Bool-cases, Option-cases, inl, inr, ◌⊎◌,
}
use hft_system.Common.LfQueue.{add_size}
use hft_system.MarketData.Updates.{MarketUpdate, is_start, is_end}
use hft_system.MarketData.Consumer.{
  Consumer, QueuedMarketUpdates, Incrementals, snapshot_events, incremental_events, push_all,
  last_update, finish_recovery, check_gathered, check_queued, check_snapshot_sync,
}
use hft_system.MarketData.Consumer.Queued.{
  IsRising, IsNumbered, events, after, newer, snapshot_events-numbered, snapshot_events-some,
  incremental_events-numbered, incremental_events-complete,
}

-- The number of the first update that a snapshot does not hold.
abbrev pub resume : ℕ × MarketUpdate → QueuedMarketUpdates → ℕ
resume e es = add_size (last_update e.1 es).order_id 1

-- The queues hold a whole snapshot, and every update after it up to the newest one queued.
pub record IsComplete (s : Consumer) (e : ℕ × MarketUpdate) (es : QueuedMarketUpdates)
    : Type 0 where
  pub queued : s.snapshot_queued_msgs ≡ e ∷ es
  pub starts : is_start e.1.type ≡ true
  pub numbered : IsNumbered 0 (e ∷ es)
  pub ends : is_end (last_update e.1 es).type ≡ true
  pub follows : IsNumbered (resume e es) (newer (resume e es) s.incremental_queued_msgs)

-- What a consumer is after it recovered.
abbrev pub recovered : ℕ × MarketUpdate → QueuedMarketUpdates → Consumer → Consumer
recovered e es s =
    let fresh = newer (resume e es) s.incremental_queued_msgs in
    record s {
      next_exp_inc_seq_num = after (resume e es) fresh;
      incoming_md_updates = push_all s.incoming_md_updates (events (e ∷ es) ++ events fresh);
      snapshot_queued_msgs = [];
      incremental_queued_msgs = [];
      in_recovery = false;
      snapshot_joined = false;
    }

check_queued-started :
    (e : ℕ × MarketUpdate) (es : QueuedMarketUpdates) (s : Consumer)
    → is_start e.1.type ≡ true
    → check_queued (e ∷ es) s ≡ check_gathered (snapshot_events 0 (e ∷ es)) (last_update e.1 es) s
unfolding check_queued
check_queued-started e es s h = rw h

check_gathered-ended :
    (us : List MarketUpdate) (u : MarketUpdate) (s : Consumer)
    → is_end u.type ≡ true
    → check_gathered (some us) u s ≡ finish_recovery us u s
unfolding check_gathered
check_gathered-ended us u s h = rw h

-- Where the queues are complete and the increments rise, the snapshot's orders are passed on, then the
-- updates that follow it; the consumer expects the number after the last of them, and its recovery ends
-- with empty queues.
pub check_snapshot_sync-recovers :
    (s : Consumer) (e : ℕ × MarketUpdate) (es : QueuedMarketUpdates)
    → IsRising s.incremental_queued_msgs
    → IsComplete s e es
    → check_snapshot_sync s ≡ recovered e es s
unfolding check_snapshot_sync finish_recovery
check_snapshot_sync-recovers s e es rising c =
    let incs =
      incremental_events-numbered (resume e es) s.incremental_queued_msgs rising c.follows in
    ap (λ q. check_queued q s) c.queued
    ∙ check_queued-started e es s c.starts
    ∙ ap (λ us. check_gathered us (last_update e.1 es) s)
        (snapshot_events-numbered 0 (e ∷ es) c.numbered)
    ∙ check_gathered-ended (events (e ∷ es)) (last_update e.1 es) s c.ends
    ∙ rw incs

-- A part of a snapshot that may still become whole.
abbrev pub IsPartial : QueuedMarketUpdates → Type 0
IsPartial [] = Unit
IsPartial (e ∷ es) =
    (is_start e.1.type ≡ true) × IsNumbered 0 (e ∷ es) × (is_end (last_update e.1 es).type ≡ false)

-- A queued snapshot of no use: its start or a number is missing, or it has its end and the queued
-- increments do not follow it.
abbrev pub IsBroken : QueuedMarketUpdates → QueuedMarketUpdates → Type 0
IsBroken [] incs = true ≡ false
IsBroken (e ∷ es) incs =
    (is_start e.1.type ≡ false)
    ⊎ (¬ IsNumbered 0 (e ∷ es))
    ⊎ ((is_end (last_update e.1 es).type ≡ true)
        × (¬ IsNumbered (resume e es) (newer (resume e es) incs)))

-- Still recovering: nothing was passed on, no queued increment was dropped, and the queued snapshot was
-- kept, if it is a part, or dropped, if it is of no use.
pub record Waits (s s' : Consumer) : Type 0 where
  pub recovering : s'.in_recovery ≡ s.in_recovery
  pub silent : s'.incoming_md_updates ≡ s.incoming_md_updates
  pub increments : s'.incremental_queued_msgs ≡ s.incremental_queued_msgs
  pub snapshot :
      ((s'.snapshot_queued_msgs ≡ s.snapshot_queued_msgs) × IsPartial s.snapshot_queued_msgs)
      ⊎ ((s'.snapshot_queued_msgs ≡ []) × IsBroken s.snapshot_queued_msgs s.incremental_queued_msgs)

finish_recovery-Waits :
    (us : List MarketUpdate) (u : MarketUpdate) (s : Consumer)
    → (incremental_events (add_size u.order_id 1) s.incremental_queued_msgs).complete ≡ false
    → IsBroken s.snapshot_queued_msgs s.incremental_queued_msgs
    → Waits s (finish_recovery us u s)
unfolding finish_recovery
finish_recovery-Waits us u s h broken =
    rw h (record {
      recovering = refl;
      silent = refl;
      increments = refl;
      snapshot = inr (refl, broken);
    })

keeps-Waits : (s : Consumer) → IsPartial s.snapshot_queued_msgs → Waits s s
keeps-Waits s part = record {
  recovering = refl;
  silent = refl;
  increments = refl;
  snapshot = inl (refl, part);
}

drops-Waits :
    (s : Consumer)
    → IsBroken s.snapshot_queued_msgs s.incremental_queued_msgs
    → Waits s (record s { snapshot_queued_msgs = [] })
drops-Waits s broken = record {
  recovering = refl;
  silent = refl;
  increments = refl;
  snapshot = inr (refl, broken);
}

-- The queues are complete, or the check of them waits.
Completes : Consumer → Consumer → Type 0
Completes s s' =
    ((e : ℕ × MarketUpdate) × (es : QueuedMarketUpdates) × IsComplete s e es) ⊎ Waits s s'

gap-IsNumbered :
    (next : ℕ) (es : QueuedMarketUpdates) → snapshot_events next es ≡ none → ¬ IsNumbered next es
gap-IsNumbered next es gap numbered =
    absurd (ground (arith, gap, snapshot_events-numbered next es numbered))

incomplete-IsNumbered :
    (next : ℕ) (es : QueuedMarketUpdates)
    → IsRising es
    → (incremental_events next es).complete ≡ false
    → ¬ IsNumbered next (newer next es)
incomplete-IsNumbered next es rising gap follows = absurd (
    ground (
      arith,
      gap,
      ap (λ (i : Incrementals). i.complete) (incremental_events-numbered next es rising follows),
    ))

check_gathered-Waits :
    (s : Consumer) (e : ℕ × MarketUpdate) (es : QueuedMarketUpdates)
    → IsRising s.incremental_queued_msgs
    → s.snapshot_queued_msgs ≡ e ∷ es
    → is_start e.1.type ≡ true
    → Completes s (check_gathered (snapshot_events 0 (e ∷ es)) (last_update e.1 es) s)
unfolding Completes check_gathered
check_gathered-Waits s e es rising queued starts =
    let broken : IsBroken (e ∷ es) s.incremental_queued_msgs
        → IsBroken s.snapshot_queued_msgs s.incremental_queued_msgs =
      λ b. subst (λ q. IsBroken q s.incremental_queued_msgs) (sym queued) b in
    elim (Option-cases (snapshot_events 0 (e ∷ es))) [
      | inl gap ↦ rw gap (inr (drops-Waits s (broken (inr (inl (gap-IsNumbered 0 (e ∷ es) gap))))))
      | inr (us, some_us) ↦ elim (Bool-cases (is_end (last_update e.1 es).type)) [
        | inl ends ↦
            elim (Bool-cases
              (incremental_events (resume e es) s.incremental_queued_msgs).complete) [
                | inl whole ↦ inl (
                  e,
                  es,
                  record {
                    queued = queued;
                    starts = starts;
                    numbered = snapshot_events-some 0 (e ∷ es) some_us;
                    ends = ends;
                    follows =
                        incremental_events-complete (resume e es) s.incremental_queued_msgs rising
                          whole;
                  },
                )
                | inr gap ↦
                    let missing =
                      incomplete-IsNumbered (resume e es) s.incremental_queued_msgs rising gap in
                    rw (some_us, ends)
                      (inr (
                        finish_recovery-Waits us (last_update e.1 es) s gap
                          (broken (inr (inr (ends, missing))))))
              ]
        | inr more ↦
            let part =
              subst (λ q. IsPartial q) (sym queued)
                (starts, snapshot_events-some 0 (e ∷ es) some_us, more) in
            rw (some_us, more) (inr (keeps-Waits s part))
      ]
    ]

check_queued-Waits :
    (s : Consumer) (q : QueuedMarketUpdates)
    → IsRising s.incremental_queued_msgs
    → s.snapshot_queued_msgs ≡ q
    → Completes s (check_queued q s)
unfolding Completes check_queued
check_queued-Waits s [] rising queued =
    inr (keeps-Waits s (subst (λ q. IsPartial q) (sym queued) tt))
check_queued-Waits s (e ∷ es) rising queued = elim (Bool-cases (is_start e.1.type)) [
  | inl starts ↦ rw starts (check_gathered-Waits s e es rising queued starts)
  | inr other ↦ rw other (
      inr (
        drops-Waits s (subst (λ q. IsBroken q s.incremental_queued_msgs) (sym queued) (inl other))))
]

-- With the increments queued in rising order, a check of the queues finds them complete, or passes nothing
-- on, leaves the recovery state and the queued increments as they were, and keeps the queued snapshot if it
-- is a part without a gap that has no end yet, and drops it if its start or a number is missing, or if the
-- queued increments do not follow it.
pub check_snapshot_sync-Waits :
    (s : Consumer)
    → IsRising s.incremental_queued_msgs
    → ((e : ℕ × MarketUpdate) × (es : QueuedMarketUpdates) × IsComplete s e es)
      ⊎ Waits s (check_snapshot_sync s)
unfolding check_snapshot_sync Completes
check_snapshot_sync-Waits s rising = check_queued-Waits s s.snapshot_queued_msgs rising refl
