-- ===== src/MarketData/Consumer/Queued.antt =====
-- trading/market_data/market_data_consumer.cpp, `checkSnapshotSync`: its two loops, against queues
-- without a gap.
use hft_system.Base.{
  ℕ, ◌+◌, ◌^◌, ◌≤◌, ◌<◌, ◌≡◌, refl, subst, Bool, true, false, some, List, [], ◌∷◌, ◌==◌, ltb,
  if◌then◌else◌, arith, Bool-cases, Option-cases, inl, inr,
}
use native.Mathlib.Nat.{mod-le}
use hft_system.Common.LfQueue.{add_size}
use hft_system.Common.Ring.{All}
use hft_system.MarketData.Updates.{MarketUpdate}
use hft_system.MarketData.Consumer.{
  QueuedMarketUpdates, snapshot_events, incremental_events, add_event,
}

-- The keys of a map rise.
abbrev pub IsRising : QueuedMarketUpdates → Type 0
IsRising [] = Unit
IsRising (e ∷ es) = All (λ (f : ℕ × MarketUpdate). e.0 < f.0) es × IsRising es

-- Numbered from `next` on, without a gap.
abbrev pub IsNumbered : ℕ → QueuedMarketUpdates → Type 0
IsNumbered next [] = Unit
IsNumbered next (e ∷ es) = (e.0 ≡ next) × IsNumbered (add_size next 1) es

-- The updates without the marks of a snapshot's ends.
abbrev pub events : QueuedMarketUpdates → List MarketUpdate
events [] = []
events (e ∷ es) = add_event e.1 (events es)

-- The number after the last.
abbrev pub after : ℕ → QueuedMarketUpdates → ℕ
after next [] = next
after next (e ∷ es) = after (add_size next 1) es

-- The entries numbered `next` or higher.
unfoldable pub newer : ℕ → QueuedMarketUpdates → QueuedMarketUpdates
newer next [] = []
newer next (e ∷ es) = if ltb e.0 next then newer next es else e ∷ es

pub snapshot_events-numbered :
    (next : ℕ) (es : QueuedMarketUpdates)
    → IsNumbered next es
    → snapshot_events next es ≡ some (events es)
unfolding snapshot_events
snapshot_events-numbered next [] h = refl
snapshot_events-numbered next (e ∷ es) h =
    let rest = snapshot_events-numbered (add_size next 1) es h.1 in
    let here : (e.0 == next) ≡ true = ground (arith, h.0) in rw (rest, here)

pub snapshot_events-some :
    (next : ℕ) (es : QueuedMarketUpdates) {us : List MarketUpdate}
    → snapshot_events next es ≡ some us
    → IsNumbered next es
unfolding snapshot_events
snapshot_events-some next [] h = tt
snapshot_events-some next (e ∷ es) h = elim (Bool-cases (e.0 == next)) [
  | inl here ↦ elim (Option-cases (snapshot_events (add_size next 1) es)) [
    | inl gap ↦ absurd (ground (arith, here, gap))
    | inr (rest, more) ↦ (ground (arith, here), snapshot_events-some (add_size next 1) es more)
  ]
  | inr there ↦ absurd (ground (arith, there))
]

-- Nothing in a rising queue falls behind a number that has been reached.
above-next :
    (next : ℕ) (es : QueuedMarketUpdates)
    → All (λ (f : ℕ × MarketUpdate). next < f.0) es
    → newer (add_size next 1) es ≡ es
unfolding newer
above-next next [] h = refl
above-next next (e ∷ es) h =
    let wraps : add_size next 1 ≤ next + 1 = mod-le (next + 1) (2 ^ 64) in
    let stays : ltb e.0 (add_size next 1) ≡ false = ground (arith, h.0, wraps) in rw stays

pub incremental_events-numbered :
    (next : ℕ) (es : QueuedMarketUpdates)
    → IsRising es
    → IsNumbered next (newer next es)
    → incremental_events next es ≡ record {
      complete = true;
      next_exp = after next (newer next es);
      events = events (newer next es);
    }
unfolding incremental_events newer
incremental_events-numbered next [] r h = refl
incremental_events-numbered next (e ∷ es) r h = elim (Bool-cases (ltb e.0 next)) [
  | inl old ↦ rw old (
      incremental_events-numbered next es r.1
        (subst (λ (b : Bool). IsNumbered next (if b then newer next es else e ∷ es)) old h))
  | inr new ↦
      let h' : IsNumbered next (e ∷ es) =
        subst (λ (b : Bool). IsNumbered next (if b then newer next es else e ∷ es)) new h in
      let here : (e.0 == next) ≡ true = ground (arith, h'.0) in
      let all_newer =
        above-next next es (subst (λ n. All (λ (f : ℕ × MarketUpdate). n < f.0) es) h'.0 r.0) in
      let rest = incremental_events-numbered (add_size next 1) es r.1 (rw all_newer h'.1) in
      rw (new, here, rest, all_newer)
]

pub incremental_events-complete :
    (next : ℕ) (es : QueuedMarketUpdates)
    → IsRising es
    → (incremental_events next es).complete ≡ true
    → IsNumbered next (newer next es)
unfolding incremental_events newer
incremental_events-complete next [] r h = tt
incremental_events-complete next (e ∷ es) r h = elim (Bool-cases (ltb e.0 next)) [
  | inl old ↦ rw old (incremental_events-complete next es r.1 (ground (arith, old, h)))
  | inr new ↦ elim (Bool-cases (e.0 == next)) [
    | inl here ↦
        let at : e.0 ≡ next = ground (arith, here) in
        let all_newer =
          above-next next es (subst (λ n. All (λ (f : ℕ × MarketUpdate). n < f.0) es) at r.0) in
        rw (new) (
          at,
          subst (λ (fs : QueuedMarketUpdates). IsNumbered (add_size next 1) fs) all_newer
              (incremental_events-complete (add_size next 1) es r.1 (ground (arith, new, here, h))),
        )
    | inr there ↦ absurd (ground (arith, new, there, h))
  ]
]
