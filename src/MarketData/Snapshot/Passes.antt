-- ===== src/MarketData/Snapshot/Passes.antt =====
-- exchange/market_data/snapshot_synthesizer.cpp, `run`: a pass over the queue, and a snapshot each minute.
use hft_system.Base.{
  ℕ, ◌+◌, ◌*◌, ◌^◌, ◌≡◌, refl, List, [], ◌++◌, ltb, if◌then◌else◌, Outcome, done, exits, undefined,
  ◌>>=◌,
}
use hft_system.Common.LfQueue.{LfQueue}
use hft_system.Common.LfQueue.Inv.{IsValid}
use hft_system.Common.LfQueue.Fifo.{contents}
use hft_system.Common.LfQueue.Drain.{each, beside, drain_sized, drain_sized-eq, drain-each}
use hft_system.MarketData.Updates.{MdpMarketUpdate}
use hft_system.MarketData.Snapshot.{Synthesizer, publish_snapshot}
use hft_system.MarketData.Snapshot.Record.{add_to_snapshot}

-- `60 * NANOS_TO_SECS`
abbrev pub snapshot_interval : ℕ
snapshot_interval = 60 * 10 ^ 9

-- The members of `SnapshotSynthesizer` that its loop changes, and the messages of all snapshots sent.
pub record Timed : Type 0 where
  pub synthesizer : Synthesizer
  pub last_snapshot_time : ℕ
  pub sent : List MdpMarketUpdate

-- The two readings of the clock, in nanoseconds since its epoch, are `now` and `later`.
unfoldable pub publish_due : ℕ → ℕ → Timed → Outcome Timed
publish_due now later s =
    if ltb (s.last_snapshot_time + snapshot_interval) now
    then (publish_snapshot s.synthesizer >>= λ messages.
        done (record s { last_snapshot_time = later; sent = s.sent ++ messages }))
    else done s

unfoldable pub synthesize_once :
    ℕ → ℕ → LfQueue MdpMarketUpdate → Timed → Outcome (LfQueue MdpMarketUpdate × Timed)
synthesize_once now later snapshot_md_updates s = do
  (q, synthesizer) ← drain_sized add_to_snapshot snapshot_md_updates s.synthesizer
  s' ← publish_due now later (record s { synthesizer = synthesizer })
  done (q, s')

-- A pass over a valid queue takes in all that it holds, in order, and then publishes if a minute is over.
-- Where it returns, the queue is valid and empty.
synthesize_once-each :
    (now later : ℕ) (q : LfQueue MdpMarketUpdate) (s : Timed)
    → IsValid q
    → (q' : LfQueue MdpMarketUpdate) × IsValid q'
      × (contents q' ≡ [])
      × (synthesize_once now later q s
          ≡ beside q' (
              each add_to_snapshot (contents q) s.synthesizer >>= λ synthesizer.
              publish_due now later (record s { synthesizer = synthesizer })))
unfolding synthesize_once
synthesize_once-each now later q s v =
    let (q', v', empty, takes) = drain-each add_to_snapshot q v in
    (
      q',
      v',
      empty,
      rw (drain_sized-eq add_to_snapshot q s.synthesizer v, takes s.synthesizer)
          (rejoin q' (each add_to_snapshot (contents q) s.synthesizer)
            (λ z. publish_due now later (record s { synthesizer = z }))),
    )
  where
    last :
        (q' : LfQueue MdpMarketUpdate) (o : Outcome Timed) → (o >>= λ t. done (q', t)) ≡ beside q' o
    last q' (done t) = refl
    last q' exits = refl
    last q' undefined = refl

    rejoin :
        (q' : LfQueue MdpMarketUpdate) (o : Outcome Synthesizer) (f : Synthesizer → Outcome Timed)
        → (beside q' o >>= λ (r : LfQueue MdpMarketUpdate × Synthesizer).
            f r.1 >>= λ t. done (r.0, t))
          ≡ beside q' (o >>= f)
    rejoin q' (done z) f = last q' (f z)
    rejoin q' exits f = refl
    rejoin q' undefined f = refl
