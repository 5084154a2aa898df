-- ===== src/MarketData/Publisher.antt =====
-- exchange/market_data/market_data_publisher.h and .cpp, `run`: the market updates of the matching engine
-- are numbered and sent, and copied to the snapshot synthesizer.
pub mod Numbered
use hft_system.Base.{
  ℕ, zero, suc, Bool, Option, none, some, List, [], ◌∷◌, ◌++◌, ◌==◌, if◌then◌else◌, get_elem?,
  Outcome, done, undefined, ◌>>=◌, defined,
}
use hft_system.Common.LfQueue.{LfQueue, add_size, get_next_to_read, size, update_read_index, push}
use hft_system.MarketData.Updates.{MarketUpdate, MdpMarketUpdate}

-- The members of `MarketDataPublisher` that its loop uses, and what it has sent.
pub record Publisher : Type 0 where
  pub next_inc_seq_num : ℕ
  pub outgoing_md_updates : LfQueue MarketUpdate
  pub snapshot_md_updates : LfQueue MdpMarketUpdate
  pub sent : List MdpMarketUpdate

abbrev pub with_number : ℕ → MarketUpdate → MdpMarketUpdate
with_number seq_num u = record { seq_num = seq_num; me_market_update = u }

-- The body of the loop. The copy is read after the slot was given back.
unfoldable pub publish_one : ℕ → Publisher → Outcome Publisher
publish_one i m = do
  market_update ← defined (get_elem? m.outgoing_md_updates.store i)
  q ← update_read_index m.outgoing_md_updates
  copy ← defined (get_elem? q.store i)
  done (record {
    next_inc_seq_num = add_size m.next_inc_seq_num 1;
    outgoing_md_updates = q;
    snapshot_md_updates = push m.snapshot_md_updates (with_number m.next_inc_seq_num copy);
    sent = m.sent ++ with_number m.next_inc_seq_num market_update ∷ [];
  })

-- The loop over the updates queued, with no writer at work.
unfoldable pub publish_queued : ℕ → Publisher → Outcome Publisher
publish_queued zero m = undefined
publish_queued (suc fuel) m = elim (get_next_to_read m.outgoing_md_updates) [
  | none ↦ done m
  | some i ↦
      if size m.outgoing_md_updates == 0
      then done m
      else (publish_one i m >>= λ m'. publish_queued fuel m')
]
