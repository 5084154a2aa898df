-- ===== src/MarketData/PublisherTests.antt =====
-- A publisher with two updates queued.
use hft_system.Base.{ℕ, ◌≡◌, List, [], ◌∷◌, ◌++◌, map, replicate, arith, done}
use hft_system.Base.Int.{pos}
use hft_system.Common.Types.{Side}
use hft_system.Common.LfQueue.{LfQueue}
use hft_system.Common.LfQueue.Inv.{IsValid}
use hft_system.Common.LfQueue.Fifo.{contents}
use hft_system.MarketData.Updates.{MarketUpdateType, MarketUpdate, MdpMarketUpdate}
use hft_system.MarketData.Consumer.Stream.{IsStream, number_after}
use hft_system.MarketData.Publisher.{Publisher, with_number, publish_queued}
use hft_system.MarketData.Publisher.Numbered.{push_each, publish_queued-IsStream}

abbrev update : ℕ → MarketUpdate
update order_id = record {
  type = MarketUpdateType.add;
  order_id = order_id;
  ticker_id = 3;
  side = Side.buy;
  price = pos 100;
  qty = 5;
  priority = 1;
}

abbrev two_queued : LfQueue MarketUpdate
two_queued = record {
  store = update 20 ∷ update 18 ∷ update 19 ∷ update 17 ∷ [];
  next_write_index = 1;
  next_read_index = 3;
  num_elements = 2;
}

two_queued-IsValid : IsValid two_queued
two_queued-IsValid = omega arith

abbrev publisher : Publisher
publisher = record {
  next_inc_seq_num = 7;
  outgoing_md_updates = two_queued;
  snapshot_md_updates = record {
    store = replicate 4 (with_number 0 (update 0));
    next_write_index = 0;
    next_read_index = 0;
    num_elements = 0;
  };
  sent = [];
}

publish_queued-IsStream_example :
    (m' : Publisher) × (rs : List MdpMarketUpdate) × (publish_queued 3 publisher ≡ done m')
    × (m'.sent ≡ [] ++ rs)
    × IsStream 7 rs
    × (map (λ (r : MdpMarketUpdate). r.me_market_update) rs ≡ contents two_queued)
    × (m'.next_inc_seq_num ≡ number_after 7 rs)
    × (m'.snapshot_md_updates ≡ push_each publisher.snapshot_md_updates rs)
    × (m'.outgoing_md_updates.num_elements ≡ 0)
publish_queued-IsStream_example =
    publish_queued-IsStream 3 publisher two_queued-IsValid (omega arith)
