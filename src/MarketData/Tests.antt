-- ===== src/MarketData/Tests.antt =====
-- A consumer that lost an update, a snapshot that brings it up to date, and a stream without a gap.
use hft_system.Base.{
  ℕ, ◌<◌, ◌≡◌, refl, ◌⊎◌, inr, true, false, none, some, List, [], ◌∷◌, ◌++◌, arith, length,
  replicate, done,
}
use hft_system.Base.Int.{pos}
use hft_system.Common.Types.{Side}
use hft_system.Common.LfQueue.{LfQueue}
use hft_system.Common.MemPool.{live, load}
use hft_system.Common.Ring.{All}
use hft_system.MarketData.Snapshot.{
  Synthesizer, publish_snapshot, publish_tickers, publish_orders, clear_of, mark,
}
use hft_system.MarketData.Snapshot.Publish.{
  payloads, book_updates, entries, IsHeld, IsOrder, publish_snapshot-IsStream,
  publish_snapshot-recovers,
}
use hft_system.MarketData.Consumer.Stream.{IsStream}
use hft_system.MarketData.Updates.{MarketUpdateType, MarketUpdate, MdpMarketUpdate}
use hft_system.MarketData.Consumer.{
  Consumer, QueuedMarketUpdates, check_snapshot_sync, on_update, recv_callback, push_all,
}
use hft_system.MarketData.Consumer.Queued.{IsRising, newer, after, events}
use hft_system.MarketData.Consumer.Recovery.{
  IsComplete, recovered, Waits, check_snapshot_sync-recovers, check_snapshot_sync-Waits,
}
use hft_system.MarketData.Consumer.Stream.{on_update-Recovers, on_updates, on_updates-push_all}
use hft_system.MarketData.Consumer.Intake.{Recovers}
use hft_system.MarketData.Consumer.Receive.{recv_callback-done}

abbrev update : MarketUpdateType → ℕ → MarketUpdate
update type order_id = record {
  type = type;
  order_id = order_id;
  ticker_id = 0;
  side = Side.buy;
  price = pos 100;
  qty = 10;
  priority = 1;
}

abbrev start : ℕ × MarketUpdate
start = (0, update MarketUpdateType.snapshot_start 5)

abbrev rest : QueuedMarketUpdates
rest = (1, update MarketUpdateType.add 31) ∷ (2, update MarketUpdateType.snapshot_end 5) ∷ []

abbrev increments : QueuedMarketUpdates
increments =
    (4, update MarketUpdateType.add 32)
    ∷ (6, update MarketUpdateType.cancel 31)
    ∷ (7, update MarketUpdateType.add 33)
    ∷ []

abbrev queue : LfQueue MarketUpdate
queue = record {
  store = replicate 8 (update MarketUpdateType.invalid 0);
  next_write_index = 0;
  next_read_index = 0;
  num_elements = 0;
}

abbrev recovering : Consumer
recovering = record {
  next_exp_inc_seq_num = 4;
  incoming_md_updates = queue;
  in_recovery = true;
  snapshot_queued_msgs = start ∷ rest;
  incremental_queued_msgs = increments;
  snapshot_joined = true;
}

abbrev passing : Consumer
passing = record recovering {
  in_recovery = false;
  snapshot_queued_msgs = [];
  incremental_queued_msgs = [];
  snapshot_joined = false;
}

abbrev added : ℕ → MdpMarketUpdate
added n = record { seq_num = n; me_market_update = update MarketUpdateType.add n }

-- The first byte as the number.
abbrev read_number : List ℕ → MdpMarketUpdate
read_number [] = added 0
read_number (b ∷ bs) = added b

increments-IsRising : IsRising increments
increments-IsRising = ((omega arith, (omega arith, tt)), ((omega arith, tt), (tt, tt)))

recovering-IsComplete : IsComplete recovering start rest
unfolding newer
recovering-IsComplete = record {
  queued = refl;
  starts = refl;
  numbered = (refl, (refl, (refl, tt)));
  ends = refl;
  follows = (refl, (refl, tt));
}

check_snapshot_sync-recovers_example :
    check_snapshot_sync recovering ≡ recovered start rest recovering
check_snapshot_sync-recovers_example =
    check_snapshot_sync-recovers recovering start rest increments-IsRising recovering-IsComplete

-- The snapshot's order, then the two updates that follow it.
recovered_events :
    (recovered start rest recovering).incoming_md_updates
    ≡ push_all queue (
        update MarketUpdateType.add 31
        ∷ update MarketUpdateType.cancel 31
        ∷ update MarketUpdateType.add 33
        ∷ [])
unfolding newer push_all
recovered_events = refl

check_snapshot_sync-Waits_example :
    ((e : ℕ × MarketUpdate) × (es : QueuedMarketUpdates) × IsComplete recovering e es)
    ⊎ Waits recovering (check_snapshot_sync recovering)
check_snapshot_sync-Waits_example = check_snapshot_sync-Waits recovering increments-IsRising

on_update-Recovers_example :
    (s' : Consumer) × (on_update true read_number false (added 6) passing ≡ done s')
    × Recovers false (added 6) passing s'
    × IsRising s'.incremental_queued_msgs
on_update-Recovers_example =
    on_update-Recovers true read_number false (added 6) passing tt (inr (omega arith, refl))

on_updates-push_all_example :
    (s' : Consumer) × (on_updates true read_number (added 4 ∷ added 5 ∷ []) passing ≡ done s')
    × (s'.in_recovery ≡ false)
    × (s'.next_exp_inc_seq_num ≡ 6)
    × (s'.incoming_md_updates
        ≡ push_all queue (update MarketUpdateType.add 4 ∷ update MarketUpdateType.add 5 ∷ []))
on_updates-push_all_example =
    on_updates-push_all true read_number (added 4 ∷ added 5 ∷ []) passing refl (refl, (refl, tt))

recv_callback-done_example :
    (left : List ℕ) × (s' : Consumer) × (recv_callback true read_number false
        (replicate 50 4)
        passing
      ≡ done (left, s'))
    × (length left < 42)
    × IsRising s'.incremental_queued_msgs
recv_callback-done_example =
    recv_callback-done true read_number false (replicate 50 4) passing refl tt

-- Two tickers with one order each.
abbrev synthesizer : Synthesizer
synthesizer = record {
  ticker_orders = (none ∷ some 1 ∷ []) ∷ (some 0 ∷ none ∷ []) ∷ [];
  last_inc_seq_num = 5;
  order_pool = record {
    store =
        record { object = update MarketUpdateType.add 0; is_free = false }
        ∷ record { object = update MarketUpdateType.add 1; is_free = false }
        ∷ record { object = update MarketUpdateType.invalid 0; is_free = true }
        ∷ [];
    next_free_index = 2;
  };
}

abbrev messages : List MdpMarketUpdate
messages =
    record { seq_num = 0; me_market_update = mark MarketUpdateType.snapshot_start 5 }
    ∷ record { seq_num = 1; me_market_update = clear_of 0 }
    ∷ record { seq_num = 2; me_market_update = update MarketUpdateType.add 1 }
    ∷ record { seq_num = 3; me_market_update = clear_of 1 }
    ∷ record { seq_num = 4; me_market_update = update MarketUpdateType.add 0 }
    ∷ record { seq_num = 5; me_market_update = mark MarketUpdateType.snapshot_end 5 }
    ∷ []

published : publish_snapshot synthesizer ≡ done messages
unfolding publish_snapshot publish_tickers publish_orders load
published = refl

All-IsHeld : All (IsHeld synthesizer.order_pool) synthesizer.ticker_orders
unfolding live
All-IsHeld = (((_, refl), tt), (((_, refl), tt), tt))

All-IsOrder : All IsOrder (book_updates synthesizer.order_pool 0 synthesizer.ticker_orders)
unfolding live
All-IsOrder = ((refl, refl), ((refl, refl), ((refl, refl), ((refl, refl), tt))))

publish_snapshot-IsStream_example :
    (sent : List MdpMarketUpdate) × (publish_snapshot synthesizer ≡ done sent)
    × IsStream 0 sent
    × (payloads sent
        ≡ mark MarketUpdateType.snapshot_start 5
            ∷ book_updates synthesizer.order_pool 0 synthesizer.ticker_orders
          ++ mark MarketUpdateType.snapshot_end 5 ∷ [])
publish_snapshot-IsStream_example = publish_snapshot-IsStream synthesizer All-IsHeld

abbrev joined : Consumer
joined = record recovering { snapshot_queued_msgs = entries messages }

publish_snapshot-recovers_example : check_snapshot_sync joined ≡ record joined {
  next_exp_inc_seq_num = after 6 (newer 6 increments);
  incoming_md_updates = push_all queue (
      book_updates synthesizer.order_pool 0 synthesizer.ticker_orders
      ++ events (newer 6 increments));
  snapshot_queued_msgs = [];
  incremental_queued_msgs = [];
  in_recovery = false;
  snapshot_joined = false;
}
unfolding newer
publish_snapshot-recovers_example =
    publish_snapshot-recovers synthesizer joined messages All-IsHeld All-IsOrder published refl
      increments-IsRising (refl, (refl, tt))
