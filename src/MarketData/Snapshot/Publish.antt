-- ===== src/MarketData/Snapshot/Publish.antt =====
-- exchange/market_data/snapshot_synthesizer.cpp, `publishSnapshot`, and the participant that takes the
-- snapshot in.
use hft_system.Base.{
  ℕ, ◌+◌, ◌≡◌, refl, sym, ap, ◌∙◌, subst, false, Option, none, some, List, [], ◌∷◌, ◌++◌, map,
  arith, done,
}
use hft_system.Common.LfQueue.{add_size}
use hft_system.Common.MemPool.{MemPool, live}
use hft_system.Common.MemPool.Access.{load-live}
use hft_system.Common.Ring.{All}
use hft_system.MarketData.Updates.{
  MarketUpdateType, MarketUpdate, MdpMarketUpdate, is_start, is_end,
}
use hft_system.MarketData.Consumer.{
  Consumer, QueuedMarketUpdates, push_all, last_update, check_snapshot_sync,
}
use hft_system.MarketData.Consumer.Queued.{IsRising, IsNumbered, events, after, newer}
use hft_system.MarketData.Consumer.Recovery.{IsComplete, check_snapshot_sync-recovers}
use hft_system.MarketData.Consumer.Stream.{IsStream, number_after}
use hft_system.MarketData.Snapshot.{
  Synthesizer, mark, clear_of, numbered, publish_orders, publish_tickers, publish_snapshot,
}

abbrev pub payloads : List MdpMarketUpdate → List MarketUpdate
payloads rs = map (λ (r : MdpMarketUpdate). r.me_market_update) rs

abbrev pub before : Option MarketUpdate → List MarketUpdate → List MarketUpdate
before none us = us
before (some u) us = u ∷ us

-- The orders that an array points to.
abbrev pub contents : MemPool MarketUpdate → List (Option ℕ) → List MarketUpdate
contents p [] = []
contents p (none ∷ orders) = contents p orders
contents p (some i ∷ orders) = before (live p i) (contents p orders)

-- Each ticker's book from empty.
abbrev pub book_updates : MemPool MarketUpdate → ℕ → List (List (Option ℕ)) → List MarketUpdate
book_updates p ticker_id [] = []
book_updates p ticker_id (orders ∷ more) =
    clear_of ticker_id ∷ contents p orders ++ book_updates p (ticker_id + 1) more

-- The pointers lead to orders in use.
abbrev pub IsHeld : MemPool MarketUpdate → List (Option ℕ) → Type 0
IsHeld p [] = Unit
IsHeld p (none ∷ orders) = IsHeld p orders
IsHeld p (some i ∷ orders) = ((u : MarketUpdate) × (live p i ≡ some u)) × IsHeld p orders

payloads-append : (xs ys : List MdpMarketUpdate) → payloads (xs ++ ys) ≡ payloads xs ++ payloads ys
payloads-append [] ys = refl
payloads-append (x ∷ xs) ys = ap (◌∷◌ x.me_market_update) (payloads-append xs ys)

IsStream-append :
    (n : ℕ) (xs ys : List MdpMarketUpdate)
    → IsStream n xs
    → IsStream (number_after n xs) ys
    → IsStream n (xs ++ ys)
IsStream-append n [] ys h k = k
IsStream-append n (x ∷ xs) ys h k = (h.0, IsStream-append (add_size n 1) xs ys h.1 k)

number_after-append :
    (n : ℕ) (xs ys : List MdpMarketUpdate)
    → number_after n (xs ++ ys) ≡ number_after (number_after n xs) ys
number_after-append n [] ys = refl
number_after-append n (x ∷ xs) ys = number_after-append (add_size n 1) xs ys

-- What was sent from number `n` on: these updates, without a gap, up to number `size`.
record Sends (n : ℕ) (us : List MarketUpdate) (sent : List MdpMarketUpdate) (size : ℕ)
    : Type 0 where
  carried : payloads sent ≡ us
  stream : IsStream n sent
  ends : number_after n sent ≡ size

module _ (p : MemPool MarketUpdate) where
  publish_orders-Sends :
      (n : ℕ) (orders : List (Option ℕ))
      → IsHeld p orders
      → (sent : List MdpMarketUpdate) × (size : ℕ) × (publish_orders p n orders ≡ done (sent, size))
        × Sends n (contents p orders) sent size
  unfolding publish_orders
  publish_orders-Sends n [] h = ([], n, refl, record { carried = refl; stream = tt; ends = refl })
  publish_orders-Sends n (none ∷ orders) h = publish_orders-Sends n orders h
  publish_orders-Sends n (some i ∷ orders) h =
      let (sent, size, ok, s) = publish_orders-Sends (add_size n 1) orders h.1 in
      (
        numbered n h.0.0 ∷ sent,
        size,
        rw (load-live p i h.0.1, ok),
        record {
          carried = rw h.0.1 (ap (◌∷◌ h.0.0) s.carried);
          stream = (refl, s.stream);
          ends = s.ends;
        },
      )

  publish_tickers-Sends :
      (n ticker_id : ℕ) (tickers : List (List (Option ℕ)))
      → All (IsHeld p) tickers
      → (sent : List MdpMarketUpdate) × (size : ℕ) × (publish_tickers p n ticker_id tickers
          ≡ done (sent, size))
        × Sends n (book_updates p ticker_id tickers) sent size
  unfolding publish_tickers
  publish_tickers-Sends n t [] h =
      ([], n, refl, record { carried = refl; stream = tt; ends = refl })
  publish_tickers-Sends n t (orders ∷ more) h =
      let (sent, size, ok, s) = publish_orders-Sends (add_size n 1) orders h.0 in
      let (rest, size', ok', s') = publish_tickers-Sends size (t + 1) more h.1 in
      (
        numbered n (clear_of t) ∷ sent ++ rest,
        size',
        rw (ok, ok'),
        record {
          carried = ap (◌∷◌ (clear_of t)) (payloads-append sent rest ∙ rw (s.carried, s'.carried));
          stream = (refl, IsStream-append (add_size n 1) sent rest s.stream (rw s.ends s'.stream));
          ends = number_after-append (add_size n 1) sent rest ∙ rw s.ends s'.ends;
        },
      )

abbrev pub start_of : Synthesizer → MdpMarketUpdate
start_of s = numbered 0 (mark MarketUpdateType.snapshot_start s.last_inc_seq_num)

abbrev pub end_of : Synthesizer → MarketUpdate
end_of s = mark MarketUpdateType.snapshot_end s.last_inc_seq_num

-- The start mark, the body, and the end mark numbered after it.
body_lem :
    (s : Synthesizer)
    → All (IsHeld s.order_pool) s.ticker_orders
    → (body : List MdpMarketUpdate) × (size : ℕ) × (publish_snapshot s
        ≡ done (start_of s ∷ body ++ numbered size (end_of s) ∷ []))
      × Sends 1 (book_updates s.order_pool 0 s.ticker_orders) body size
unfolding publish_snapshot
body_lem s held =
    let (body, size, ok, sends) = publish_tickers-Sends s.order_pool 1 0 s.ticker_orders held in
    (body, size, rw ok, sends)

whole-IsStream :
    (body : List MdpMarketUpdate) (size : ℕ) (us : List MarketUpdate) (first last : MarketUpdate)
    → Sends 1 us body size
    → IsStream 0 (numbered 0 first ∷ body ++ numbered size last ∷ [])
whole-IsStream body size us first last sends =
    (refl, IsStream-append 1 body (numbered size last ∷ []) sends.stream (sym sends.ends, tt))

-- A snapshot of orders in use is sent whole: the start mark, for each ticker a clear and its orders,
-- and the end mark, numbered from 0 without a gap.
pub publish_snapshot-IsStream :
    (s : Synthesizer)
    → All (IsHeld s.order_pool) s.ticker_orders
    → (sent : List MdpMarketUpdate) × (publish_snapshot s ≡ done sent)
      × IsStream 0 sent
      × (payloads sent
          ≡ mark MarketUpdateType.snapshot_start s.last_inc_seq_num
              ∷ book_updates s.order_pool 0 s.ticker_orders
            ++ mark MarketUpdateType.snapshot_end s.last_inc_seq_num ∷ [])
publish_snapshot-IsStream s held =
    let (body, size, ok, sends) = body_lem s held in
    (
      start_of s ∷ body ++ numbered size (end_of s) ∷ [],
      ok,
      whole-IsStream body size _ (start_of s).me_market_update (end_of s) sends,
      ap (◌∷◌ (start_of s).me_market_update) (
          payloads-append body (numbered size (end_of s) ∷ [])
          ∙ ap (λ us. us ++ end_of s ∷ []) sends.carried),
    )

-- The messages as the entries of the consumer's map.
abbrev pub entries : List MdpMarketUpdate → QueuedMarketUpdates
entries [] = []
entries (r ∷ rs) = (r.seq_num, r.me_market_update) ∷ entries rs

abbrev pub IsOrder : MarketUpdate → Type 0
IsOrder u = (is_start u.type ≡ false) × (is_end u.type ≡ false)

entries-IsNumbered : (n : ℕ) (rs : List MdpMarketUpdate) → IsStream n rs → IsNumbered n (entries rs)
entries-IsNumbered n [] h = tt
entries-IsNumbered n (r ∷ rs) h = (h.0, entries-IsNumbered (add_size n 1) rs h.1)

last_update-entries :
    (u : MarketUpdate) (rs : List MdpMarketUpdate) (n : ℕ) (v : MarketUpdate)
    → last_update u (entries (rs ++ numbered n v ∷ [])) ≡ v
last_update-entries u [] n v = refl
last_update-entries u (r ∷ rs) n v = last_update-entries r.me_market_update rs n v

events-entries :
    (rs : List MdpMarketUpdate) (us : List MarketUpdate) (n i : ℕ)
    → payloads rs ≡ us
    → All IsOrder (payloads rs)
    → events (entries (rs ++ numbered n (mark MarketUpdateType.snapshot_end i) ∷ [])) ≡ us
events-entries [] us n i e h = e
events-entries (r ∷ rs) us n i e h =
    rw (h.0.0, h.0.1)
      (ap (◌∷◌ r.me_market_update) (events-entries rs (payloads rs) n i refl h.1) ∙ e)

-- Take a snapshot published of orders in use, none of which has the type of a snapshot's mark. A
-- participant whose queue holds it, and whose queued increments rise and have no gap after the number that
-- it was taken at, passes on each ticker's clear and orders and then those increments, and goes on from
-- the number after them.
pub publish_snapshot-recovers :
    (s : Synthesizer) (c : Consumer) (sent : List MdpMarketUpdate)
    → All (IsHeld s.order_pool) s.ticker_orders
    → All IsOrder (book_updates s.order_pool 0 s.ticker_orders)
    → publish_snapshot s ≡ done sent
    → c.snapshot_queued_msgs ≡ entries sent
    → IsRising c.incremental_queued_msgs
    → IsNumbered
        (add_size s.last_inc_seq_num 1)
        (newer (add_size s.last_inc_seq_num 1) c.incremental_queued_msgs)
    → check_snapshot_sync c ≡ record c {
      next_exp_inc_seq_num =
          after
            (add_size s.last_inc_seq_num 1)
            (newer (add_size s.last_inc_seq_num 1) c.incremental_queued_msgs);
      incoming_md_updates = push_all c.incoming_md_updates (
          book_updates s.order_pool 0 s.ticker_orders
          ++ events (newer (add_size s.last_inc_seq_num 1) c.incremental_queued_msgs));
      snapshot_queued_msgs = [];
      incremental_queued_msgs = [];
      in_recovery = false;
      snapshot_joined = false;
    }
publish_snapshot-recovers s c sent held orders ok queued rising follows =
    let (body, size, ok', sends) = body_lem s held in
    let same : sent ≡ start_of s ∷ body ++ numbered size (end_of s) ∷ [] =
      ground (arith, ok, ok') in
    let rest = entries (body ++ numbered size (end_of s) ∷ []) in
    let last : last_update (start_of s).me_market_update rest ≡ end_of s =
      last_update-entries _ body size (end_of s) in
    let carried =
      events-entries body _ size s.last_inc_seq_num sends.carried
        (subst (λ us. All IsOrder us) (sym sends.carried) orders) in
    let complete : IsComplete c (0, (start_of s).me_market_update) rest = record {
      queued = queued ∙ ap entries same;
      starts = refl;
      numbered =
          entries-IsNumbered 0 (start_of s ∷ body ++ numbered size (end_of s) ∷ [])
            (whole-IsStream body size _ (start_of s).me_market_update (end_of s) sends);
      ends = ap (λ (u : MarketUpdate). is_end u.type) last;
      follows = rw last follows;
    } in
    check_snapshot_sync-recovers c (0, (start_of s).me_market_update) rest rising complete
    ∙ rw (last, carried)
