-- ===== src/Lib.antt =====
-- The trading system of this repository: a matching engine and its market data feed (exchange/), a
-- market participant (trading/), and the containers both rest on (utils/).
--
-- Common.LfQueue models utils/lock_free_queue.h. `LfQueue.push` is the writers' idiom around
-- `getNextToWriteTo` and `updateWriteIndex`, `LfQueue.consume` the readers' around `getNextToRead` and
-- `updateReadIndex`. Common.LfQueue.Spsc takes both apart into single accesses of two threads.
-- Common.MemPool models utils/mem_pool.h; pointers are block indices.
--
-- OrderBook.Levels models the price levels of trading/strategy/market_order_book.h:
-- `add_orders_at_price` and `remove_orders_at_price` with the pointer assignments of the source, which
-- Common.Node has for any type with a next and a previous pointer. Common.Ring reads circular lists off
-- such pointers. OrderBook.Levels.Rows is the abstract side: a sorted list of prices with the place of
-- each in the pool. The search of `addOrdersAtPrice` runs on fuel, the size of the pool, which is enough
-- since the levels of a side are different blocks of it.
-- OrderBook.Orders models `addOrder` and `removeOrder`, for any type of order and any array of orders, so
-- that the book of exchange/matcher/me_order_book.h can use it too. OrderBook.Orders.Queues is the
-- abstract book: for each side the queues of its levels, best price first, oldest order first.
-- OrderBook.Market models trading/market_data/market_order.h, `updateBBO`, and `onMarketUpdate` of
-- trading/strategy/market_order_book.cpp, with the call of the trade engine as a value. Its loops run on
-- the size of the pool and one more, which is enough for the same reason; CLEAR runs over the
-- ME_MAX_ORDER_IDS entries of the array.
--
-- Exchange.MeOrderBook models exchange/matcher/me_order.h and me_order_book.h, Exchange.Matching the
-- functions `match` and `checkForMatch` of exchange/matcher/me_order_book.cpp, and Exchange.Requests `add`,
-- `cancel` and `processClientRequest` of matching_engine.h. The responses and market updates sent are a
-- list, in order. Exchange.Matching.Steps has the fills of an order as steps on the queues it faces. The
-- matching loop has a turn of fuel for each block of the pool and one more. `add` calls `removeOrder` on a
-- name that the source does not declare, which is a parameter, and of the two definitions of `cancel` the
-- second is modelled. Exchange.Requests.Passes
-- is the loop of `run` over the queue of requests.
--
-- MarketData.Updates models exchange/market_data/market_update.h, and MarketData.Consumer
-- trading/market_data/market_data_consumer.cpp: `recv_callback` over the bytes of a socket buffer,
-- `on_update` for one update of it, `queue_message` and `check_snapshot_sync` for the recovery from a
-- gap. A `std::map` is a list with rising keys. Joining the multicast group and the cast from bytes to
-- an update are parameters. The loop over the buffer has one step of fuel for each byte and one more.
-- MarketData.Snapshot models `publishSnapshot` of exchange/market_data/snapshot_synthesizer.cpp: what it
-- sends, as a list of messages, which MarketData.Consumer can take in. MarketData.Snapshot.Record models
-- `addToSnapshot`, which a failed assertion or an index out of range ends, and MarketData.Snapshot.Passes
-- a pass of `run`, with the readings of the clock as parameters. MarketData.Publisher models the
-- loop of `run` in exchange/market_data/market_data_publisher.cpp over the updates queued, whose fuel is
-- their number and one more.
-- OrderFlow.Server models the loop body of `recvCallback` of exchange/order_server/order_server.h with
-- `addClientRequest` of exchange/order_server/fifo_sequencer.h. OrderFlow.Server.Clients sets a run of
-- it against each client on its own. OrderFlow.Responses models the loop over responses in
-- `OrderServer::run` and the loop body of `recvCallback` of trading/order_gw/order_gateway.cpp.
-- OrderFlow.Buffer has the loops of both `recvCallback` functions over the bytes of a buffer, with a step
-- of fuel for each byte and one more; the size of a message and the cast of its bytes are parameters.
-- OrderFlow.Sequencer models `sequenceAndPublish` of fifo_sequencer.h, with `std::sort` as a function that
-- permutes and orders by time, and `recvFinishedCallback`; OrderFlow.Sending models `run` of
-- order_gateway.cpp. The readers' loops over a queue are Common.LfQueue.Drain, which has a turn of fuel for
-- each element and one more: they are read for what the queue holds when the loop starts.
--
-- Trading.OrderManager models trading/strategy/om_order.h, order_manager.h and order_manager.cpp, with the
-- risk manager's check as a function and the requests as a list. Trading.OrderManager.Requests has
-- what a pair of quotes sends.
--
-- Trading.Doubles is a record of the operations on `double`, of which only the comparison with NaN is a
-- law, and has the ranges of the signed integers: an overflow is undefined. Trading.Positions models
-- `addFill` and `updateBBO` of trading/strategy/position_keeper.h, Trading.Risk `checkPreTradeRisk` of
-- risk_manager.h, Trading.Features feature_engine.h, and Trading.Strategies market_maker.h and
-- liquidity_taker.h. The configuration types are declared in no file: the model has the fields that are
-- read. Trading.Engine models the handlers of trade_engine.cpp, which tell the positions, the features and
-- the algorithm of what the books and the responses bring, and a pass of its main loop; the order manager's
-- check is the risk manager's on the engine's positions. Trading.Engine.Events has a call of a handler as an
-- event, and Trading.Engine.Runs runs any sequence of them on the engine, whose positions and with
-- them the risk check change on the way. MarketMaker's constructor is defined nowhere, and
-- is taken to install the callbacks as LiquidityTaker's does. Common.AlgoTypes models the names of the
-- algorithm types in utils/types.h.
--
-- Machine integers are natural numbers with their wrap-around written out. `Base.Outcome` tells a
-- normal return, `exit(EXIT_FAILURE)` and undefined behaviour apart. Not modelled are time stamps for
-- measurement, the sockets' system calls and logging: they do not feed back into the state, but that `log`
-- ends the process where a format has fewer or more places than arguments, as the default callbacks of the
-- servers in utils/ do.
pub mod Base
pub mod Common
pub mod OrderBook
pub mod Exchange
pub mod MarketData
pub mod OrderFlow
pub mod Trading
