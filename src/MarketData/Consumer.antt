-- ===== src/MarketData/Consumer.antt =====
-- trading/market_data/market_data_consumer.h and .cpp: the incremental stream is passed on while its
-- sequence numbers have no gap, and after a gap a snapshot and the queued increments are put together.
pub mod Queued
pub mod Recovery
pub mod Intake
pub mod Stream
pub mod Receive
use hft_system.Base.{
  ℕ, zero, suc, ◌+◌, ◌≡◌, Bool, true, false, not, ◌&&◌, ◌||◌, Option, none, some, List, [], ◌∷◌,
  ◌++◌, ◌==◌, ltb, leb, if◌then◌else◌, length, take, drop, Outcome, done, undefined, ◌>>=◌, ◌>>◌,
  assert,
}
use hft_system.Common.LfQueue.{LfQueue, push, add_size}
use hft_system.MarketData.Updates.{MarketUpdate, MdpMarketUpdate, is_start, is_end}

-- `std::map<size_t, MEMarketUpdate>`, in the order of its keys.
abbrev pub QueuedMarketUpdates : Type 0
QueuedMarketUpdates = List (ℕ × MarketUpdate)

-- `msgs[seq_num] = update`
unfoldable pub insert_or_assign : ℕ → MarketUpdate → QueuedMarketUpdates → QueuedMarketUpdates
insert_or_assign k u [] = (k, u) ∷ []
insert_or_assign k u (e ∷ es) =
    if ltb k e.0
    then (k, u) ∷ e ∷ es
    else if k == e.0
    then (k, u) ∷ es
    else e ∷ insert_or_assign k u es

abbrev pub contains : ℕ → QueuedMarketUpdates → Bool
contains k [] = false
contains k (e ∷ es) = (k == e.0) || contains k es

-- The members of `MarketDataConsumer` that change, and whether the snapshot stream is joined.
pub record Consumer : Type 0 where
  pub next_exp_inc_seq_num : ℕ
  pub incoming_md_updates : LfQueue MarketUpdate
  pub in_recovery : Bool
  pub snapshot_queued_msgs : QueuedMarketUpdates
  pub incremental_queued_msgs : QueuedMarketUpdates
  pub snapshot_joined : Bool

-- The marks of a snapshot's ends are no events.
abbrev pub add_event : MarketUpdate → List MarketUpdate → List MarketUpdate
add_event u events = if not (is_start u.type) && not (is_end u.type) then u ∷ events else events

-- The loop over the queued snapshot; none where a number is missing.
unfoldable pub snapshot_events : ℕ → QueuedMarketUpdates → Option (List MarketUpdate)
snapshot_events next [] = some []
snapshot_events next (e ∷ es) =
    let rest = snapshot_events (add_size next 1) es in
    if e.0 == next
    then elim rest [ none ↦ none | some events ↦ some (add_event e.1 events) ]
    else none

pub record Incrementals : Type 0 where
  pub complete : Bool
  pub next_exp : ℕ
  pub events : List MarketUpdate

-- The loop over the queued increments, from the number that follows the snapshot.
unfoldable pub incremental_events : ℕ → QueuedMarketUpdates → Incrementals
incremental_events next [] = record { complete = true; next_exp = next; events = [] }
incremental_events next (e ∷ es) =
    let skipped = incremental_events next es in
    let taken = incremental_events (add_size next 1) es in
    if ltb e.0 next
    then skipped
    else if e.0 == next
    then record taken { events = add_event e.1 taken.events }
    else record { complete = false; next_exp = next; events = [] }

-- `for (const auto &itr: final_events)`
unfoldable pub push_all : LfQueue MarketUpdate → List MarketUpdate → LfQueue MarketUpdate
push_all q [] = q
push_all q (u ∷ us) = push_all (push q u) us

-- `rbegin()->second`
abbrev pub last_update : MarketUpdate → QueuedMarketUpdates → MarketUpdate
last_update u [] = u
last_update u (e ∷ es) = last_update e.1 es

-- A complete snapshot is joined with the queued increments.
unfoldable pub finish_recovery : List MarketUpdate → MarketUpdate → Consumer → Consumer
finish_recovery snapshot last_snapshot_msg s =
    let incs =
      incremental_events (add_size last_snapshot_msg.order_id 1) s.incremental_queued_msgs in
    if incs.complete
    then record s {
      next_exp_inc_seq_num = incs.next_exp;
      incoming_md_updates = push_all s.incoming_md_updates (snapshot ++ incs.events);
      snapshot_queued_msgs = [];
      incremental_queued_msgs = [];
      in_recovery = false;
      snapshot_joined = false;
    }
    else record s { next_exp_inc_seq_num = incs.next_exp; snapshot_queued_msgs = [] }

unfoldable pub check_gathered : Option (List MarketUpdate) → MarketUpdate → Consumer → Consumer
check_gathered none last_snapshot_msg s = record s { snapshot_queued_msgs = [] }
check_gathered (some snapshot) last_snapshot_msg s =
    if is_end last_snapshot_msg.type then finish_recovery snapshot last_snapshot_msg s else s

unfoldable pub check_queued : QueuedMarketUpdates → Consumer → Consumer
check_queued [] s = s
check_queued (e ∷ es) s =
    if is_start e.1.type
    then check_gathered (snapshot_events 0 (e ∷ es)) (last_update e.1 es) s
    else record s { snapshot_queued_msgs = [] }

unfoldable pub check_snapshot_sync : Consumer → Consumer
check_snapshot_sync s = check_queued s.snapshot_queued_msgs s

unfoldable pub queue_message : Bool → MdpMarketUpdate → Consumer → Consumer
queue_message is_snapshot request s =
    let seen =
      if contains request.seq_num s.snapshot_queued_msgs then [] else s.snapshot_queued_msgs in
    check_snapshot_sync (
      if is_snapshot
      then record s {
        snapshot_queued_msgs = insert_or_assign request.seq_num request.me_market_update seen;
      }
      else record s {
        incremental_queued_msgs =
            insert_or_assign request.seq_num request.me_market_update s.incremental_queued_msgs;
      })

-- `joins` is what opening and joining the multicast group answers, and `read_update` the cast of the
-- bytes of the buffer to an update.
module _ (joins : Bool) (read_update : List ℕ → MdpMarketUpdate) where
  unfoldable pub start_snapshot_sync : Consumer → Outcome Consumer
  start_snapshot_sync s = do
    assert joins
    done (record s {
      snapshot_queued_msgs = [];
      incremental_queued_msgs = [];
      snapshot_joined = true;
    })

  -- The body of the loop in `recvCallback`.
  unfoldable pub on_update : Bool → MdpMarketUpdate → Consumer → Outcome Consumer
  on_update is_snapshot request s =
      let already_in_recovery = s.in_recovery in
      let in_recovery = already_in_recovery || not (request.seq_num == s.next_exp_inc_seq_num) in
      let s₁ = record s { in_recovery = in_recovery } in
      if in_recovery
      then (do
        s₂ ← if already_in_recovery then done s₁ else start_snapshot_sync s₁
        done (queue_message is_snapshot request s₂))
      else if is_snapshot
      then done s₁
      else done (record s₁ {
        next_exp_inc_seq_num = add_size s₁.next_exp_inc_seq_num 1;
        incoming_md_updates = push s₁.incoming_md_updates request.me_market_update;
      })

  -- `sizeof(MDPMarketUpdate)`, which is packed.
  abbrev pub update_size : ℕ
  update_size = 42

  -- `for (; i + sizeof(MDPMarketUpdate) <= next_rcv_valid_index_; i += sizeof(MDPMarketUpdate))`, on
  -- fuel; the bytes from i on are left.
  unfoldable pub take_updates : ℕ → Bool → List ℕ → Consumer → Outcome (List ℕ × Consumer)
  take_updates zero is_snapshot bytes s = undefined
  take_updates (suc fuel) is_snapshot bytes s =
      if leb update_size (length bytes)
      then (on_update is_snapshot (read_update (take update_size bytes)) s >>= λ s'.
          take_updates fuel is_snapshot (drop update_size bytes) s')
      else done (bytes, s)

  -- `inbound` are the valid bytes of the socket's buffer.
  unfoldable pub recv_callback : Bool → List ℕ → Consumer → Outcome (List ℕ × Consumer)
  recv_callback is_snapshot inbound s =
      if is_snapshot && not s.in_recovery
      then done ([], s)
      else take_updates (suc (length inbound)) is_snapshot inbound s
