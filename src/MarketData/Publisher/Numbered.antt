-- ===== src/MarketData/Publisher/Numbered.antt =====
-- exchange/market_data/market_data_publisher.cpp, `run`: what is sent is a stream without a gap.
use hft_system.Base.{
  ℕ, zero, suc, ◌<◌, ◌≡◌, ◌≢◌, refl, sym, ap, ◌∙◌, none, some, List, [], ◌∷◌, ◌++◌, map, append-nil,
  append_assoc, ◌==◌, arith, get_elem?, Option-cases, Bool-cases, inl, inr, done, ◌>>=◌,
}
use hft_system.Common.LfQueue.{LfQueue, add_size, get_next_to_read, size, push, front}
use hft_system.Common.LfQueue.Inv.{IsValid, popped, popped-IsValid, update_read_index-eq-popped}
use hft_system.Common.LfQueue.Fifo.{contents, front-cases, in_store}
use hft_system.MarketData.Updates.{MarketUpdate, MdpMarketUpdate}
use hft_system.MarketData.Consumer.Stream.{IsStream, number_after}
use hft_system.MarketData.Publisher.{Publisher, with_number, publish_one, publish_queued}

-- The writes of several messages.
abbrev pub push_each : LfQueue MdpMarketUpdate → List MdpMarketUpdate → LfQueue MdpMarketUpdate
push_each q [] = q
push_each q (r ∷ rs) = push_each (push q r) rs

read_pointer :
    (q : LfQueue MarketUpdate) (x : MarketUpdate)
    → front q ≡ some x
    → (i : ℕ) × (get_next_to_read q ≡ some i) × (get_elem? q.store i ≡ some x)
unfolding front
read_pointer q x e = elim (Option-cases (get_next_to_read q)) [
  | inl gone ↦ absurd (ground (arith, e, gone))
  | inr (i, at) ↦ (i, at, ground (arith, e, at))
]

no_pointer : (q : LfQueue MarketUpdate) → IsValid q → front q ≡ none → get_next_to_read q ≡ none
unfolding front get_next_to_read
no_pointer q v e = elim (Bool-cases (q.next_read_index == q.next_write_index)) [
  | inl meet ↦ rw meet
  | inr ahead ↦
      let (x, at) = in_store q.store q.next_read_index v.read_in in
      absurd (ground (arith, e, ahead, at))
]

nothing_queued :
    (fuel : ℕ) (m : Publisher)
    → get_next_to_read m.outgoing_md_updates ≡ none
    → publish_queued (suc fuel) m ≡ done m
unfolding publish_queued
nothing_queued fuel m e = ground (arith, e)

one_queued :
    (fuel i : ℕ) (m : Publisher)
    → get_next_to_read m.outgoing_md_updates ≡ some i
    → m.outgoing_md_updates.num_elements ≢ 0
    → publish_queued (suc fuel) m ≡ (publish_one i m >>= λ m'. publish_queued fuel m')
unfolding publish_queued size
one_queued fuel i m e ne = ground (arith, e, ne)

publish_one_lem :
    (i : ℕ) (x : MarketUpdate) (m : Publisher)
    → IsValid m.outgoing_md_updates
    → m.outgoing_md_updates.num_elements ≢ 0
    → get_elem? m.outgoing_md_updates.store i ≡ some x
    → publish_one i m
      ≡ done (record {
        next_inc_seq_num = add_size m.next_inc_seq_num 1;
        outgoing_md_updates = popped m.outgoing_md_updates;
        snapshot_md_updates = push m.snapshot_md_updates (with_number m.next_inc_seq_num x);
        sent = m.sent ++ with_number m.next_inc_seq_num x ∷ [];
      })
unfolding publish_one
publish_one_lem i x m v ne at = rw (at, update_read_index-eq-popped v ne, at)

-- From a valid queue, with no writer at work and fuel for more turns than it holds updates, the loop
-- returns and has taken every update off it. What it sends is a stream
-- from the next number on without a gap, which carries the updates in their order, and the snapshot
-- synthesizer's queue is given the same messages.
pub publish_queued-IsStream :
    (fuel : ℕ) (m : Publisher)
    → IsValid m.outgoing_md_updates
    → m.outgoing_md_updates.num_elements < fuel
    → (m' : Publisher) × (rs : List MdpMarketUpdate) × (publish_queued fuel m ≡ done m')
      × (m'.sent ≡ m.sent ++ rs)
      × IsStream m.next_inc_seq_num rs
      × (map (λ (r : MdpMarketUpdate). r.me_market_update) rs ≡ contents m.outgoing_md_updates)
      × (m'.next_inc_seq_num ≡ number_after m.next_inc_seq_num rs)
      × (m'.snapshot_md_updates ≡ push_each m.snapshot_md_updates rs)
      × (m'.outgoing_md_updates.num_elements ≡ 0)
publish_queued-IsStream zero m v enough = absurd (ground (arith, enough))
publish_queued-IsStream (suc fuel) m v enough = elim (front-cases v) [
  | inl (e, gone, empty) ↦ (
    m,
    [],
    nothing_queued fuel m (no_pointer m.outgoing_md_updates v gone),
    sym (append-nil m.sent),
    tt,
    sym e,
    refl,
    refl,
    empty,
  )
  | inr (x, e, there, ne) ↦
      let q = m.outgoing_md_updates in
      let (i, pointer, at) = read_pointer q x there in
      let m₁ : Publisher = record {
        next_inc_seq_num = add_size m.next_inc_seq_num 1;
        outgoing_md_updates = popped q;
        snapshot_md_updates = push m.snapshot_md_updates (with_number m.next_inc_seq_num x);
        sent = m.sent ++ with_number m.next_inc_seq_num x ∷ [];
      } in
      let (m', rs, ok, says, stream, carries, number, copied, empty) =
        publish_queued-IsStream fuel m₁ (popped-IsValid v ne) (omega arith) in
      (
        m',
        with_number m.next_inc_seq_num x ∷ rs,
        one_queued fuel i m pointer ne
            ∙ ap (λ o. o >>= λ t. publish_queued fuel t) (publish_one_lem i x m v ne at)
            ∙ ok,
        says ∙ append_assoc m.sent (with_number m.next_inc_seq_num x ∷ []) rs,
        (refl, stream),
        ap (◌∷◌ x) carries ∙ sym e,
        number,
        copied,
        empty,
      )
]
