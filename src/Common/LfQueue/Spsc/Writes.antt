-- ===== src/Common/LfQueue/Spsc/Writes.antt =====
-- utils/lock_free_queue.h: what holds between the steps of a writer and a reader, and the writer's steps.
use hft_system.Base.{
  ℕ, ◌+◌, ◌%◌, ◌^◌, ◌≤◌, ◌<◌, none, some, ◌++◌, length, get_elem?, set, ◌≡◌, refl, arith, sym, ap,
  ◌∙◌, append_assoc, length-set, get_elem?-set_self, get_elem?-set_ne, advance_write,
  add_size-small, mod_cases,
}
use hft_system.Common.LfQueue.{LfQueue}
use hft_system.Common.LfQueue.Fifo.{slots, slots-suc, slots-set_outside}
use hft_system.Common.LfQueue.Spsc.{
  Writer, resting, stored, announced, Reader, ready, looked, reading, taken, stepped, crashed,
  Shared, write, writer_step, MayMove,
}
use native.Mathlib.Numerals.{add-one}

module _ {T : Type 0} where
  abbrev pub counts_writer : Writer T → ℕ
  counts_writer announced = 1
  counts_writer _ = 0

  abbrev pub counts_reader : Reader T → ℕ
  counts_reader stepped = 1
  counts_reader _ = 0

  -- What the writer knows between its steps: its element is in the slot that it will announce.
  abbrev pub WriterKnows : Writer T → LfQueue T → ℕ → Type 0
  WriterKnows (stored x) q p =
      (get_elem? q.store q.next_write_index ≡ some x) × (p + 1 < length q.store)
  WriterKnows _ q p = Unit

  -- What a reader that tests `size()` knows: its element is counted until it takes it off the count.
  abbrev pub ReaderKnows : Reader T → LfQueue T → ℕ → Type 0
  ReaderKnows ready q p = Unit
  ReaderKnows (looked none) q p = Unit
  ReaderKnows (looked (some i)) q p = (i ≡ q.next_read_index) × (0 < p)
  ReaderKnows (reading i) q p = (i ≡ q.next_read_index) × (0 < p) × (0 < q.num_elements)
  ReaderKnows (taken x) q p =
      (get_elem? q.store q.next_read_index ≡ some x) × (0 < p) × (0 < q.num_elements)
  ReaderKnows stepped q p = 0 < q.num_elements
  ReaderKnows crashed q p = ⊥

  pub record Inv (s : Shared T) : Type 0 where
    pub pending : ℕ
    pub small : length s.queue.store ≤ 2 ^ 63
    pub read_in : s.queue.next_read_index < length s.queue.store
    pub few : pending < length s.queue.store
    pub apart :
        s.queue.next_write_index ≡ (s.queue.next_read_index + pending) % length s.queue.store
    pub counted : s.queue.num_elements + counts_writer s.writer ≡ pending + counts_reader s.reader
    pub history :
        s.sent ≡ s.got ++ slots (length s.queue.store) s.queue.store s.queue.next_read_index pending
    pub writer_knows : WriterKnows s.writer s.queue pending
    pub reader_knows : ReaderKnows s.reader s.queue pending

  -- What the reader knows outlives the writer's steps.
  pub ReaderKnows-mono :
      (r : Reader T) (q q' : LfQueue T) (p p' : ℕ)
      → q'.next_read_index ≡ q.next_read_index
      → p ≤ p'
      → q.num_elements ≤ q'.num_elements
      → (0 < p → get_elem? q'.store q.next_read_index ≡ get_elem? q.store q.next_read_index)
      → ReaderKnows r q p
      → ReaderKnows r q' p'
  ReaderKnows-mono ready q q' p p' i h n g k = tt
  ReaderKnows-mono (looked none) q q' p p' i h n g k = tt
  ReaderKnows-mono (looked (some j)) q q' p p' i h n g k = omega arith
  ReaderKnows-mono (reading j) q q' p p' i h n g k = omega arith
  ReaderKnows-mono (taken x) q q' p p' i h n g k = (rw i (g k.1 ∙ k.0), omega arith, omega arith)
  ReaderKnows-mono stepped q q' p p' i h n g k = omega arith
  ReaderKnows-mono crashed q q' p p' i h n g k = k

  pub counts_reader-le : (r : Reader T) → counts_reader r ≤ 1
  counts_reader-le stepped = omega arith
  counts_reader-le _ = omega arith

  pub counts_writer-le : (w : Writer T) → counts_writer w ≤ 1
  counts_writer-le announced = omega arith
  counts_writer-le _ = omega arith

  pub writer_step-Inv :
      (w : Writer T) (x : T) (s : Shared T)
      → MayMove (write x) (record s { writer = w })
      → Inv (record s { writer = w })
      → Inv (writer_step w x s)
  unfolding writer_step
  writer_step-Inv resting x s room v = record {
    pending = v.pending;
    small = rw len v.small;
    read_in = rw len v.read_in;
    few = rw len v.few;
    apart = rw len v.apart;
    counted = v.counted;
    history = rw len (
        v.history
        ∙ ap (λ xs. s.got ++ xs)
            (sym (
              slots-set_outside q.store (length q.store) x v.pending q.next_read_index
                q.next_write_index v.read_in v.few v.apart)));
    writer_knows = (
      get_elem?-set_self q.store q.next_write_index x (omega (arith, v.apart)),
      rw len (omega (arith, v.counted, room refl)),
    );
    reader_knows =
        ReaderKnows-mono s.reader q _ v.pending v.pending refl (omega arith) (omega arith)
          (λ some_left. get_elem?-set_ne q.store x (
            omega (
              arith,
              v.apart,
              mod_cases (q.next_read_index + v.pending) (length q.store)
                  (omega (arith, v.read_in, v.few)),
            )))
          v.reader_knows;
  }
    where
      q : LfQueue T
      q = s.queue

      len : length (set q.store q.next_write_index x) ≡ length q.store
      len = length-set q.store q.next_write_index x
  writer_step-Inv (stored y) x s room v = record {
    pending = v.pending + 1;
    small = v.small;
    read_in = v.read_in;
    few = v.writer_knows.1;
    apart =
        rw (add_size-small q.next_write_index (length q.store) (omega (arith, v.apart)) v.small) (
          advance_write q.next_write_index q.next_read_index v.pending (length q.store)
            (omega (arith, v.apart)) v.read_in v.few v.apart);
    counted = omega (arith, v.counted);
    history = rw (
      add-one,
      slots-suc q.store (length q.store) y v.pending q.next_read_index refl v.read_in v.few
          (rw v.apart at v.writer_knows.0),
      v.history,
      append_assoc,
    );
    writer_knows = tt;
    reader_knows =
        ReaderKnows-mono s.reader q _ v.pending (v.pending + 1) refl (omega arith) (omega arith)
          (λ _. refl) v.reader_knows;
  }
    where
      q : LfQueue T
      q = s.queue
  writer_step-Inv announced x s room v = record {
    pending = v.pending;
    small = v.small;
    read_in = v.read_in;
    few = v.few;
    apart = v.apart;
    counted = omega (arith, small_count, v.counted);
    history = v.history;
    writer_knows = tt;
    reader_knows =
        ReaderKnows-mono s.reader s.queue _ v.pending v.pending refl (omega arith)
          (omega (arith, small_count)) (λ _. refl) v.reader_knows;
  }
    where
      small_count : (s.queue.num_elements + 1) % 2 ^ 64 ≡ s.queue.num_elements + 1
      small_count = omega (arith, counts_reader-le s.reader, v.counted, v.few, v.small)
