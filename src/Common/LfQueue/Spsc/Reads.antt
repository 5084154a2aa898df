-- ===== src/Common/LfQueue/Spsc/Reads.antt =====
-- utils/lock_free_queue.h: the steps of a reader that tests the size.
use hft_system.Base.{
  ℕ, ◌+◌, ◌-◌, ◌%◌, ◌^◌, ◌≤◌, true, none, some, ◌++◌, ◌==◌, length, ◌≡◌, refl, arith, ap,
  Bool-cases, inl, inr, ◌∙◌, append_assoc, advance_read, add_size-small, mod_cases,
}
use hft_system.Common.LfQueue.{LfQueue, get_next_to_read}
use hft_system.Common.LfQueue.Fifo.{slots, prepend, slots_of_ne_zero, in_store}
use hft_system.Common.LfQueue.Spsc.{
  Writer, resting, stored, announced, Reader, ready, looked, reading, taken, stepped, crashed,
  Shared, reader_step,
}
use hft_system.Common.LfQueue.Spsc.Writes.{counts_reader, WriterKnows, ReaderKnows, Inv}

module _ {T : Type 0} where
  WriterKnows-mono :
      (w : Writer T) (q q' : LfQueue T) (p p' : ℕ)
      → q'.store ≡ q.store
      → q'.next_write_index ≡ q.next_write_index
      → p' ≤ p
      → WriterKnows w q p
      → WriterKnows w q' p'
  WriterKnows-mono resting q q' p p' es ew h k = tt
  WriterKnows-mono (stored x) q q' p p' es ew h k = (rw (es, ew) k.0, rw es (omega arith))
  WriterKnows-mono announced q q' p p' es ew h k = tt

  -- A reader's step that leaves the queue and the count alone.
  with_reader :
      (r r' : Reader T) (s : Shared T) (v : Inv (record s { reader = r }))
      → counts_reader r' ≡ counts_reader r
      → ReaderKnows r' s.queue v.pending
      → Inv (record s { reader = r' })
  with_reader r r' s v same knows = record {
    pending = v.pending;
    small = v.small;
    read_in = v.read_in;
    few = v.few;
    apart = v.apart;
    counted = omega (arith, v.counted);
    history = v.history;
    writer_knows = v.writer_knows;
    reader_knows = knows;
  }

  -- The reader's own progress, where it tests `size()`.
  pub reader_step-Inv :
      (r : Reader T) (s : Shared T) → Inv (record s { reader = r }) → Inv (reader_step true r s)
  unfolding reader_step get_next_to_read
  reader_step-Inv ready s v =
      elim (Bool-cases (s.queue.next_read_index == s.queue.next_write_index)) [
        | inl same ↦
            with_reader ready (looked (get_next_to_read s.queue)) s v refl
              (rw (get_next_to_read, same) tt)
        | inr differ ↦ with_reader ready (looked (get_next_to_read s.queue)) s v refl (
            rw (get_next_to_read, differ)
              (
                refl,
                ground (
                  arith,
                  v.apart,
                  mod_cases (s.queue.next_read_index + v.pending) (length s.queue.store)
                      (omega (arith, v.read_in, v.few)),
                ),
              ))
      ]
  reader_step-Inv (looked none) s v = with_reader (looked none) ready s v refl tt
  reader_step-Inv (looked (some i)) s v = elim (Bool-cases (s.queue.num_elements == 0)) [
    | inl empty ↦ rw empty (with_reader (looked (some i)) ready s v refl tt)
    | inr there ↦ rw there (
        with_reader (looked (some i)) (reading i) s v refl
          (v.reader_knows.0, v.reader_knows.1, ground arith))
  ]
  reader_step-Inv (reading i) s v =
      let (x, found) = in_store s.queue.store s.queue.next_read_index v.read_in in
      rw (v.reader_knows.0, found)
        (with_reader (reading i) (taken x) s v refl (found, v.reader_knows.1, v.reader_knows.2))
  reader_step-Inv (taken x) s v = record {
    pending = v.pending - 1;
    small = v.small;
    read_in = omega (arith, v.read_in);
    few = omega (arith, v.few);
    apart = rw (moved) (
        advance_read q.next_write_index q.next_read_index v.pending (length q.store) v.read_in v.few
          (omega (arith, v.reader_knows.1)) v.apart);
    counted = omega (arith, v.counted, v.reader_knows.1);
    history =
        v.history
        ∙ ap (λ xs. s.got ++ xs)
            (slots_of_ne_zero (length q.store) q.store q.next_read_index v.pending
                (omega (arith, v.reader_knows.1))
              ∙ ap
                  (λ o. prepend o (
                    slots (length q.store) q.store ((q.next_read_index + 1) % length q.store)
                      (v.pending - 1)))
                  v.reader_knows.0)
        ∙ rw (moved, append_assoc);
    writer_knows =
        WriterKnows-mono s.writer q _ v.pending (v.pending - 1) refl refl (omega arith)
          v.writer_knows;
    reader_knows = v.reader_knows.2;
  }
    where
      q : LfQueue T
      q = s.queue

      moved : (q.next_read_index + 1) % 2 ^ 64 ≡ q.next_read_index + 1
      moved = add_size-small q.next_read_index (length q.store) v.read_in v.small
  reader_step-Inv stepped s v = elim (Bool-cases (s.queue.num_elements == 0)) [
    | inl empty ↦ absurd (ground (arith, v.reader_knows))
    | inr there ↦ rw there (record {
      pending = v.pending;
      small = v.small;
      read_in = v.read_in;
      few = v.few;
      apart = v.apart;
      counted = omega (arith, v.counted, v.reader_knows);
      history = v.history;
      writer_knows =
          WriterKnows-mono s.writer s.queue _ v.pending v.pending refl refl (omega arith)
            v.writer_knows;
      reader_knows = tt;
    })
  ]
  reader_step-Inv crashed s v = absurd v.reader_knows
