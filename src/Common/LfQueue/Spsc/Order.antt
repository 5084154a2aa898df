-- ===== src/Common/LfQueue/Spsc/Order.antt =====
-- utils/lock_free_queue.h under every interleaving of one writer and one reader.
use hft_system.Base.{
  subst, ◌+◌, ◌%◌, ◌≤◌, ◌<◌, true, false, some, List, [], ◌∷◌, ◌++◌, ◌==◌, length, get_elem?, set,
  ◌≢◌, ◌≡◌, refl, arith, ap, length-set, get_elem?-set_self, mod_cases,
}
use hft_system.Common.LfQueue.{LfQueue, add_size, get_next_to_read}
use hft_system.Common.LfQueue.Inv.{IsValid}
use hft_system.Common.LfQueue.Fifo.{slots, length-slots}
use hft_system.Common.LfQueue.Spsc.{
  crashed, Shared, Turn, write, read, writer_step, reader_step, step, run, MayMove, Paced, fresh,
}
use hft_system.Common.LfQueue.Spsc.Writes.{ReaderKnows, Inv, writer_step-Inv}
use hft_system.Common.LfQueue.Spsc.Reads.{reader_step-Inv}

module _ {T : Type 0} where
  step-Inv : (t : Turn T) (s : Shared T) → MayMove t s → Inv s → Inv (step true t s)
  unfolding step
  step-Inv (write x) s may v = writer_step-Inv s.writer x s may v
  step-Inv read s may v = reader_step-Inv s.reader s v

  run-Inv : (ts : List (Turn T)) (s : Shared T) → Paced true ts s → Inv s → Inv (run true ts s)
  unfolding run
  run-Inv [] s paced v = v
  run-Inv (t ∷ ts) s paced v = run-Inv ts (step true t s) paced.1 (step-Inv t s paced.0 v)

  fresh-Inv : (q : LfQueue T) → IsValid q → q.num_elements ≡ 0 → Inv (fresh q)
  fresh-Inv q v e = record {
    pending = 0;
    small = v.small;
    read_in = v.read_in;
    few = omega (arith, v.read_in);
    apart = rw e at v.apart;
    counted = omega arith;
    history = refl;
    writer_knows = tt;
    reader_knows = tt;
  }

  not-crashed : (s : Shared T) → Inv s → s.reader ≢ crashed
  not-crashed s v e = subst (λ r. ReaderKnows r s.queue v.pending) e v.reader_knows

  -- From a valid empty queue, however the steps of a writer and a reader interleave, as long as no
  -- write begins with fewer than two slots free: a reader whose loop tests `size()` never fails the
  -- assertion of `updateReadIndex()` nor reads outside the storage, and it has consumed a prefix of
  -- what was made visible, in that order, each element once, with fewer elements left than slots.
  pub run_safe :
      (ts : List (Turn T)) (q : LfQueue T)
      → IsValid q
      → q.num_elements ≡ 0
      → Paced true ts (fresh q)
      → ((run true ts (fresh q)).reader ≢ crashed)
        × ((rest : List T) × ((run true ts (fresh q)).sent ≡ (run true ts (fresh q)).got ++ rest)
            × (length rest < length (run true ts (fresh q)).queue.store))
  run_safe ts q v e paced =
      let w = run-Inv ts (fresh q) paced (fresh-Inv q v e) in
      let s = run true ts (fresh q) in
      (
        not-crashed s w,
        (
          slots (length s.queue.store) s.queue.store s.queue.next_read_index w.pending,
          w.history,
          rw (length-slots s.queue.store w.pending s.queue.next_read_index w.read_in) w.few,
        ),
      )

  -- A reader that tests only the pointer can fail the assertion on any valid empty queue of two slots
  -- or more: it sees the write index moved before the writer has counted the element.
  pub unchecked_crashes :
      (q : LfQueue T) (x : T)
      → IsValid q
      → q.num_elements ≡ 0
      → 2 ≤ length q.store
      → (ts : List (Turn T)) × Paced false ts (fresh q)
        × ((run false ts (fresh q)).reader ≡ crashed)
  unfolding run step writer_step reader_step get_next_to_read
  unchecked_crashes q x v e room = (
    write x ∷ write x ∷ read ∷ read ∷ read ∷ read ∷ read ∷ [],
    ((λ _. omega arith), ((λ r. cc), (tt, (tt, (tt, (tt, (tt, tt))))))),
    rw (differ, found, e),
  )
    where
      met : q.next_write_index ≡ q.next_read_index
      met = omega (
        arith,
        mod_cases (q.next_read_index + 0) (length q.store) (omega arith),
        ap (λ n. (q.next_read_index + n) % length q.store) e,
      )

      found : get_elem? (set q.store q.next_write_index x) q.next_read_index ≡ some x
      found = rw met (get_elem?-set_self q.store q.next_read_index x v.read_in)

      differ :
          (q.next_read_index
            == add_size q.next_write_index 1 % length (set q.store q.next_write_index x))
          ≡ false
      differ =
          rw (met, length-set q.store q.next_read_index x)
            (ground (arith, mod_cases (q.next_read_index + 1) (length q.store) (omega arith)))
