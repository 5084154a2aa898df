-- ===== src/Common/Tests.antt =====
-- Runs of the queue and the pool at small sizes.
use hft_system.Base.{
  subst, ℕ, ◌≤◌, ◌<◌, ◌≡◌, ◌≢◌, refl, true, false, none, some, List, [], ◌∷◌, ◌++◌, arith, length,
  done, exits, undefined, ◌==◌, if◌then◌else◌,
}
use hft_system.Base.Int.{pos}
use hft_system.Common.LfQueue.{LfQueue, Op, writes, reads, front, size, push}
use hft_system.Common.LfQueue
use hft_system.Common.LfQueue.Fifo.{fifo, run-eq-fifo, push_full_lem}
use hft_system.Common.LfQueue.Spsc
use hft_system.Common.LfQueue.Spsc.{Turn, write, read, crashed, Shared, fresh, Paced}
use hft_system.Common.LfQueue.Spsc.Order.{run_safe, unchecked_crashes}
use hft_system.Common.MemPool.{MemPool, ObjectBlock, allocate, deallocate, live}
use hft_system.Common.MemPool.Laws
use hft_system.Common.MemPool.Laws.{
  allocate-IsValid, allocate_overruns, deallocate-IsValid, deallocate_refuses,
}

-- Three slots, with the indices about to go round.
abbrev ring : LfQueue ℕ
ring = record {
  store = 7 ∷ 8 ∷ 9 ∷ [];
  next_write_index = 2;
  next_read_index = 2;
  num_elements = 0;
}

abbrev two_in : LfQueue ℕ
two_in = record {
  store = 7 ∷ 8 ∷ 9 ∷ [];
  next_write_index = 1;
  next_read_index = 2;
  num_elements = 2;
}

abbrev calls : List (Op ℕ)
calls = writes 4 ∷ writes 5 ∷ reads ∷ writes 6 ∷ reads ∷ reads ∷ reads ∷ []

run-eq-fifo_example : LfQueue.run ring calls ≡ done (some 4 ∷ some 5 ∷ some 6 ∷ none ∷ [])
unfolding fifo
run-eq-fifo_example = run-eq-fifo calls {q = ring} (omega arith) (omega arith)

push_full_lem_example :
    (front (push two_in 3) ≡ none) × (size (push two_in 3) ≡ length (push two_in 3).store)
push_full_lem_example = push_full_lem {q = two_in} 3 (omega arith) (omega arith)

-- A write, a read and a second write, interleaved step by step.
abbrev turns : List (Turn ℕ)
turns = write 4 ∷ read ∷ write 0 ∷ read ∷ read ∷ write 0 ∷ read ∷ read ∷ write 5 ∷ read ∷ []

run_safe_example :
    ((Spsc.run true turns (fresh ring)).reader ≢ crashed)
    × ((rest : List ℕ) × ((Spsc.run true turns (fresh ring)).sent
          ≡ (Spsc.run true turns (fresh ring)).got ++ rest)
        × (length rest < length (Spsc.run true turns (fresh ring)).queue.store))
unfolding Spsc.step Spsc.writer_step Spsc.reader_step LfQueue.get_next_to_read
run_safe_example = run_safe turns ring (omega arith) refl (ground arith)

unchecked_crashes_example :
    (ts : List (Turn ℕ)) × Paced false ts (fresh ring)
    × ((Spsc.run false ts (fresh ring)).reader ≡ crashed)
unchecked_crashes_example = unchecked_crashes ring 4 (omega arith) refl (omega arith)

abbrev free_block : ObjectBlock ℕ
free_block = record { object = 0; is_free = true }

abbrev used_block : ObjectBlock ℕ
used_block = record { object = 6; is_free = false }

abbrev pool : MemPool ℕ
pool = record {
  store = used_block ∷ free_block ∷ used_block ∷ free_block ∷ [];
  next_free_index = 1;
}

-- The first two blocks are free again, but the search starts at the last one.
abbrev spent : MemPool ℕ
spent = record { store = free_block ∷ free_block ∷ free_block ∷ []; next_free_index = 2 }

allocate-IsValid_example :
    (p' : MemPool ℕ) × (allocate 5 pool ≡ done (1, p'))
    × Laws.IsValid p'
    × (live pool 1 ≡ none)
    × ((j : ℕ) → live p' j ≡ (if j == 1 then some 5 else live pool j))
    × (length p'.store ≡ 4)
    × (1 < p'.next_free_index)
    × (p'.next_free_index ≤ 3)
allocate-IsValid_example =
    allocate-IsValid 5 pool 3 (free_block, refl, refl) (omega arith) (free_block, refl, refl)

allocate_overruns_example : allocate 5 spent ≡ undefined
allocate_overruns_example =
    allocate_overruns 5 spent (free_block, refl, refl) (λ k h h'. absurd (omega arith))

deallocate-IsValid_example :
    (p' : MemPool ℕ) × (deallocate (pos 2) pool ≡ done p')
    × Laws.IsValid p'
    × ((j : ℕ) → live p' j ≡ (if j == 2 then none else live pool j))
    × (length p'.store ≡ 4)
    × (p'.next_free_index ≡ 1)
unfolding live
deallocate-IsValid_example = deallocate-IsValid 2 pool {x = 6} (free_block, refl, refl) refl

deallocate_refuses_example : deallocate (pos 3) pool ≡ exits
unfolding live
deallocate_refuses_example =
    deallocate_refuses (pos 3) pool (λ n e. subst (λ k. live pool k ≡ none) (index e) refl)
  where
    index : {n : ℕ} → pos 3 ≡ pos n → ◌≡◌ {A = ℕ} 3 n
    index e = cc
