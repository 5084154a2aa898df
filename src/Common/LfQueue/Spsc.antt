-- ===== src/Common/LfQueue/Spsc.antt =====
-- utils/lock_free_queue.h used by two threads, one that writes and one that reads. Each step is one
-- access to the shared members; atomics are sequentially consistent, as `std::atomic` is by default.
mod Writes
mod Reads
pub mod Order
use hft_system.Base.{
  ℕ, ◌+◌, ◌-◌, ◌%◌, ◌<◌, Bool, true, false, not, Option, none, some, List, [], ◌∷◌, ◌++◌, ◌==◌,
  if◌then◌else◌, length, get_elem?, set, ◌≢◌, ◌≡◌, ◌&&◌,
}
use hft_system.Common.LfQueue.{LfQueue, add_size, get_next_to_read}

-- Where the writer stands: before a write, with the slot written, with the index moved.
pub data Writer {ℓ} (T : Type ℓ) : Type ℓ where
  resting : Writer T
  stored : T → Writer T
  announced : Writer T

-- Where the reader stands: before `getNextToRead()`, with its result, past the loop's test, with the
-- element read, and inside `updateReadIndex()` with the index moved. `crashed` is a failed `ASSERT`.
pub data Reader {ℓ} (T : Type ℓ) : Type ℓ where
  ready : Reader T
  looked : Option ℕ → Reader T
  reading : ℕ → Reader T
  taken : T → Reader T
  stepped : Reader T
  crashed : Reader T

-- `sent` and `got` record what was made visible and what was consumed.
pub record Shared {ℓ} (T : Type ℓ) : Type ℓ where
  pub queue : LfQueue T
  pub writer : Writer T
  pub reader : Reader T
  pub sent : List T
  pub got : List T

pub data Turn {ℓ} (T : Type ℓ) : Type ℓ where
  write : T → Turn T
  read : Turn T

module _ {T : Type 0} where
  -- `*getNextToWriteTo() = x`, then the two statements of `updateWriteIndex()`.
  unfoldable pub writer_step : Writer T → T → Shared T → Shared T
  writer_step resting x s = record s {
    queue = record (s.queue) { store = set s.queue.store s.queue.next_write_index x };
    writer = stored x;
  }
  writer_step (stored y) x s = record s {
    queue = record (s.queue) {
      next_write_index = add_size s.queue.next_write_index 1 % length s.queue.store;
    };
    writer = announced;
    sent = s.sent ++ y ∷ [];
  }
  writer_step announced x s = record s {
    queue = record (s.queue) { num_elements = add_size s.queue.num_elements 1 };
    writer = resting;
  }

  -- A read through a pointer outside the storage counts as a crash.
  abbrev pub landed : Option T → Reader T
  landed none = crashed
  landed (some x) = taken x

  -- The reading loops. With `checked` the loop's test is `size() && next`, as in `Logger`,
  -- `OrderServer`, `MarketDataPublisher` and `SnapshotSynthesizer`; without, it is `next` alone, as in
  -- `MatchingEngine`, `TradeEngine` and `OrderGateway`.
  unfoldable pub reader_step : Bool → Reader T → Shared T → Shared T
  reader_step checked ready s = record s { reader = looked (get_next_to_read s.queue) }
  reader_step checked (looked none) s = record s { reader = ready }
  reader_step checked (looked (some i)) s = record s {
    reader = if checked && s.queue.num_elements == 0 then ready else reading i;
  }
  reader_step checked (reading i) s = record s { reader = landed (get_elem? s.queue.store i) }
  reader_step checked (taken x) s = record s {
    queue = record (s.queue) {
      next_read_index = add_size s.queue.next_read_index 1 % length s.queue.store;
    };
    reader = stepped;
    got = s.got ++ x ∷ [];
  }
  reader_step checked stepped s =
      if s.queue.num_elements == 0 then record s { reader = crashed } else record s {
        queue = record (s.queue) { num_elements = s.queue.num_elements - 1 };
        reader = ready;
      }
  reader_step checked crashed s = s

  unfoldable pub step : Bool → Turn T → Shared T → Shared T
  step checked (write x) s = writer_step s.writer x s
  step checked read s = reader_step checked s.reader s

  unfoldable pub run : Bool → List (Turn T) → Shared T → Shared T
  run checked [] s = s
  run checked (t ∷ ts) s = run checked ts (step checked t s)

  -- What the code relies on: no write begins while fewer than two slots are free.
  abbrev pub MayMove : Turn T → Shared T → Type 0
  MayMove (write x) s = s.writer ≡ resting → s.queue.num_elements + 1 < length s.queue.store
  MayMove read s = Unit

  abbrev pub Paced : Bool → List (Turn T) → Shared T → Type 0
  Paced checked [] s = Unit
  Paced checked (t ∷ ts) s = MayMove t s × Paced checked ts (step checked t s)

  -- Both threads before their first call.
  abbrev pub fresh : LfQueue T → Shared T
  fresh q = record { queue = q; writer = resting; reader = ready; sent = []; got = [] }
