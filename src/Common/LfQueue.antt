-- ===== src/Common/LfQueue.antt =====
-- utils/lock_free_queue.h: a ring over a vector, with a writer's and a reader's index.
pub mod Inv
pub mod Fifo
pub mod Each
pub mod Drain
pub mod Spsc
use hft_system.Base.{
  ℕ, zero, suc, ◌+◌, ◌-◌, ◌%◌, ◌^◌, ◌≤◌, ◌<◌, ◌≡◌, Bool, true, false, not, Option, none, some, List,
  [], ◌∷◌, ◌==◌, if◌then◌else◌, length, get_elem?, set, replicate, Outcome, done, ◌>>=◌, ◌>>◌,
  assert,
}

-- `size_t` addition.
abbrev pub add_size : ℕ → ℕ → ℕ
add_size a b = (a + b) % 2 ^ 64

pub record LfQueue {ℓ} (T : Type ℓ) : Type ℓ where
  pub store : List T
  pub next_write_index : ℕ
  pub next_read_index : ℕ
  pub num_elements : ℕ

module _ {ℓ} {T : Type ℓ} where
  -- `LFQueue(num_elems)`; `fresh` is the value-initialised `T()`.
  unfoldable pub make : ℕ → T → LfQueue T
  make num_elems fresh = record {
    store = replicate num_elems fresh;
    next_write_index = 0;
    next_read_index = 0;
    num_elements = 0;
  }

  -- A pointer into `store_` is the index of its element.
  unfoldable pub get_next_to_write_to : LfQueue T → ℕ
  get_next_to_write_to q = q.next_write_index

  unfoldable pub update_write_index : LfQueue T → LfQueue T
  update_write_index q = record q {
    next_write_index = add_size q.next_write_index 1 % length q.store;
    num_elements = add_size q.num_elements 1;
  }

  unfoldable pub get_next_to_read : LfQueue T → Option ℕ
  get_next_to_read q =
      if q.next_read_index == q.next_write_index then none else some q.next_read_index

  -- The index moves before the assertion; the process is gone if that fails.
  unfoldable pub update_read_index : LfQueue T → Outcome (LfQueue T)
  update_read_index q = do
    let moved = add_size q.next_read_index 1 % length q.store
    assert (not (q.num_elements == 0))
    done (record q { next_read_index = moved; num_elements = q.num_elements - 1 })

  unfoldable pub size : LfQueue T → ℕ
  size q = q.num_elements

  -- The writers' idiom: `*q.getNextToWriteTo() = value; q.updateWriteIndex();`.
  unfoldable pub push : LfQueue T → T → LfQueue T
  unfolding get_next_to_write_to update_write_index
  push q value =
      update_write_index (record q { store = set q.store (get_next_to_write_to q) value })

  -- What the reader finds behind the pointer that `getNextToRead()` returns.
  unfoldable pub front : LfQueue T → Option T
  unfolding get_next_to_read
  front q = elim (get_next_to_read q) [ none ↦ none | some i ↦ get_elem? q.store i ]

  -- The readers' idiom: look, use what is there, and move on.
  unfoldable pub consume : LfQueue T → Outcome (Option T × LfQueue T)
  consume q = elim (front q) [
    | none ↦ done (none, q)
    | some x ↦ update_read_index q >>= λ q'. done (some x, q')
  ]

pub data Op {ℓ} (T : Type ℓ) : Type ℓ where
  writes : T → Op T
  reads : Op T

-- One thread's calls in order, with what each read yields.
unfoldable pub run {ℓ} : {T : Type ℓ} → LfQueue T → List (Op T) → Outcome (List (Option T))
run q [] = done []
run q (writes x ∷ ops) = run (push q x) ops
run q (reads ∷ ops) = consume q >>= λ r. run r.1 ops >>= λ rest. done (r.0 ∷ rest)
