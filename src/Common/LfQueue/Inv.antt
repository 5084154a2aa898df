-- ===== src/Common/LfQueue/Inv.antt =====
-- utils/lock_free_queue.h: the representation invariant of the ring.
use hft_system.Base.{
  ℕ, ◌+◌, ◌-◌, ◌%◌, ◌^◌, ◌≤◌, ◌<◌, ◌≡◌, ◌≢◌, arith, length, set, length-set, length-replicate, done,
  add_size-small, advance_write, advance_read,
}
use hft_system.Common.LfQueue.{LfQueue, make, update_read_index, push}

-- Both indices lie in the storage, and the writer's is `num_elements` ahead of the reader's.
pub record IsValid {ℓ} {T : Type ℓ} (q : LfQueue T) : Type 0 where
  pub small : length q.store ≤ 2 ^ 63
  pub read_in : q.next_read_index < length q.store
  pub few : q.num_elements < length q.store
  pub apart : q.next_write_index ≡ (q.next_read_index + q.num_elements) % length q.store

module _ {ℓ} {T : Type ℓ} where
  -- The writer may write one more element without meeting the reader.
  abbrev pub HasRoom : LfQueue T → Type 0
  HasRoom q = q.num_elements + 1 < length q.store

  pub make-IsValid : (n : ℕ) (fresh : T) → 0 < n → n ≤ 2 ^ 63 → IsValid (make n fresh)
  unfolding make
  make-IsValid n fresh pos small = omega (arith, length-replicate n fresh)

  pub write_in : {q : LfQueue T} → IsValid q → q.next_write_index < length q.store
  write_in v = omega arith

  pub length-push : (q : LfQueue T) (x : T) → length (push q x).store ≡ length q.store
  unfolding push
  length-push q x = length-set q.store q.next_write_index x

  -- What a write and a read leave behind, with no wrap-around at 2 ^ 64.
  abbrev pub pushed : LfQueue T → T → LfQueue T
  pushed q x = record {
    store = set q.store q.next_write_index x;
    next_write_index = (q.next_write_index + 1) % length q.store;
    next_read_index = q.next_read_index;
    num_elements = q.num_elements + 1;
  }

  abbrev pub popped : LfQueue T → LfQueue T
  popped q = record {
    store = q.store;
    next_write_index = q.next_write_index;
    next_read_index = (q.next_read_index + 1) % length q.store;
    num_elements = q.num_elements - 1;
  }

  pub push-eq-pushed : {q : LfQueue T} (x : T) → IsValid q → push q x ≡ pushed q x
  unfolding push
  push-eq-pushed {q = q} x v = rw (
    length-set q.store q.next_write_index x,
    add_size-small q.next_write_index (length q.store) (write_in v) v.small,
    add_size-small q.num_elements (length q.store) v.few v.small,
  )

  -- With something to read the assertion of `updateReadIndex` holds.
  pub update_read_index-eq-popped :
      {q : LfQueue T} → IsValid q → q.num_elements ≢ 0 → update_read_index q ≡ done (popped q)
  unfolding update_read_index
  update_read_index-eq-popped {q = q} v ne =
      ground (arith, add_size-small q.next_read_index (length q.store) v.read_in v.small)

  pub push-IsValid : {q : LfQueue T} (x : T) → IsValid q → HasRoom q → IsValid (push q x)
  push-IsValid {q = q} x v room = rw (push-eq-pushed x v) (record {
    small = rw (len) v.small;
    read_in = rw len v.read_in;
    few = rw len room;
    apart = rw len (
        advance_write q.next_write_index q.next_read_index q.num_elements (length q.store)
          (write_in v) v.read_in v.few v.apart);
  })
    where
      len : length (set q.store q.next_write_index x) ≡ length q.store
      len = length-set q.store q.next_write_index x

  pub popped-IsValid : {q : LfQueue T} → IsValid q → q.num_elements ≢ 0 → IsValid (popped q)
  popped-IsValid {q = q} v ne = record {
    small = v.small;
    read_in = omega (arith, v.read_in);
    few = omega (arith, v.few);
    apart =
        advance_read q.next_write_index q.next_read_index q.num_elements (length q.store) v.read_in
          v.few ne v.apart;
  }
