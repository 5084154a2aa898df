-- ===== src/Common/MemPool.antt =====
-- utils/mem_pool.h: objects of one type in a vector allocated in advance.
pub mod Laws
pub mod Access
use hft_system.Base.{
  ℕ, zero, suc, ◌+◌, ◌<◌, Bool, true, false, not, ◌&&◌, Option, none, some, List, [], ◌∷◌, ◌==◌,
  ltb, if◌then◌else◌, length, get_elem?, set, drop, replicate, Outcome, done, exits, undefined,
  ◌>>=◌, ◌>>◌, assert, defined,
}
use hft_system.Base.Int.{ℤ, pos, negsuc}

-- `ObjectBlock`
pub record ObjectBlock {ℓ} (T : Type ℓ) : Type ℓ where
  pub object : T
  pub is_free : Bool

pub record MemPool {ℓ} (T : Type ℓ) : Type ℓ where
  pub store : List (ObjectBlock T)
  pub next_free_index : ℕ

module _ {ℓ} {T : Type ℓ} where
  -- `MemPool(num_elems)`; `fresh` is the value-initialised `T()`. A read of `store_[0]` in the check of
  -- the object's place in its block needs one element.
  unfoldable pub make : ℕ → T → Outcome (MemPool T)
  make num_elems fresh =
      if num_elems == 0
      then undefined
      else done (record {
        store = replicate num_elems (record { object = fresh; is_free = true });
        next_free_index = 0;
      })

  -- `while (!store_[next_free_index_].is_free_) ++next_free_index_;` over the blocks from `index` on.
  -- The loop has no test for the end of the vector.
  unfoldable pub scan : List (ObjectBlock T) → ℕ → Outcome ℕ
  scan [] index = undefined
  scan (b ∷ bs) index = if b.is_free then done index else scan bs (index + 1)

  unfoldable pub update_next_free_index : MemPool T → Outcome (MemPool T)
  update_next_free_index p = do
    let initial_free_index = p.next_free_index
    found ← scan (drop p.next_free_index p.store) p.next_free_index
    let next = if found == length p.store then 0 else found
    assert (not (initial_free_index == next))
    done (record p { next_free_index = next })

  -- `object` is the `T(args...)` that is constructed in place. A pointer to an object is the index of
  -- its block.
  unfoldable pub allocate : T → MemPool T → Outcome (ℕ × MemPool T)
  allocate object p = do
    obj_block ← defined (get_elem? p.store p.next_free_index)
    assert obj_block.is_free
    let used : ObjectBlock T = record { object = object; is_free = false }
    p' ← update_next_free_index (record p { store = set p.store p.next_free_index used })
    done (p.next_free_index, p')

  -- `elem_index` is the signed distance of the pointer from the first block.
  unfoldable pub deallocate : ℤ → MemPool T → Outcome (MemPool T)
  deallocate (negsuc n) p = exits
  deallocate (pos elem_index) p = do
    assert (ltb elem_index (length p.store))
    block ← defined (get_elem? p.store elem_index)
    assert (not block.is_free)
    done (record p { store = set p.store elem_index (record block { is_free = true }) })

  -- The object behind a pointer while it is in use.
  unfoldable pub live : MemPool T → ℕ → Option T
  live p i = elim (get_elem? p.store i) [
    | none ↦ none
    | some b ↦ if b.is_free then none else some b.object
  ]

  -- A read and a write of the object behind a pointer. A null pointer, or one past the vector, is
  -- undefined; a pointer to a block that was given back still reads the object left there.
  unfoldable pub load : Option ℕ → MemPool T → Outcome T
  load none p = undefined
  load (some i) p = do block ← defined (get_elem? p.store i); done block.object

  unfoldable pub modify : Option ℕ → (T → T) → MemPool T → Outcome (MemPool T)
  modify none change p = undefined
  modify (some i) change p = do
    block ← defined (get_elem? p.store i)
    done (record p { store = set p.store i (record block { object = change block.object }) })
