-- ===== src/Common/Node.antt =====
-- Objects of a pool that carry a `next` and a `prev` pointer: the orders of a price level and the
-- price levels of a side, in both order books.
pub mod Writes
pub mod Linking
use hft_system.Base.{ℕ, ◌≡◌, Option, none, some, Outcome, done, ◌>>=◌}
use hft_system.Common.MemPool.{MemPool, live, load, modify}

-- What the pointer surgery needs of a node type, and what it relies on.
pub record Node (T : Type 0) : Type 0 where
  pub next : T → Option ℕ
  pub prev : T → Option ℕ
  pub with_next : Option ℕ → T → T
  pub with_prev : Option ℕ → T → T
  -- The node without its pointers.
  pub payload : T → T
  pub next-with_next : (v : Option ℕ) (t : T) → next (with_next v t) ≡ v
  pub next-with_prev : (v : Option ℕ) (t : T) → next (with_prev v t) ≡ next t
  pub prev-with_next : (v : Option ℕ) (t : T) → prev (with_next v t) ≡ prev t
  pub prev-with_prev : (v : Option ℕ) (t : T) → prev (with_prev v t) ≡ v
  pub payload-with_next : (v : Option ℕ) (t : T) → payload (with_next v t) ≡ payload t
  pub payload-with_prev : (v : Option ℕ) (t : T) → payload (with_prev v t) ≡ payload t

module _ {T : Type 0} ⦃node : Node T⦄ where
  -- A node is put at the end of the ring that starts at `first`.
  unfoldable pub link_last : ℕ → ℕ → MemPool T → Outcome (MemPool T)
  link_last first order p = do
    first_order ← load (some first) p
    p₁ ← modify (node.prev first_order) (node.with_next (some order)) p
    first_order₁ ← load (some first) p₁
    p₂ ← modify (some order) (node.with_prev (node.prev first_order₁)) p₁
    p₃ ← modify (some order) (node.with_next (some first)) p₂
    modify (some first) (node.with_prev (some order)) p₃

  -- A node is put behind `target`.
  unfoldable pub link_after : ℕ → ℕ → MemPool T → Outcome (MemPool T)
  link_after target new p = do
    p₁ ← modify (some new) (node.with_prev (some target)) p
    t ← load (some target) p₁
    p₂ ← modify (node.next t) (node.with_prev (some new)) p₁
    t₁ ← load (some target) p₂
    p₃ ← modify (some new) (node.with_next (node.next t₁)) p₂
    modify (some target) (node.with_next (some new)) p₃

  -- A node is put before `target`.
  unfoldable pub link_before : ℕ → ℕ → MemPool T → Outcome (MemPool T)
  link_before target new p = do
    t ← load (some target) p
    p₁ ← modify (some new) (node.with_prev (node.prev t)) p
    p₂ ← modify (some new) (node.with_next (some target)) p₁
    t₁ ← load (some target) p₂
    p₃ ← modify (node.prev t₁) (node.with_next (some new)) p₂
    modify (some target) (node.with_prev (some new)) p₃

  -- A node is passed over by its neighbours.
  unfoldable pub unlink : ℕ → MemPool T → Outcome (MemPool T)
  unlink node_at p = do
    n ← load (some node_at) p
    p₁ ← modify (node.prev n) (node.with_next (node.next n)) p
    n₁ ← load (some node_at) p₁
    modify (node.next n₁) (node.with_prev (node.prev n₁)) p₁

  -- `n->prev = n->next = nullptr`
  unfoldable pub clear_links : ℕ → MemPool T → Outcome (MemPool T)
  clear_links node_at p = do
    p₁ ← modify (some node_at) (node.with_next none) p
    modify (some node_at) (node.with_prev none) p₁

  -- `n->next = n->prev = n`
  unfoldable pub link_self : ℕ → MemPool T → Outcome (MemPool T)
  link_self node_at p = do
    p₁ ← modify (some node_at) (node.with_prev (some node_at)) p
    modify (some node_at) (node.with_next (some node_at)) p₁

  abbrev pub read_next : Option T → Option ℕ
  read_next none = none
  read_next (some x) = node.next x

  abbrev pub read_prev : Option T → Option ℕ
  read_prev none = none
  read_prev (some x) = node.prev x

  abbrev pub read_payload : Option T → Option T
  read_payload none = none
  read_payload (some x) = some (node.payload x)

  -- The pointers and the payloads of the objects in use.
  abbrev pub next_at : MemPool T → ℕ → Option ℕ
  next_at p i = read_next (live p i)

  abbrev pub prev_at : MemPool T → ℕ → Option ℕ
  prev_at p i = read_prev (live p i)

  abbrev pub payload_at : MemPool T → ℕ → Option T
  payload_at p i = read_payload (live p i)
