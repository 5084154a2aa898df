-- ===== src/Common/Node/Linking.antt =====
-- What the pointer surgery of the order books does to the rings that run through a pool.
use hft_system.Base.{ℕ, ◌≡◌, ◌≢◌, ◌∙◌, none, some, arith, done}
use hft_system.Common.MemPool.{MemPool}
use hft_system.Common.Ring.Edit.{Inserts, Removes}
use hft_system.Common.Node.{
  Node, next_at, prev_at, link_last, link_after, link_before, unlink, clear_links, link_self,
}
use hft_system.Common.Node.Writes.{
  IsLive, Edits, Edits-trans, Edits-IsLive, modify-SetsNext, modify-SetsPrev, load-next, load-prev,
}

module _ {T : Type 0} ⦃node : Node T⦄ where
  -- Both pool states as rings: `new` stands between `l` and `x`.
  abbrev pub Inserted : MemPool T → MemPool T → ℕ → ℕ → ℕ → Type 0
  Inserted p p' l x new = Inserts (next_at p) (prev_at p) (next_at p') (prev_at p') l x new

  abbrev pub Removed : MemPool T → MemPool T → ℕ → ℕ → ℕ → Type 0
  Removed p p' l x y = Removes (next_at p) (prev_at p) (next_at p') (prev_at p') l x y

  module _ (p : MemPool T) (x l new : ℕ) (fresh : IsLive p new) (apart : x ≢ new)
      (apart_l : l ≢ new) (back : prev_at p x ≡ some l) (forth : next_at p l ≡ some x) where
    pub link_before-Inserts :
        (p' : MemPool T) × (link_before x new p ≡ done p') × Edits p p' × Inserted p p' l x new
    unfolding link_before
    link_before-Inserts =
        let (t, loaded, prev_t, live_t) = load-prev p x l back in
        let (p₁, ok₁, w₁) = modify-SetsPrev p new (node.prev t) fresh in
        let (p₂, ok₂, w₂) = modify-SetsNext p₁ new (some x) (Edits-IsLive new w₁.edits fresh) in
        let back₂ : prev_at p₂ x ≡ some l = w₂.prevs x ∙ ground (arith, w₁.prevs x, back) in
        let (t₁, loaded₁, prev_t₁, live_t₁) = load-prev p₂ x l back₂ in
        let (tl, _, _, live_l) = load-next p l x forth in
        let e₂ : Edits p p₂ = Edits-trans w₁.edits w₂.edits in
        let (p₃, ok₃, w₃) = modify-SetsNext p₂ l (some new) (Edits-IsLive l e₂ (tl, live_l)) in
        let e₃ : Edits p p₃ = Edits-trans e₂ w₃.edits in
        let (p₄, ok₄, w₄) = modify-SetsPrev p₃ x (some new) (Edits-IsLive x e₃ (t, live_t)) in
        (
          p₄,
          rw (loaded, ok₁, ok₂, loaded₁, prev_t₁, ok₃) ok₄,
          Edits-trans e₃ w₄.edits,
          record {
            next_other = λ j a b. w₄.nexts j ∙ w₃.nexts j ∙ ground (arith, w₂.nexts j, w₁.nexts j);
            prev_other = λ j a b. ground (arith, w₄.prevs j, w₃.prevs j, w₂.prevs j, w₁.prevs j);
            next_before = ground (arith, w₄.nexts l, w₃.nexts l);
            next_new = ground (arith, w₄.nexts new, w₃.nexts new, w₂.nexts new);
            prev_new =
                ground (arith, w₄.prevs new, w₃.prevs new, w₂.prevs new, w₁.prevs new, prev_t);
            prev_after = ground (arith, w₄.prevs x);
          },
        )

    pub link_last-Inserts :
        (p' : MemPool T) × (link_last x new p ≡ done p') × Edits p p' × Inserted p p' l x new
    unfolding link_last
    link_last-Inserts =
        let (t, loaded, prev_t, live_t) = load-prev p x l back in
        let (tl, _, _, live_l) = load-next p l x forth in
        let (p₁, ok₁, w₁) = modify-SetsNext p l (some new) (tl, live_l) in
        let back₁ : prev_at p₁ x ≡ some l = w₁.prevs x ∙ back in
        let (t₁, loaded₁, prev_t₁, live_t₁) = load-prev p₁ x l back₁ in
        let (p₂, ok₂, w₂) =
          modify-SetsPrev p₁ new (node.prev t₁) (Edits-IsLive new w₁.edits fresh) in
        let e₂ : Edits p p₂ = Edits-trans w₁.edits w₂.edits in
        let (p₃, ok₃, w₃) = modify-SetsNext p₂ new (some x) (Edits-IsLive new e₂ fresh) in
        let e₃ : Edits p p₃ = Edits-trans e₂ w₃.edits in
        let (p₄, ok₄, w₄) = modify-SetsPrev p₃ x (some new) (Edits-IsLive x e₃ (t, live_t)) in
        (
          p₄,
          rw (loaded, prev_t, ok₁, loaded₁, ok₂, ok₃) ok₄,
          Edits-trans e₃ w₄.edits,
          record {
            next_other = λ j a b. w₄.nexts j ∙ w₃.nexts j ∙ ground (arith, w₂.nexts j, w₁.nexts j);
            prev_other = λ j a b. ground (arith, w₄.prevs j, w₃.prevs j, w₂.prevs j, w₁.prevs j);
            next_before = ground (arith, w₄.nexts l, w₃.nexts l, w₂.nexts l, w₁.nexts l);
            next_new = ground (arith, w₄.nexts new, w₃.nexts new);
            prev_new = ground (arith, w₄.prevs new, w₃.prevs new, w₂.prevs new, prev_t₁);
            prev_after = ground (arith, w₄.prevs x);
          },
        )

    pub link_after-Inserts :
        (p' : MemPool T) × (link_after l new p ≡ done p') × Edits p p' × Inserted p p' l x new
    unfolding link_after
    link_after-Inserts =
        let (tx, _, _, live_x) = load-prev p x l back in
        let (tl, _, _, live_l) = load-next p l x forth in
        let (p₁, ok₁, w₁) = modify-SetsPrev p new (some l) fresh in
        let forth₁ : next_at p₁ l ≡ some x = w₁.nexts l ∙ forth in
        let (t₁, loaded₁, next_t₁, live_t₁) = load-next p₁ l x forth₁ in
        let (p₂, ok₂, w₂) =
          modify-SetsPrev p₁ x (some new) (Edits-IsLive x w₁.edits (tx, live_x)) in
        let e₂ : Edits p p₂ = Edits-trans w₁.edits w₂.edits in
        let (t₂, loaded₂, next_t₂, live_t₂) = load-next p₂ l x (w₂.nexts l ∙ forth₁) in
        let (p₃, ok₃, w₃) = modify-SetsNext p₂ new (node.next t₂) (Edits-IsLive new e₂ fresh) in
        let e₃ : Edits p p₃ = Edits-trans e₂ w₃.edits in
        let (p₄, ok₄, w₄) = modify-SetsNext p₃ l (some new) (Edits-IsLive l e₃ (tl, live_l)) in
        (
          p₄,
          rw (ok₁, loaded₁, next_t₁, ok₂, loaded₂, ok₃) ok₄,
          Edits-trans e₃ w₄.edits,
          record {
            next_other = λ j a b. ground (arith, w₄.nexts j, w₃.nexts j, w₂.nexts j, w₁.nexts j);
            prev_other = λ j a b. w₄.prevs j ∙ w₃.prevs j ∙ ground (arith, w₂.prevs j, w₁.prevs j);
            next_before = ground (arith, w₄.nexts l);
            next_new = ground (arith, w₄.nexts new, w₃.nexts new, next_t₂);
            prev_new = ground (arith, w₄.prevs new, w₃.prevs new, w₂.prevs new, w₁.prevs new);
            prev_after = ground (arith, w₄.prevs x, w₃.prevs x, w₂.prevs x);
          },
        )

  -- `x` stands between `l` and `y`, which may be one node.
  module _ (p : MemPool T) (x l y : ℕ) (apart_l : x ≢ l) (apart_y : x ≢ y)
      (back : prev_at p x ≡ some l) (forth : next_at p x ≡ some y) (live_l : IsLive p l)
      (live_y : IsLive p y) where
    pub unlink-Removes :
        (p' : MemPool T) × (unlink x p ≡ done p')
        × Edits p p'
        × Removed p p' l x y
        × (next_at p' x ≡ some y)
    unfolding unlink
    unlink-Removes =
        let (t, loaded, prev_t, live_t) = load-prev p x l back in
        let (u, loaded_u, next_u, live_u) = load-next p x y forth in
        let next_t : node.next t ≡ some y = ground (arith, forth, live_t) in
        let (p₁, ok₁, w₁) = modify-SetsNext p l (some y) live_l in
        let (t₁, loaded₁, prev_t₁, live_t₁) = load-prev p₁ x l (w₁.prevs x ∙ back) in
        let next_t₁ : node.next t₁ ≡ some y = ground (arith, w₁.nexts x, live_t₁, forth) in
        let (p₂, ok₂, w₂) = modify-SetsPrev p₁ y (some l) (Edits-IsLive y w₁.edits live_y) in
        (
          p₂,
          rw (loaded, prev_t, next_t, ok₁, loaded₁, next_t₁, prev_t₁) ok₂,
          Edits-trans w₁.edits w₂.edits,
          record {
            next_other = λ j a b. w₂.nexts j ∙ ground (arith, w₁.nexts j);
            prev_other = λ j a b. ground (arith, w₂.prevs j, w₁.prevs j);
            next_before = ground (arith, w₂.nexts l, w₁.nexts l);
            prev_after = ground (arith, w₂.prevs y);
          },
          ground (arith, w₂.nexts x, w₁.nexts x),
        )

  pub record SameElsewhere (p p' : MemPool T) (i : ℕ) : Type 0 where
    pub nexts : (j : ℕ) → j ≢ i → next_at p' j ≡ next_at p j
    pub prevs : (j : ℕ) → j ≢ i → prev_at p' j ≡ prev_at p j

  pub clear_links_lem :
      (p : MemPool T) (i : ℕ)
      → IsLive p i
      → (p' : MemPool T) × (clear_links i p ≡ done p') × Edits p p' × SameElsewhere p p' i
  unfolding clear_links
  clear_links_lem p i v =
      let (p₁, ok₁, w₁) = modify-SetsNext p i none v in
      let (p₂, ok₂, w₂) = modify-SetsPrev p₁ i none (Edits-IsLive i w₁.edits v) in
      (
        p₂,
        rw ok₁ ok₂,
        Edits-trans w₁.edits w₂.edits,
        record {
          nexts = λ j ne. w₂.nexts j ∙ ground (arith, w₁.nexts j);
          prevs = λ j ne. ground (arith, w₂.prevs j, w₁.prevs j);
        },
      )

  pub link_self_lem :
      (p : MemPool T) (i : ℕ)
      → IsLive p i
      → (p' : MemPool T) × (link_self i p ≡ done p')
        × Edits p p'
        × SameElsewhere p p' i
        × (next_at p' i ≡ some i)
        × (prev_at p' i ≡ some i)
  unfolding link_self
  link_self_lem p i v =
      let (p₁, ok₁, w₁) = modify-SetsPrev p i (some i) v in
      let (p₂, ok₂, w₂) = modify-SetsNext p₁ i (some i) (Edits-IsLive i w₁.edits v) in
      (
        p₂,
        rw ok₁ ok₂,
        Edits-trans w₁.edits w₂.edits,
        record {
          nexts = λ j ne. ground (arith, w₂.nexts j, w₁.nexts j);
          prevs = λ j ne. w₂.prevs j ∙ ground (arith, w₁.prevs j);
        },
        ground (arith, w₂.nexts i),
        ground (arith, w₂.prevs i, w₁.prevs i),
      )
