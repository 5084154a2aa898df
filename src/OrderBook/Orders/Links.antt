-- ===== src/OrderBook/Orders/Links.antt =====
-- trading/strategy/market_order_book.h, `addOrder` and `removeOrder`: the order at hand joins the ring of
-- its level, or leaves it.
use hft_system.Base.{
  ℕ, ◌≡◌, ◌≢◌, refl, sym, ap, ◌∙◌, none, some, List, [], ◌∷◌, ◌++◌, ◌==◌, arith, if◌then◌else◌,
  done,
}
use hft_system.Base.Int.{pos}
use hft_system.Common.MemPool.{MemPool, live, deallocate}
use hft_system.Common.MemPool.Access.{Untouched, deallocate-Untouched}
use hft_system.Common.Node.{Node, payload_at, clear_links, read_payload, read_next, read_prev}
use hft_system.Common.Node.Writes.{
  IsLive, Edits, Edits-trans, Edits-IsLive, Edits-Untouched, modify-SetsNext, modify-SetsPrev,
}
use hft_system.Common.Node.Linking.{Removed, clear_links_lem}
use hft_system.OrderBook.Orders.{pass_over}
use hft_system.OrderBook.Orders.Queues.{Item, spots}

pub spots-append : {T : Type 0} (xs ys : List (Item T)) → spots (xs ++ ys) ≡ spots xs ++ spots ys
spots-append [] ys = refl
spots-append (x ∷ xs) ys = ap (◌∷◌ x.at) (spots-append xs ys)

module _ {T : Type 0} ⦃node : Node T⦄ where
  -- An order is passed over by its neighbours, loses its pointers and is given back.
  pub record Drops (p p' : MemPool T) (l i y : ℕ) : Type 0 where
    pub removed : Removed p p' l i y
    pub payloads : (j : ℕ) → i ≢ j → payload_at p' j ≡ payload_at p j

  -- The same object in another pool.
  Same-Drops :
      (p p' q : MemPool T) (l i y : ℕ)
      → Removed p p' l i y
      → Edits p p'
      → i ≢ l
      → i ≢ y
      → ((j : ℕ) → live q j ≡ (if j == i then none else live p' j))
      → Drops p q l i y
  Same-Drops p p' q l i y r e not_l not_y lives =
      let same : (j : ℕ) → i ≢ j → live q j ≡ live p' j = λ j ne. lives j ∙ ground (arith, ne) in
      record {
        removed = record {
          next_other = λ j a c. ap read_next (same j (λ e'. c (sym e'))) ∙ r.next_other j a c;
          prev_other = λ j a c. ap read_prev (same j (λ e'. c (sym e'))) ∙ r.prev_other j a c;
          next_before = ap read_next (same l not_l) ∙ r.next_before;
          prev_after = ap read_prev (same y not_y) ∙ r.prev_after;
        };
        payloads = λ j ne. ap read_payload (same j ne) ∙ e.payloads j;
      }

  module _ (p : MemPool T) (i l y : ℕ) (not_l : i ≢ l) (not_y : i ≢ y) (live_i : IsLive p i)
      (live_l : IsLive p l) (live_y : IsLive p y) where
    -- The order still has its neighbours' places, which it was read with.
    pass_over-Removes :
        (p' : MemPool T) × (pass_over (some l) (some y) p ≡ done p')
        × Edits p p'
        × Removed p p' l i y
    unfolding pass_over
    pass_over-Removes =
        let (p₁, ok₁, w₁) = modify-SetsNext p l (some y) live_l in
        let (p₂, ok₂, w₂) = modify-SetsPrev p₁ y (some l) (Edits-IsLive y w₁.edits live_y) in
        (
          p₂,
          rw (ok₁, ok₂),
          Edits-trans w₁.edits w₂.edits,
          record {
            next_other = λ j a b. w₂.nexts j ∙ ground (arith, w₁.nexts j);
            prev_other = λ j a b. ground (arith, w₂.prevs j, w₁.prevs j);
            next_before = ground (arith, w₂.nexts l, w₁.nexts l);
            prev_after = ground (arith, w₂.prevs y);
          },
        )

    -- The three steps on the orders' pool in turn.
    pub drop_order :
        Untouched p
        → (p₁ : MemPool T) × (p₂ : MemPool T) × (p₃ : MemPool T) × (pass_over (some l) (some y) p
            ≡ done p₁)
          × (clear_links i p₁ ≡ done p₂)
          × (deallocate (pos i) p₂ ≡ done p₃)
          × Untouched p₃
          × (live p₃ i ≡ none)
          × Drops p p₃ l i y
    drop_order u =
        let (p₁, ok₁, e₁, r₁) = pass_over-Removes in
        let (p₂, ok₂, e₂, same) = clear_links_lem p₁ i (Edits-IsLive i e₁ live_i) in
        let e : Edits p p₂ = Edits-trans e₁ e₂ in
        let (t, at) = Edits-IsLive i e live_i in
        let (p₃, ok₃, u₃, lives, _, _) = deallocate-Untouched i p₂ (Edits-Untouched e u) at in
        let r₂ : Removed p p₂ l i y = record {
          next_other = λ j a c. same.nexts j c ∙ r₁.next_other j a c;
          prev_other = λ j a c. same.prevs j c ∙ r₁.prev_other j a c;
          next_before = same.nexts l (λ e'. not_l (sym e')) ∙ r₁.next_before;
          prev_after = same.prevs y (λ e'. not_y (sym e')) ∙ r₁.prev_after;
        } in
        (
          p₁,
          p₂,
          p₃,
          ok₁,
          ok₂,
          ok₃,
          u₃,
          lives i ∙ ground arith,
          Same-Drops p p₂ p₃ l i y r₂ e not_l not_y lives,
        )
