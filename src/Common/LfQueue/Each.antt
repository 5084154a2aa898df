-- ===== src/Common/LfQueue/Each.antt =====
-- utils/lock_free_queue.h: a run of writes.
use hft_system.Base.{
  ◌+◌, ◌<◌, ◌≡◌, sym, ap, ◌∙◌, List, [], ◌∷◌, ◌++◌, append-nil, append_assoc, length, arith,
}
use hft_system.Common.LfQueue.{LfQueue, push}
use hft_system.Common.LfQueue.Inv.{IsValid, push-eq-pushed, push-IsValid, length-push}
use hft_system.Common.LfQueue.Fifo.{contents, contents-push}

module _ {ℓ} {T : Type ℓ} where
  abbrev pub write_each : LfQueue T → List T → LfQueue T
  write_each q [] = q
  write_each q (x ∷ xs) = write_each (push q x) xs

  -- With room for all of them, the queue holds the new elements after the old ones.
  pub contents-write_each :
      (xs : List T) (q : LfQueue T)
      → IsValid q
      → q.num_elements + length xs < length q.store
      → IsValid (write_each q xs) × (contents (write_each q xs) ≡ contents q ++ xs)
  contents-write_each [] q v room = (v, sym (append-nil (contents q)))
  contents-write_each (x ∷ xs) q v room =
      let one : (push q x).num_elements ≡ q.num_elements + 1 =
        ap (λ p. p.num_elements) (push-eq-pushed x v) in
      let (v', all) =
        contents-write_each xs (push q x) (push-IsValid x v (omega arith))
          (omega (arith, one, length-push q x)) in
      (
        v',
        all
            ∙ ap (λ c. c ++ xs) (contents-push x v (omega arith))
            ∙ append_assoc (contents q) (x ∷ []) xs,
      )
