-- ===== src/Common/LfQueue/Drain.antt =====
-- The readers' loops over a queue (utils/lock_free_queue.h): each element is used, then given up.
use hft_system.Base.{
  ℕ, zero, suc, ◌<◌, ◌≡◌, refl, sym, ◌∙◌, true, false, Option, none, some, List, [], ◌∷◌, ◌==◌,
  if◌then◌else◌, arith, inl, inr, Outcome, done, exits, undefined, ◌>>=◌,
}
use hft_system.Common.LfQueue.{LfQueue, size, front, update_read_index}
use hft_system.Common.LfQueue.Inv.{IsValid, popped, popped-IsValid, update_read_index-eq-popped}
use hft_system.Common.LfQueue.Fifo.{contents, front-cases}

module _ {ℓ κ} {T : Type ℓ} {S : Type κ} where
  -- A result of the loop's body, with the queue that is left.
  abbrev pub beside : LfQueue T → Outcome S → Outcome (LfQueue T × S)
  beside q (done s) = done (q, s)
  beside q exits = exits
  beside q undefined = undefined

module _ {ℓ κ} {T : Type ℓ} {S : Type κ} (body : T → S → Outcome S) where
  abbrev on_front :
      Option T → LfQueue T → S → (LfQueue T → S → Outcome (LfQueue T × S)) → Outcome (LfQueue T × S)
  on_front none q s rest = done (q, s)
  on_front (some x) q s rest = body x s >>= λ s'. update_read_index q >>= λ q'. rest q' s'

  -- `for (auto x = q.getNextToRead(); x; x = q.getNextToRead()) { body; q.updateReadIndex(); }`, on fuel.
  unfoldable pub drain_from : ℕ → LfQueue T → S → Outcome (LfQueue T × S)
  drain_from zero q s = undefined
  drain_from (suc fuel) q s = on_front (front q) q s (drain_from fuel)

  -- The queue has fuel for every element.
  unfoldable pub drain : LfQueue T → S → Outcome (LfQueue T × S)
  drain q s = drain_from (suc q.num_elements) q s

  -- The same loop with the test `q.size() && x`.
  unfoldable pub drain_sized_from : ℕ → LfQueue T → S → Outcome (LfQueue T × S)
  drain_sized_from zero q s = undefined
  drain_sized_from (suc fuel) q s =
      if size q == 0 then done (q, s) else on_front (front q) q s (drain_sized_from fuel)

  unfoldable pub drain_sized : LfQueue T → S → Outcome (LfQueue T × S)
  drain_sized q s = drain_sized_from (suc q.num_elements) q s

  abbrev pub each : List T → S → Outcome S
  each [] s = done s
  each (x ∷ xs) s = body x s >>= each xs

  beside_bind :
      (m : Outcome S) (f : S → Outcome S) (q : LfQueue T)
      → beside q (m >>= f) ≡ (m >>= λ s. beside q (f s))
  beside_bind (done a) f q = refl
  beside_bind exits f q = refl
  beside_bind undefined f q = refl

  bind_congr :
      (m : Outcome S) (f g : S → Outcome (LfQueue T × S))
      → ((s : S) → f s ≡ g s)
      → (m >>= f) ≡ (m >>= g)
  bind_congr (done a) f g h = h a
  bind_congr exits f g h = refl
  bind_congr undefined f g h = refl

  drain_from-each :
      (fuel : ℕ) (q : LfQueue T)
      → IsValid q
      → q.num_elements < fuel
      → (q' : LfQueue T) × IsValid q'
        × (contents q' ≡ [])
        × ((s : S) → drain_from fuel q s ≡ beside q' (each (contents q) s))
  unfolding drain_from
  drain_from-each zero q v enough = absurd (omega arith)
  drain_from-each (suc fuel) q v enough = elim (front-cases v) [
    | inl (e, nothing, _) ↦ (q, v, e, λ s. rw (nothing, e) refl)
    | inr (x, e, there, ne) ↦
        let (q', v', empty, rest) =
          drain_from-each fuel (popped q) (popped-IsValid v ne) (omega arith) in
        (
          q',
          v',
          empty,
          λ s.
              rw (there, e, update_read_index-eq-popped v ne)
                (bind_congr (body x s) _ _ rest
                  ∙ sym (beside_bind (body x s) (each (contents (popped q))) q')),
        )
  ]

  -- The loop over a valid queue is the run over what it holds, and leaves it valid and empty.
  pub drain-each :
      (q : LfQueue T)
      → IsValid q
      → (q' : LfQueue T) × IsValid q'
        × (contents q' ≡ [])
        × ((s : S) → drain q s ≡ beside q' (each (contents q) s))
  unfolding drain
  drain-each q v = drain_from-each (suc q.num_elements) q v (omega arith)

  drain_sized_from-eq :
      (fuel : ℕ) (q : LfQueue T) (s : S)
      → IsValid q
      → q.num_elements < fuel
      → drain_sized_from fuel q s ≡ drain_from fuel q s
  unfolding drain_sized_from drain_from size
  drain_sized_from-eq zero q s v enough = absurd (omega arith)
  drain_sized_from-eq (suc fuel) q s v enough = elim (front-cases v) [
    | inl (e, nothing, none_there) ↦
        let stop : (q.num_elements == 0) ≡ true = ground (arith, none_there) in
        rw (stop, nothing) refl
    | inr (x, e, there, ne) ↦
        let go : (q.num_elements == 0) ≡ false = ground (arith, ne) in
        rw (go, there, update_read_index-eq-popped v ne)
          (bind_congr (body x s) _ _
            (λ s'. drain_sized_from-eq fuel (popped q) s' (popped-IsValid v ne) (omega arith)))
  ]

  -- The test of the size changes nothing on a valid queue.
  pub drain_sized-eq : (q : LfQueue T) (s : S) → IsValid q → drain_sized q s ≡ drain q s
  unfolding drain_sized drain
  drain_sized-eq q s v = drain_sized_from-eq (suc q.num_elements) q s v (omega arith)
