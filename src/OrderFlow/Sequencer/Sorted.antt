-- ===== src/OrderFlow/Sequencer/Sorted.antt =====
-- exchange/order_server/fifo_sequencer.h: what is written, and in which order.
use mathlib.Core.Logic.{∥∥₁_elim}
use mathlib.Core.List.{Perm, Permᴰ}
use mathlib.Core.List.Perm
use mathlib.Core.List.Permᴰ
use hft_system.Base.{
  suc, ◌+◌, ◌≤◌, ◌<◌, ◌≡◌, refl, sym, ap, ◌∙◌, subst, List, [], ◌∷◌, ◌++◌, arith, length,
  length-map, append-nil, ◌⊎◌, inl, inr,
}
use hft_system.Common.Ring.{All, All-map}
use hft_system.Common.LfQueue.Inv.{IsValid}
use hft_system.Common.LfQueue.Fifo.{contents}
use hft_system.Common.LfQueue.Each.{contents-write_each}
use hft_system.OrderFlow.Server.{RecvTimeClientRequest}
use hft_system.OrderFlow.Sequencer.{
  Sequencing, requests_of, publish_sorted, sequence_and_publish, recv_finished_callback,
}

-- No request before one of an earlier time.
abbrev pub IsSorted : List RecvTimeClientRequest → Type 0
IsSorted [] = Unit
IsSorted (r ∷ rs) = All (λ (s : RecvTimeClientRequest). r.recv_time ≤ s.recv_time) rs × IsSorted rs

-- Each request later than those before it.
abbrev pub IsRising : List RecvTimeClientRequest → Type 0
IsRising [] = Unit
IsRising (r ∷ rs) = All (λ (s : RecvTimeClientRequest). r.recv_time < s.recv_time) rs × IsRising rs

-- What `std::sort` promises.
abbrev pub Sorts : (List RecvTimeClientRequest → List RecvTimeClientRequest) → Type 0
Sorts sort = (rs : List RecvTimeClientRequest) → Perm (sort rs) rs × IsSorted (sort rs)

module _ {A : Type 0} where
  All-perm : {xs ys : List A} (P : A → Type 0) → Permᴰ xs ys → All P xs → All P ys
  All-perm P Permᴰ.nil h = tt
  All-perm P (Permᴰ.cons e d) h = (subst P e h.0, All-perm P d h.1)
  All-perm P (Permᴰ.swap e f) h = (subst P f h.1.0, (subst P e h.0, h.1.1))
  All-perm P (Permᴰ.trans d₁ d₂) h = All-perm P d₂ (All-perm P d₁ h)

  length-permᴰ : {xs ys : List A} → Permᴰ xs ys → length xs ≡ length ys
  length-permᴰ Permᴰ.nil = refl
  length-permᴰ (Permᴰ.cons e d) = ap suc (length-permᴰ d)
  length-permᴰ (Permᴰ.swap e f) = refl
  length-permᴰ (Permᴰ.trans d₁ d₂) = length-permᴰ d₁ ∙ length-permᴰ d₂

  length-perm : {xs ys : List A} → Perm xs ys → length xs ≡ length ys
  length-perm p = ∥∥₁_elim p (hlevel) (λ d. length-permᴰ d)

-- The sorted order of rising times is the only one.
heads-eq :
    (x r : RecvTimeClientRequest) (xs rs : List RecvTimeClientRequest)
    → Permᴰ (x ∷ xs) (r ∷ rs)
    → IsSorted (x ∷ xs)
    → IsRising (r ∷ rs)
    → x ≡ r
heads-eq x r xs rs d sorted rising =
    let least : x.recv_time ≤ r.recv_time =
      (All-perm (λ (s : RecvTimeClientRequest). x.recv_time ≤ s.recv_time) d
        (omega arith, sorted.0)).0 in
    let first : (x ≡ r) ⊎ (r.recv_time < x.recv_time) =
      (All-perm (λ (s : RecvTimeClientRequest). (s ≡ r) ⊎ (r.recv_time < s.recv_time))
        (Permᴰ.symm d) (inl refl, All-map _ _ rs (λ s. inr) rising.0)).0 in
    elim first [ inl e ↦ e | inr later ↦ absurd (omega (arith, least, later)) ]

sorted_unique :
    (xs rs : List RecvTimeClientRequest) → Perm xs rs → IsSorted xs → IsRising rs → xs ≡ rs
sorted_unique [] [] p sorted rising = refl
sorted_unique [] (r ∷ rs) p sorted rising = absurd (omega (arith, length-perm p))
sorted_unique (x ∷ xs) [] p sorted rising = absurd (omega (arith, length-perm p))
sorted_unique (x ∷ xs) (r ∷ rs) p sorted rising = ∥∥₁_elim p (hlevel) (λ d.
    let e = heads-eq x r xs rs d sorted rising in
    let rest =
      sorted_unique xs rs (Perm.cons_inv (subst (λ v. Perm (v ∷ xs) (r ∷ rs)) e p)) sorted.1
        rising.1 in
    ap (λ v. v ∷ xs) e ∙ ap (◌∷◌ r) rest)

module _ (sort : List RecvTimeClientRequest → List RecvTimeClientRequest) (s : Sequencing)
    (sorts : Sorts sort) (valid : IsValid s.incoming_requests) where
  -- A publication of `rs`, which are what is pending.
  publish_sorted-IsSorted :
      (rs : List RecvTimeClientRequest)
      → s.server.pending_client_requests ≡ rs
      → s.incoming_requests.num_elements + length rs < length s.incoming_requests.store
      → (xs : List RecvTimeClientRequest) × ((publish_sorted sort rs
            s).server.pending_client_requests
          ≡ [])
        × (contents (publish_sorted sort rs s).incoming_requests
            ≡ contents s.incoming_requests ++ requests_of xs)
        × Perm xs rs
        × IsSorted xs
  publish_sorted-IsSorted [] e room =
      ([], e, sym (append-nil (contents s.incoming_requests)), Perm.rfl, tt)
  publish_sorted-IsSorted (r ∷ rs) e room =
      let (same, sorted) = sorts (r ∷ rs) in
      let xs = sort (r ∷ rs) in
      let count = length-map xs (λ (t : RecvTimeClientRequest). t.request) in
      let (v, all) =
        contents-write_each (requests_of xs) s.incoming_requests valid
          (omega (arith, count, length-perm same)) in
      (xs, refl, all, same, sorted)

  -- With a sort that permutes and orders by time, a queue that is valid, and room in it for all that is
  -- pending, nothing stays pending, and the queue holds, after what it held, the requests of a
  -- rearrangement of what was pending that is in the order of the times.
  pub recv_finished_callback-IsSorted :
      s.incoming_requests.num_elements + length s.server.pending_client_requests
        < length s.incoming_requests.store
      → (xs : List RecvTimeClientRequest) × ((recv_finished_callback sort
            s).server.pending_client_requests
          ≡ [])
        × (contents (recv_finished_callback sort s).incoming_requests
            ≡ contents s.incoming_requests ++ requests_of xs)
        × Perm xs s.server.pending_client_requests
        × IsSorted xs
  unfolding recv_finished_callback sequence_and_publish
  recv_finished_callback-IsSorted room =
      publish_sorted-IsSorted s.server.pending_client_requests refl room

  -- With such a sort, queue and room, requests whose times rise are written in the order of their arrival.
  pub recv_finished_callback-arrival :
      s.incoming_requests.num_elements + length s.server.pending_client_requests
        < length s.incoming_requests.store
      → IsRising s.server.pending_client_requests
      → contents (recv_finished_callback sort s).incoming_requests
        ≡ contents s.incoming_requests ++ requests_of s.server.pending_client_requests
  recv_finished_callback-arrival room rising =
      let (xs, empty, all, same, sorted) = recv_finished_callback-IsSorted room in
      all
      ∙ ap (λ v. contents s.incoming_requests ++ requests_of v)
          (sorted_unique xs s.server.pending_client_requests same sorted rising)
