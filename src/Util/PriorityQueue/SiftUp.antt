-- ===== src/Util/PriorityQueue/SiftUp.antt =====
-- siftUp: it ends, and it mends a heap with one node that is too low in the tree.
use perceptor.Prelude.{
  ℕ, zero, suc, ◌+◌, ◌≤◌, ◌<◌, ◌≡◌, true, false, inl, inr, Bool-cases, refl, ◌∙◌, String, ltb_ℤ,
  leb, arith, Run, ok, ◌>>=◌, Returns, returned, Returns-bind, Returns-if, Returns-weaken,
  >>=-commute, >>=-commute_after, if◌then◌else◌, nat_eq,
}
use perceptor.Util.PriorityQueue.{PriorityQueue, parent, load, swap, sift_up_loop, sift_up}
use perceptor.Util.PriorityQueue.Slots.{
  priority_at, IsIndexed, Swapped, load-filled, swap-Swapped, Swapped-IsIndexed, Swapped-find,
}
use perceptor.Util.PriorityQueue.Order.{IsHeapButAbove, IsHeapButBelow, Sifted}

module _ {V : Type 0} where
  swap-IsHeapButAbove :
      {pq next : PriorityQueue V} (i : ℕ)
      → 0 < i
      → i < pq.size
      → IsHeapButAbove pq.items pq.size i
      → ltb_ℤ (priority_at pq.items (parent i)) (priority_at pq.items i) ≡ true
      → Swapped pq i (parent i) next
      → IsHeapButAbove next.items next.size (parent i)
  swap-IsHeapButAbove {pq} {next} i pos hi h high s = record {
    edges =
        λ c p q r. ground (arith, s.size, s.slots c, s.slots (parent c), h.edges c, h.bridged c);
    bridged = λ c p q r t.
        ground
          (arith, s.size, s.slots c, s.slots (parent (parent i)), h.edges c, h.edges (parent i));
  }

module _ {V : Type 0} {Live : String → Type 0} where
  -- A swap that is followed by a sift is a sift.
  pub Sifted-Swapped :
      {pq next : PriorityQueue V} {r : Run (PriorityQueue V)} (i j : ℕ)
      → i < pq.size
      → j < pq.size
      → IsIndexed Live pq
      → Swapped pq i j next
      → Returns (Sifted Live next) r
      → Returns (Sifted Live pq) r
  Sifted-Swapped i j hi hj v s run = Returns-weaken run λ last t. record {
    indexed = t.indexed;
    heap = t.heap;
    size = t.size ∙ s.size;
    same = λ k l. t.same k l ∙ Swapped-find hi hj v s k l;
  }

  sift_up_loop-Sifted :
      (fuel : ℕ) (pq : PriorityQueue V) (i : ℕ)
      → i < fuel
      → i < pq.size
      → IsIndexed Live pq
      → IsHeapButAbove pq.items pq.size i
      → Returns (Sifted Live pq) (sift_up_loop fuel pq i)
  unfolding sift_up_loop
  sift_up_loop-Sifted zero pq i f hi v h = absurd (omega arith)
  sift_up_loop-Sifted (suc fuel) pq i f hi v h =
      let above : parent i < pq.size = omega arith in
      let (p, lp, ep) = load-filled pq v (parent i) above in
      let (c, lc, ec) = load-filled pq v i hi in
      rw (lp, lc)
        (elim (Bool-cases (ltb_ℤ p.priority c.priority)) [
          | inl high ↦
              let up : ltb_ℤ (priority_at pq.items (parent i)) (priority_at pq.items i) ≡ true =
                ground (arith, ep, ec, high) in
              rw high (
                Returns-bind (swap-Swapped pq v i (parent i) hi above) λ next s.
                  Sifted-Swapped i (parent i) hi above v s (
                    Returns-if (leb i 0) (λ root. absurd (ground (arith, up, root)))
                      (λ inner.
                        sift_up_loop-Sifted fuel next (parent i) (ground (arith, inner))
                          (omega (arith, s.size)) (Swapped-IsIndexed hi above v s)
                          (swap-IsHeapButAbove i (ground (arith, inner)) hi h up s))))
          | inr low ↦ rw low (
              Returns-if (leb i 0)
                (λ root. returned (record {
                  indexed = v;
                  heap = λ d q r. ground (arith, root, low, ep, ec, h.edges d);
                  size = refl;
                  same = λ k l. refl;
                }))
                (λ inner.
                  sift_up_loop-Sifted fuel pq (parent i) (ground (arith, inner)) above v (record {
                    edges = λ d q r t. ground (arith, low, ep, ec, h.edges d);
                    bridged =
                        λ d q r t u. ground (arith, low, ep, ec, h.edges d, h.edges (parent i));
                  })))
        ])

  pub sift_up-Sifted :
      (pq : PriorityQueue V) (i : ℕ)
      → i < pq.size
      → IsIndexed Live pq
      → IsHeapButAbove pq.items pq.size i
      → Returns (Sifted Live pq) (sift_up pq i)
  unfolding sift_up
  sift_up-Sifted pq i hi v h = sift_up_loop-Sifted (i + 1) pq i (omega arith) hi v h

  sift_up_loop-settled :
      (fuel : ℕ) (pq : PriorityQueue V) (low i : ℕ)
      → i < fuel
      → i ≤ low
      → low < pq.size
      → IsIndexed Live pq
      → IsHeapButBelow pq.items pq.size low
      → sift_up_loop fuel pq i ≡ ok pq
  unfolding sift_up_loop
  sift_up_loop-settled zero pq low i f le hi v h = absurd (omega arith)
  sift_up_loop-settled (suc fuel) pq low i f le hi v h =
      let (p, lp, ep) = load-filled pq v (parent i) (omega arith) in
      let (c, lc, ec) = load-filled pq v i (omega arith) in
      let stay : ltb_ℤ p.priority c.priority ≡ false = ground (arith, ep, ec, h.edges i) in
      rw (lp, lc, stay) (ground (arith, sift_up_loop-settled fuel pq low (parent i)))

  -- A node that is not above its parent stays where it is.
  pub sift_up-settled :
      (pq : PriorityQueue V) (i : ℕ)
      → i < pq.size
      → IsIndexed Live pq
      → IsHeapButBelow pq.items pq.size i
      → sift_up pq i ≡ ok pq
  unfolding sift_up
  sift_up-settled pq i hi v h =
      sift_up_loop-settled (i + 1) pq i i (omega arith) (omega arith) hi v h

module _ {V : Type 0} where
  abbrev pub with_size : ℕ → PriorityQueue V → PriorityQueue V
  with_size n pq = record pq { size = n }

  swap-with_size :
      (n : ℕ) (pq : PriorityQueue V) (i j : ℕ)
      → swap (with_size n pq) i j ≡ (swap pq i j >>= λ q. ok (with_size n q))
  unfolding swap load
  swap-with_size n pq i j =
      >>=-commute _ (load pq i) _ _ λ a. >>=-commute _ (load pq j) _ _ λ b. refl

  sift_up_loop-with_size :
      (fuel n : ℕ) (pq : PriorityQueue V) (i : ℕ)
      → sift_up_loop fuel (with_size n pq) i ≡ (sift_up_loop fuel pq i >>= λ q. ok (with_size n q))
  unfolding sift_up_loop load
  sift_up_loop-with_size zero n pq i = refl
  sift_up_loop-with_size (suc fuel) n pq i = >>=-commute _ (load pq (parent i)) _ _ λ p.
      >>=-commute _ (load pq i) _ _ λ c.
        let next = λ (q : PriorityQueue V).
          let rest = sift_up_loop fuel q (parent i) in if leb i 0 then ok q else rest in
        let after : (q : PriorityQueue V)
            → next (with_size n q) ≡ (next q >>= λ r. ok (with_size n r)) =
          λ q. elim (Bool-cases (leb i 0)) [
            | inl e ↦ rw e
            | inr e ↦ rw e (sift_up_loop-with_size fuel n q (parent i))
          ] in
        elim (Bool-cases (ltb_ℤ p.priority c.priority)) [
          | inl e ↦
              rw (e, swap-with_size n pq i (parent i))
                (>>=-commute_after _ (swap pq i (parent i)) (with_size n) next next after)
          | inr e ↦ rw e (after pq)
        ]

  -- siftUp does not look at the size.
  pub sift_up-with_size :
      (n : ℕ) (pq : PriorityQueue V) (i : ℕ)
      → sift_up (with_size n pq) i ≡ (sift_up pq i >>= λ q. ok (with_size n q))
  unfolding sift_up
  sift_up-with_size n pq i = sift_up_loop-with_size (i + 1) n pq i
