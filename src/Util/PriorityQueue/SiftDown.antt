-- ===== src/Util/PriorityQueue/SiftDown.antt =====
-- siftDown: it ends, and it mends a heap with one node that is too high in the tree.
use perceptor.Prelude.{
  ℕ, zero, suc, ◌+◌, ◌-◌, ◌≤◌, ◌<◌, ◌≡◌, ◌⊎◌, true, inl, inr, Bool-cases, refl, String, ◌≤ℤ◌, ltb_ℤ,
  leb, ltb, some, ltb→lt, ltb→le, arith, Returns, returned, Returns-bind, Returns-if, if◌then◌else◌,
  ◌==◌, nat_eq,
}
use perceptor.Util.PriorityQueue.{
  Node, PriorityQueue, parent, left_child, right_child, node_at, compare_right, next_index,
  sift_down_loop, sift_down,
}
use perceptor.Util.PriorityQueue.Slots.{
  priority_at, IsIndexed, Swapped, load-filled, swap-Swapped, Swapped-IsIndexed,
}
use perceptor.Util.PriorityQueue.Order.{IsHeapButBelow, Sifted}
use perceptor.Util.PriorityQueue.SiftUp.{Sifted-Swapped}

module _ {V : Type 0} where
  -- `m` is `i`, or a child of `i` that is higher than `i`, and no child of `i` is higher than `m`.
  record IsNextIndex (pq : PriorityQueue V) (i m : ℕ) : Type 0 where
    inside : m < pq.size
    higher :
        (m ≡ i)
        ⊎ (0 < m)
          × (parent m ≡ i)
          × (i < m)
          × (ltb_ℤ (priority_at pq.items i) (priority_at pq.items m) ≡ true)
    highest :
        (c : ℕ)
        → 0 < c
        → c < pq.size
        → parent c ≡ i
        → priority_at pq.items c ≤ℤ priority_at pq.items m

  module _ (pq : PriorityQueue V) (i : ℕ) (p l : Node V) (at_parent : node_at pq.items i ≡ some p)
      (at_left : node_at pq.items (left_child i) ≡ some l) (inside : left_child i < pq.size) where
    one_child :
        pq.size ≤ right_child i
        → IsNextIndex pq i (if ltb_ℤ p.priority l.priority then left_child i else i)
    one_child one = elim (Bool-cases (ltb_ℤ p.priority l.priority)) [
      | inl e ↦ rw e (record {
        inside = inside;
        higher = inr (omega arith, omega arith, omega arith, ground (arith, at_parent, at_left));
        highest = λ c q r t. ground (arith, at_left);
      })
      | inr e ↦ rw e (record {
        inside = omega arith;
        higher = inl refl;
        highest = λ c q r t. ground (arith, at_parent, at_left);
      })
    ]

    two_children :
        (r : Node V) (best : ℕ) (b : Node V)
        → node_at pq.items (right_child i) ≡ some r
        → right_child i < pq.size
        → node_at pq.items best ≡ some b
        → ((best ≡ i) ⊎ (best ≡ left_child i) × (ltb_ℤ p.priority l.priority ≡ true))
        → l.priority ≤ℤ b.priority
        → p.priority ≤ℤ b.priority
        → IsNextIndex pq i (if ltb_ℤ b.priority r.priority then right_child i else best)
    two_children r best b at_right two at_best choice over_left over_parent =
        elim (Bool-cases (ltb_ℤ b.priority r.priority)) [
          | inl e ↦ rw e (record {
            inside = two;
            higher =
                inr (omega arith, omega arith, omega arith, ground (arith, at_parent, at_right));
            highest = λ c q t u. ground (arith, at_left, at_right);
          })
          | inr e ↦ rw e (record {
            inside = omega arith;
            higher = ground (arith, choice);
            highest = λ c q t u. ground (arith, at_left, at_right, at_best);
          })
        ]

  swap-IsHeapButBelow :
      {pq next : PriorityQueue V} {i m : ℕ}
      → IsHeapButBelow pq.items pq.size i
      → IsNextIndex pq i m
      → 0 < m
      → parent m ≡ i
      → ltb_ℤ (priority_at pq.items i) (priority_at pq.items m) ≡ true
      → Swapped pq i m next
      → IsHeapButBelow next.items next.size m
  swap-IsHeapButBelow {pq} {next} {i} {m} h n pos child high s = record {
    edges = λ c p q t.
        ground (arith, s.size, s.slots c, s.slots (parent c), h.edges c, h.bridged m, n.highest c);
    bridged = λ c p q t u. ground (arith, s.size, s.slots c, s.slots (parent m), h.edges c);
  }

  module _ {Live : String → Type 0} where
    next_index-IsNextIndex :
        (pq : PriorityQueue V) (i : ℕ)
        → left_child i < pq.size
        → IsIndexed Live pq
        → Returns (IsNextIndex pq i) (next_index pq i)
    unfolding next_index compare_right
    next_index-IsNextIndex pq i inside v =
        let (p, lp, ep) = load-filled pq v i (omega arith) in
        let (l, ll, el) = load-filled pq v (left_child i) inside in
        rw (lp, ll)
          (Returns-if (ltb (right_child i) pq.size)
            (λ two.
              let two : right_child i < pq.size = ltb→lt _ _ two in
              let (r, lr, er) = load-filled pq v (right_child i) two in
              elim (Bool-cases (ltb_ℤ p.priority l.priority)) [
                | inl e ↦
                    rw (e, lr, ll)
                      (returned (
                        two_children pq i p l ep el inside r (left_child i) l er two el
                          (inr (refl, e)) (omega arith) (ground arith)))
                | inr e ↦
                    rw (e, lr, lp)
                      (returned (
                        two_children pq i p l ep el inside r i p er two ep (inl refl) (ground arith)
                          (omega arith)))
              ])
            (λ one. returned (one_child pq i p l ep el inside (ltb→le _ _ one))))

    sift_down_loop-Sifted :
        (fuel : ℕ) (pq : PriorityQueue V) (i : ℕ)
        → pq.size - i < fuel
        → IsIndexed Live pq
        → IsHeapButBelow pq.items pq.size i
        → Returns (Sifted Live pq) (sift_down_loop fuel pq i)
    unfolding sift_down_loop
    sift_down_loop-Sifted zero pq i f v h = absurd (omega arith)
    sift_down_loop-Sifted (suc fuel) pq i f v h =
        Returns-if (leb pq.size (left_child i))
          (λ leaf. returned (record {
            indexed = v;
            heap = λ c p q. ground (arith, leaf, h.edges c);
            size = refl;
            same = λ k l. refl;
          }))
          (λ inner. Returns-bind (next_index-IsNextIndex pq i (ground (arith, inner)) v) λ m n.
            Returns-if (m == i)
              (λ stay. returned (record {
                indexed = v;
                heap = λ c p q. ground (arith, stay, h.edges c, n.highest c);
                size = refl;
                same = λ k l. refl;
              }))
              (λ go. elim n.higher [
                | inl e ↦ absurd (ground (arith, go))
                | inr (pos, child, below, high) ↦
                    let hi : i < pq.size = omega (arith, n.inside) in
                    Returns-bind (swap-Swapped pq v i m hi n.inside) λ next s.
                      Sifted-Swapped i m hi n.inside v s (
                        sift_down_loop-Sifted fuel next m (omega (arith, s.size, n.inside))
                          (Swapped-IsIndexed hi n.inside v s)
                          (swap-IsHeapButBelow h n pos child high s))
              ]))

    pub sift_down-Sifted :
        (pq : PriorityQueue V) (i : ℕ)
        → IsIndexed Live pq
        → IsHeapButBelow pq.items pq.size i
        → Returns (Sifted Live pq) (sift_down pq i)
    unfolding sift_down
    sift_down-Sifted pq i v h = sift_down_loop-Sifted (pq.size + 1) pq i (omega arith) v h
