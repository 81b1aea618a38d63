-- ===== src/Util/PriorityQueue/Debug/Sound.antt =====
-- What the debugging functions of the queue give on a valid queue.
use perceptor.Prelude.{
  ℕ, zero, suc, ◌+◌, ◌≤◌, ◌<◌, ◌≡◌, refl, ap, sym, ◌∙◌, ◌++◌, ◌≤ℤ◌, leb, Bool-cases, inl, inr, List,
  [], ◌∷◌, some, arith, length, get_elem?, ok, Returns, returned, Returns-bind,
}
use perceptor.Util.PriorityQueue.{Node, PriorityQueue, node_at, parent, left_child, right_child}
use perceptor.Util.PriorityQueue.Slots.{load-filled, priority_at}
use perceptor.Util.PriorityQueue.Valid.{IsValid}
use perceptor.Util.PriorityQueue.Debug.{nodes_from, edge_faults, heap_faults, check_heap_property}

module _ {V : Type 0} (pq : PriorityQueue V) (v : IsValid pq) where
  no_edge_fault :
      (i c : ℕ) (curr child : Node V)
      → node_at pq.items i ≡ some curr
      → node_at pq.items c ≡ some child
      → priority_at pq.items c ≤ℤ priority_at pq.items i
      → edge_faults i c curr child ≡ []
  no_edge_fault i c curr child e f le = ground (arith, e, f, le)

  child_priority :
      (i c : ℕ)
      → 0 < c
      → c < pq.size
      → parent c ≡ i
      → priority_at pq.items c ≤ℤ priority_at pq.items i
  child_priority i c h k p = rw p at (v.heap c h k)

  heap_faults-empty : (n i : ℕ) → i + n ≤ pq.size → heap_faults n i pq ≡ ok []
  unfolding heap_faults
  heap_faults-empty zero i h = refl
  heap_faults-empty (suc n) i h = elim (Bool-cases (leb pq.size (left_child i))) [
    | inl b ↦ rw b refl
    | inr b ↦
        let (curr, l0, e0) = load-filled pq v.indexed i (omega arith) in
        let (left, l1, e1) = load-filled pq v.indexed (left_child i) (ground (arith, b)) in
        elim (Bool-cases (leb pq.size (right_child i))) [
          | inl r ↦
              rw (b, l0, l1, r)
                (ap ok (
                  no_edge_fault i (left_child i) curr left e0 e1 (
                    child_priority i (left_child i) (omega arith) (ground (arith, b))
                      (omega arith))))
          | inr r ↦
              let (right, l2, e2) = load-filled pq v.indexed (right_child i) (ground (arith, r)) in
              rw (b, l0, l1, r, l2, heap_faults-empty n (i + 1) (omega arith))
                (ap ok (
                  ap (λ l. l ++ (edge_faults i (right_child i) curr right ++ []))
                    (no_edge_fault i (left_child i) curr left e0 e1 (
                      child_priority i (left_child i) (omega arith) (ground (arith, b))
                        (omega arith)))
                  ∙ ap (λ l. l ++ [])
                      (no_edge_fault i (right_child i) curr right e0 e2 (
                        child_priority i (right_child i) (omega arith) (ground (arith, r))
                          (omega arith)))))
        ]
  ]

  -- On a valid queue the first check of CheckValidity does not panic and finds no fault.
  pub check_heap_property-empty : check_heap_property pq ≡ ok []
  unfolding check_heap_property
  check_heap_property-empty = heap_faults-empty pq.size 0 (omega arith)

  next_slot :
      (n i : ℕ) (node : Node V) (rest : List (Node V))
      → node_at pq.items i ≡ some node
      → ((j : ℕ) → j < n → get_elem? rest j ≡ node_at pq.items (i + 1 + j))
      → (j : ℕ) → j < suc n
      → get_elem? (node ∷ rest) j ≡ node_at pq.items (i + j)
  next_slot n i node rest e slots zero h =
      let same : i ≡ i + 0 = omega arith in sym e ∙ ap (node_at pq.items) same
  next_slot n i node rest e slots (suc j) h =
      let same : i + 1 + j ≡ i + suc j = omega arith in
      slots j (omega arith) ∙ ap (node_at pq.items) same

  -- On a valid queue the loop of Values and Dump over a range of its positions does not panic, and
  -- gives the nodes of these positions in their order.
  pub nodes_from_correct :
      (n i : ℕ)
      → i + n ≤ pq.size
      → Returns
          (λ nodes.
            (length nodes ≡ n) × ((j : ℕ) → j < n → get_elem? nodes j ≡ node_at pq.items (i + j)))
          (nodes_from n i pq)
  unfolding nodes_from
  nodes_from_correct zero i h = returned (refl, λ j k. absurd (omega arith))
  nodes_from_correct (suc n) i h =
      let (node, l, e) = load-filled pq v.indexed i (omega arith) in
      rw l (
        Returns-bind (nodes_from_correct n (i + 1) (omega arith))
          λ rest (size, slots). returned (ap suc size, next_slot n i node rest e slots))
