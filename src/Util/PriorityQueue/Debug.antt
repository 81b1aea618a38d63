-- ===== src/Util/PriorityQueue/Debug.antt =====
-- pkg/util/priorityqueue.go: Values, Dump, and the check of the heap property in CheckValidity.
pub mod Sound
use perceptor.Prelude.{
  ℕ, zero, suc, ◌+◌, ℤ, ltb_ℤ, leb, List, [], ◌∷◌, ◌++◌, map, String, Run, ok, ◌>>=◌, if◌then◌else◌,
}
use perceptor.Util.PriorityQueue.{Node, PriorityQueue, load, left_child, right_child}

-- A node at the first position whose child at the second has a higher priority.
pub data Fault : Type 0 where
  fault : ℕ → ℕ → Fault

module _ {V : Type 0} where
  -- The loops over the `n` positions from `i` on.
  unfoldable pub nodes_from : ℕ → ℕ → PriorityQueue V → Run (List (Node V))
  nodes_from zero i pq = ok []
  nodes_from (suc n) i pq =
      load pq i >>= λ node. nodes_from n (i + 1) pq >>= λ rest. ok (node ∷ rest)

  unfoldable pub values : PriorityQueue V → Run (List V)
  values pq = nodes_from pq.size 0 pq >>= λ nodes. ok (map (λ (n : Node V). n.value) nodes)

  unfoldable pub dump : PriorityQueue V → Run (List (String × ℤ))
  dump pq =
      nodes_from pq.size 0 pq >>= λ nodes. ok (map (λ (n : Node V). (n.key, n.priority)) nodes)

  abbrev pub edge_faults : ℕ → ℕ → Node V → Node V → List Fault
  edge_faults i c curr child = if ltb_ℤ curr.priority child.priority then fault i c ∷ [] else []

  -- The first loop of CheckValidity: the first missing child ends it.
  unfoldable pub heap_faults : ℕ → ℕ → PriorityQueue V → Run (List Fault)
  heap_faults zero i pq = ok []
  heap_faults (suc n) i pq =
      let later = heap_faults n (i + 1) pq in
      if leb pq.size (left_child i)
      then ok []
      else (load pq i >>= λ curr. load pq (left_child i) >>= λ left.
          if leb pq.size (right_child i)
          then ok (edge_faults i (left_child i) curr left)
          else (load pq (right_child i) >>= λ right. later >>= λ rest. ok (
              edge_faults i (left_child i) curr left
              ++ (edge_faults i (right_child i) curr right ++ rest))))

  unfoldable pub check_heap_property : PriorityQueue V → Run (List Fault)
  check_heap_property pq = heap_faults pq.size 0 pq
