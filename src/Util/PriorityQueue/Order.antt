-- ===== src/Util/PriorityQueue/Order.antt =====
-- The heap order on the priorities, and the two ways in which one node may break it.
use perceptor.Prelude.{
  ℕ, zero, suc, ◌<◌, ◌≡◌, ◌≢◌, ◌⊎◌, inl, inr, List, Option, String, ◌≤ℤ◌, arith, nat_eq, Bool-cases,
  ltb_ℤ,
}
use perceptor.Util.PriorityQueue.{Node, PriorityQueue, parent}
use perceptor.Util.PriorityQueue.Slots.{priority_at, IsIndexed, find}

module _ {V : Type 0} where
  -- No node has a higher priority than its parent.
  abbrev pub IsHeap : List (Option (Node V)) → ℕ → Type 0
  IsHeap items size =
      (c : ℕ) → 0 < c → c < size → priority_at items c ≤ℤ priority_at items (parent c)

  -- The children of `i` are no higher than the parent of `i`.
  abbrev pub IsBridged : List (Option (Node V)) → ℕ → ℕ → Type 0
  IsBridged items size i =
      (c : ℕ)
      → 0 < c
      → c < size
      → parent c ≡ i
      → 0 < i
      → priority_at items c ≤ℤ priority_at items (parent i)

  -- Only the edges at `i` may be out of order.
  pub record IsHeapBut (items : List (Option (Node V))) (size i : ℕ) : Type 0 where
    pub edges :
        (c : ℕ)
        → 0 < c
        → c < size
        → c ≢ i
        → parent c ≢ i
        → priority_at items c ≤ℤ priority_at items (parent c)
    pub bridged : IsBridged items size i

  -- Only the edge above `i` may be out of order.
  pub record IsHeapButAbove (items : List (Option (Node V))) (size i : ℕ) : Type 0 where
    pub edges :
        (c : ℕ) → 0 < c → c < size → c ≢ i → priority_at items c ≤ℤ priority_at items (parent c)
    pub bridged : IsBridged items size i

  -- Only the edges below `i` may be out of order.
  pub record IsHeapButBelow (items : List (Option (Node V))) (size i : ℕ) : Type 0 where
    pub edges :
        (c : ℕ)
        → 0 < c
        → c < size
        → parent c ≢ i
        → priority_at items c ≤ℤ priority_at items (parent c)
    pub bridged : IsBridged items size i

  -- A node whose priority has changed is too high or too low, never both.
  pub IsHeapBut-cases :
      (items : List (Option (Node V))) (size i : ℕ)
      → IsHeapBut items size i
      → IsHeapButAbove items size i ⊎ IsHeapButBelow items size i
  IsHeapBut-cases items size i v =
      elim (Bool-cases (ltb_ℤ (priority_at items (parent i)) (priority_at items i))) [
        | inr low ↦
            inr (record { edges = λ c p q r. ground (arith, v.edges c); bridged = v.bridged })
        | inl high ↦ inl (record {
          edges = λ c p q r. ground (arith, v.edges c, v.bridged c);
          bridged = v.bridged;
        })
      ]

  pub IsHeap-IsHeapButBelow :
      (items : List (Option (Node V))) (size i : ℕ)
      → i < size
      → IsHeap items size
      → IsHeapButBelow items size i
  IsHeap-IsHeapButBelow items size i hi h = record {
    edges = λ c p q r. h c p q;
    bridged = λ c p q r s. ground (arith, h c, h i);
  }

  root_highest_below :
      (fuel : ℕ) (items : List (Option (Node V))) (size i : ℕ)
      → IsHeap items size
      → i < fuel
      → i < size
      → priority_at items i ≤ℤ priority_at items 0
  root_highest_below zero items size i h f p = absurd (omega arith)
  root_highest_below (suc fuel) items size i h f p =
      ground (arith, h i, root_highest_below fuel items size (parent i) h)

  pub root_highest :
      (items : List (Option (Node V))) (size i : ℕ)
      → IsHeap items size
      → i < size
      → priority_at items i ≤ℤ priority_at items 0
  root_highest items size i h p = root_highest_below (suc i) items size i h (omega arith) p

  -- `next` is a well-indexed heap of the same size with the same node for every live key.
  pub record Sifted (Live : String → Type 0) (pq next : PriorityQueue V) : Type 0 where
    pub indexed : IsIndexed Live next
    pub heap : IsHeap next.items next.size
    pub size : next.size ≡ pq.size
    pub same : (k : String) → Live k → find next k ≡ find pq k
