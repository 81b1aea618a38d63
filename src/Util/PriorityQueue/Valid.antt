-- ===== src/Util/PriorityQueue/Valid.antt =====
-- What makes a queue valid, and the calls that only read it.
use perceptor.Prelude.{
  ℕ, zero, suc, ◌<◌, ◌≡◌, ◌≢◌, ◌↔◌, ◌⊎◌, true, inl, inr, Bool-cases, Option-cases, refl, String,
  ◌≤ℤ◌, Option, none, some, arith, length, length-replicate, replicate, set, ok, ◌==◌, nat_eq,
  string_eq,
}
use perceptor.Prelude.Maps
use perceptor.Util.PriorityQueue.{
  Node, PriorityQueue, node_at, load, store, has_key, peek,
  new_priority_queue_with_initial_capacity,
}
use perceptor.Util.PriorityQueue.Slots.{find, IsIndexed, load-filled}
use perceptor.Util.PriorityQueue.Order.{IsHeap, root_highest}

-- Every key counts.
abbrev pub Every : String → Type 0
Every k = Unit {0}

module _ {V : Type 0} where
  -- The slots, the map and the heap order agree.
  pub record IsValid (pq : PriorityQueue V) : Type 0 where
    pub indexed : IsIndexed Every pq
    pub heap : IsHeap pq.items pq.size

  node_at-replicate : (n i : ℕ) → node_at {V = V} (replicate n none) i ≡ none
  unfolding node_at
  node_at-replicate zero i = refl
  node_at-replicate (suc n) zero = refl
  node_at-replicate (suc n) (suc i) = node_at-replicate n i

  -- A new queue of any positive capacity is valid and holds no key.
  pub new-IsValid :
      (capacity : ℕ)
      → 0 < capacity
      → (let pq = new_priority_queue_with_initial_capacity {V = V} capacity in
          IsValid pq × (pq.size ≡ 0) × ((k : String) → find pq k ≡ none))
  unfolding new_priority_queue_with_initial_capacity find Maps.lookup
  new-IsValid capacity h = (
    record {
      indexed = record {
        roomy = omega arith;
        nonempty = omega (arith, length-replicate {0} {A = Option (Node V)} capacity none);
        filled = λ i p. absurd (omega arith);
        cleared = λ i p. node_at-replicate capacity i;
        live = λ i p. tt;
        indexed = λ i p. absurd (omega arith);
        placed = λ k i l e. cc;
      };
      heap = λ c p q. absurd (omega arith);
    },
    refl,
    λ k. refl,
  )

  module _ {pq : PriorityQueue V} (v : IsIndexed Every pq) where
    -- A key that the map has is that of a node.
    pub find-cases :
        (k : String)
        → ((Maps.lookup k pq.key_to_index ≡ none) × (find pq k ≡ none))
          ⊎ ((i : ℕ) × (n : Node V) × (Maps.lookup k pq.key_to_index ≡ some i)
              × (i < pq.size)
              × (node_at pq.items i ≡ some n)
              × (n.key ≡ k)
              × (find pq k ≡ some n))
    unfolding find
    find-cases k = elim (Option-cases (Maps.lookup k pq.key_to_index)) [
      | inl e ↦ inl (e, rw (e, find))
      | inr (i, e) ↦
          let (hi, at) = v.placed k i tt e in
          let (n, _, en) = load-filled pq v i hi in
          inr (i, n, e, hi, en, ground (arith, en, at), rw (e, find) en)
    ]

    -- A node in a slot is found under its key.
    pub find-filled :
        (i : ℕ) (n : Node V) → i < pq.size → node_at pq.items i ≡ some n → find pq n.key ≡ some n
    unfolding find
    find-filled i n hi e = ground (arith, v.indexed i hi, e)

  -- HasKey holds exactly of the keys of the queue's nodes.
  pub has_key-find :
      (pq : PriorityQueue V) (k : String) → IsValid pq → (has_key pq k ≡ true) ↔ (find pq k ≢ none)
  unfolding has_key
  has_key-find pq k v = elim (find-cases v.indexed k) [
    | inl (e, f) ↦ rw (e, f, has_key) ((λ p. cc), λ p. absurd (p refl))
    | inr (i, n, e, hi, at, key, f) ↦ rw (e, f, has_key) ((λ p q. cc), λ p. refl)
  ]

  -- What Peek promises: the value of a node that no other node outranks, or nil exactly if the
  -- queue is empty.
  abbrev pub IsTop : PriorityQueue V → Node V → Type 0
  IsTop pq top =
      (find pq top.key ≡ some top)
      × ((k : String) (n : Node V) → find pq k ≡ some n → n.priority ≤ℤ top.priority)

  pub root-IsTop :
      (pq : PriorityQueue V)
      → IsValid pq
      → 0 < pq.size
      → (top : Node V) × (node_at pq.items 0 ≡ some top) × (load pq 0 ≡ ok top) × IsTop pq top
  root-IsTop pq v h =
      let (top, l, e) = load-filled pq v.indexed 0 h in
      (
        top,
        e,
        l,
        (
          find-filled v.indexed 0 top h e,
          λ k n f. elim (find-cases v.indexed k) [
            | inl (_, g) ↦ absurd (cc)
            | inr (i, m, _, hi, at, _, g) ↦
                ground (arith, e, at, root_highest pq.items pq.size i v.heap hi)
          ],
        ),
      )

  pub find-empty :
      (pq : PriorityQueue V) → IsValid pq → pq.size ≡ 0 → (k : String) → find pq k ≡ none
  find-empty pq v e k = elim (find-cases v.indexed k) [
    | inl (_, f) ↦ f
    | inr (i, n, _, hi, _, _, _) ↦ absurd (omega arith)
  ]

  -- On a valid queue Peek never panics: it gives nil if no key has a node, and otherwise the value
  -- of a node of the queue whose priority no other node exceeds.
  pub peek_correct :
      (pq : PriorityQueue V)
      → IsValid pq
      → ((peek pq ≡ ok none) × (pq.size ≡ 0) × ((k : String) → find pq k ≡ none))
        ⊎ ((top : Node V) × (peek pq ≡ ok (some top.value)) × (0 < pq.size) × IsTop pq top)
  unfolding peek
  peek_correct pq v = elim (Bool-cases (pq.size == 0)) [
    | inl e ↦ inl (rw e, ground (arith, e), find-empty pq v (ground (arith, e)))
    | inr e ↦
        let h : 0 < pq.size = ground (arith, e) in
        let (top, _, l, t) = root-IsTop pq v h in inr (top, rw (e, l), h, t)
  ]

  pub store-ok :
      (pq : PriorityQueue V) (i : ℕ) (slot : Option (Node V))
      → i < length pq.items
      → store pq i slot ≡ ok (record pq { items = set pq.items i slot })
  unfolding store
  store-ok pq i slot h = ground arith
