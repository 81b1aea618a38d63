-- ===== src/Util/PriorityQueue/Slots.antt =====
-- The slots and the key map of a queue: when they agree, and what a swap does to them.
use perceptor.Prelude.{
  ℕ, zero, suc, ◌≤◌, ◌<◌, ◌≡◌, ◌≢◌, inl, inr, Option-cases, refl, ◌∙◌, List, [], ◌∷◌, Option, none,
  some, String, ℤ, pos, if◌then◌else◌, ◌==◌, nat_eq, string_eq, length, set, length-set, ok,
  Returns, returned, arith,
}
use text.Mathlib.TextEquality.{eq_iff}
use perceptor.Prelude.Maps
use perceptor.Util.PriorityQueue.{Node, PriorityQueue, node_at, load, swap}

module _ {V : Type 0} where
  -- Priority and key of the node in a slot; the values for an empty slot are never relied on.
  abbrev pub node_priority : Option (Node V) → ℤ
  node_priority none = pos 0
  node_priority (some n) = n.priority

  abbrev pub node_key : Option (Node V) → String
  node_key none = ""
  node_key (some n) = n.key

  abbrev pub priority_at : List (Option (Node V)) → ℕ → ℤ
  priority_at items i = node_priority (node_at items i)

  abbrev pub key_at : List (Option (Node V)) → ℕ → String
  key_at items i = node_key (node_at items i)

  -- The node that the map gives for a key: the queue as a finite map from keys.
  unfoldable pub find : PriorityQueue V → String → Option (Node V)
  find pq k = elim (Maps.lookup k pq.key_to_index) [ none ↦ none | some i ↦ node_at pq.items i ]

  -- The slots below `size` hold nodes and the others nil, and the map gives the position of each
  -- node's key. Of a key that is not `Live` the map may say anything.
  pub record IsIndexed (Live : String → Type 0) (pq : PriorityQueue V) : Type 0 where
    pub roomy : pq.size ≤ length pq.items
    pub nonempty : 0 < length pq.items
    pub filled : (i : ℕ) → i < pq.size → node_at pq.items i ≢ none
    pub cleared : (i : ℕ) → pq.size ≤ i → node_at pq.items i ≡ none
    pub live : (i : ℕ) → i < pq.size → Live (key_at pq.items i)
    pub indexed : (i : ℕ) → i < pq.size → Maps.lookup (key_at pq.items i) pq.key_to_index ≡ some i
    pub placed :
        (k : String) (i : ℕ)
        → Live k
        → Maps.lookup k pq.key_to_index ≡ some i
        → (i < pq.size) × (key_at pq.items i ≡ k)

  pub node_at-set :
      (items : List (Option (Node V))) (i j : ℕ) (slot : Option (Node V))
      → i < length items
      → node_at (set items i slot) j ≡ (if i == j then slot else node_at items j)
  unfolding node_at
  node_at-set [] i j slot h = elim h [ ]
  node_at-set (x ∷ items) zero zero slot h = refl
  node_at-set (x ∷ items) (suc i) (suc j) slot h = ground (arith, node_at-set items i j slot)
  node_at-set (x ∷ items) zero (suc j) slot h = ground arith
  node_at-set (x ∷ items) (suc i) zero slot h = ground arith

  pub load-ok :
      (pq : PriorityQueue V) (i : ℕ) (n : Node V) → node_at pq.items i ≡ some n → load pq i ≡ ok n
  unfolding load
  load-ok pq i n e = rw e

  -- What a swap of the positions `i` and `j` does.
  pub record Swapped (pq : PriorityQueue V) (i j : ℕ) (next : PriorityQueue V) : Type 0 where
    pub size : next.size ≡ pq.size
    pub capacity : length next.items ≡ length pq.items
    pub slots :
        (c : ℕ)
        → node_at next.items c ≡ (
            if j == c
            then node_at pq.items i
            else if i == c
            then node_at pq.items j
            else node_at pq.items c)
    pub index :
        (k : String)
        → Maps.lookup k next.key_to_index ≡ (
            if key_at pq.items i == k
            then some j
            else if key_at pq.items j == k
            then some i
            else Maps.lookup k pq.key_to_index)

  module _ {Live : String → Type 0} (pq : PriorityQueue V) (v : IsIndexed Live pq) where
    pub load-filled :
        (i : ℕ) → i < pq.size → (n : Node V) × (load pq i ≡ ok n) × (node_at pq.items i ≡ some n)
    unfolding load
    load-filled i h = elim (Option-cases (node_at pq.items i)) [
      | inl e ↦ absurd (v.filled i h e)
      | inr (n, e) ↦ (n, rw e, e)
    ]

    pub swap-Swapped :
        (i j : ℕ) → i < pq.size → j < pq.size → Returns (Swapped pq i j) (swap pq i j)
    unfolding swap
    swap-Swapped i j hi hj =
        let (a, la, ea) = load-filled i hi in
        let (b, lb, eb) = load-filled j hj in
        let first = length-set pq.items i (some b) in
        let h : i < length pq.items = omega (arith, v.roomy) in
        let h' : j < length (set pq.items i (some b)) = omega (arith, v.roomy, first) in
        rw (la, lb)
          (returned (record {
            size = refl;
            capacity = length-set (set pq.items i (some b)) j (some a) ∙ first;
            slots = λ c. ground (
              arith,
              node_at-set (set pq.items i (some b)) j c (some a) h',
              node_at-set pq.items i c (some b) h,
            );
            index = λ k. ground (
              arith,
              Maps.lookup-insert a.key k j (Maps.insert b.key i pq.key_to_index),
              Maps.lookup-insert b.key k i pq.key_to_index,
            );
          }))

  module _ {Live : String → Type 0} {pq next : PriorityQueue V} {i j : ℕ} (hi : i < pq.size)
      (hj : j < pq.size) (v : IsIndexed Live pq) (s : Swapped pq i j next) where
    pub Swapped-IsIndexed : IsIndexed Live next
    Swapped-IsIndexed = record {
      roomy = omega (arith, v.roomy, s.size, s.capacity);
      nonempty = omega (arith, v.nonempty, s.capacity);
      filled = λ c h. ground (arith, s.slots c, s.size, v.filled c, v.filled i hi, v.filled j hj);
      cleared = λ c h. ground (arith, s.slots c, s.size, v.cleared c);
      live = λ c h. ground (arith, s.slots c, s.size, v.live c, v.live i hi, v.live j hj);
      indexed = λ c h. ground (
        arith,
        s.slots c,
        s.size,
        s.index (key_at next.items c),
        v.indexed c,
        v.indexed i hi,
        v.indexed j hj,
        eq_iff (key_at pq.items i) (key_at next.items c),
        eq_iff (key_at pq.items j) (key_at next.items c),
      );
      placed = λ k c l e. ground (
        arith,
        s.slots c,
        s.size,
        s.index k,
        v.placed k c l,
        v.indexed i hi,
        v.indexed j hj,
        eq_iff (key_at pq.items i) k,
        eq_iff (key_at pq.items j) k,
      );
    }

    -- A swap moves no key that counts to another node.
    pub Swapped-find : (k : String) → Live k → find next k ≡ find pq k
    unfolding find
    Swapped-find k l = elim (Option-cases (Maps.lookup k pq.key_to_index)) [
      | inl e ↦ ground (
        arith,
        s.index k,
        v.indexed i hi,
        v.indexed j hj,
        eq_iff (key_at pq.items i) k,
        eq_iff (key_at pq.items j) k,
      )
      | inr (x, e) ↦ ground (
        arith,
        s.index k,
        s.slots i,
        s.slots j,
        s.slots x,
        v.placed k x l e,
        v.indexed i hi,
        v.indexed j hj,
        eq_iff (key_at pq.items i) k,
        eq_iff (key_at pq.items j) k,
      )
    ]
