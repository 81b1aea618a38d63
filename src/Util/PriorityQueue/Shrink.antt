-- ===== src/Util/PriorityQueue/Shrink.antt =====
-- The state in which Remove and Pop leave the slots and the map before they sift.
use perceptor.Prelude.{
  ℕ, suc, ◌<◌, ◌≡◌, ◌≢◌, inl, inr, Bool-cases, Option-cases, String, none, some, arith, length,
  if◌then◌else◌, ◌==◌, nat_eq, string_eq,
}
use text.Mathlib.TextEquality.{eq_iff}
use perceptor.Prelude.Maps
use perceptor.Util.PriorityQueue.{Node, PriorityQueue, parent, node_at}
use perceptor.Util.PriorityQueue.Slots.{key_at, find, IsIndexed}
use perceptor.Util.PriorityQueue.Order.{IsHeapBut}
use perceptor.Util.PriorityQueue.Valid.{Every, IsValid}

abbrev pub Other : String → String → Type 0
Other key k = k ≢ key

module _ {V : Type 0} where
  -- The last node of `pq` has come to `i`, where the node of `key` was, and the size is one less.
  pub record Shrunk (pq : PriorityQueue V) (i : ℕ) (key : String) (last : Node V)
      (next : PriorityQueue V) : Type 0 where
    pub size : suc next.size ≡ pq.size
    pub capacity : length next.items ≡ length pq.items
    pub slots :
        (j : ℕ)
        → node_at next.items j
          ≡ (if next.size == j then none else if i == j then some last else node_at pq.items j)
    pub index :
        (k : String)
        → k ≢ key
        → Maps.lookup k next.key_to_index
          ≡ (if last.key == k then some i else Maps.lookup k pq.key_to_index)

  module _ {pq next : PriorityQueue V} {i : ℕ} {item last : Node V} (v : IsValid pq)
      (hi : i < pq.size) (at : node_at pq.items i ≡ some item) (s : Shrunk pq i item.key last next)
      (at_last : node_at pq.items next.size ≡ some last) where
    shrunk_live : (j : ℕ) → j < next.size → Other item.key (key_at next.items j)
    shrunk_live j p e = ground (
      arith,
      s.size,
      s.slots j,
      v.indexed.indexed j,
      v.indexed.indexed i hi,
      v.indexed.indexed next.size,
    )

    pub Shrunk-IsIndexed : IsIndexed (Other item.key) next
    Shrunk-IsIndexed = record {
      roomy = omega (arith, s.size, s.capacity, v.indexed.roomy);
      nonempty = omega (arith, s.capacity, v.indexed.nonempty);
      filled = λ j p. ground (arith, s.size, s.slots j, v.indexed.filled j);
      cleared = λ j p. ground (arith, s.size, s.slots j, v.indexed.cleared j);
      live = shrunk_live;
      indexed = λ j p. ground (
        arith,
        s.size,
        s.slots j,
        s.index (key_at next.items j) (shrunk_live j p),
        eq_iff last.key (key_at next.items j),
        v.indexed.indexed j,
        v.indexed.indexed next.size,
      );
      placed = λ k j l e. ground (
        arith,
        s.size,
        s.slots j,
        s.index k l,
        eq_iff last.key k,
        v.indexed.placed k j tt,
        v.indexed.indexed next.size,
        v.indexed.indexed i hi,
      );
    }

    pub Shrunk-IsHeapBut : IsHeapBut next.items next.size i
    Shrunk-IsHeapBut = record {
      edges = λ c p q t u. ground (arith, s.size, s.slots c, s.slots (parent c), v.heap c);
      bridged =
          λ c p q t u. ground (arith, s.size, s.slots c, s.slots (parent i), v.heap c, v.heap i);
    }

    pub Shrunk-find : (k : String) → k ≢ item.key → find next k ≡ find pq k
    unfolding find
    Shrunk-find k other = elim (Option-cases (Maps.lookup k pq.key_to_index)) [
      | inl e ↦
          ground (arith, s.size, s.index k other, eq_iff last.key k, v.indexed.indexed next.size)
      | inr (j, e) ↦ ground (
        arith,
        s.size,
        s.index k other,
        s.slots i,
        s.slots j,
        eq_iff last.key k,
        v.indexed.placed k j tt e,
        v.indexed.indexed next.size,
      )
    ]

  -- With a stale key deleted from the map every key counts again.
  pub forget-IsIndexed :
      {pq : PriorityQueue V} (key : String)
      → IsIndexed (Other key) pq
      → IsIndexed Every (record pq { key_to_index = Maps.delete key pq.key_to_index })
  forget-IsIndexed {pq} key v = record {
    roomy = v.roomy;
    nonempty = v.nonempty;
    filled = v.filled;
    cleared = v.cleared;
    live = λ i p. tt;
    indexed = λ i p. ground (
      arith,
      Maps.lookup-delete key (key_at pq.items i) pq.key_to_index,
      v.indexed i,
      v.live i,
      eq_iff key (key_at pq.items i),
    );
    placed = λ k i l e.
        let at = Maps.lookup-delete key k pq.key_to_index in
        elim (Bool-cases (key == k)) [
          | inl same ↦ absurd (ground (arith, at))
          | inr other ↦ v.placed k i (λ q. ground (arith, eq_iff key k)) (ground (arith, at))
        ];
  }

  pub forget-find :
      (pq : PriorityQueue V) (key k : String)
      → find (record pq { key_to_index = Maps.delete key pq.key_to_index }) k
        ≡ (if key == k then none else find pq k)
  unfolding find
  forget-find pq key k = ground (arith, Maps.lookup-delete key k pq.key_to_index)

  -- A key that the map has not got cannot be stale.
  pub absent-IsIndexed :
      {pq : PriorityQueue V} (key : String)
      → Maps.lookup key pq.key_to_index ≡ none
      → IsIndexed (Other key) pq
      → IsIndexed Every pq
  absent-IsIndexed {pq} key absent v = record {
    roomy = v.roomy;
    nonempty = v.nonempty;
    filled = v.filled;
    cleared = v.cleared;
    live = λ i p. tt;
    indexed = v.indexed;
    placed = λ k i l e. v.placed k i (λ q. ground (arith, q)) e;
  }
