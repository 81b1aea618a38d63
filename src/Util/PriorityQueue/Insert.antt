-- ===== src/Util/PriorityQueue/Insert.antt =====
-- Add and Set.
use perceptor.Prelude.{
  ℕ, zero, suc, ◌+◌, ◌<◌, ◌≡◌, ◌≢◌, inl, inr, Option-cases, Bool-cases, refl, sym, ap, ◌∙◌, String,
  ℤ, List, [], ◌∷◌, ◌++◌, Option, none, some, arith, length, length-append, length-replicate,
  replicate, set, length-set, ok, Returns, returned, Returns-value, if◌then◌else◌, ◌==◌, nat_eq,
  string_eq, ltb, ltb→lt, ltb→le,
}
use text.Mathlib.TextEquality.{eq_iff}
use perceptor.Prelude.Maps
use perceptor.Util.PriorityQueue.{
  Node, PriorityQueue, Error, key_in_map, parent, node_at, place, add, resize_if_necessary,
}
use perceptor.Util.PriorityQueue.Slots.{key_at, find, IsIndexed, node_at-set}
use perceptor.Util.PriorityQueue.Order.{IsHeapButAbove}
use perceptor.Util.PriorityQueue.SiftUp.{with_size, sift_up-with_size, sift_up-Sifted}
use perceptor.Util.PriorityQueue.Valid.{Every, IsValid, find-cases, store-ok}

module _ {V : Type 0} where
  node_at-grown :
      (items : List (Option (Node V))) (n i : ℕ)
      → node_at (items ++ replicate n none) i ≡ node_at items i
  unfolding node_at
  node_at-grown [] zero i = refl
  node_at-grown [] (suc n) zero = refl
  node_at-grown [] (suc n) (suc i) = node_at-grown [] n i
  node_at-grown (x ∷ items) n zero = refl
  node_at-grown (x ∷ items) n (suc i) = node_at-grown items n i

  -- The queue with room for one more node, all else as before.
  record Resized (pq next : PriorityQueue V) : Type 0 where
    room : next.size < length next.items
    size : next.size ≡ pq.size
    slots : (i : ℕ) → node_at next.items i ≡ node_at pq.items i
    index : next.key_to_index ≡ pq.key_to_index

  resize-Resized : (pq : PriorityQueue V) → IsIndexed Every pq → Resized pq (resize_if_necessary pq)
  unfolding resize_if_necessary
  resize-Resized pq v = elim (Bool-cases (ltb pq.size (length pq.items))) [
    | inl e ↦ rw e (record { room = ltb→lt _ _ e; size = refl; slots = λ i. refl; index = refl })
    | inr e ↦ rw e (record {
      room = omega (
        arith,
        ltb→le _ _ e,
        v.nonempty,
        length-append pq.items (replicate (length pq.items) none),
        length-replicate {0} {A = Option (Node V)} (length pq.items) none,
      );
      size = refl;
      slots = λ i. node_at-grown pq.items (length pq.items) i;
      index = refl;
    })
  ]

  -- The queue with a new node in the slot at its end, counted by the size.
  abbrev placed_at_end : PriorityQueue V → Node V → PriorityQueue V
  placed_at_end pq node = record {
    items = set pq.items pq.size (some node);
    size = pq.size + 1;
    key_to_index = Maps.insert node.key pq.size pq.key_to_index;
  }

  module _ (pq resized : PriorityQueue V) (node : Node V) (v : IsValid pq) (r : Resized pq resized)
      (absent : Maps.lookup node.key pq.key_to_index ≡ none) where
    at_slot :
        (i : ℕ)
        → node_at (set resized.items resized.size (some node)) i
          ≡ (if resized.size == i then some node else node_at pq.items i)
    at_slot i =
        ground (arith, node_at-set resized.items resized.size i (some node) r.room, r.slots i)

    at_key :
        (k : String)
        → Maps.lookup k (Maps.insert node.key resized.size resized.key_to_index)
          ≡ (if node.key == k then some pq.size else Maps.lookup k pq.key_to_index)
    at_key k =
        ground
          (arith, Maps.lookup-insert node.key k resized.size resized.key_to_index, r.index, r.size)

    placed-IsIndexed : IsIndexed Every (placed_at_end resized node)
    placed-IsIndexed = record {
      roomy = omega (arith, r.room, length-set resized.items resized.size (some node));
      nonempty = omega (arith, r.room, length-set resized.items resized.size (some node));
      filled = λ i p. ground (arith, at_slot i, r.size, v.indexed.filled i);
      cleared = λ i p. ground (arith, at_slot i, r.size, v.indexed.cleared i);
      live = λ i p. tt;
      indexed = λ i p. ground (
        arith,
        at_slot i,
        r.size,
        at_key (key_at (set resized.items resized.size (some node)) i),
        v.indexed.indexed i,
        absent,
        eq_iff node.key (key_at (set resized.items resized.size (some node)) i),
      );
      placed = λ k i l e.
          ground (arith, at_slot i, r.size, at_key k, v.indexed.placed k i tt, eq_iff node.key k);
    }

    placed-IsHeapButAbove :
        IsHeapButAbove (set resized.items resized.size (some node)) (resized.size + 1) resized.size
    placed-IsHeapButAbove = record {
      edges = λ c p q t. ground (arith, at_slot c, at_slot (parent c), r.size, v.heap c);
      bridged = λ c p q t u. absurd (omega arith);
    }

    placed-find :
        (k : String)
        → find (placed_at_end resized node) k ≡ (if node.key == k then some node else find pq k)
    unfolding find
    placed-find k = elim (Option-cases (Maps.lookup k pq.key_to_index)) [
      | inl e ↦ ground (arith, at_key k, at_slot resized.size, r.size)
      | inr (i, e) ↦
          ground
            (arith, at_key k, at_slot i, at_slot resized.size, r.size, v.indexed.placed k i tt e)
    ]

  -- What Add promises. A key of the queue is refused and nothing changes; any other key is added
  -- with its node, and the queue stays valid.
  pub record Added (pq : PriorityQueue V) (node : Node V) (r : PriorityQueue V × Option Error)
      : Type 0 where
    pub valid : IsValid r.0
    pub refused : find pq node.key ≢ none → (r.0 ≡ pq) × (r.1 ≡ some key_in_map)
    pub accepted :
        find pq node.key ≡ none
        → (r.1 ≡ none)
          × (r.0.size ≡ pq.size + 1)
          × ((k : String) → find r.0 k ≡ (if node.key == k then some node else find pq k))

  place-ok :
      (pq : PriorityQueue V) (node : Node V)
      → pq.size < length pq.items
      → place pq node ≡ ok (with_size pq.size (placed_at_end pq node))
  unfolding place
  place-ok pq node h = rw (store-ok pq pq.size (some node) h)

  -- On a valid queue Add never panics: a key of the queue is refused and nothing changes, any other
  -- key is added with its node, and the queue stays valid.
  pub add_correct :
      (pq : PriorityQueue V) (key : String) (priority : ℤ) (value : V)
      → IsValid pq
      → Returns
          (Added pq (record { key = key; priority = priority; value = value }))
          (add pq key priority value)
  unfolding add
  add_correct pq key priority value v = elim (find-cases v.indexed key) [
    | inr (i, n, e, _, _, _, f) ↦
        rw (e, add)
          (returned
            (record { valid = v; refused = λ p. (refl, refl); accepted = λ p. absurd (cc) }))
    | inl (e, f) ↦
        let node : Node V = record { key = key; priority = priority; value = value } in
        let resized = resize_if_necessary pq in
        let r = resize-Resized pq v.indexed in
        let end = placed_at_end resized node in
        let (q, run, s) = Returns-value (
          sift_up-Sifted end resized.size (omega arith) (placed-IsIndexed pq resized node v r e)
            (placed-IsHeapButAbove pq resized node v r e)) in
        let whole : with_size (resized.size + 1) q ≡ q = ap (λ n. with_size n q) (sym s.size) in
        rw
          (
            e,
            add,
            place-ok resized node r.room,
            sift_up-with_size resized.size end resized.size,
            run,
          )
          (returned (
            rw whole (record {
              valid = record { indexed = s.indexed; heap = s.heap };
              refused = λ p. absurd (p f);
              accepted = λ p. (
                refl,
                s.size ∙ ap (λ n. n + 1) r.size,
                λ k. s.same k tt ∙ placed-find pq resized node v r e k,
              );
            })))
  ]
