-- ===== src/Util/PriorityQueue/Remove.antt =====
-- Remove.
use perceptor.Prelude.{
  ℕ, suc, ◌-◌, ◌<◌, ◌≡◌, ◌≢◌, inl, inr, refl, ◌∙◌, String, Option, none, some, arith, set,
  length-set, ok, Returns, returned, Returns-bind, Returns-if, Returns-weaken, if◌then◌else◌, ◌==◌,
  nat_eq, string_eq,
}
use text.Mathlib.TextEquality.{eq_iff}
use perceptor.Prelude.Maps
use perceptor.Util.PriorityQueue.{
  Node, PriorityQueue, Error, key_not_found, node_at, move_last, remove,
}
use perceptor.Util.PriorityQueue.Slots.{find, IsIndexed, node_at-set, load-ok, load-filled}
use perceptor.Util.PriorityQueue.Order.{IsHeap}
use perceptor.Util.PriorityQueue.Mend.{sift_both-Sifted}
use perceptor.Util.PriorityQueue.Valid.{IsValid, find-cases, store-ok}
use perceptor.Util.PriorityQueue.Shrink.{
  Other, Shrunk, Shrunk-IsIndexed, Shrunk-IsHeapBut, Shrunk-find, forget-IsIndexed, forget-find,
}

module _ {V : Type 0} where
  -- What Remove promises. A missing key is refused and nothing changes; otherwise the value of that
  -- key's node is returned and exactly that node is gone.
  pub record Removed (pq : PriorityQueue V) (key : String)
      (r : PriorityQueue V × Option V × Option Error) : Type 0 where
    pub valid : IsValid r.0
    pub refused : find pq key ≡ none → (r.0 ≡ pq) × (r.1 ≡ none) × (r.2 ≡ some key_not_found)
    pub accepted :
        (n : Node V)
        → find pq key ≡ some n
        → (r.1 ≡ some n.value)
          × (r.2 ≡ none)
          × (suc r.0.size ≡ pq.size)
          × ((k : String) → find r.0 k ≡ (if key == k then none else find pq k))

  -- The queue before the map forgets the key.
  abbrev pub Taken : PriorityQueue V → String → PriorityQueue V → Type 0
  Taken pq key q =
      IsIndexed (Other key) q
      × IsHeap q.items q.size
      × (suc q.size ≡ pq.size)
      × ((k : String) → k ≢ key → find q k ≡ find pq k)

  -- The last node goes.
  abbrev cut : PriorityQueue V → PriorityQueue V
  cut pq = record pq { items = set pq.items (pq.size - 1) none; size = pq.size - 1 }

  module _ (pq : PriorityQueue V) (i : ℕ) (item : Node V) (v : IsValid pq) (hi : i < pq.size)
      (at : node_at pq.items i ≡ some item) where
    cut-Taken : i ≡ pq.size - 1 → Taken pq item.key (cut pq)
    cut-Taken e =
        let at_slot =
          λ (j : ℕ). node_at-set pq.items (pq.size - 1) j none (omega (arith, v.indexed.roomy)) in
        let s : Shrunk pq i item.key item (cut pq) = record {
          size = omega arith;
          capacity = length-set pq.items (pq.size - 1) none;
          slots = λ j. ground (arith, at_slot j);
          index = λ k other. ground (arith, eq_iff item.key k);
        } in
        let end : node_at pq.items (pq.size - 1) ≡ some item = ground (arith, at) in
        let h = Shrunk-IsHeapBut v hi at s end in
        (
          Shrunk-IsIndexed v hi at s end,
          λ c p q. h.edges c p q (omega arith) (omega arith),
          omega arith,
          Shrunk-find v hi at s end,
        )

    -- The last node takes the place of the one that goes.
    abbrev replaced : Node V → PriorityQueue V
    replaced last = record {
      items = set (set pq.items i (some last)) (pq.size - 1) none;
      size = pq.size - 1;
      key_to_index = Maps.insert last.key i pq.key_to_index;
    }

    replaced-Shrunk : (last : Node V) → Shrunk pq i item.key last (replaced last)
    replaced-Shrunk last =
        let first = length-set pq.items i (some last) in
        record {
          size = omega arith;
          capacity = length-set (set pq.items i (some last)) (pq.size - 1) none ∙ first;
          slots = λ j. ground (
            arith,
            node_at-set (set pq.items i (some last)) (pq.size - 1) j none
                (omega (arith, first, v.indexed.roomy)),
            node_at-set pq.items i j (some last) (omega (arith, v.indexed.roomy)),
          );
          index = λ k other. Maps.lookup-insert last.key k i pq.key_to_index;
        }

    move_last-Taken : i ≢ pq.size - 1 → Returns (Taken pq item.key) (move_last pq i (pq.size - 1))
    unfolding move_last
    move_last-Taken inner =
        let (last, l, end) = load-filled pq v.indexed (pq.size - 1) (omega arith) in
        let next = replaced last in
        let s = replaced-Shrunk last in
        let moved = record pq {
          items = set pq.items i (some last);
          key_to_index = Maps.insert last.key i pq.key_to_index;
        } in
        let first = store-ok pq i (some last) (omega (arith, v.indexed.roomy)) in
        let second =
          store-ok moved (pq.size - 1) none
            (omega (arith, v.indexed.roomy, length-set pq.items i (some last))) in
        rw (l, first, second)
          (Returns-weaken
            (sift_both-Sifted next i (omega arith) (Shrunk-IsIndexed v hi at s end)
              (Shrunk-IsHeapBut v hi at s end))
            λ q t. (
              t.indexed,
              t.heap,
              omega (arith, t.size),
              λ k other. t.same k other ∙ Shrunk-find v hi at s end k other,
            ))

  -- On a valid queue Remove never panics: a key of the queue is taken out with its value and every
  -- other node stays, a missing key is refused, and the queue stays valid.
  pub remove_correct :
      (pq : PriorityQueue V) (key : String) → IsValid pq → Returns (Removed pq key) (remove pq key)
  unfolding remove
  remove_correct pq key v = elim (find-cases v.indexed key) [
    | inl (e, f) ↦
        rw (e, remove)
          (returned (record {
            valid = v;
            refused = λ p. (refl, refl, refl);
            accepted = λ n p. absurd (cc);
          }))
    | inr (i, item, e, hi, at, same, f) ↦
        let taken : Returns (Taken pq key)
            (if i == pq.size - 1 then ok (cut pq) else move_last pq i (pq.size - 1)) =
          Returns-if (i == pq.size - 1)
            (λ b. returned (rw same at (cut-Taken pq i item v hi at (ground (arith, b)))))
            (λ b. rw same at (move_last-Taken pq i item v hi at (ground (arith, b)))) in
        rw
          (
            e,
            remove,
            load-ok pq i item at,
            store-ok pq (pq.size - 1) none (omega (arith, v.indexed.roomy)),
          )
          (Returns-bind taken λ q (indexed, heap, size, kept). returned (record {
            valid = record { indexed = forget-IsIndexed key indexed; heap = heap };
            refused = λ p. absurd (cc);
            accepted = λ n p. (
              ground arith,
              refl,
              size,
              λ k. forget-find q key k ∙ ground (arith, eq_iff key k, kept k),
            );
          }))
  ]
