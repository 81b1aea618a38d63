-- ===== src/Util/PriorityQueue/Pop.antt =====
-- Pop.
use perceptor.Prelude.{
  ℕ, suc, ◌-◌, ◌<◌, ◌≡◌, inl, inr, Bool-cases, refl, ◌∙◌, String, Option, none, some, arith, set,
  length-set, ltb, Returns, returned, Returns-bind, Returns-if, Returns-weaken, if◌then◌else◌, ◌==◌,
  nat_eq, string_eq,
}
use text.Mathlib.TextEquality.{eq_iff}
use perceptor.Prelude.Maps
use perceptor.Util.PriorityQueue.{Node, PriorityQueue, Error, queue_empty, node_at, pop, sift_down}
use perceptor.Util.PriorityQueue.Slots.{find, IsIndexed, node_at-set, load-filled}
use perceptor.Util.PriorityQueue.Order.{IsHeapButBelow}
use perceptor.Util.PriorityQueue.SiftDown.{sift_down-Sifted}
use perceptor.Util.PriorityQueue.Valid.{Every, IsValid, IsTop, root-IsTop, store-ok}
use perceptor.Util.PriorityQueue.Shrink.{
  Shrunk, Shrunk-IsIndexed, Shrunk-IsHeapBut, Shrunk-find, absent-IsIndexed,
}

module _ {V : Type 0} where
  -- What Pop promises. An empty queue is refused and nothing changes; otherwise the value of a node
  -- that no other node outranks is returned, and exactly that node is gone.
  pub record Popped (pq : PriorityQueue V) (r : PriorityQueue V × Option V × Option Error)
      : Type 0 where
    pub valid : IsValid r.0
    pub refused : pq.size ≡ 0 → (r.0 ≡ pq) × (r.1 ≡ none) × (r.2 ≡ some queue_empty)
    pub accepted :
        0 < pq.size
        → (top : Node V) × IsTop pq top
          × (r.1 ≡ some top.value)
          × (r.2 ≡ none)
          × (suc r.0.size ≡ pq.size)
          × ((k : String) → find r.0 k ≡ (if top.key == k then none else find pq k))

  module _ (pq : PriorityQueue V) (item : Node V) (v : IsValid pq) (h : 0 < pq.size)
      (at : node_at pq.items 0 ≡ some item) where
    abbrev Beheaded : PriorityQueue V → Type 0
    Beheaded q =
        IsValid q
        × (suc q.size ≡ pq.size)
        × ((k : String) → find q k ≡ (if item.key == k then none else find pq k))

    -- The state before the sift: the last node at the root, if it is not the root itself.
    abbrev cut : PriorityQueue V
    cut = record {
      items = set pq.items (pq.size - 1) none;
      size = pq.size - 1;
      key_to_index = Maps.delete item.key pq.key_to_index;
    }

    abbrev replaced : Node V → PriorityQueue V
    replaced last = record {
      items = set cut.items 0 (some last);
      size = pq.size - 1;
      key_to_index = Maps.insert last.key 0 cut.key_to_index;
    }

    module _ {next : PriorityQueue V} {last : Node V} (s : Shrunk pq 0 item.key last next)
        (end : node_at pq.items (pq.size - 1) ≡ some last)
        (absent : Maps.lookup item.key next.key_to_index ≡ none) where
      shrunk-IsIndexed : IsIndexed Every next
      shrunk-IsIndexed =
          absent-IsIndexed item.key absent (Shrunk-IsIndexed v h at s (ground (arith, s.size)))

      shrunk-IsHeapButBelow : IsHeapButBelow next.items next.size 0
      shrunk-IsHeapButBelow =
          let b = Shrunk-IsHeapBut v h at s (ground (arith, s.size)) in
          record {
            edges = λ c p q t. b.edges c p q (omega arith) t;
            bridged = λ c p q t u. absurd (omega arith);
          }

      shrunk-find : (k : String) → find next k ≡ (if item.key == k then none else find pq k)
      unfolding find
      shrunk-find k = elim (Bool-cases (item.key == k)) [
        | inl e ↦ ground (arith, eq_iff item.key k)
        | inr e ↦ rw e (
            Shrunk-find v h at s (ground (arith, s.size)) k
              (λ q. ground (arith, eq_iff item.key k)))
      ]

    cut-Shrunk : pq.size ≡ 1 → Shrunk pq 0 item.key item cut
    cut-Shrunk e =
        let at_slot =
          λ (j : ℕ). node_at-set pq.items (pq.size - 1) j none (omega (arith, v.indexed.roomy)) in
        record {
          size = omega arith;
          capacity = length-set pq.items (pq.size - 1) none;
          slots = λ j. ground (arith, at_slot j);
          index = λ k other.
              ground (arith, eq_iff item.key k, Maps.lookup-delete item.key k pq.key_to_index);
        }

    replaced-Shrunk : (last : Node V) → 1 < pq.size → Shrunk pq 0 item.key last (replaced last)
    replaced-Shrunk last two =
        let first = length-set pq.items (pq.size - 1) none in
        record {
          size = omega arith;
          capacity = length-set cut.items 0 (some last) ∙ first;
          slots = λ j. ground (
            arith,
            node_at-set cut.items 0 j (some last) (omega (arith, first, v.indexed.roomy)),
            node_at-set pq.items (pq.size - 1) j none (omega (arith, v.indexed.roomy)),
          );
          index = λ k other. ground (
            arith,
            eq_iff item.key k,
            Maps.lookup-insert last.key k 0 cut.key_to_index,
            Maps.lookup-delete item.key k pq.key_to_index,
          );
        }

    cut-absent : Maps.lookup item.key cut.key_to_index ≡ none
    cut-absent =
        ground
          (arith, Maps.lookup-delete item.key item.key pq.key_to_index, eq_iff item.key item.key)

    cut-Beheaded : pq.size ≡ 1 → Beheaded cut
    cut-Beheaded e =
        let end : node_at pq.items (pq.size - 1) ≡ some item = ground (arith, at) in
        let s = cut-Shrunk e in
        let b = shrunk-IsHeapButBelow s end cut-absent in
        (
          record {
            indexed = shrunk-IsIndexed s end cut-absent;
            heap = λ c p q. absurd (omega arith);
          },
          omega arith,
          shrunk-find s end cut-absent,
        )

    replaced-absent :
        (last : Node V)
        → node_at pq.items (pq.size - 1) ≡ some last
        → 1 < pq.size
        → Maps.lookup item.key (replaced last).key_to_index ≡ none
    replaced-absent last end two = ground (
      arith,
      Maps.lookup-insert last.key item.key 0 cut.key_to_index,
      cut-absent,
      eq_iff last.key item.key,
      v.indexed.indexed 0 h,
      v.indexed.indexed (pq.size - 1),
    )

    replaced-Beheaded :
        (last : Node V)
        → node_at pq.items (pq.size - 1) ≡ some last
        → 1 < pq.size
        → Returns Beheaded (sift_down (replaced last) 0)
    replaced-Beheaded last end two =
        let s = replaced-Shrunk last two in
        let absent = replaced-absent last end two in
        Returns-weaken
          (sift_down-Sifted (replaced last) 0 (shrunk-IsIndexed s end absent)
            (shrunk-IsHeapButBelow s end absent))
          λ q t. (
            record { indexed = t.indexed; heap = t.heap },
            omega (arith, t.size),
            λ k. t.same k tt ∙ shrunk-find s end absent k,
          )

  -- On a valid queue Pop never panics: an empty queue is refused, otherwise the value of a node that
  -- no other outranks is given and that node alone is taken out, and the queue stays valid.
  pub pop_correct : (pq : PriorityQueue V) → IsValid pq → Returns (Popped pq) (pop pq)
  unfolding pop
  pop_correct pq v =
      Returns-if (pq.size == 0)
        (λ e. returned (record {
          valid = v;
          refused = λ p. (refl, refl, refl);
          accepted = λ p. absurd (ground (arith, e));
        }))
        (λ e.
          let h : 0 < pq.size = ground (arith, e) in
          let (item, at, l, top) = root-IsTop pq v h in
          let (last, l', end) = load-filled pq v.indexed (pq.size - 1) (omega arith) in
          let shorter = record pq {
            key_to_index = Maps.delete item.key pq.key_to_index;
            size = pq.size - 1;
          } in
          let cleared = store-ok shorter (pq.size - 1) none (omega (arith, v.indexed.roomy)) in
          let moved =
            store-ok (cut pq item v h at) 0 (some last)
              (omega (arith, v.indexed.roomy, length-set pq.items (pq.size - 1) none)) in
          rw (l, l', cleared)
            (Returns-bind {P = Beheaded pq item v h at}
              (Returns-if (ltb 0 (pq.size - 1))
                (λ two. rw moved (replaced-Beheaded pq item v h at last end (ground (arith, two))))
                (λ one. returned (cut-Beheaded pq item v h at (ground (arith, one)))))
              λ q (valid, size, same). returned (record {
                valid = valid;
                refused = λ p. absurd (omega arith);
                accepted = λ p. (item, top, refl, refl, size, same);
              })))
