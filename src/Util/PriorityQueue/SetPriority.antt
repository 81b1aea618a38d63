-- ===== src/Util/PriorityQueue/SetPriority.antt =====
-- Set.
use perceptor.Prelude.{
  ℕ, ◌<◌, ◌≡◌, inl, inr, Option-cases, refl, ◌∙◌, String, ℤ, Option, none, some, arith, set,
  length-set, Returns, returned, Returns-bind, Returns-assoc, if◌then◌else◌, ◌==◌, nat_eq,
  string_eq,
}
use text.Mathlib.TextEquality.{eq_iff}
use perceptor.Prelude.Maps
use perceptor.Util.PriorityQueue.{
  Node, PriorityQueue, Error, key_not_found, parent, node_at, set_priority, sift_up, sift_down,
}
use perceptor.Util.PriorityQueue.Slots.{find, IsIndexed, node_at-set, load-ok}
use perceptor.Util.PriorityQueue.Order.{IsHeapBut}
use perceptor.Util.PriorityQueue.Mend.{sift_both-Sifted}
use perceptor.Util.PriorityQueue.Valid.{Every, IsValid, find-cases, store-ok}

module _ {V : Type 0} where
  abbrev pub with_priority : ℤ → Node V → Node V
  with_priority priority n = record n { priority = priority }

  -- What Set promises. A missing key is refused and nothing changes; otherwise the priority of that
  -- key's node changes and no other node does.
  pub record Reprioritized (pq : PriorityQueue V) (key : String) (priority : ℤ)
      (r : PriorityQueue V × Option Error) : Type 0 where
    pub valid : IsValid r.0
    pub refused : find pq key ≡ none → (r.0 ≡ pq) × (r.1 ≡ some key_not_found)
    pub accepted :
        (n : Node V)
        → find pq key ≡ some n
        → (r.1 ≡ none)
          × (r.0.size ≡ pq.size)
          × ((k : String)
              → find r.0 k ≡ (if key == k then some (with_priority priority n) else find pq k))

  module _ (pq : PriorityQueue V) (i : ℕ) (n : Node V) (priority : ℤ) (v : IsValid pq)
      (hi : i < pq.size) (at : node_at pq.items i ≡ some n) where
    abbrev changed : PriorityQueue V
    changed = record pq { items = set pq.items i (some (with_priority priority n)) }

    at_slot :
        (j : ℕ)
        → node_at changed.items j
          ≡ (if i == j then some (with_priority priority n) else node_at pq.items j)
    at_slot j =
        node_at-set pq.items i j (some (with_priority priority n)) (omega (arith, v.indexed.roomy))

    changed-IsIndexed : IsIndexed Every changed
    changed-IsIndexed = record {
      roomy =
          omega (arith, v.indexed.roomy, length-set pq.items i (some (with_priority priority n)));
      nonempty =
          omega
            (arith, v.indexed.nonempty, length-set pq.items i (some (with_priority priority n)));
      filled = λ j p. ground (arith, at_slot j, v.indexed.filled j);
      cleared = λ j p. ground (arith, at_slot j, v.indexed.cleared j);
      live = λ j p. tt;
      indexed = λ j p. ground (arith, at_slot j, v.indexed.indexed j);
      placed = λ k j l e. ground (arith, at_slot j, v.indexed.placed k j tt e);
    }

    changed-IsHeapBut : IsHeapBut changed.items changed.size i
    changed-IsHeapBut = record {
      edges = λ c p q s t. ground (arith, at_slot c, at_slot (parent c), v.heap c);
      bridged = λ c p q s t. ground (arith, at_slot c, at_slot (parent i), v.heap c, v.heap i);
    }

    changed-find :
        Maps.lookup n.key pq.key_to_index ≡ some i
        → (k : String)
        → find changed k ≡ (if n.key == k then some (with_priority priority n) else find pq k)
    unfolding find
    changed-find e k = elim (Option-cases (Maps.lookup k pq.key_to_index)) [
      | inl f ↦ ground (arith, eq_iff n.key k)
      | inr (j, f) ↦ ground (arith, at_slot j, v.indexed.placed k j tt f, eq_iff n.key k)
    ]

  -- On a valid queue Set never panics: it changes the priority of the node of the key alone, refuses
  -- a missing key, and keeps the queue valid.
  pub set_priority_correct :
      (pq : PriorityQueue V) (key : String) (priority : ℤ)
      → IsValid pq
      → Returns (Reprioritized pq key priority) (set_priority pq key priority)
  unfolding set_priority
  set_priority_correct pq key priority v = elim (find-cases v.indexed key) [
    | inl (e, f) ↦
        rw (e, set_priority)
          (returned
            (record { valid = v; refused = λ p. (refl, refl); accepted = λ n p. absurd (cc) }))
    | inr (i, n, e, hi, at, same, f) ↦
        let next = changed pq i n priority v hi at in
        let mended =
          sift_both-Sifted next i hi (changed-IsIndexed pq i n priority v hi at)
            (changed-IsHeapBut pq i n priority v hi at) in
        rw
          (
            e,
            set_priority,
            load-ok pq i n at,
            store-ok pq i (some (with_priority priority n)) (omega (arith, v.indexed.roomy)),
          )
          (Returns-assoc (sift_up next i) (λ q. sift_down q i) _
            (Returns-bind mended λ q s. returned (record {
              valid = record { indexed = s.indexed; heap = s.heap };
              refused = λ p. absurd (cc);
              accepted = λ m p. (
                refl,
                s.size,
                λ k.
                    s.same k tt
                    ∙ ground (arith, changed-find pq i n priority v hi at (rw same e) k),
              );
            })))
  ]
