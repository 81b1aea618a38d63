-- ===== src/Util/PriorityQueue/Tests.antt =====
-- Runs of the priority queue of pkg/util/priorityqueue.go at concrete inputs.
use perceptor.Prelude.{
  ℕ, pos, ◌≡◌, ◌⊎◌, ◌<◌, refl, subst, String, none, some, [], ◌∷◌, arith, ok, Returns, Returns-ok,
}
use perceptor.Prelude.Maps
use perceptor.Util.PriorityQueue.{
  Node, PriorityQueue, new_priority_queue_with_initial_capacity, add, resize_if_necessary, store,
  place, sift_up, sift_up_loop, load, node_at, swap, peek, pop, remove, set_priority,
}
use perceptor.Util.PriorityQueue.Slots.{find}
use perceptor.Util.PriorityQueue.Valid.{IsValid, new-IsValid, IsTop, peek_correct}
use perceptor.Util.PriorityQueue.Insert.{Added, add_correct}
use perceptor.Util.PriorityQueue.SetPriority.{Reprioritized, set_priority_correct}
use perceptor.Util.PriorityQueue.Remove.{Removed, remove_correct}
use perceptor.Util.PriorityQueue.Pop.{Popped, pop_correct}

abbrev nobody : PriorityQueue ℕ
nobody = record { items = none ∷ []; size = 0; key_to_index = [] }

abbrev first : Node ℕ
first = record { key = "first"; priority = pos 3; value = 30 }

abbrev second : Node ℕ
second = record { key = "second"; priority = pos 7; value = 70 }

abbrev one : PriorityQueue ℕ
one = record { items = some first ∷ []; size = 1; key_to_index = ("first", 0) ∷ [] }

-- Adding to the full queue doubles its slots, and the second node rises to the root.
abbrev two : PriorityQueue ℕ
two = record {
  items = some second ∷ some first ∷ [];
  size = 2;
  key_to_index = ("first", 1) ∷ ("second", 0) ∷ [];
}

nobody-IsValid : IsValid nobody
unfolding new_priority_queue_with_initial_capacity
nobody-IsValid = (new-IsValid 1 (omega arith)).0

add_first : add nobody "first" (pos 3) 30 ≡ ok (one, none)
unfolding add resize_if_necessary store place sift_up sift_up_loop load node_at swap Maps.lookup
    Maps.insert
add_first = refl

add_second : add one "second" (pos 7) 70 ≡ ok (two, none)
unfolding add resize_if_necessary store place sift_up sift_up_loop load node_at swap Maps.lookup
    Maps.insert
add_second = refl

one-IsValid : IsValid one
one-IsValid =
    (Returns-ok (
      subst (Returns (Added nobody first)) add_first
        (add_correct nobody "first" (pos 3) 30 nobody-IsValid))).valid

two-IsValid : IsValid two
two-IsValid =
    (Returns-ok (
      subst (Returns (Added one second)) add_second
        (add_correct one "second" (pos 7) 70 one-IsValid))).valid

add_correct_example : Returns (Added one second) (add one "second" (pos 7) 70)
add_correct_example = add_correct one "second" (pos 7) 70 one-IsValid

peek_correct_example :
    ((peek two ≡ ok none) × (two.size ≡ 0) × ((k : String) → find two k ≡ none))
    ⊎ ((top : Node ℕ) × (peek two ≡ ok (some top.value)) × (0 < two.size) × IsTop two top)
peek_correct_example = peek_correct two two-IsValid

pop_correct_example : Returns (Popped two) (pop two)
pop_correct_example = pop_correct two two-IsValid

remove_correct_example : Returns (Removed two "second") (remove two "second")
remove_correct_example = remove_correct two "second" two-IsValid

set_priority_correct_example :
    Returns (Reprioritized two "first" (pos 9)) (set_priority two "first" (pos 9))
set_priority_correct_example = set_priority_correct two "first" (pos 9) two-IsValid
