-- ===== src/Util/PriorityQueue.antt =====
-- pkg/util/priorityqueue.go: a max heap in a slice of pointers, with a map from key to position.
-- A slot of `items` is `none` where the slice holds nil. Each node has one pointer to it, so a write
-- through the pointer is a write to its slot. Positions stay below twice the capacity plus two,
-- far inside Go's `int`.
pub mod Slots
pub mod Order
pub mod SiftUp
pub mod SiftDown
pub mod Mend
pub mod Valid
pub mod Insert
pub mod SetPriority
pub mod Shrink
pub mod Remove
pub mod Pop
pub mod Debug
mod Tests
use perceptor.Prelude.{
  ℕ, zero, suc, ◌+◌, ◌-◌, ◌*◌, ◌/◌, Bool, true, false, List, [], ◌∷◌, ◌++◌, Option, none, some,
  String, ℤ, ltb_ℤ, ltb, leb, if◌then◌else◌, ◌==◌, nat_eq, string_eq, length, get_elem?, set,
  replicate, map, Run, ok, panic, out_of_fuel, ◌>>=◌, or_panic,
}
use perceptor.Prelude.Maps

pub record Node (V : Type 0) : Type 0 where
  pub key : String
  pub priority : ℤ
  pub value : V

pub record PriorityQueue (V : Type 0) : Type 0 where
  pub items : List (Option (Node V))
  pub size : ℕ
  pub key_to_index : List (String × ℕ)

-- The errors that the operations return.
pub data Error : Type 0 where
  key_in_map key_not_found queue_empty : Error

abbrev pub parent : ℕ → ℕ
parent index = (index - 1) / 2

abbrev pub left_child : ℕ → ℕ
left_child index = index * 2 + 1

abbrev pub right_child : ℕ → ℕ
right_child index = index * 2 + 2

module _ {V : Type 0} where
  unfoldable pub new_priority_queue_with_initial_capacity : ℕ → PriorityQueue V
  new_priority_queue_with_initial_capacity capacity = record {
    items = replicate capacity none;
    key_to_index = [];
    size = 0;
  }

  unfoldable pub new_priority_queue : PriorityQueue V
  unfolding new_priority_queue_with_initial_capacity
  new_priority_queue = new_priority_queue_with_initial_capacity 10

  -- The node that a slot points to, if the slot is there and not nil.
  unfoldable pub node_at : List (Option (Node V)) → ℕ → Option (Node V)
  node_at items i = elim (get_elem? items i) [ none ↦ none | some slot ↦ slot ]

  -- `pq.items[i]`, dereferenced
  unfoldable pub load : PriorityQueue V → ℕ → Run (Node V)
  unfolding node_at
  load pq i = or_panic (node_at pq.items i)

  unfoldable pub swap : PriorityQueue V → ℕ → ℕ → Run (PriorityQueue V)
  swap pq i j = do
    temp ← load pq i
    other ← load pq j
    ok (record pq {
      items = set (set pq.items i (some other)) j (some temp);
      key_to_index = Maps.insert temp.key j (Maps.insert other.key i pq.key_to_index);
    })

  -- Go's division gives the root itself as the root's parent, so the test for a negative parent
  -- never holds and is left out.
  unfoldable pub sift_up_loop : ℕ → PriorityQueue V → ℕ → Run (PriorityQueue V)
  sift_up_loop zero pq ic = out_of_fuel
  sift_up_loop (suc fuel) pq ic = load pq (parent ic) >>= λ p. load pq ic >>= λ c.
      (if ltb_ℤ p.priority c.priority then swap pq ic (parent ic) else ok pq) >>= λ next.
      let rest = sift_up_loop fuel next (parent ic) in if leb ic 0 then ok next else rest

  unfoldable pub sift_up : PriorityQueue V → ℕ → Run (PriorityQueue V)
  sift_up pq index = sift_up_loop (index + 1) pq index

  -- `inext` after the right child, if there is one, has been compared
  unfoldable pub compare_right : PriorityQueue V → ℕ → ℕ → Run ℕ
  compare_right pq irc inext =
      if ltb irc pq.size
      then (do
        rc ← load pq irc
        best ← load pq inext
        ok (if ltb_ℤ best.priority rc.priority then irc else inext))
      else ok inext

  -- The child that goes up, or `ip` itself if no child has a higher priority; the left child is there.
  unfoldable pub next_index : PriorityQueue V → ℕ → Run ℕ
  next_index pq ip = do
    p ← load pq ip
    lc ← load pq (left_child ip)
    compare_right pq (right_child ip) (if ltb_ℤ p.priority lc.priority then left_child ip else ip)

  unfoldable pub sift_down_loop : ℕ → PriorityQueue V → ℕ → Run (PriorityQueue V)
  sift_down_loop zero pq ip = out_of_fuel
  sift_down_loop (suc fuel) pq ip =
      let step = next_index pq ip >>= λ inext.
      let descend = swap pq ip inext >>= λ next. sift_down_loop fuel next inext in
      if inext == ip then ok pq else descend in
      if leb pq.size (left_child ip) then ok pq else step

  unfoldable pub sift_down : PriorityQueue V → ℕ → Run (PriorityQueue V)
  sift_down pq index = sift_down_loop (pq.size + 1) pq index

  unfoldable pub resize_if_necessary : PriorityQueue V → PriorityQueue V
  resize_if_necessary pq =
      if ltb pq.size (length pq.items)
      then pq
      else record pq { items = pq.items ++ replicate (length pq.items) none }

  -- A store to a slot that is out of range panics.
  unfoldable pub store : PriorityQueue V → ℕ → Option (Node V) → Run (PriorityQueue V)
  store pq i slot =
      if ltb i (length pq.items) then ok (record pq { items = set pq.items i slot }) else panic

  -- The new node in the first free slot, and its key in the map.
  unfoldable pub place : PriorityQueue V → Node V → Run (PriorityQueue V)
  place pq node = do
    stored ← store pq pq.size (some node)
    ok (record stored { key_to_index = Maps.insert node.key pq.size stored.key_to_index })

  unfoldable pub add : PriorityQueue V → String → ℤ → V → Run (PriorityQueue V × Option Error)
  add pq key priority value = elim (Maps.lookup key pq.key_to_index) [
    | some _ ↦ ok (pq, some key_in_map)
    | none ↦ do
      placed ←
          place (resize_if_necessary pq) (record { key = key; priority = priority; value = value })
      sifted ← sift_up placed placed.size
      ok (record sifted { size = sifted.size + 1 }, none)
  ]

  -- `none` is Go's nil.
  unfoldable pub peek : PriorityQueue V → Run (Option V)
  peek pq = if pq.size == 0 then ok none else do top ← load pq 0; ok (some top.value)

  unfoldable pub pop : PriorityQueue V → Run (PriorityQueue V × Option V × Option Error)
  pop pq = if pq.size == 0 then ok (pq, none, some queue_empty) else do
    item ← load pq 0
    let shorter = record pq {
      key_to_index = Maps.delete item.key pq.key_to_index;
      size = pq.size - 1;
    }
    last ← load pq shorter.size
    cleared ← store shorter shorter.size none
    rest ←
        if ltb 0 cleared.size
        then (do
          moved ← store cleared 0 (some last)
          sift_down (record moved { key_to_index = Maps.insert last.key 0 moved.key_to_index }) 0)
        else ok cleared
    ok (rest, some item.value, none)

  abbrev pub is_empty : PriorityQueue V → Bool
  is_empty pq = pq.size == 0

  -- The method Set.
  unfoldable pub set_priority : PriorityQueue V → String → ℤ → Run (PriorityQueue V × Option Error)
  set_priority pq key priority = elim (Maps.lookup key pq.key_to_index) [
    | none ↦ ok (pq, some key_not_found)
    | some index ↦ do
      node ← load pq index
      changed ← store pq index (some (record node { priority = priority }))
      risen ← sift_up changed index
      settled ← sift_down risen index
      ok (settled, none)
  ]

  unfoldable pub has_key : PriorityQueue V → String → Bool
  has_key pq key = elim (Maps.lookup key pq.key_to_index) [ some _ ↦ true | none ↦ false ]

  -- The last node, moved to `index`, with its position in the map, and the heap order restored.
  unfoldable pub move_last : PriorityQueue V → ℕ → ℕ → Run (PriorityQueue V)
  move_last pq index last_index = do
    last ← load pq last_index
    moved ← store pq index (some last)
    let indexed = record moved { key_to_index = Maps.insert last.key index moved.key_to_index }
    cleared ← store indexed last_index none
    risen ← sift_up (record cleared { size = cleared.size - 1 }) index
    sift_down risen index

  unfoldable pub remove : PriorityQueue V → String → Run (PriorityQueue V × Option V × Option Error)
  remove pq key = elim (Maps.lookup key pq.key_to_index) [
    | none ↦ ok (pq, none, some key_not_found)
    | some index ↦ do
      item ← load pq index
      let last_index = pq.size - 1
      rest ←
          if index == last_index
          then (do
            cleared ← store pq last_index none
            ok (record cleared { size = cleared.size - 1 }))
          else move_last pq index last_index
      ok (record rest { key_to_index = Maps.delete key rest.key_to_index }, some item.value, none)
  ]
