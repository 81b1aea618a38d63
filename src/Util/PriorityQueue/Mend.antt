-- ===== src/Util/PriorityQueue/Mend.antt =====
-- siftUp and then siftDown at one position, as Set and Remove call them.
use perceptor.Prelude.{ℕ, ◌<◌, ◌∙◌, String, inl, inr, ◌>>=◌, Returns, Returns-bind, Returns-weaken}
use perceptor.Util.PriorityQueue.{PriorityQueue, sift_up, sift_down}
use perceptor.Util.PriorityQueue.Slots.{IsIndexed}
use perceptor.Util.PriorityQueue.Order.{IsHeapBut, IsHeapBut-cases, IsHeap-IsHeapButBelow, Sifted}
use perceptor.Util.PriorityQueue.SiftUp.{sift_up-Sifted, sift_up-settled}
use perceptor.Util.PriorityQueue.SiftDown.{sift_down-Sifted}

module _ {V : Type 0} {Live : String → Type 0} where
  -- The two sifts mend a heap whose edges at one node may be out of order, either way.
  pub sift_both-Sifted :
      (pq : PriorityQueue V) (i : ℕ)
      → i < pq.size
      → IsIndexed Live pq
      → IsHeapBut pq.items pq.size i
      → Returns (Sifted Live pq) (sift_up pq i >>= λ risen. sift_down risen i)
  sift_both-Sifted pq i hi v h = elim (IsHeapBut-cases pq.items pq.size i h) [
    | inl above ↦ Returns-bind (sift_up-Sifted pq i hi v above) λ q s.
        Returns-weaken
          (sift_down-Sifted q i s.indexed
            (IsHeap-IsHeapButBelow q.items q.size i (rw s.size hi) s.heap))
          λ r t. record {
            indexed = t.indexed;
            heap = t.heap;
            size = t.size ∙ s.size;
            same = λ k l. t.same k l ∙ s.same k l;
          }
    | inr below ↦ rw (sift_up-settled pq i hi v below) (sift_down-Sifted pq i v below)
  ]
