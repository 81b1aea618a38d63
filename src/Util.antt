-- ===== src/Util.antt =====
-- pkg/util.
pub mod PriorityQueue
pub mod Timer
