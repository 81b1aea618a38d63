-- ===== src/Core/Model.antt =====
-- pkg/core/model: the pods and images of the cluster, and how far the scan of each image has come.
pub mod ScanStatus
pub mod Image
pub mod State
pub mod Handlers
pub mod Invariant
pub mod Transition
pub mod Preserve
pub mod Creation
pub mod Growth
pub mod Kept
pub mod Actions
pub mod Known
pub mod Shas
pub mod NextImage
pub mod Results
pub mod PodImages
pub mod Report
pub mod Metrics
pub mod Completion
pub mod Samples
mod Tests
