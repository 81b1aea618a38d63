-- ===== src/Core.antt =====
-- pkg/core.
pub mod Model
pub mod ApiMapper
pub mod HubManager
pub mod ScanScheduler
pub mod Perceptor
pub mod RoutineTaskManager
