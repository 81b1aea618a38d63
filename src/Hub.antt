-- ===== src/Hub.antt =====
-- pkg/hub.
pub mod DataTypes
pub mod CircuitBreaker
pub mod Mapper
pub mod Client
pub mod Model
pub mod Hub
