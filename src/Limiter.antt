-- ===== src/Limiter.antt =====
-- internal/limiter: the sliding-window limiters and the manager that composes them.
pub mod Policy
pub mod Window
pub mod Memory
pub mod Manager
pub mod Redis
pub mod Stores
mod Tests
