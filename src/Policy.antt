-- ===== src/Policy.antt =====
-- policy/: the rules of the services, their enforcers, and the context that a request is judged in.
pub mod Rules
pub mod Enforcer
pub mod Context
pub mod Api
pub mod Registration
pub mod Decisions
pub mod Agreement
mod Tests
