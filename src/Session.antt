-- ===== src/Session.antt =====
-- Sessions (src/core/session.cpp): their keys, and the manager that keeps them.
pub mod Key
pub mod Store
