-- ===== src/Acl.antt =====
-- The grants of a resource and the administrators' grants (internal/qm/data/acl.go).
pub mod Grants
pub mod Replaced
pub mod Same
mod Tests
