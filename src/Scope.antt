-- ===== src/Scope.antt =====
-- The resolver of scopes to projects (internal/agent/knowlega/scope/resolver.go).
mod Binding
mod Resolver
mod Ensured
mod Again
mod Tests
