-- ===== src/Secrets.antt =====
-- Secret drops and the credentials made of them (internal/qm/data/secret_drop.go).
mod Drops
mod Redeem
mod Tests
