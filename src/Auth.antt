-- ===== src/Auth.antt =====
-- app/auth: users, their identities, sessions and display names. models.py, profile.py and the
-- in-memory store of store.py.
pub mod Models
pub mod Store
pub mod Names
pub mod Accounts
pub mod Tests
