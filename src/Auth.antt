-- ===== src/Auth.antt =====
-- auth/: scopes, the repository in memory, the decision, and the catalogue of built-in roles.
pub mod Scopes
pub mod Repository
pub mod Service
pub mod Dependencies
pub mod Catalog
