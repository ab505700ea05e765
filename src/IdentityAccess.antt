-- ===== src/IdentityAccess.antt =====
-- services/identity-access: tenants, users, role-based permissions and consent.
pub mod Domain
pub mod Store
pub mod Service
pub mod Http
pub mod Main
pub mod Security
pub mod Invariant
pub mod Order
pub mod Isolation
pub mod Consent
pub mod Accounts
pub mod Captures
pub mod Interleaving
mod Tests
