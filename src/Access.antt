-- ===== src/Access.antt =====
-- Who may do what: the authorization contract (common/auth/authorization-contract.ts), the context
-- of a session (modules/sessions), the guard of the routes (common/guards), the scope and the
-- authorization of client accounts (modules/client-accounts), and the administration of
-- permissions (modules/permissions).
pub mod Contract
pub mod Context
pub mod Effective
pub mod Resolve
pub mod Change
pub mod Scope
pub mod Audit
pub mod Guard
pub mod Fiscal
pub mod Administration
pub mod Sample
mod Tests
