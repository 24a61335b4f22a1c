-- ===== src/Invitations.antt =====
-- modules/invitations: the invitations to an organization and the status of its memberships. The
-- random tokens, new keys, the digest of a token (SHA-256), `trim().toLowerCase()` of an e-mail
-- address, and whether the e-mail service delivers are arguments.
pub mod Table
pub mod Accept
pub mod Create
pub mod Pending
pub mod Members
pub mod Edits
pub mod Calls
mod Tests
