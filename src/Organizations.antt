-- ===== src/Organizations.antt =====
-- Organizations: their members, workspaces and invitations, and the audit of what admins do.
pub mod Rows
pub mod Rbac
pub mod Sso
pub mod Members
pub mod Invites
pub mod Steps
pub mod Access
pub mod Acceptance
pub mod Overlap
pub mod Roles
mod Tests
