-- ===== src/Orgs.antt =====
-- internal/organization: organizations, their members, invites and custom roles.
pub mod Slugs
pub mod Types
pub mod Rows
pub mod Access
pub mod Manage
pub mod Members
pub mod Invites
pub mod RoleRows
pub mod Roles
pub mod Lookups
pub mod Owners
pub mod Roster
pub mod Removal
pub mod Founding
pub mod Deleted
pub mod Joining
pub mod Rejoining
pub mod History
