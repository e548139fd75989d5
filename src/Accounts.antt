-- ===== src/Accounts.antt =====
-- Accounts, sessions, agent keys, the waitlist and invitations.
pub mod Schema
pub mod Login
pub mod Keys
pub mod Invitations
pub mod Workspaces
pub mod Every
pub mod Sound
pub mod Reach
pub mod Replies
pub mod Sessions
pub mod Once
pub mod Authority
pub mod Issued
