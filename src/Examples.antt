-- ===== src/Examples.antt =====
-- Runs of the modelled code on small inputs.
pub mod Fixtures
pub mod Core
pub mod Store
pub mod Others
pub mod Accounts
pub mod Servers
