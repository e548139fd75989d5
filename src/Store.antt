-- ===== src/Store.antt =====
-- The PostgreSQL store: internal/store/store.go, internal/store/usage.go and
-- internal/store/migrate.go.
pub mod Schema
pub mod Outbox
pub mod Remember
pub mod Move
pub mod Records
pub mod Worker
pub mod Consistent
pub mod Replies
pub mod RoundTrips
pub mod Migrate
pub mod Growth
pub mod Reach
pub mod Usage
pub mod Lists
