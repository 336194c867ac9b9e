-- ===== src/Config.antt =====
-- pkg/config/consul: the configuration source over the registry's key-value store.
pub mod Fetch
pub mod Fetches
pub mod Source
pub mod Rounds
pub mod Reached
pub mod Clients
mod Tests
