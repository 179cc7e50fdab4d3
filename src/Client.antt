-- ===== src/Client.antt =====
-- The reference client, internal/client: its state, and a child module per part.
pub mod Refused
pub mod State
pub mod Terminal
pub mod Apply
pub mod Backoff
pub mod CatchUp
pub mod Flight
pub mod Hold
pub mod Journal
pub mod Refresh
