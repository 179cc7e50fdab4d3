-- ===== src/Store.antt =====
-- internal/store: the accounts and their tokens, the log of messages, and its readers.
pub mod Tables
pub mod Rotation
pub mod Log
pub mod Uploads
pub mod Messages
pub mod Sync
pub mod Accounts
pub mod Marks
pub mod Reads
pub mod Rooms
pub mod Acts
pub mod Offboard
pub mod Fanout
pub mod Sweep
