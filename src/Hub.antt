-- ===== src/Hub.antt =====
-- internal/hub: the sessions of one instance and what reaches them.
pub mod Sessions
pub mod Outbox
pub mod Fanout
pub mod Revoke
pub mod Steps
pub mod Typing
