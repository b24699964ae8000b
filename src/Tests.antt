-- ===== src/Tests.antt =====
-- The theorems at concrete inputs: one example for each, by component.
mod Sync
mod Files
mod Sockets
mod Rooms
mod Offline
mod Client
mod Peers
mod Secure
mod Documents
mod Listeners
