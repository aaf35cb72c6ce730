-- ===== src/Chat.antt =====
-- apps/chat: live chat. `Redis` is the store of what is meant to be ephemeral; the services over
-- it stand in a module each.
pub mod Settings
pub mod Model
pub mod Liveness
pub mod Pending
pub mod Unread
pub mod World
pub mod Tokens
pub mod Sends
pub mod Messaging
pub mod Assignment
pub mod Serving
pub mod Lifecycle
pub mod Sockets
pub mod Starting
pub mod Sweeps
pub mod Transcript
pub mod Redis
pub mod Presence
pub mod Queue
mod Tests
