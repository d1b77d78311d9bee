-- ===== src/Wire/Messages.antt =====
-- The object literals of src/protocol/decode.ts, one for each message type and for each object inside one.
pub mod Sessions
pub mod Models
pub mod Approvals
pub mod Codex
pub mod Chat
pub mod Activity
pub mod Questions
pub mod Usage
pub mod Files
pub mod Git
pub mod Servers
