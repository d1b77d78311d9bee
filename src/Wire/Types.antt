-- ===== src/Wire/Types.antt =====
-- The types of src/protocol/messages.ts.
pub mod Names
pub mod Objects
pub mod Infos
pub mod Approvals
pub mod Sessions
pub mod Codex
pub mod Chat
pub mod Files
pub mod Activity
pub mod Questions
pub mod Usage
pub mod Git
pub mod Servers
pub mod Union
