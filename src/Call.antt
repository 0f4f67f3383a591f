-- ===== src/Call.antt =====
-- internal/call: the calls of a channel, their commands, their audio and the replies to callers.
pub mod Outbound
pub mod Contracts
pub mod Registry
pub mod AnnexB
pub mod Manager
pub mod Lifecycle
pub mod Command
pub mod Dispatch
pub mod Cooldown
pub mod Ending
