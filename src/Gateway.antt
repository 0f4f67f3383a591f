-- ===== src/Gateway.antt =====
-- internal/gateway: the handlers of the commands.
pub mod State
pub mod Events
pub mod Settings
pub mod SendKey
pub mod Send
pub mod Pacer
pub mod GroupSetup
pub mod GroupCommand
