-- ===== src/Examples.antt =====
-- Runs of the model at concrete inputs.
mod Ledger
mod Broker
mod Calls
mod History
mod Members
mod Commands
mod Sessions
mod Sends
mod Imports
