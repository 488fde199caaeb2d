-- ===== src/Network.antt =====
-- tools/network_agent.py: the agent that changes the host's network behind a checkpoint.
pub mod Address
pub mod Commands
pub mod Host
pub mod Apply
pub mod Keeps
pub mod Rollback
pub mod Pending
