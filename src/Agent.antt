-- ===== src/Agent.antt =====
-- src/agent_server.cpp: the agent, which keeps an unlocked vault in memory and serves it on a socket.
pub mod State
pub mod Commands
pub mod Run
pub mod Payload
pub mod Served
