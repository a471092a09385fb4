-- ===== src/Ipc.antt =====
-- src/ipc.cpp: the packets between the client and the agent, and the operations of the client.
pub mod Opcode
pub mod Wire
pub mod Packet
pub mod Client
