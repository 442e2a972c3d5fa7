-- ===== src/P2pSocket.antt =====
-- src/libp2psocket/p2psocket.cpp: `p2psocket`, the protocol between nodes.
pub mod State
pub mod Setup
pub mod Receive
pub mod Ping
pub mod Exchange
pub mod Dispatch
pub mod Loop
pub mod Trust
pub mod Sound
pub mod SoundReceive
pub mod Returns
pub mod Timer
pub mod Drop
pub mod Join
mod Tests
