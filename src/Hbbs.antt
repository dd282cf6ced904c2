-- ===== src/Hbbs.antt =====
-- src/rendezvous_server.rs and src/peer.rs: the rendezvous server hbbs.
pub mod Blocker
pub mod PunchLog
pub mod WsPeers
pub mod Online
pub mod Database
pub mod Peers
pub mod Register
pub mod Login
pub mod PunchHole
pub mod Replies
pub mod Udp
pub mod Tcp
pub mod Websocket
pub mod Connection
pub mod Probe
pub mod Console
