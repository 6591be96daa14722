-- ===== src/Server.antt =====
-- src/rendezvous_server.rs: the state of hbbs and its handlers, in the modules below.
pub mod SelfTest
pub mod State
pub mod Relays
pub mod Send
pub mod Register
pub mod Punch
pub mod Online
pub mod Forward
pub mod Udp
pub mod Tcp
pub mod Connection
pub mod Loop
pub mod System
pub mod Start
pub mod Main
pub mod Keys
pub mod Commands
