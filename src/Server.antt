-- ===== src/Server.antt =====
-- server/: `main`, the UDP server that it starts, and the TCP server and room that it can be built with.
pub mod RawUdp
pub mod Echo
pub mod Room
pub mod TcpSession
pub mod TcpServer
pub mod Main
