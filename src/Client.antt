-- ===== src/Client.antt =====
-- client_essential/: what every client of the call shares.
pub mod RawUdpClient
pub mod TcpClient
