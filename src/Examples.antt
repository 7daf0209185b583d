-- ===== src/Examples.antt =====
-- Concrete runs of the definitions, and the theorems at concrete inputs.
mod Packets
mod UdpServer
mod Echo
mod TcpServer
mod TcpSystem
mod Clients
mod Audio
mod Android
mod Calls
mod Speech
mod Conversation
mod Stream
mod SoundCard
mod Sound
mod Window
mod Duration
mod Setup
mod Login
mod Settings
mod Start
mod Recording
