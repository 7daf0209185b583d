-- ===== src/System.antt =====
-- The parts together.
pub mod Speech
pub mod Conversation
pub mod Login
pub mod TcpConversation
pub mod Duration
pub mod Stream
pub mod Recording
