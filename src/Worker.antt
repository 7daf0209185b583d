-- ===== src/Worker.antt =====
-- client_essential/Worker.cpp and Worker.hpp: the engine of a call, which every client drives.
pub mod Voice
pub mod Call
pub mod Setup
pub mod Sound
