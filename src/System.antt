-- ===== src/System.antt =====
-- How the parts work together: the participant of src/participant.cpp against the discovery and the
-- monitoring of src/discovery.cpp and src/monitoring.cpp, over a network that delivers, and the manager
-- of src/manager.cpp with its threads.
pub mod Handshake
pub mod Farewell
pub mod Threads
pub mod Nameless
pub mod Second
mod Samples
mod Tests
