-- ===== src/EndToEnd.antt =====
-- From `publish` on one client to the callbacks of another: `publish` (src/Client.cpp) queues a packet,
-- `runWrite` (src/Connection.cpp) writes it, and `recvLoop` (src/Packet.cpp) reads it and calls back.
-- Between the two stands a broker that passes every PUBLISH on as it is.
mod Sending
mod Hearing
pub mod Journey
mod Examples
