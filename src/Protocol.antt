-- ===== src/Protocol.antt =====
-- src/protocol_messages.hpp and src/protocol_messages.cpp: the messages of the pairing and of the
-- remote protocol, built with the writer and taken apart with the searches of `Wire`.
pub mod Pairing
pub mod Outgoing
pub mod Incoming
