-- ===== src/Wire.antt =====
-- src/proto_wire.hpp and src/proto_wire.cpp: the protobuf wire format. A byte vector or span is a
-- list of numbers below 256.
pub mod Types
pub mod Writer
pub mod Reader
pub mod Search
pub mod Message
