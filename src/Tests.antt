-- ===== src/Tests.antt =====
-- Examples at concrete inputs.
mod Codec
mod Messages
mod Sessions
mod Texts
mod Connections
mod Files
mod Program
mod Views
mod Torn
mod Streams
mod Numbers
