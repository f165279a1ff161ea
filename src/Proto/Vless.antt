-- ===== src/Proto/Vless.antt =====
-- proto/vless: the codec of the request header (codec.go), the handshakes and the two payload streams
-- (vless.go), and the frames of UDP packets (udp.go). The vision flow (vision.go) is left out: a
-- handshake with it is a parameter's.
pub mod Codec
pub mod Streaming
pub mod Handshake
pub mod Payload
