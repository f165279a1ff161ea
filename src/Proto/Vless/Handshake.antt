-- ===== src/Proto/Vless/Handshake.antt =====
-- proto/vless: what a client's handshake writes, and what a server takes from it.
pub mod Encode
pub mod Agree
