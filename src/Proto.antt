-- ===== src/Proto.antt =====
-- proto: the headers of the proxy protocols, over the stream below and over buffers.
pub mod Stream
pub mod Wire
pub mod Trojan
pub mod Vless
pub mod Socks
