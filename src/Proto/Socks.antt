-- ===== src/Proto/Socks.antt =====
-- proto/socks: the server's handshakes of SOCKS4, SOCKS4a and SOCKS5 (socks.go, socks4.go), the client's
-- (client.go), and the packets of UDP ASSOCIATE (udp.go).
pub mod Address
pub mod Server
pub mod Socks4
pub mod Client
pub mod Udp
pub mod Agree
pub mod Gate
pub mod Gate5
pub mod Packets
