-- ===== src/Muxcool.antt =====
-- muxcool: the Mux.cool multiplexing protocol of the reverse proxy.
pub mod Frame
pub mod Server
