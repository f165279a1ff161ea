-- ===== src/Proto/Vless/Streaming.antt =====
-- proto/vless/vless.go: the handshakes and the two streams that carry the payload. Without the vision
-- flow; a request with it is one for `vision`.
use ntr.Prelude.{
  ℕ, Bool, true, false, not, ◌&&◌, Option, none, some, [], ◌∷◌, ltb, ◌==◌, if◌then◌else◌, length,
  get_or,
}
use ntr.Prelude.Bytes.{Bytes, be16, u16_at, slice}
use ntr.Prelude.Strings.{bytes_eq}
use ntr.Addr.{Socksaddr, is_fqdn, from_ip_port, from_fqdn}
use ntr.Buf
use ntr.Buf.{Buffer, new_buffer}
use ntr.Proto.Stream.{
  Io, Result, ok, err, pure, fail, ◌>>=◌, ◌>>◌, Stream, read_full, write, bad_version, bad_atyp,
  unknown_user, bad_key, unsupported_flow, packet_too_large,
}
use ntr.Proto.Wire.{addr_from4, addr_from16}
use ntr.Proto.Vless.Codec.{
  version, cmd_tcp, cmd_udp, cmd_mux, atyp_ipv4, atyp_domain, atyp_ipv6, no_dst, RequestHeader,
  has_address, encode, encode_response_header, and_write,
}

-- `muxcool.CarrierFqdn` and `CarrierPort`
abbrev pub carrier_fqdn : Bytes
carrier_fqdn = b'v' ∷ b'1' ∷ b'.' ∷ b'm' ∷ b'u' ∷ b'x' ∷ b'.' ∷ b'c' ∷ b'o' ∷ b'o' ∷ b'l' ∷ []

abbrev pub carrier_port : ℕ
carrier_port = 9527

unfoldable pub read_addr_stream : ℕ → ℕ → Io Socksaddr
read_addr_stream port atyp =
    if atyp == atyp_ipv4
    then (do a ← read_full 4; pure (from_ip_port (addr_from4 a) port))
    else if atyp == atyp_domain
    then (do l ← read_full 1; name ← read_full (get_or l 0 0); pure (from_fqdn name port))
    else if atyp == atyp_ipv6
    then (do a ← read_full 16; pure (from_ip_port (addr_from16 a) port))
    else fail bad_atyp

unfoldable pub read_addr_port_stream : Io Socksaddr
unfolding read_addr_stream
read_addr_port_stream = do pa ← read_full 3; read_addr_stream (u16_at pa 0) (get_or pa 2 0)

unfoldable pub read_addons_stream : ℕ → Io Bytes
read_addons_stream alen = if ltb 0 alen then read_full alen else pure []

unfoldable pub read_target : ℕ → Io Socksaddr
read_target command = if has_address command then read_addr_port_stream else pure no_dst

unfoldable pub read_request_header : Io RequestHeader
read_request_header = do
  fixed ← read_full 18
  (if not (get_or fixed 0 0 == version) then fail bad_version else (do
    addons ← read_addons_stream (get_or fixed 17 0)
    cmd ← read_full 1
    dst ← read_target (get_or cmd 0 0)
    pure
        (record { uuid = slice fixed 1 17; addons = addons; command = get_or cmd 0 0; dst = dst })))

unfoldable pub write_encoded : Result Buffer → Io (Unit {0})
write_encoded (err e) = fail e
write_encoded (ok b) = write b.bytes

unfoldable pub write_request_header : Bytes → ℕ → Socksaddr → Io (Unit {0})
write_request_header uuid cmd dst =
    write_encoded
      (encode new_buffer (record { uuid = uuid; addons = []; command = cmd; dst = dst }))

-- The command for a target: the carrier of Mux.cool has its own.
unfoldable pub command_for : Socksaddr → ℕ
command_for dst =
    if is_fqdn dst && (bytes_eq dst.fqdn carrier_fqdn && dst.port == carrier_port)
    then cmd_mux
    else cmd_tcp

-- `ClientHandshake` of a client without a flow.
unfoldable pub client_handshake : Bytes → Socksaddr → Io (Unit {0})
client_handshake key dst =
    if not (length key == 16) then fail bad_key else write_request_header key (command_for dst) dst

-- `DialPacketConn` of a client without a flow.
unfoldable pub dial_packet_conn : Bytes → Socksaddr → Io (Unit {0})
dial_packet_conn key dst =
    if not (length key == 16) then fail bad_key else write_request_header key cmd_udp dst

-- `proxy.Request`, and whether the stream is one of the vision flow.
pub record Request (Ref : Type 0) : Type 0 where
  pub dst : Socksaddr
  pub cred : Ref
  pub is_udp : Bool
  pub command : ℕ
  pub vision : Bool

unfoldable pub request_target : RequestHeader → Socksaddr
request_target h = if h.command == cmd_mux then from_fqdn carrier_fqdn carrier_port else h.dst

-- What `ServerHandshake` does with a header; `is_vision` is `parseFlowAddon(h.Addons) == flowVision`,
-- and the set-up of the vision stream is left out.
unfoldable pub accept :
    {Ref : Type 0} → (Bytes → Bool) → Option Ref → RequestHeader → Io (Request Ref)
accept is_vision none h = fail unknown_user
accept is_vision (some ref) h =
    if is_vision h.addons && h.command == cmd_udp
    then fail unsupported_flow
    else pure (record {
      dst = request_target h;
      cred = ref;
      is_udp = h.command == cmd_udp;
      command = h.command;
      vision = is_vision h.addons;
    })

unfoldable pub server_handshake :
    {Ref : Type 0} → (Bytes → Bool) → (Bytes → Option Ref) → Io (Request Ref)
server_handshake is_vision auth = do h ← read_request_header; accept is_vision (auth h.uuid) h

-- The first write of `serverStream` behind the encoded response header.
unfoldable pub write_first : Result Buffer → Bytes → Io (Unit {0})
write_first b p = write_encoded (and_write b p)

-- `serverStream.Write`: whether the header was written, before and after.
unfoldable pub server_stream_write : Bool → Bytes → Stream → (Result (Unit {0}) × Stream) × Bool
server_stream_write true p s = (write p s, true)
server_stream_write false p s = (write_first (encode_response_header new_buffer) p s, true)

unfoldable pub skip_addons : ℕ → Io (Unit {0})
skip_addons alen = if ltb 0 alen then (do read_full alen; pure tt) else pure tt

-- What `clientStream.Read` takes off the stream before its first read.
unfoldable pub strip_response : Io (Unit {0})
unfolding skip_addons
strip_response = do
  vh ← read_full 2
  (if not (get_or vh 0 0 == version) then fail bad_version else skip_addons (get_or vh 1 0))

-- `packetConn.ReadPacket` of udp.go
unfoldable pub read_packet : Buffer → Io Buffer
read_packet b = do
  hdr ← read_full 2
  (if ltb b.tailroom (u16_at hdr 0)
      then fail packet_too_large
      else (do payload ← read_full (u16_at hdr 0); pure (Buf.write b payload).0))

unfoldable pub write_framed : Option Buffer → Io (Option (Unit {0}))
write_framed none = pure none
write_framed (some b) = do write b.bytes; pure (some tt)

-- `packetConn.WritePacket`; none is the panic of `ExtendHeader` where the header does not fit.
unfoldable pub write_packet : Buffer → Io (Option (Unit {0}))
write_packet b =
    if ltb 0xffff (length b.bytes)
    then fail packet_too_large
    else write_framed (Buf.prepend b (be16 (length b.bytes)))
