-- ===== src/Proto/Trojan.antt =====
-- proto/trojan/trojan.go and udp.go: the request header behind the key of a user, and the frames of
-- UDP packets. The key is a hash of the password by `crypto/sha256`.
pub mod Handshake
pub mod Packets
use ntr.Prelude.{
  ℕ, ◌+◌, ◌%◌, Bool, true, false, not, ◌||◌, Option, none, some, [], ◌∷◌, ◌++◌, ltb, ◌==◌,
  if◌then◌else◌, length, get_or, take,
}
use ntr.Prelude.Bytes.{Bytes, be16, u16_at}
use ntr.Addr.{Addr, no_addr, Socksaddr, is4, is_fqdn, from_ip_port, from_fqdn}
use ntr.Buf
use ntr.Buf.{Buffer}
use ntr.Proto.Stream.{
  Io, pure, fail, ◌>>=◌, ◌>>◌, read_full, write, bad_header, bad_frame, bad_atyp, unknown_user,
  packet_too_large,
}
use ntr.Proto.Wire.{as4, as16, addr_from4, addr_from16}

abbrev pub hash_len : ℕ
hash_len = 56

abbrev pub cmd_connect : ℕ
cmd_connect = 0x01

abbrev pub cmd_udp : ℕ
cmd_udp = 0x03

abbrev pub atyp_ipv4 : ℕ
atyp_ipv4 = 0x01

abbrev pub atyp_domain : ℕ
atyp_domain = 0x03

abbrev pub atyp_ipv6 : ℕ
atyp_ipv6 = 0x04

abbrev pub crlf : Bytes
crlf = 0x0d ∷ 0x0a ∷ []

-- `proxy.Request`, with the reference that the authenticator gave.
pub record Request (Ref : Type 0) : Type 0 where
  pub dst : Socksaddr
  pub cred : Ref
  pub is_udp : Bool
  pub command : ℕ

unfoldable pub expect_crlf : Io (Unit {0})
expect_crlf = do
  c ← read_full 2
  (if not (get_or c 0 0 == 0x0d) || not (get_or c 1 0 == 0x0a) then fail bad_header else pure tt)

abbrev ip_host : Addr → Socksaddr
ip_host a = record { addr = a; fqdn = []; port = 0 }

abbrev name_host : Bytes → Socksaddr
name_host name = record { addr = no_addr; fqdn = name; port = 0 }

-- The switch of `readRequest` on the type of the address.
unfoldable pub read_host : ℕ → Io Socksaddr
read_host atyp =
    if atyp == atyp_ipv4
    then (do a ← read_full 4; pure (ip_host (addr_from4 a)))
    else if atyp == atyp_ipv6
    then (do a ← read_full 16; pure (ip_host (addr_from16 a)))
    else if atyp == atyp_domain
    then (do l ← read_full 1; name ← read_full (get_or l 0 0); pure (name_host name))
    else fail bad_atyp

unfoldable pub read_request : Io (ℕ × Socksaddr)
read_request = do
  head ← read_full 2
  host ← read_host (get_or head 1 0)
  pb ← read_full 2
  pure (get_or head 0 0, record host { port = u16_at pb 0 })

unfoldable pub write_request : ℕ → Socksaddr → Bytes
write_request cmd d =
    (cmd ∷ [])
    ++ ((if is_fqdn d
          then atyp_domain ∷ length d.fqdn % 256 ∷ d.fqdn
          else if is4 d.addr
          then atyp_ipv4 ∷ as4 d.addr
          else atyp_ipv6 ∷ as16 d.addr)
        ++ be16 d.port)

unfoldable pub write_socks_addr : Socksaddr → Bytes
write_socks_addr d =
    (if is_fqdn d
      then atyp_domain ∷ length d.fqdn % 256 ∷ d.fqdn
      else if is4 d.addr
      then atyp_ipv4 ∷ as4 d.addr
      else atyp_ipv6 ∷ as16 d.addr)
    ++ be16 d.port

unfoldable pub read_port : Addr → Io Socksaddr
read_port ip = do pb ← read_full 2; pure (from_ip_port ip (u16_at pb 0))

unfoldable pub read_socks_addr : Io Socksaddr
unfolding read_port
read_socks_addr = do
  at ← read_full 1
  (if get_or at 0 0 == atyp_ipv4
      then (do a ← read_full 4; read_port (addr_from4 a))
      else if get_or at 0 0 == atyp_ipv6
      then (do a ← read_full 16; read_port (addr_from16 a))
      else if get_or at 0 0 == atyp_domain
      then (do
        l ← read_full 1
        name ← read_full (get_or l 0 0)
        pb ← read_full 2
        pure (from_fqdn name (u16_at pb 0)))
      else fail bad_atyp)

module _ (key : Bytes → Bytes) where
  -- `ClientHandshake` with `CmdConnect`, `DialPacketConn` with `CmdUDP`.
  unfoldable pub client_header : ℕ → Bytes → Socksaddr → Bytes
  client_header cmd password dst = key password ++ (crlf ++ (write_request cmd dst ++ crlf))

  unfoldable pub client_handshake : Bytes → Socksaddr → Io (Unit {0})
  unfolding client_header
  client_handshake password dst = write (client_header cmd_connect password dst)

  unfoldable pub dial_packet_conn : Bytes → Socksaddr → Io (Unit {0})
  unfolding client_header
  dial_packet_conn password dst = write (client_header cmd_udp password dst)

accept : {Ref : Type 0} → Option Ref → ℕ → Socksaddr → Io (Request Ref)
accept none cmd dst = fail unknown_user
accept (some ref) cmd dst =
    pure (record { dst = dst; cred = ref; is_udp = cmd == cmd_udp; command = cmd })

unfoldable pub server_handshake : {Ref : Type 0} → (Bytes → Option Ref) → Io (Request Ref)
unfolding accept expect_crlf read_request
server_handshake auth = do
  h ← read_full hash_len
  expect_crlf
  (cmd, dst) ← read_request
  expect_crlf
  accept (auth h) cmd dst

-- `ReadPacket` into a buffer: the target, and the buffer with the packet.
unfoldable pub read_packet : Buffer → Io (Socksaddr × Buffer)
unfolding read_socks_addr
read_packet b = do
  dst ← read_socks_addr
  lc ← read_full 4
  (if not (get_or lc 2 0 == 0x0d) || not (get_or lc 3 0 == 0x0a)
      then fail bad_frame
      else if ltb b.tailroom (u16_at lc 0)
      then fail packet_too_large
      else (do payload ← read_full (u16_at lc 0); pure (dst, (Buf.write b payload).0)))

-- The write of a buffer with its header, unless the header does not fit.
write_framed : Option Buffer → Io (Option (Unit {0}))
write_framed none = pure none
write_framed (some b) = do write b.bytes; pure (some tt)

-- `WritePacket`; none is the panic of `ExtendHeader` where the header does not fit.
unfoldable pub write_packet : Buffer → Socksaddr → Io (Option (Unit {0}))
unfolding write_framed write_socks_addr
write_packet b dst =
    if ltb 0xffff (length b.bytes)
    then fail packet_too_large
    else write_framed
        (Buf.prepend b (write_socks_addr dst ++ (be16 (length b.bytes) ++ (0x0d ∷ 0x0a ∷ []))))
