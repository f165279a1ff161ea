-- ===== src/Proto/Socks/Udp.antt =====
-- proto/socks/udp.go and the packets of client.go: the header of a UDP packet, and the relay socket, whose
-- datagrams are a list. An empty list is a socket that has failed.
use ntr.Prelude.{
  ℕ, ◌+◌, ◌/◌, ◌%◌, ◌^◌, Bool, true, false, not, ◌&&◌, ◌||◌, Option, none, some, List, [], ◌∷◌,
  ◌++◌, ◌==◌, ltb, if◌then◌else◌, length, get_or, take, drop,
}
use ntr.Prelude.Bytes.{Bytes, be16, u16_at, slice}
use ntr.Addr.{Addr, no_addr, v4, v6, Socksaddr, AddrPort, is4, is_fqdn, from_ip_port, from_fqdn}
use ntr.Proto.Stream.{Result, ok, err, short_udp, bad_atyp}
use ntr.Proto.Wire.{as4, as16, addr_from4, addr_from16}
use ntr.Proto.Socks.Address.{atyp_ipv4, atyp_domain, atyp_ipv6}

-- `parseUDPAddr` for each type of address: the target, and the bytes that it took.
unfoldable pub parse_ipv4 : Bytes → Result (Socksaddr × ℕ)
parse_ipv4 p =
    if ltb (length p) 7
    then err short_udp
    else ok (from_ip_port (addr_from4 (slice p 1 5)) (u16_at p 5), 7)

unfoldable pub parse_ipv6 : Bytes → Result (Socksaddr × ℕ)
parse_ipv6 p =
    if ltb (length p) 19
    then err short_udp
    else ok (from_ip_port (addr_from16 (slice p 1 17)) (u16_at p 17), 19)

unfoldable pub parse_domain : Bytes → Result (Socksaddr × ℕ)
parse_domain p =
    if ltb (length p) 2
    then err short_udp
    else let dl = get_or p 1 0 in
      if ltb (length p) (2 + dl + 2)
      then err short_udp
      else ok (from_fqdn (slice p 2 (2 + dl)) (u16_at p (2 + dl)), 2 + dl + 2)

unfoldable pub parse_udp_addr : Bytes → Result (Socksaddr × ℕ)
parse_udp_addr p =
    if ltb (length p) 1
    then err short_udp
    else if get_or p 0 0 == atyp_ipv4
    then parse_ipv4 p
    else if get_or p 0 0 == atyp_ipv6
    then parse_ipv6 p
    else if get_or p 0 0 == atyp_domain
    then parse_domain p
    else err bad_atyp

unfoldable pub encode_udp_header : Socksaddr → Bytes
encode_udp_header dst =
    (0 ∷ 0 ∷ 0 ∷ [])
    ++ ((if is_fqdn dst
          then atyp_domain ∷ length dst.fqdn % 256 ∷ dst.fqdn
          else if is4 dst.addr
          then atyp_ipv4 ∷ as4 dst.addr
          else atyp_ipv6 ∷ as16 dst.addr)
        ++ be16 dst.port)

-- A datagram of the relay socket.
pub record Datagram : Type 0 where
  pub src : AddrPort
  pub bytes : Bytes

-- The room of a reset buffer, which cuts a longer datagram.
abbrev pub tailroom : ℕ
tailroom = 32256

-- `net.IP.Equal`: an IPv4 address is equal to its IPv4-mapped form, and there is no zone.
unfoldable pub ip_equal : Addr → Addr → Bool
ip_equal no_addr no_addr = true
ip_equal (v4 n) (v4 m) = n == m
ip_equal (v4 n) (v6 m z) = m / 2 ^ 32 == 0xffff && m % 2 ^ 32 == n
ip_equal (v6 n y) (v4 m) = n / 2 ^ 32 == 0xffff && n % 2 ^ 32 == m
ip_equal (v6 n y) (v6 m z) = n == m
ip_equal _ _ = false

-- The test of `ReadPacket` on the source of a datagram.
unfoldable pub same_source : AddrPort → AddrPort → Bool
same_source a b = ip_equal a.ip b.ip && a.port == b.port

unfoldable pub parsed : Bytes → Result (Socksaddr × ℕ) → Option (Socksaddr × Bytes)
parsed p (ok (dst, hdr_len)) = some (dst, drop (3 + hdr_len) p)
parsed p (err e) = none

-- The packet in a datagram: none where it is short, a fragment or of a bad address.
unfoldable pub packet_of : Bytes → Option (Socksaddr × Bytes)
packet_of p =
    if ltb (length p) 4 || not (get_or p 2 0 == 0)
    then none
    else parsed p (parse_udp_addr (drop 3 p))

unfoldable pub accepts : Option AddrPort → AddrPort → Bool
accepts none src = true
accepts (some c) src = same_source c src

unfoldable pub learned : Option AddrPort → AddrPort → Option AddrPort
learned none src = some src
learned (some c) src = some c

-- What `ReadPacket` gives: the client that is known then, the packet, and the datagrams behind it.
pub record Received : Type 0 where
  pub client : Option AddrPort
  pub packet : Option (Socksaddr × Bytes)
  pub rest : List Datagram

abbrev pub or_next :
    Option AddrPort → List Datagram → Option (Socksaddr × Bytes) → Received → Received
or_next client rest (some p) next = record { client = client; packet = some p; rest = rest }
or_next client rest none next = next

-- The loop of `socksUDPConn.ReadPacket`.
unfoldable pub read_packet : Option AddrPort → List Datagram → Received
read_packet client [] = record { client = client; packet = none; rest = [] }
read_packet client (d ∷ ds) =
    let next = read_packet (if accepts client d.src then learned client d.src else client) ds in
    if accepts client d.src
    then or_next (learned client d.src) ds (packet_of (take tailroom d.bytes)) next
    else next

-- `socksUDPConn.WritePacket`: the datagram for the client, none before there is one.
unfoldable pub write_packet : Option AddrPort → Bytes → Socksaddr → Option (AddrPort × Bytes)
write_packet none payload dst = none
write_packet (some c) payload dst = some (c, encode_udp_header dst ++ payload)

-- The loop of `clientUDPConn.ReadPacket`: the packet, and the datagrams behind it.
unfoldable pub client_read_packet : List Bytes → Option (Socksaddr × Bytes) × List Bytes
client_read_packet [] = (none, [])
client_read_packet (d ∷ ds) =
    let next = client_read_packet ds in
    elim (packet_of (take tailroom d)) [ some p ↦ (some p, ds) | none ↦ next ]

-- `clientUDPConn.WritePacket`: the datagram for the relay.
unfoldable pub client_write_packet : Bytes → Socksaddr → Bytes
client_write_packet payload dst = encode_udp_header dst ++ payload
