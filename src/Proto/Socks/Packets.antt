-- ===== src/Proto/Socks/Packets.antt =====
-- proto/socks: a packet is read as it was written, and datagrams of strangers do nothing.
use ntr.Prelude.{
  Bool, true, false, ◌&&◌, ◌==◌, Option, none, All, ◌*◌, ◌^◌, ℕ, suc, ◌+◌, ◌-◌, ◌%◌, ◌≤◌, ◌<◌, ◌≡◌,
  refl, ap, ◌∙◌, sym, arith, some, inl, inr, List, [], ◌∷◌, ◌++◌, append_assoc, if◌then◌else◌,
  length, length-append, take, drop, Bool-cases,
}
use ntr.Prelude.Bytes.{
  Bytes, be16, be16_read, u16_at, IsU16, take-append_eq, get_or-append_add, get_or-append_zero,
  drop-append_add,
}
use ntr.Addr.{Addr, no_addr, v4, v6, Socksaddr, AddrPort, is4, is_fqdn, from_ip_port, from_fqdn}
use ntr.Proto.Stream.{ok}
use ntr.Proto.Wire.{
  as4, as16, addr_from4, addr_from16, IsSendable, received, length-as4, length-as16, addr_from4-as4,
  addr_from16-as16,
}
use ntr.Proto.Socks.Address.{atyp_ipv4, atyp_domain, atyp_ipv6}
use ntr.Proto.Socks.Udp.{
  parse_ipv4, parse_ipv6, parse_domain, parse_udp_addr, encode_udp_header, Datagram, ip_equal,
  same_source, parsed, packet_of, accepts, learned, read_packet,
}

-- The number of 128 bits that an IP address is, an IPv4 address as ::ffff:0:0/96 has it.
pub ip_number : Addr → Option ℕ
ip_number no_addr = none
ip_number (v4 n) = some (0xffff * 2 ^ 32 + n)
ip_number (v6 n zone) = some n

same_number : Option ℕ → Option ℕ → Bool
same_number none none = true
same_number (some n) (some m) = n == m
same_number _ _ = false

-- A source is an IP address and a port.
pub same_origin : AddrPort → AddrPort → Bool
same_origin a b = same_number (ip_number a.ip) (ip_number b.ip) && a.port == b.port

-- The datagrams of one source.
pub from_source : AddrPort → List Datagram → List Datagram
from_source c [] = []
from_source c (d ∷ ds) =
    let more = from_source c ds in if same_origin c d.src then d ∷ more else more

-- An IPv4 address has 32 bits.
abbrev pub IsIp : Addr → Type 0
IsIp no_addr = Unit
IsIp (v4 n) = n < 2 ^ 32
IsIp (v6 n zone) = Unit

ip_equal-ip_number :
    (a b : Addr) → IsIp a → IsIp b → ip_equal a b ≡ same_number (ip_number a) (ip_number b)
unfolding ip_equal ip_number same_number
ip_equal-ip_number no_addr no_addr h k = refl
ip_equal-ip_number no_addr (v4 m) h k = refl
ip_equal-ip_number no_addr (v6 m z) h k = refl
ip_equal-ip_number (v4 n) no_addr h k = refl
ip_equal-ip_number (v4 n) (v4 m) h k = ground arith
ip_equal-ip_number (v4 n) (v6 m z) h k = ground arith
ip_equal-ip_number (v6 n y) no_addr h k = refl
ip_equal-ip_number (v6 n y) (v4 m) h k = ground arith
ip_equal-ip_number (v6 n y) (v6 m z) h k = refl

-- Once a client is known, the packets that are read are those that its own datagrams give: with the
-- datagrams taken out whose source has another IP address or another port, the same packet is read,
-- and the same client is known. An IPv4 address and its IPv4-mapped form are the same.
pub read_packet-from_source :
    (c : AddrPort) (ds : List Datagram)
    → IsIp c.ip
    → All (λ d. IsIp d.src.ip) ds
    → ((read_packet (some c) ds).packet ≡ (read_packet (some c) (from_source c ds)).packet)
      × ((read_packet (some c) ds).client ≡ some c)
unfolding read_packet from_source accepts learned same_source same_origin
read_packet-from_source c [] h all = (refl, refl)
read_packet-from_source c (d ∷ ds) h (k, all) =
    ground (arith, read_packet-from_source c ds h all, ip_equal-ip_number c.ip d.src.ip h k)

u16_behind :
    (n : ℕ) (pre : Bytes) (port : ℕ) (t : Bytes)
    → length pre ≡ n
    → IsU16 port
    → u16_at (pre ++ (be16 port ++ t)) n ≡ port
u16_behind n pre port t h fits = rw (← h) (
    rw
      (
        get_or-append_zero pre (be16 port ++ t) 0,
        get_or-append_add pre (be16 port ++ t) 1 0,
        be16_read port fits,
      )
      refl)

-- The bytes of an address of each type, behind its type byte.
module _ (ip : Bytes) (port : ℕ) (t : Bytes) (fits : IsU16 port) where
  parse_ipv4_lem :
      length ip ≡ 4
      → parse_ipv4 (atyp_ipv4 ∷ (ip ++ (be16 port ++ t)))
        ≡ ok (from_ip_port (addr_from4 ip) port, 7)
  unfolding parse_ipv4
  parse_ipv4_lem h = ground (
    arith,
    length-append ip (be16 port ++ t),
    take-append_eq 4 ip (be16 port ++ t) h,
    u16_behind 5 (atyp_ipv4 ∷ ip) port t (omega (arith, h)) fits,
  )

  parse_ipv6_lem :
      length ip ≡ 16
      → parse_ipv6 (atyp_ipv6 ∷ (ip ++ (be16 port ++ t)))
        ≡ ok (from_ip_port (addr_from16 ip) port, 19)
  unfolding parse_ipv6
  parse_ipv6_lem h = ground (
    arith,
    length-append ip (be16 port ++ t),
    take-append_eq 16 ip (be16 port ++ t) h,
    u16_behind 17 (atyp_ipv6 ∷ ip) port t (omega (arith, h)) fits,
  )

  parse_domain_lem :
      length ip ≤ 255
      → parse_domain (atyp_domain ∷ length ip % 256 ∷ (ip ++ (be16 port ++ t)))
        ≡ ok (from_fqdn ip port, 2 + length ip + 2)
  unfolding parse_domain
  parse_domain_lem h =
      let e : length ip % 256 ≡ length ip = omega arith in
      let span : 2 + length ip - 2 ≡ length ip = omega arith in
      rw e (
        ground (
          arith,
          length-append ip (be16 port ++ t),
          ap (λ n. take n (ip ++ (be16 port ++ t))) span,
          take-append_eq (length ip) ip (be16 port ++ t) refl,
          u16_behind (2 + length ip) (atyp_domain ∷ length ip ∷ ip) port t (omega arith) fits,
        ))

-- A packet whose address takes some bytes that are parsed.
packet_of_parsed :
    (atyp : ℕ) (p : Bytes) (d : Socksaddr) (n : ℕ) (payload : Bytes)
    → 0 < length p
    → parse_udp_addr (atyp ∷ p) ≡ ok (d, suc n)
    → drop n p ≡ payload
    → packet_of (0 ∷ 0 ∷ 0 ∷ atyp ∷ p) ≡ some (d, payload)
unfolding packet_of parsed
packet_of_parsed atyp p d n payload long h e = ground (arith, rest_of)
  where
    rest_of : drop (3 + suc n) (0 ∷ 0 ∷ 0 ∷ atyp ∷ p) ≡ payload
    rest_of = let s : 3 + suc n ≡ suc (suc (suc (suc n))) = omega arith in rw s e

module _ (ip : Bytes) (port : ℕ) (t : Bytes) (fits : IsU16 port) where
  drop_addr : (n : ℕ) → length ip + 2 ≡ n → drop n (ip ++ (be16 port ++ t)) ≡ t
  drop_addr n h =
      ap (λ k. drop k (ip ++ (be16 port ++ t))) (sym h) ∙ drop-append_add ip (be16 port ++ t) 2

  packet_of-ip4 :
      length ip ≡ 4
      → packet_of (0 ∷ 0 ∷ 0 ∷ atyp_ipv4 ∷ (ip ++ (be16 port ++ t)))
        ≡ some (from_ip_port (addr_from4 ip) port, t)
  unfolding parse_udp_addr
  packet_of-ip4 h =
      packet_of_parsed atyp_ipv4 (ip ++ (be16 port ++ t)) _ 6 t
        (omega (arith, length-append ip (be16 port ++ t)))
        (ground (arith, parse_ipv4_lem ip port t fits h)) (drop_addr 6 (omega (arith, h)))

  packet_of-ip6 :
      length ip ≡ 16
      → packet_of (0 ∷ 0 ∷ 0 ∷ atyp_ipv6 ∷ (ip ++ (be16 port ++ t)))
        ≡ some (from_ip_port (addr_from16 ip) port, t)
  unfolding parse_udp_addr
  packet_of-ip6 h =
      packet_of_parsed atyp_ipv6 (ip ++ (be16 port ++ t)) _ 18 t
        (omega (arith, length-append ip (be16 port ++ t)))
        (ground (arith, parse_ipv6_lem ip port t fits h)) (drop_addr 18 (omega (arith, h)))

  packet_of-name :
      length ip ≤ 255
      → packet_of (0 ∷ 0 ∷ 0 ∷ atyp_domain ∷ length ip % 256 ∷ (ip ++ (be16 port ++ t)))
        ≡ some (from_fqdn ip port, t)
  unfolding parse_udp_addr
  packet_of-name h =
      let size : suc (suc (length ip + 2)) ≡ 2 + length ip + 2 = omega arith in
      packet_of_parsed atyp_domain (length ip % 256 ∷ (ip ++ (be16 port ++ t))) _
        (suc (length ip + 2)) t (omega arith)
        (rw size (ground (arith, parse_domain_lem ip port t fits h)))
        (drop_addr (length ip + 2) refl)

-- What stands in a datagram as the header for a target and a payload is taken for that target and
-- that payload.
pub packet_of-encode_udp_header :
    (d : Socksaddr) (payload : Bytes)
    → IsSendable d
    → packet_of (encode_udp_header d ++ payload) ≡ some (received d, payload)
unfolding encode_udp_header received from_ip_port from_fqdn
packet_of-encode_udp_header d payload v = elim (Bool-cases (is_fqdn d)) [
  | inl name ↦
      rw (name, append_assoc d.fqdn (be16 d.port) payload)
        (packet_of-name d.fqdn d.port payload v.port_fits v.name_fits)
  | inr ip ↦ elim (Bool-cases (is4 d.addr)) [
    | inl four ↦
        rw (ip, four, append_assoc (as4 d.addr) (be16 d.port) payload)
          (packet_of-ip4 (as4 d.addr) d.port payload v.port_fits (length-as4 d.addr)
            ∙ ap (λ (a : Addr). some (from_ip_port a d.port, payload))
                (addr_from4-as4 d.addr four v.addr_fits))
    | inr six ↦
        rw (ip, six, append_assoc (as16 d.addr) (be16 d.port) payload)
          (packet_of-ip6 (as16 d.addr) d.port payload v.port_fits (length-as16 d.addr)
            ∙ ap (λ (a : Addr). some (from_ip_port a d.port, payload))
                (addr_from16-as16 d.addr six v.addr_fits))
  ]
]
