-- ===== src/Proto/Trojan/Packets.antt =====
-- proto/trojan/udp.go: a frame of a UDP packet is read back as it was written.
use ntr.Prelude.{
  ℕ, ◌+◌, ◌-◌, ◌/◌, ◌%◌, ◌≤◌, ◌≡◌, refl, ap, ◌∙◌, arith, false, some, inl, inr, [], ◌∷◌, ◌++◌,
  append_assoc, length, length-append, Bool-cases, ltb, take,
}
use ntr.Prelude.Bytes.{Bytes, IsU16, be16, be16_read}
use ntr.Addr.{Addr, Socksaddr, is4, is_fqdn, from_fqdn, from_ip_port}
use ntr.Buf
use ntr.Buf.{Buffer}
use ntr.Proto.Stream.{ok, at, and_then-ok, read_full_over, write-ok}
use ntr.Proto.Wire.{
  as4, as16, addr_from4, addr_from16, IsSendable, received, length-as4, length-as16, addr_from4-as4,
  addr_from16-as16,
}
use ntr.Proto.Trojan.{
  atyp_ipv4, atyp_domain, atyp_ipv6, read_port, read_socks_addr, write_socks_addr, read_packet,
  write_packet,
}

read_port_of :
    (ip : Addr) (port : ℕ) (t o : Bytes)
    → IsU16 port
    → read_port ip (at (be16 port ++ t) o) ≡ (ok (from_ip_port ip port), at t o)
unfolding read_port
read_port_of ip port t o fits =
    and_then-ok _ (read_full_over 2 (be16 port) t _ o refl refl)
      (ap (λ (n : ℕ). (ok (from_ip_port ip n), at t o)) (be16_read port fits))

read_socks_addr-name :
    (name : Bytes) (port : ℕ) (t o : Bytes)
    → length name ≤ 255
    → IsU16 port
    → read_socks_addr (at (atyp_domain ∷ length name % 256 ∷ (name ++ (be16 port ++ t))) o)
      ≡ (ok (from_fqdn name port), at t o)
unfolding read_socks_addr
read_socks_addr-name name port t o h fits =
    and_then-ok _ (read_full_over 1 (atyp_domain ∷ []) _ _ o refl refl) (
      and_then-ok _ (read_full_over 1 (length name % 256 ∷ []) _ _ o refl refl) (
        and_then-ok _ (read_full_over (length name % 256) name _ _ o refl (omega arith)) (
          and_then-ok _ (read_full_over 2 (be16 port) t _ o refl refl)
            (ap (λ (n : ℕ). (ok (from_fqdn name n), at t o)) (be16_read port fits)))))

read_socks_addr-ip4 :
    (a : Bytes) (port : ℕ) (t o : Bytes)
    → length a ≡ 4
    → IsU16 port
    → read_socks_addr (at (atyp_ipv4 ∷ (a ++ (be16 port ++ t))) o)
      ≡ (ok (from_ip_port (addr_from4 a) port), at t o)
unfolding read_socks_addr
read_socks_addr-ip4 a port t o h fits =
    and_then-ok _ (read_full_over 1 (atyp_ipv4 ∷ []) _ _ o refl refl)
      (and_then-ok _ (read_full_over 4 a _ _ o refl h) (read_port_of (addr_from4 a) port t o fits))

read_socks_addr-ip6 :
    (a : Bytes) (port : ℕ) (t o : Bytes)
    → length a ≡ 16
    → IsU16 port
    → read_socks_addr (at (atyp_ipv6 ∷ (a ++ (be16 port ++ t))) o)
      ≡ (ok (from_ip_port (addr_from16 a) port), at t o)
unfolding read_socks_addr
read_socks_addr-ip6 a port t o h fits =
    and_then-ok _ (read_full_over 1 (atyp_ipv6 ∷ []) _ _ o refl refl) (
      and_then-ok _ (read_full_over 16 a _ _ o refl h) (read_port_of (addr_from16 a) port t o fits))

pub read_socks_addr-write_socks_addr :
    (d : Socksaddr) (t o : Bytes)
    → IsSendable d
    → read_socks_addr (at (write_socks_addr d ++ t) o) ≡ (ok (received d), at t o)
unfolding write_socks_addr received from_ip_port from_fqdn
read_socks_addr-write_socks_addr d t o v = elim (Bool-cases (is_fqdn d)) [
  | inl name ↦
      rw (name, append_assoc d.fqdn (be16 d.port) t)
        (read_socks_addr-name d.fqdn d.port t o v.name_fits v.port_fits)
  | inr ip ↦ elim (Bool-cases (is4 d.addr)) [
    | inl four ↦
        rw (ip, four, append_assoc (as4 d.addr) (be16 d.port) t)
          (read_socks_addr-ip4 (as4 d.addr) d.port t o (length-as4 d.addr) v.port_fits
            ∙ ap (λ (a : Addr). (ok (from_ip_port a d.port), at t o))
                (addr_from4-as4 d.addr four v.addr_fits))
    | inr six ↦
        rw (ip, six, append_assoc (as16 d.addr) (be16 d.port) t)
          (read_socks_addr-ip6 (as16 d.addr) d.port t o (length-as16 d.addr) v.port_fits
            ∙ ap (λ (a : Addr). (ok (from_ip_port a d.port), at t o))
                (addr_from16-as16 d.addr six v.addr_fits))
  ]
]

-- The bytes of a packet's frame.
abbrev pub packet_wire : Socksaddr → Bytes → Bytes
packet_wire d payload =
    (write_socks_addr d ++ (be16 (length payload) ++ (0x0d ∷ 0x0a ∷ []))) ++ payload

-- A packet of at most 65535 bytes, in a buffer with room for the header in front of it, is written
-- as one frame behind what was written before.
pub write_packet_lem :
    (b : Buffer) (d : Socksaddr) (i o : Bytes)
    → length b.bytes ≤ 0xffff
    → length (write_socks_addr d) + 4 ≤ b.headroom
    → write_packet b d (at i o) ≡ (ok (some tt), at i (o ++ packet_wire d b.bytes))
unfolding write_packet Buf.prepend
write_packet_lem b d i o short room = ground (
  arith,
  length-append (write_socks_addr d) (be16 (length b.bytes) ++ (0x0d ∷ 0x0a ∷ [])),
  write-ok (packet_wire d b.bytes) i o,
)

write_all :
    (b : Buffer) (p : Bytes)
    → length p ≤ b.tailroom
    → (Buf.write b p).0 ≡ record b { bytes = b.bytes ++ p; tailroom = b.tailroom - length p }
unfolding Buf.write
write_all b p h = ground (arith, take_length p)
  where
    take_length : (xs : Bytes) → take (length xs) xs ≡ xs
    take_length [] = refl
    take_length (x ∷ xs) = ap (λ ys. x ∷ ys) (take_length xs)

read_packet-behind_addr :
    (b : Buffer) (payload t o i : Bytes) (d : Socksaddr)
    → length payload ≤ 0xffff
    → length payload ≤ b.tailroom
    → read_socks_addr (at i o)
      ≡ (ok d, at (be16 (length payload) ++ (0x0d ∷ 0x0a ∷ (payload ++ t))) o)
    → read_packet b (at i o) ≡ (ok (d, (Buf.write b payload).0), at t o)
unfolding read_packet
read_packet-behind_addr b payload t o i d short fits h =
    let n = length payload in
    and_then-ok _ h (
      and_then-ok _
        (read_full_over 4 (n / 256 % 256 ∷ n % 256 ∷ 0x0d ∷ 0x0a ∷ []) (payload ++ t) _ o refl refl)
        (rw (be16_read n (omega arith), room)
          (and_then-ok _ (read_full_over n payload t _ o refl refl) refl)))
  where
    room : ltb b.tailroom (length payload) ≡ false
    room = ground arith

-- What stands in a stream as the frame of a packet of at most 65535 bytes is read back, the target
-- and the packet, into a buffer with room for the packet, and what follows is left.
pub read_packet-packet_wire :
    (b : Buffer) (d : Socksaddr) (payload t o : Bytes)
    → IsSendable d
    → length payload ≤ 0xffff
    → length payload ≤ b.tailroom
    → read_packet b (at (packet_wire d payload ++ t) o) ≡ (
      ok (
        received d,
        record b { bytes = b.bytes ++ payload; tailroom = b.tailroom - length payload },
      ),
      at t o,
    )
read_packet-packet_wire b d payload t o v short fits =
    let split : packet_wire d payload ++ t
        ≡ write_socks_addr d ++ (be16 (length payload) ++ (0x0d ∷ 0x0a ∷ (payload ++ t))) =
      append_assoc (write_socks_addr d ++ (be16 (length payload) ++ (0x0d ∷ 0x0a ∷ []))) payload t
      ∙ append_assoc (write_socks_addr d) (be16 (length payload) ++ (0x0d ∷ 0x0a ∷ []))
          (payload ++ t) in
    rw (← write_all b payload fits) (
      read_packet-behind_addr b payload t o _ (received d) short fits
        (ap (λ i. read_socks_addr (at i o)) split ∙ read_socks_addr-write_socks_addr d _ o v))
