-- ===== src/Muxcool/Frame/AddressRoundTrip.antt =====
-- muxcool/frame.go: `writeAddrPort` and `readAddrPort` are inverse to one another.
use ntr.Prelude.{
  suc, ℕ, ◌+◌, ◌*◌, ◌/◌, ◌%◌, ◌≤◌, ◌≡◌, refl, ◌∙◌, ◌⊎◌, inl, inr, arith, true, Option, none, some,
  [], ◌∷◌, ◌++◌, append_assoc, length, length-append, length-drop, get_or, if◌then◌else◌,
  Bool-cases,
}
use ntr.Prelude.Bytes.{
  Bytes, IsU16, be16, slice, be16_read, get_or-append_add, get_or-append_zero, slice-append,
  take-append_eq,
}
use ntr.Muxcool.Frame.{
  ok, Address, to4, to16, append_ip, write_addr_port, read_addr_port, atyp_ipv4, atyp_ipv6,
  atyp_domain, ip_address,
}

-- What can stand in a frame: a domain of at most 255 bytes, or an IP of 4 or 16.
abbrev pub IsEncodable : Address → Type 0
IsEncodable a =
    if a.is_domain then length a.domain ≤ 255 else ((length a.ip ≡ 4) ⊎ (length a.ip ≡ 16))

-- The address that a reader of the written bytes sees: an IPv4-mapped address becomes its IPv4
-- address.
canonical_ip : Option Bytes → Bytes → Address
canonical_ip (some v4) ip = ip_address v4
canonical_ip none ip = ip_address (to16 ip)

pub canonical : Address → Address
unfolding canonical_ip
canonical a =
    if a.is_domain
    then record { is_domain = true; domain = a.domain; ip = [] }
    else canonical_ip (to4 a.ip) a.ip

-- The bytes behind the port.
ip_wire : Option Bytes → Bytes → Bytes
ip_wire (some v4) ip = atyp_ipv4 ∷ v4
ip_wire none ip = atyp_ipv6 ∷ to16 ip

pub address_wire : Address → Bytes
unfolding ip_wire
address_wire a =
    if a.is_domain then atyp_domain ∷ length a.domain % 256 ∷ a.domain else ip_wire (to4 a.ip) a.ip

append_ip-ip_wire :
    (b : Bytes) (o : Option Bytes) (ip : Bytes) → append_ip b o ip ≡ b ++ ip_wire o ip
unfolding append_ip ip_wire
append_ip-ip_wire b (some v4) ip = append_assoc b (atyp_ipv4 ∷ []) v4
append_ip-ip_wire b none ip = append_assoc b (atyp_ipv6 ∷ []) (to16 ip)

-- On an address that can stand in a frame the encoder appends the port and these bytes.
pub write_addr_port-address_wire :
    (b : Bytes) (port : ℕ) (a : Address)
    → IsEncodable a
    → write_addr_port b port a ≡ ok (b ++ (be16 port ++ address_wire a))
unfolding write_addr_port address_wire
write_addr_port-address_wire b port a h = elim (Bool-cases a.is_domain) [
  | inl d ↦ ground (
    arith,
    append_assoc (b ++ be16 port) (atyp_domain ∷ length a.domain % 256 ∷ []) a.domain,
    append_assoc b (be16 port) (address_wire a),
  )
  | inr i ↦ ground (
    arith,
    append_ip-ip_wire (b ++ be16 port) (to4 a.ip) a.ip,
    append_assoc b (be16 port) (address_wire a),
  )
]

module _ (buf : Bytes) (off hi lo : ℕ) where
  read_addr_port_ipv4 :
      (ip : Bytes)
      → off + 7 ≤ length buf
      → get_or buf off 0 ≡ hi
      → get_or buf (off + 1) 0 ≡ lo
      → get_or buf (off + 2) 0 ≡ atyp_ipv4
      → slice buf (off + 3) (off + 3 + 4) ≡ ip
      → read_addr_port buf off ≡ ok (ip_address ip, hi * 256 + lo, off + 3 + 4)
  unfolding read_addr_port
  read_addr_port_ipv4 ip h a b c d = ground arith

  read_addr_port_ipv6 :
      (ip : Bytes)
      → off + 19 ≤ length buf
      → get_or buf off 0 ≡ hi
      → get_or buf (off + 1) 0 ≡ lo
      → get_or buf (off + 2) 0 ≡ atyp_ipv6
      → slice buf (off + 3) (off + 3 + 16) ≡ ip
      → read_addr_port buf off ≡ ok (ip_address ip, hi * 256 + lo, off + 3 + 16)
  unfolding read_addr_port
  read_addr_port_ipv6 ip h a b c d = ground arith

  read_addr_port_domain :
      (n : ℕ) (name : Bytes)
      → off + 4 + n ≤ length buf
      → get_or buf off 0 ≡ hi
      → get_or buf (off + 1) 0 ≡ lo
      → get_or buf (off + 2) 0 ≡ atyp_domain
      → get_or buf (off + 3) 0 ≡ n
      → slice buf (off + 3 + 1) (off + 3 + 1 + n) ≡ name
      → read_addr_port buf off
        ≡ ok (record { is_domain = true; domain = name; ip = [] }, hi * 256 + lo, off + 3 + 1 + n)
  unfolding read_addr_port
  read_addr_port_domain n name h a b c e d = ground arith

-- Both kinds of IP, with the payload right behind the type byte.
module _ (b : Bytes) (port : ℕ) (fits : IsU16 port) (ip tail : Bytes) where
  read_ipv4 :
      length ip ≡ 4
      → read_addr_port (b ++ (be16 port ++ (atyp_ipv4 ∷ (ip ++ tail)))) (length b)
        ≡ ok (ip_address ip, port, length b + 7)
  read_ipv4 h =
      let ys = be16 port ++ (atyp_ipv4 ∷ (ip ++ tail)) in
      read_addr_port_ipv4 (b ++ ys) (length b) (port / 256 % 256) (port % 256) ip
        (omega (arith, length-append b ys, length-append ip tail)) (get_or-append_zero b ys 0)
        (get_or-append_add b ys 1 0) (get_or-append_add b ys 2 0)
        (slice-append b ys 3 4 _ _ refl refl ∙ take-append_eq 4 ip tail h)
      ∙ ground (arith, be16_read port)

  read_ipv6 :
      length ip ≡ 16
      → read_addr_port (b ++ (be16 port ++ (atyp_ipv6 ∷ (ip ++ tail)))) (length b)
        ≡ ok (ip_address ip, port, length b + 19)
  read_ipv6 h =
      let ys = be16 port ++ (atyp_ipv6 ∷ (ip ++ tail)) in
      read_addr_port_ipv6 (b ++ ys) (length b) (port / 256 % 256) (port % 256) ip
        (omega (arith, length-append b ys, length-append ip tail)) (get_or-append_zero b ys 0)
        (get_or-append_add b ys 1 0) (get_or-append_add b ys 2 0)
        (slice-append b ys 3 16 _ _ refl refl ∙ take-append_eq 16 ip tail h)
      ∙ ground (arith, be16_read port)

  read_domain_name :
      length ip ≤ 255
      → read_addr_port
          (b ++ (be16 port ++ (atyp_domain ∷ length ip % 256 ∷ (ip ++ tail))))
          (length b)
        ≡ ok (record { is_domain = true; domain = ip; ip = [] }, port, length b + (4 + length ip))
  read_domain_name h =
      let ys = be16 port ++ (atyp_domain ∷ length ip % 256 ∷ (ip ++ tail)) in
      read_addr_port_domain (b ++ ys) (length b) (port / 256 % 256) (port % 256) (length ip) ip
        (omega (arith, length-append b ys, length-append ip tail)) (get_or-append_zero b ys 0)
        (get_or-append_add b ys 1 0) (get_or-append_add b ys 2 0)
        (get_or-append_add b ys 3 0 ∙ omega arith)
        (slice-append b ys 4 (length ip) _ _ (omega arith) refl ∙ take-append_eq _ ip tail refl)
      ∙ ground (arith, be16_read port)

-- The bytes of `address_wire`, read behind a prefix and before whatever follows.
length-to4 : (ip v4 : Bytes) → to4 ip ≡ some v4 → length v4 ≡ 4
unfolding to4
length-to4 ip v4 h = ground (arith, length-drop 12 ip)

length-to16 :
    (ip : Bytes) → to4 ip ≡ none → (length ip ≡ 4) ⊎ (length ip ≡ 16) → length (to16 ip) ≡ 16
unfolding to4 to16
length-to16 ip h k = ground arith

read_ip_wire :
    (b : Bytes) (port : ℕ) (ip tail : Bytes) (o : Option Bytes)
    → IsU16 port
    → to4 ip ≡ o
    → (length ip ≡ 4) ⊎ (length ip ≡ 16)
    → read_addr_port (b ++ (be16 port ++ (ip_wire o ip ++ tail))) (length b)
      ≡ ok (canonical_ip o ip, port, length b + suc (suc (length (ip_wire o ip))))
unfolding ip_wire canonical_ip
read_ip_wire b port ip tail (some v4) fits e h =
    read_ipv4 b port fits v4 tail (length-to4 ip v4 e) ∙ ground (arith, length-to4 ip v4 e)
read_ip_wire b port ip tail none fits e h =
    read_ipv6 b port fits (to16 ip) tail (length-to16 ip e h) ∙ ground (arith, length-to16 ip e h)

pub read-address_wire :
    (b : Bytes) (port : ℕ) (a : Address) (tail : Bytes)
    → IsU16 port
    → IsEncodable a
    → read_addr_port (b ++ (be16 port ++ (address_wire a ++ tail))) (length b)
      ≡ ok (canonical a, port, length b + suc (suc (length (address_wire a))))
unfolding address_wire canonical
read-address_wire b port a tail fits h = elim (Bool-cases a.is_domain) [
  | inl d ↦ rw d (read_domain_name b port fits a.domain tail (ground arith) ∙ ground arith)
  | inr i ↦ rw i (read_ip_wire b port a.ip tail (to4 a.ip) fits refl (ground arith))
]

-- Reading what was written gives the canonical address and the port, ends right behind them, and
-- does not touch the bytes in front of or behind them.
pub read_addr_port-write_addr_port :
    (b : Bytes) (port : ℕ) (a : Address) (tail out : Bytes)
    → IsU16 port
    → IsEncodable a
    → write_addr_port b port a ≡ ok out
    → read_addr_port (out ++ tail) (length b) ≡ ok (canonical a, port, length out)
read_addr_port-write_addr_port b port a tail out fits h e =
    let wire = be16 port ++ address_wire a in
    let same : b ++ wire ≡ out = cc (write_addr_port-address_wire b port a h) in
    rw (← same) (rw (append_assoc, length-append b wire) (read-address_wire b port a tail fits h))

length-ip_wire :
    (ip : Bytes) (o : Option Bytes)
    → to4 ip ≡ o
    → (length ip ≡ 4) ⊎ (length ip ≡ 16)
    → length (ip_wire o ip) ≤ 17
unfolding ip_wire
length-ip_wire ip (some v4) e h = omega (arith, length-to4 ip v4 e)
length-ip_wire ip none e h = omega (arith, length-to16 ip e h)

pub length-address_wire : (a : Address) → IsEncodable a → length (address_wire a) ≤ 257
unfolding address_wire
length-address_wire a h = ground (arith, length-ip_wire a.ip (to4 a.ip) refl)
