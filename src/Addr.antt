-- ===== src/Addr.antt =====
-- addr/socksaddr.go, and what the code uses of `net/netip`: addresses, prefixes and their tests.
use ntr.Prelude.{
  ℕ, ◌+◌, ◌-◌, ◌*◌, ◌/◌, ◌%◌, ◌^◌, ◌≡◌, ◌↔◌, arith, Bool, true, false, not, ◌&&◌, [], ◌==◌,
  if◌then◌else◌,
}
use ntr.Prelude.Bytes.{Bytes}
use ntr.Prelude.Maps.{Key}
use ntr.Prelude.Strings.{bytes_eq, bytes_eq_iff}

-- `netip.Addr`: the zero value, an IPv4 address, or an IPv6 address with its zone. An address is the
-- number that its bits stand for.
pub data Addr : Type 0 where
  no_addr : Addr
  v4 : ℕ → Addr
  v6 : ℕ → Bytes → Addr

unfoldable pub is_valid : Addr → Bool
is_valid no_addr = false
is_valid _ = true

unfoldable pub is4 : Addr → Bool
is4 (v4 n) = true
is4 _ = false

unfoldable pub is6 : Addr → Bool
is6 (v6 n z) = true
is6 _ = false

-- `Is4In6`: the 80 zero bits and 16 one bits of ::ffff:0:0/96.
unfoldable pub is4in6 : Addr → Bool
is4in6 (v6 n z) = n / 2 ^ 32 == 0xffff
is4in6 _ = false

unfoldable pub unmap : Addr → Addr
unmap (v6 n z) = if n / 2 ^ 32 == 0xffff then v4 (n % 2 ^ 32) else v6 n z
unmap a = a

-- `Next`: the zero value behind the last address.
unfoldable pub next : Addr → Addr
next no_addr = no_addr
next (v4 n) = if (n + 1) % 2 ^ 32 == 0 then no_addr else v4 ((n + 1) % 2 ^ 32)
next (v6 n z) = if (n + 1) % 2 ^ 128 == 0 then no_addr else v6 ((n + 1) % 2 ^ 128) z

unfoldable pub addr_eq : Addr → Addr → Bool
addr_eq no_addr no_addr = true
addr_eq (v4 n) (v4 m) = n == m
addr_eq (v6 n y) (v6 m z) = n == m && bytes_eq y z
addr_eq _ _ = false

pub addr_eq_iff : (a b : Addr) → (addr_eq a b ≡ true) ↔ (a ≡ b)
unfolding addr_eq
addr_eq_iff no_addr no_addr = ground arith
addr_eq_iff (v6 n y) (v6 m z) = ground (arith, bytes_eq_iff y z)
addr_eq_iff _ _ = ground arith

instance abbrev pub addr_Key : Key Addr
addr_Key = record { key_eq = addr_eq; key_eq_iff = addr_eq_iff }

-- A valid `netip.Prefix`.
pub record Prefix : Type 0 where
  pub addr : Addr
  pub bits : ℕ

masked_addr : Addr → ℕ → Addr
masked_addr no_addr bits = no_addr
masked_addr (v4 n) bits = v4 (n / 2 ^ (32 - bits) * 2 ^ (32 - bits))
masked_addr (v6 n z) bits = v6 (n / 2 ^ (128 - bits) * 2 ^ (128 - bits)) []

unfoldable pub masked : Prefix → Prefix
unfolding masked_addr
masked p = record p { addr = masked_addr p.addr p.bits }

-- `Prefix.Contains`: of the same family, without a zone, and equal in the leading bits.
within : Addr → ℕ → Addr → Bool
within (v4 n) bits (v4 m) = n / 2 ^ (32 - bits) == m / 2 ^ (32 - bits)
within (v6 n y) bits (v6 m []) = n / 2 ^ (128 - bits) == m / 2 ^ (128 - bits)
within _ _ _ = false

unfoldable pub contains : Prefix → Addr → Bool
unfolding within
contains p a = within p.addr p.bits a

-- `netip.AddrPort`
pub record AddrPort : Type 0 where
  pub ip : Addr
  pub port : ℕ

-- `Socksaddr`: a domain name or an IP address, with a port.
pub record Socksaddr : Type 0 where
  pub addr : Addr
  pub fqdn : Bytes
  pub port : ℕ

unfoldable pub is_fqdn : Socksaddr → Bool
is_fqdn s = not (bytes_eq s.fqdn [])

unfoldable pub is_ip : Socksaddr → Bool
is_ip s = bytes_eq s.fqdn [] && is_valid s.addr

unfoldable pub from_ip_port : Addr → ℕ → Socksaddr
from_ip_port a port = record { addr = a; fqdn = []; port = port }

unfoldable pub from_fqdn : Bytes → ℕ → Socksaddr
from_fqdn fqdn port = record { addr = no_addr; fqdn = fqdn; port = port }
