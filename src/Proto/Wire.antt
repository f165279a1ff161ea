-- ===== src/Proto/Wire.antt =====
-- The addresses of `net/netip` as bytes: `As4`, `As16`, `AddrFrom4` and `AddrFrom16`.
use ntr.Prelude.{
  ℕ, zero, suc, ◌+◌, ◌*◌, ◌/◌, ◌%◌, ◌^◌, ◌<◌, ◌≤◌, ◌≡◌, refl, ap, ◌∙◌, arith, true, false, [], ◌∷◌,
  ◌++◌, length, length-append, if◌then◌else◌,
}
use native.Mathlib.Nat.{pow-suc, div-lt_iff_lt-mul}
use ntr.Prelude.Bytes.{Bytes, IsU16}
use ntr.Addr.{Addr, no_addr, v4, v6, Socksaddr, is4, is_fqdn}

-- The `k` bytes of a number, the highest first.
unfoldable pub be_bytes : ℕ → ℕ → Bytes
be_bytes zero n = []
be_bytes (suc k) n = be_bytes k (n / 256) ++ (n % 256 ∷ [])

from_be_on : ℕ → Bytes → ℕ
from_be_on acc [] = acc
from_be_on acc (b ∷ bs) = from_be_on (acc * 256 + b) bs

unfoldable pub from_be : Bytes → ℕ
unfolding from_be_on
from_be bs = from_be_on 0 bs

from_be_on-append :
    (acc : ℕ) (xs : Bytes) (b : ℕ) → from_be_on acc (xs ++ (b ∷ [])) ≡ from_be_on acc xs * 256 + b
unfolding from_be_on
from_be_on-append acc [] b = refl
from_be_on-append acc (x ∷ xs) b = from_be_on-append (acc * 256 + x) xs b

pub from_be-be_bytes : (k n : ℕ) → n < 256 ^ k → from_be (be_bytes k n) ≡ n
unfolding from_be be_bytes from_be_on
from_be-be_bytes zero n h = omega arith
from_be-be_bytes (suc k) n h =
    from_be_on-append 0 (be_bytes k (n / 256)) (n % 256)
    ∙ omega (
      arith,
      from_be-be_bytes k (n / 256) (
          (div-lt_iff_lt-mul {k = 256} {x = n} {y = 256 ^ k} (omega arith)).1
            (omega (arith, pow-suc 256 k))),
    )

pub length-be_bytes : (k n : ℕ) → length (be_bytes k n) ≡ k
unfolding be_bytes
length-be_bytes zero n = refl
length-be_bytes (suc k) n =
    omega (arith, length-append (be_bytes k (n / 256)) (n % 256 ∷ []), length-be_bytes k (n / 256))

-- `As16` of an IPv4 address is its IPv4-mapped form, of the zero address all zeros.
addr_number : Addr → ℕ
addr_number no_addr = 0
addr_number (v4 n) = 0xffff * 2 ^ 32 + n
addr_number (v6 n z) = n

as4_number : Addr → ℕ
as4_number no_addr = 0
as4_number (v4 n) = n
as4_number (v6 n z) = n % 2 ^ 32

unfoldable pub as4 : Addr → Bytes
unfolding as4_number
as4 a = be_bytes 4 (as4_number a)

unfoldable pub as16 : Addr → Bytes
unfolding addr_number
as16 a = be_bytes 16 (addr_number a)

unfoldable pub addr_from4 : Bytes → Addr
addr_from4 b = v4 (from_be b)

unfoldable pub addr_from16 : Bytes → Addr
addr_from16 b = v6 (from_be b) []

-- Addresses of their family's width.
abbrev pub IsAddr : Addr → Type 0
IsAddr no_addr = Unit
IsAddr (v4 n) = n < 2 ^ 32
IsAddr (v6 n z) = n < 2 ^ 128

-- A logical address that the protocols can carry.
pub record IsSendable (d : Socksaddr) : Type 0 where
  pub port_fits : IsU16 d.port
  pub name_fits : length d.fqdn ≤ 255
  pub addr_fits : IsAddr d.addr

-- What stands for an address behind sixteen bytes: a zone is lost, and the zero address becomes `::`.
abbrev pub plain_addr : Addr → Addr
plain_addr no_addr = v6 0 []
plain_addr (v4 n) = v4 n
plain_addr (v6 n z) = v6 n []

-- What the peer takes a logical address for.
unfoldable pub received : Socksaddr → Socksaddr
received d =
    if is_fqdn d
    then record { addr = no_addr; fqdn = d.fqdn; port = d.port }
    else record { addr = plain_addr d.addr; fqdn = []; port = d.port }

pub length-as4 : (a : Addr) → length (as4 a) ≡ 4
unfolding as4
length-as4 a = length-be_bytes 4 (as4_number a)

pub length-as16 : (a : Addr) → length (as16 a) ≡ 16
unfolding as16
length-as16 a = length-be_bytes 16 (addr_number a)

pub addr_from4-as4 : (a : Addr) → is4 a ≡ true → IsAddr a → addr_from4 (as4 a) ≡ plain_addr a
unfolding addr_from4 as4 is4
addr_from4-as4 no_addr h k = cc
addr_from4-as4 (v4 n) h k = ap v4 (from_be-be_bytes 4 n k)
addr_from4-as4 (v6 n z) h k = cc

pub addr_from16-as16 : (a : Addr) → is4 a ≡ false → IsAddr a → addr_from16 (as16 a) ≡ plain_addr a
unfolding addr_from16 as16 is4
addr_from16-as16 no_addr h k = ap (λ n. v6 n []) (from_be-be_bytes 16 0 (omega arith))
addr_from16-as16 (v4 n) h k = cc
addr_from16-as16 (v6 n z) h k = ap (λ m. v6 m []) (from_be-be_bytes 16 n k)
