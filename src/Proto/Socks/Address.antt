-- ===== src/Proto/Socks/Address.antt =====
-- proto/socks: constants, `readAddr` (socks.go), `writeSocksAddr` (client.go) and the answers.
use ntr.Prelude.{
  ℕ, ◌%◌, Bool, ◌||◌, Option, none, some, [], ◌∷◌, ◌++◌, ◌==◌, if◌then◌else◌, length, get_or,
}
use ntr.Prelude.Bytes.{Bytes, be16, u16_at}
use ntr.Prelude.Strings.{bytes_eq}
use ntr.Addr.{no_addr, Socksaddr, is4, is_fqdn}
use ntr.Muxcool.Frame.{to4, to16}
use ntr.Proto.Stream.{Io, pure, fail, ◌>>=◌, read_full, bad_atyp}
use ntr.Proto.Wire.{as4, as16, addr_from4, addr_from16}

abbrev pub version : ℕ
version = 0x05

abbrev pub cmd_connect : ℕ
cmd_connect = 0x01

abbrev pub cmd_udp_assoc : ℕ
cmd_udp_assoc = 0x03

abbrev pub atyp_ipv4 : ℕ
atyp_ipv4 = 0x01

abbrev pub atyp_domain : ℕ
atyp_domain = 0x03

abbrev pub atyp_ipv6 : ℕ
atyp_ipv6 = 0x04

abbrev pub method_no_auth : ℕ
method_no_auth = 0x00

abbrev pub method_user_pass : ℕ
method_user_pass = 0x02

abbrev pub method_none : ℕ
method_none = 0xff

abbrev pub auth_version : ℕ
auth_version = 0x01

abbrev pub no_dst : Socksaddr
no_dst = record { addr = no_addr; fqdn = []; port = 0 }

-- `proxy.Request`
pub record Request (Ref : Type 0) : Type 0 where
  pub cred : Ref
  pub is_udp : Bool
  pub command : ℕ
  pub dst : Socksaddr

-- The switch of `readAddr`, without the port.
unfoldable pub read_host : ℕ → Io Socksaddr
read_host atyp =
    if atyp == atyp_ipv4
    then (do a ← read_full 4; pure (record no_dst { addr = addr_from4 a }))
    else if atyp == atyp_ipv6
    then (do a ← read_full 16; pure (record no_dst { addr = addr_from16 a }))
    else if atyp == atyp_domain
    then (do l ← read_full 1; name ← read_full (get_or l 0 0); pure (record no_dst { fqdn = name }))
    else fail bad_atyp

unfoldable pub read_addr : ℕ → Io Socksaddr
read_addr atyp = do d ← read_host atyp; pb ← read_full 2; pure (record d { port = u16_at pb 0 })

unfoldable pub write_socks_addr : Socksaddr → Bytes
write_socks_addr dst =
    (if is_fqdn dst
      then atyp_domain ∷ length dst.fqdn % 256 ∷ dst.fqdn
      else if is4 dst.addr
      then atyp_ipv4 ∷ as4 dst.addr
      else atyp_ipv6 ∷ as16 dst.addr)
    ++ be16 dst.port

unfoldable pub reply : ℕ → Bytes
reply rep = version ∷ rep ∷ 0x00 ∷ atyp_ipv4 ∷ 0 ∷ 0 ∷ 0 ∷ 0 ∷ 0 ∷ 0 ∷ []

reply_ip : Option Bytes → Bytes → Bytes
reply_ip (some ip4) ip = atyp_ipv4 ∷ ip4
reply_ip none ip = atyp_ipv6 ∷ to16 ip

unfoldable pub reply_addr : ℕ → Bytes → ℕ → Bytes
unfolding reply_ip
reply_addr rep ip port = (version ∷ rep ∷ 0x00 ∷ []) ++ (reply_ip (to4 ip) ip ++ be16 port)

-- `net.IPv4zero`
abbrev pub ipv4_zero : Bytes
ipv4_zero = 0 ∷ 0 ∷ 0 ∷ 0 ∷ 0 ∷ 0 ∷ 0 ∷ 0 ∷ 0 ∷ 0 ∷ 0xff ∷ 0xff ∷ 0 ∷ 0 ∷ 0 ∷ 0 ∷ []

-- `net.IP.IsUnspecified`, and the zero IPv6 address.
unfoldable pub is_unspecified : Bytes → Bool
is_unspecified ip =
    bytes_eq ip (0 ∷ 0 ∷ 0 ∷ 0 ∷ [])
    || (bytes_eq ip ipv4_zero
        || bytes_eq ip (0 ∷ 0 ∷ 0 ∷ 0 ∷ 0 ∷ 0 ∷ 0 ∷ 0 ∷ 0 ∷ 0 ∷ 0 ∷ 0 ∷ 0 ∷ 0 ∷ 0 ∷ 0 ∷ []))
