-- ===== src/Proto/Vless/Codec.antt =====
-- proto/vless/codec.go: `RequestCodec` and the header of the response.
use ntr.Prelude.{ℕ, ◌+◌, ◌%◌, Bool, not, ◌||◌, [], ltb, ◌==◌, if◌then◌else◌, length, get_or}
use ntr.Prelude.Bytes.{Bytes, be16, u16_at, slice}
use ntr.Addr.{no_addr, Socksaddr, is4, is_fqdn, from_ip_port, from_fqdn}
use ntr.Buf
use ntr.Buf.{Buffer}
use ntr.Proto.Stream.{Error, Result, ok, err, short_buffer, short_header, bad_version, bad_atyp}
use ntr.Proto.Wire.{as4, as16, addr_from4, addr_from16}

abbrev pub version : ℕ
version = 0x00

abbrev pub cmd_tcp : ℕ
cmd_tcp = 0x01

abbrev pub cmd_udp : ℕ
cmd_udp = 0x02

abbrev pub cmd_mux : ℕ
cmd_mux = 0x03

abbrev pub atyp_ipv4 : ℕ
atyp_ipv4 = 0x01

abbrev pub atyp_domain : ℕ
atyp_domain = 0x02

abbrev pub atyp_ipv6 : ℕ
atyp_ipv6 = 0x03

abbrev pub no_dst : Socksaddr
no_dst = record { addr = no_addr; fqdn = []; port = 0 }

pub record RequestHeader : Type 0 where
  pub uuid : Bytes
  pub addons : Bytes
  pub command : ℕ
  pub dst : Socksaddr

-- A write to a buffer that ends the encoder where it is short.
abbrev pub and_write : Result Buffer → Bytes → Result Buffer
and_write (err e) p = err e
and_write (ok b) p = let (b', all) = Buf.write b p in if all then ok b' else err short_buffer

abbrev pub and_write_byte : Result Buffer → ℕ → Result Buffer
and_write_byte (err e) c = err e
and_write_byte (ok b) c =
    let (b', done) = Buf.write_byte b c in if done then ok b' else err short_buffer

unfoldable pub write_addr_port : Result Buffer → Socksaddr → Result Buffer
write_addr_port b d =
    let b' = and_write b (be16 d.port) in
    if is_fqdn d
    then and_write (and_write_byte (and_write_byte b' atyp_domain) (length d.fqdn % 256)) d.fqdn
    else if is4 d.addr
    then and_write (and_write_byte b' atyp_ipv4) (as4 d.addr)
    else and_write (and_write_byte b' atyp_ipv6) (as16 d.addr)

abbrev pub has_address : ℕ → Bool
has_address command = command == cmd_tcp || command == cmd_udp

-- `RequestCodec.Encode`
unfoldable pub encode : Buffer → RequestHeader → Result Buffer
encode dst h =
    let b =
      and_write_byte (and_write (and_write_byte (ok dst) version) h.uuid) (length h.addons % 256) in
    let b' = if ltb 0 (length h.addons) then and_write b h.addons else b in
    let b'' = and_write_byte b' h.command in
    if has_address h.command then write_addr_port b'' h.dst else b''

unfoldable pub encode_response_header : Buffer → Result Buffer
encode_response_header dst = and_write_byte (and_write_byte (ok dst) version) 0

-- `reader`: the bytes and the place in them.
pub record Reader : Type 0 where
  pub b : Bytes
  pub i : ℕ

abbrev Read : Type 0 → Type 0
Read A = Reader → Result (A × Reader)

infixl 5 ◌>>=◌
abbrev ◌>>=◌ : {A B : Type 0} → Read A → (A → Read B) → Read B
◌>>=◌ m f r = elim (m r) [ ok (a, r') ↦ f a r' | err e ↦ err e ]

abbrev pure : {A : Type 0} → A → Read A
pure a r = ok (a, r)

abbrev fail : {A : Type 0} → Error → Read A
fail e r = err e

unfoldable pub u8 : Read ℕ
u8 r =
    if ltb (length r.b) (r.i + 1)
    then err short_header
    else ok (get_or r.b r.i 0, record r { i = r.i + 1 })

unfoldable pub u16 : Read ℕ
u16 r =
    if ltb (length r.b) (r.i + 2)
    then err short_header
    else ok (u16_at r.b r.i, record r { i = r.i + 2 })

-- `read` into a slice of `n` bytes.
unfoldable pub read : ℕ → Read Bytes
read n r =
    if ltb (length r.b) (r.i + n)
    then err short_header
    else ok (slice r.b r.i (r.i + n), record r { i = r.i + n })

unfoldable pub read_addr : ℕ → ℕ → Read Socksaddr
read_addr port atyp =
    if atyp == atyp_ipv4
    then (do a ← read 4; pure (from_ip_port (addr_from4 a) port))
    else if atyp == atyp_domain
    then (do l ← u8; name ← read l; pure (from_fqdn name port))
    else if atyp == atyp_ipv6
    then (do a ← read 16; pure (from_ip_port (addr_from16 a) port))
    else fail bad_atyp

unfoldable pub read_addr_port : Read Socksaddr
unfolding read_addr
read_addr_port = do port ← u16; atyp ← u8; read_addr port atyp

abbrev read_addons : ℕ → Read Bytes
read_addons alen = if ltb 0 alen then read alen else pure []

unfoldable pub read_header : Read RequestHeader
read_header = do
  v ← u8
  (if not (v == version) then fail bad_version else (do
    uuid ← read 16
    alen ← u8
    addons ← read_addons alen
    command ← u8
    dst ← (if has_address command then read_addr_port else pure no_dst)
    pure (record { uuid = uuid; addons = addons; command = command; dst = dst })))

-- `RequestCodec.Decode`: the header, and the buffer behind it.
unfoldable pub decode : Buffer → Result (RequestHeader × Buffer)
decode src = elim (read_header (record { b = src.bytes; i = 0 })) [
  | ok (h, r) ↦ ok (h, Buf.advance src r.i)
  | err e ↦ err e
]
