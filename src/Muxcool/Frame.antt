-- ===== src/Muxcool/Frame.antt =====
-- muxcool/frame.go: the frame layer. A byte slice is a list of numbers below 256; a pooled buffer is
-- a fresh one; an `io.Reader` is the bytes still to come; an `io.Writer` is the interface `Writer`.
pub mod AddressRoundTrip
pub mod HeaderRoundTrip
pub mod Stream
pub mod RoundTrip
use ntr.Prelude.{
  ℕ, zero, suc, ◌+◌, ◌-◌, ◌*◌, ◌/◌, ◌%◌, bit_and, bit_or, Bool, true, false, not, ◌&&◌, ◌||◌,
  Option, none, some, List, [], ◌∷◌, ◌++◌, ltb, leb, ◌==◌, if◌then◌else◌, length, get_or, set, take,
  drop,
}
use ntr.Prelude.Bytes.{Bytes, be16, u16_at, slice}

-- The errors of this file, those of `io` among them. `out_of_fuel` is no Go value: the loop of
-- `write_data` ran out of rounds.
pub data Error : Type 0 where
  eof unexpected_eof meta_too_long meta_too_short data_too_long domain_too_long : Error
  bad_address_type write_failed out_of_fuel : Error

pub data Result {ℓ} (A : Type ℓ) : Type ℓ where
  ok : A → Result A
  err : Error → Result A

infixl 5 ◌>>=◌
abbrev pub ◌>>=◌ {ℓ κ} : {A : Type ℓ} {B : Type κ} → Result A → (A → Result B) → Result B
ok a >>= f = f a
err e >>= f = err e

-- `SessionStatus`, `Option`, `TargetNetwork` and the address types: the bytes of the wire.
abbrev pub status_new : ℕ
status_new = 0x01

abbrev pub status_keep : ℕ
status_keep = 0x02

abbrev pub status_end : ℕ
status_end = 0x03

abbrev pub status_keep_alive : ℕ
status_keep_alive = 0x04

abbrev pub option_data : ℕ
option_data = 0x01

abbrev pub option_error : ℕ
option_error = 0x02

abbrev pub network_tcp : ℕ
network_tcp = 0x01

abbrev pub network_udp : ℕ
network_udp = 0x02

abbrev pub atyp_ipv4 : ℕ
atyp_ipv4 = 0x01

abbrev pub atyp_domain : ℕ
atyp_domain = 0x02

abbrev pub atyp_ipv6 : ℕ
atyp_ipv6 = 0x03

abbrev pub max_meta_len : ℕ
max_meta_len = 512

abbrev pub stream_chunk_size : ℕ
stream_chunk_size = 8192

abbrev pub has : ℕ → ℕ → Bool
has o f = not (bit_and o f == 0)

pub record Address : Type 0 where
  pub is_domain : Bool
  pub domain : Bytes
  pub ip : Bytes

abbrev pub no_address : Address
no_address = record { is_domain = false; domain = []; ip = [] }

pub record FrameMetadata : Type 0 where
  pub session_id : ℕ
  pub status : ℕ
  pub option : ℕ
  pub network : ℕ
  pub address : Address
  pub port : ℕ

-- `net.IP.To4`: four bytes, or sixteen with the prefix of an IPv4-mapped address.
pub is_mapped : Bytes → Bool
is_mapped (a ∷ b ∷ c ∷ d ∷ e ∷ f ∷ g ∷ h ∷ i ∷ j ∷ k ∷ l ∷ rest) =
    a == 0
    && b == 0
    && c == 0
    && d == 0
    && e == 0
    && f == 0
    && g == 0
    && h == 0
    && i == 0
    && j == 0
    && k == 0xff
    && l == 0xff
is_mapped _ = false

unfoldable pub to4 : Bytes → Option Bytes
to4 ip =
    if length ip == 4
    then some ip
    else if length ip == 16 && is_mapped ip
    then some (drop 12 ip)
    else none

-- `net.IP.To16`; nil, which appends nothing, for any other length.
pub to16 : Bytes → Bytes
to16 ip =
    if length ip == 4
    then 0 ∷ 0 ∷ 0 ∷ 0 ∷ 0 ∷ 0 ∷ 0 ∷ 0 ∷ 0 ∷ 0 ∷ 0xff ∷ 0xff ∷ ip
    else if length ip == 16
    then ip
    else []

append_ip : Bytes → Option Bytes → Bytes → Bytes
append_ip b (some v4) ip = (b ++ (atyp_ipv4 ∷ [])) ++ v4
append_ip b none ip = (b ++ (atyp_ipv6 ∷ [])) ++ to16 ip

unfoldable pub write_addr_port : Bytes → ℕ → Address → Result Bytes
unfolding append_ip
write_addr_port b port addr =
    let b' = b ++ be16 port in
    if addr.is_domain
    then if ltb 255 (length addr.domain)
      then err domain_too_long
      else ok ((b' ++ (atyp_domain ∷ length addr.domain % 256 ∷ [])) ++ addr.domain)
    else ok (append_ip b' (to4 addr.ip) addr.ip)

abbrev ip_address : Bytes → Address
ip_address ip = record { is_domain = false; domain = []; ip = ip }

-- The branch of `atypDomain`, at the offset of the length byte.
read_domain : Bytes → ℕ → ℕ → Result (Address × ℕ × ℕ)
read_domain buf off port =
    if ltb (length buf) (off + 1)
    then err unexpected_eof
    else let dlen = get_or buf off 0 in
      let off' = off + 1 in
      if ltb (length buf) (off' + dlen)
      then err unexpected_eof
      else ok (
        record { is_domain = true; domain = slice buf off' (off' + dlen); ip = [] },
        port,
        off' + dlen,
      )

pub read_addr_port : Bytes → ℕ → Result (Address × ℕ × ℕ)
unfolding read_domain
read_addr_port buf off =
    if ltb (length buf) (off + 3)
    then err unexpected_eof
    else let port = u16_at buf off in
      let atyp = get_or buf (off + 2) 0 in
      let off' = off + 3 in
      if atyp == atyp_ipv4
      then if ltb (length buf) (off' + 4)
        then err unexpected_eof
        else ok (ip_address (slice buf off' (off' + 4)), port, off' + 4)
      else if atyp == atyp_ipv6
      then if ltb (length buf) (off' + 16)
        then err unexpected_eof
        else ok (ip_address (slice buf off' (off' + 16)), port, off' + 16)
      else if atyp == atyp_domain
      then read_domain buf off' port
      else err bad_address_type

-- Whether the encoder writes a target address.
abbrev pub writes_address : FrameMetadata → Bool
writes_address m = m.status == status_new || (m.status == status_keep && m.network == network_udp)

-- `binary.BigEndian.PutUint16(dst[0:2], n)`
abbrev put_front : Bytes → ℕ → Bytes
put_front dst n = set (set dst 0 (n / 256 % 256)) 1 (n % 256)

-- From the length check of `encodeHeader` on.
seal_header : Bytes → FrameMetadata → ℕ → Result Bytes
seal_header dst m data_len =
    let meta_len = length dst - 2 in
    if ltb max_meta_len meta_len
    then err meta_too_long
    else let dst' = put_front dst meta_len in
      ok (if has m.option option_data then dst' ++ be16 data_len else dst')

pub encode_header : Bytes → FrameMetadata → ℕ → Result Bytes
unfolding seal_header
encode_header dst m data_len =
    let dst1 = ((dst ++ (0 ∷ 0 ∷ [])) ++ be16 m.session_id) ++ (m.status ∷ m.option ∷ []) in
    if writes_address m
    then (write_addr_port (dst1 ++ (m.network ∷ [])) m.port m.address >>= λ dst2.
        seal_header dst2 m data_len)
    else seal_header dst1 m data_len

pub unmarshal_meta : Bytes → Result FrameMetadata
unmarshal_meta buf =
    if ltb (length buf) 4
    then err meta_too_short
    else let m : FrameMetadata = record {
      session_id = u16_at buf 0;
      status = get_or buf 2 0;
      option = get_or buf 3 0;
      network = 0;
      address = no_address;
      port = 0;
    } in
      let has_addr =
        m.status == status_new
        || (m.status == status_keep && (ltb 4 (length buf) && get_or buf 4 0 == network_udp)) in
      if has_addr
      then if leb (length buf) 4 then err unexpected_eof else (do
        (addr, port, off) ← read_addr_port buf 5
        ok (record m { network = get_or buf 4 0; address = addr; port = port }))
      else ok m

-- `io.ReadFull` on a buffer of `n` bytes.
pub read_full : ℕ → Bytes → Result (Bytes × Bytes)
read_full zero r = ok ([], r)
read_full (suc n) [] = err eof
read_full (suc n) (x ∷ r) =
    if ltb (length r) n then err unexpected_eof else ok (x ∷ take n r, drop n r)

-- The data segment of `ReadFrame`, behind its length.
read_payload : FrameMetadata → ℕ → Bytes → Result (FrameMetadata × Bytes × Bytes)
read_payload m data_len r =
    if ltb stream_chunk_size data_len
    then err data_too_long
    else if ltb 0 data_len
    then (do (payload, r') ← read_full data_len r; ok (m, payload, r'))
    else ok (m, [], r)

read_data : FrameMetadata → Bytes → Result (FrameMetadata × Bytes × Bytes)
unfolding read_payload
read_data m r = do (lb, r') ← read_full 2 r; read_payload m (u16_at lb 0) r'

-- The metadata body of `ReadFrame`, behind its length.
read_meta : ℕ → Bytes → Result (FrameMetadata × Bytes × Bytes)
unfolding read_data
read_meta meta_len r =
    if ltb max_meta_len meta_len
    then err meta_too_long
    else if ltb meta_len 4
    then err meta_too_short
    else (do
      (meta_buf, r') ← read_full meta_len r
      m ← unmarshal_meta meta_buf
      (if has m.option option_data then read_data m r' else ok (m, [], r')))

-- The metadata, the data and the bytes that the reader still has.
pub read_frame : Bytes → Result (FrameMetadata × Bytes × Bytes)
unfolding read_meta
read_frame r = do (lb, r') ← read_full 2 r; read_meta (u16_at lb 0) r'
