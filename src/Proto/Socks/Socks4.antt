-- ===== src/Proto/Socks/Socks4.antt =====
-- proto/socks/socks4.go: the handshake of SOCKS4 and SOCKS4a. The buffered reader reads ahead and gives
-- the rest to the layer above, so the model reads from the stream itself.
use ntr.Prelude.{
  ℕ, zero, suc, Bool, true, false, not, ◌&&◌, Option, none, some, [], ◌∷◌, ◌++◌, ◌==◌,
  if◌then◌else◌, get_or,
}
use ntr.Prelude.Bytes.{Bytes, be16, u16_at, slice}
use ntr.Prelude.Strings.{bytes_eq}
use ntr.Addr.{Addr, Socksaddr, from_ip_port, from_fqdn}
use ntr.Proto.Stream.{Io, pure, fail, ◌>>=◌, ◌>>◌, read_full, write, socks4_command, socks4_field}
use ntr.Proto.Wire.{as4, addr_from4}
use ntr.Proto.Socks.Address.{Request}

abbrev pub version4 : ℕ
version4 = 0x04

abbrev pub cmd4_connect : ℕ
cmd4_connect = 0x01

abbrev pub rep4_granted : ℕ
rep4_granted = 0x5a

abbrev pub rep4_rejected : ℕ
rep4_rejected = 0x5b

abbrev pub max_socks4_field : ℕ
max_socks4_field = 256

unfoldable pub is_socks4a_marker : Bytes → Bool
is_socks4a_marker ip =
    get_or ip 0 0 == 0 && (get_or ip 1 0 == 0 && (get_or ip 2 0 == 0 && not (get_or ip 3 0 == 0)))

-- The loop of `readCString`, with the rounds that are left and the bytes that it has.
unfoldable pub read_field : ℕ → Bytes → Io Bytes
read_field zero out = fail socks4_field
read_field (suc rounds) out = do
  b ← read_full 1
  (elim (get_or b 0 0 == 0) [
    | true ↦ pure out
    | false ↦ read_field rounds (out ++ (get_or b 0 0 ∷ []))
  ])

unfoldable pub read_cstring : Io Bytes
read_cstring = read_field max_socks4_field []

unfoldable pub reply4 : ℕ → ℕ → Addr → Bytes
reply4 rep port ip = (0x00 ∷ rep ∷ []) ++ (be16 port ++ as4 ip)

-- A refusal, whether or not its answer could be written.
unfoldable pub refuse : {A : Type 0} → Bytes → Io A → Io A
refuse answer fails s = fails (write answer s).1

unfoldable pub read_target4 : Bytes → ℕ → Addr → Io Socksaddr
read_target4 dst_ip port ip =
    if is_socks4a_marker dst_ip
    then (do
      host ← read_cstring
      (if bytes_eq host []
          then refuse (reply4 rep4_rejected port ip) (fail socks4_field)
          else pure (from_fqdn host port)))
    else pure (from_ip_port ip port)

-- `serverHandshake4`, behind the version byte: it knows of no gate for users.
module _ {Ref : Type 0} (ambient : Ref) (auth : Bytes → Option Ref) where
  unfoldable pub ref_or : Option Ref → Ref
  ref_or none = ambient
  ref_or (some r) = r

  unfoldable pub grant4 : ℕ → ℕ → Addr → Socksaddr → Io (Request Ref)
  grant4 cmd port ip dst =
      if not (cmd == cmd4_connect)
      then refuse (reply4 rep4_rejected port ip) (fail socks4_command)
      else (do
        write (reply4 rep4_granted port ip)
        pure (record { cred = ref_or (auth []); is_udp = false; command = cmd; dst = dst }))

  unfoldable pub server_handshake4 : Io (Request Ref)
  server_handshake4 = do
    h ← read_full 7
    userid ← read_cstring
    dst ← read_target4 (slice h 3 7) (u16_at h 1) (addr_from4 (slice h 3 7))
    grant4 (get_or h 0 0) (u16_at h 1) (addr_from4 (slice h 3 7)) dst
