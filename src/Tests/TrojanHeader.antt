-- ===== src/Tests/TrojanHeader.antt =====
-- The header and the packets of Trojan at concrete inputs.
use ntr.Prelude.{ℕ, ◌≡◌, refl, arith, false, Option, some, [], ◌∷◌, ◌++◌, replicate}
use ntr.Prelude.Bytes.{Bytes}
use ntr.Addr.{no_addr, Socksaddr}
use ntr.Proto.Stream.{ok, at}
use ntr.Proto.Wire.{IsSendable, received}
use ntr.Proto.Trojan

abbrev site : Socksaddr
site = record { addr = no_addr; fqdn = b'a' ∷ b'.' ∷ b'b' ∷ []; port = 443 }

site-IsSendable : IsSendable site
site-IsSendable = record { port_fits = omega arith; name_fits = omega arith; addr_fits = tt }

abbrev hash : Bytes → Bytes
hash password = replicate 56 b'0'

abbrev anyone : Bytes → Option ℕ
anyone key = some 7

server_handshake-client_header_example :
    Trojan.server_handshake anyone
      (at (Trojan.client_header hash Trojan.cmd_connect (b'p' ∷ []) site ++ (1 ∷ 2 ∷ [])) [])
    ≡ (
      ok (record { dst = received site; cred = 7; is_udp = false; command = 1 }),
      at (1 ∷ 2 ∷ []) [],
    )
server_handshake-client_header_example =
    Trojan.Handshake.server_handshake-client_header anyone 7 hash (b'p' ∷ []) Trojan.cmd_connect
      site (1 ∷ 2 ∷ []) [] refl refl site-IsSendable

read_packet-packet_wire_example :
    Trojan.read_packet
      (record { headroom = 512; bytes = []; tailroom = 100 })
      (at (Trojan.Packets.packet_wire site (9 ∷ 8 ∷ []) ++ (5 ∷ [])) [])
    ≡ (
      ok (received site, record { headroom = 512; bytes = 9 ∷ 8 ∷ []; tailroom = 98 }),
      at (5 ∷ []) [],
    )
read_packet-packet_wire_example =
    Trojan.Packets.read_packet-packet_wire (record { headroom = 512; bytes = []; tailroom = 100 })
      site (9 ∷ 8 ∷ []) (5 ∷ []) [] site-IsSendable (omega arith) (omega arith)
