-- ===== src/Tests/SocksSession.antt =====
-- The handshakes and packets of SOCKS at concrete inputs.
use ntr.Prelude.{
  ℕ, ◌≡◌, refl, arith, true, false, Option, none, some, List, [], ◌∷◌, ◌++◌, if◌then◌else◌,
}
use ntr.Prelude.Bytes.{Bytes}
use ntr.Prelude.Strings.{bytes_eq}
use ntr.Addr.{v4, no_addr, Socksaddr, AddrPort, from_ip_port}
use ntr.Proto.Stream.{Stream, ok, at, read_full, write}
use ntr.Proto.Wire.{IsSendable, addr_from4}
use ntr.Proto.Socks.Address
use ntr.Proto.Socks.Address.{Request}
use ntr.Proto.Socks.Socks4
use ntr.Proto.Socks.Socks4.{refuse}
use ntr.Proto.Socks.Server
use ntr.Proto.Socks.Server.{Local}
use ntr.Proto.Socks.Client
use ntr.Proto.Socks.Agree
use ntr.Proto.Socks.Gate
use ntr.Proto.Socks.Gate5
use ntr.Proto.Socks.Udp
use ntr.Proto.Socks.Udp.{Datagram}
use ntr.Proto.Socks.Packets

abbrev site : Socksaddr
site = record { addr = no_addr; fqdn = b'a' ∷ b'.' ∷ b'b' ∷ []; port = 443 }

site-IsSendable : IsSendable site
site-IsSendable = record { port_fits = omega arith; name_fits = omega arith; addr_fits = tt }

-- The one user, `u:p`.
abbrev credential : Bytes
credential = b'u' ∷ b':' ∷ b'p' ∷ []

abbrev users : Bytes → Option ℕ
users key = if bytes_eq key credential then some 7 else none

abbrev here : Local
here = record { bind_ip = []; listen = none }

-- A SOCKS4 client with the name `u` and no password gets its connection.
server_handshake-request4_example :
    Server.server_handshake 1 users here true
      (at (Gate.request4 80 (10 ∷ 0 ∷ 0 ∷ 1 ∷ []) (b'u' ∷ []) (9 ∷ [])) [])
    ≡ (
      ok (record {
        cred = 1;
        is_udp = false;
        command = 1;
        dst = from_ip_port (addr_from4 (10 ∷ 0 ∷ 0 ∷ 1 ∷ [])) 80;
      }),
      at (9 ∷ []) ([] ++ Socks4.reply4 Socks4.rep4_granted 80 (addr_from4 (10 ∷ 0 ∷ 0 ∷ 1 ∷ []))),
    )
unfolding Socks4.is_socks4a_marker bytes_eq
server_handshake-request4_example =
    Gate.server_handshake-request4 1 users here 80 (10 ∷ 0 ∷ 0 ∷ 1 ∷ []) (b'u' ∷ []) (9 ∷ []) []
      (omega arith) refl refl (omega arith) (omega arith, tt)

client_handshake-server_handshake_example :
    (Client.client_handshake credential site (at (Agree.server_sends ++ (4 ∷ [])) [])
      ≡ (ok tt, at (4 ∷ []) (Agree.client_sends credential site)))
    × (Server.server_handshake 1 users here true
          (at (Agree.client_sends credential site ++ (9 ∷ [])) [])
        ≡ (ok (Agree.connect_to 1 users here 7 site), at (9 ∷ []) Agree.server_sends))
unfolding Client.user_of_key Client.pass_of_key bytes_eq
client_handshake-server_handshake_example =
    Agree.client_handshake-server_handshake 1 users here 7 credential site (9 ∷ []) (4 ∷ [])
      (omega arith) (omega arith) (omega arith) refl site-IsSendable

abbrev session : Stream
session = at (1 ∷ 2 ∷ 1 ∷ 1 ∷ b'u' ∷ 1 ∷ b'p' ∷ 5 ∷ 1 ∷ 0 ∷ 3 ∷ 1 ∷ b'x' ∷ 0 ∷ 80 ∷ []) []

abbrev asked : Request ℕ
asked = record {
  cred = 7;
  is_udp = false;
  command = 1;
  dst = record { addr = no_addr; fqdn = b'x' ∷ []; port = 80 };
}

session_granted :
    Server.server_handshake5 1 users here true session
    ≡ (ok asked, at [] (5 ∷ 2 ∷ 1 ∷ 0 ∷ Address.reply 0))
unfolding Server.server_handshake5 Server.negotiate Server.contains Server.server_user_pass
    Server.user_of Server.read_request5 Server.serve Address.read_addr Address.read_host
    Address.reply read_full write bytes_eq
session_granted = refl

server_handshake5-Shown_example :
    (methods sent : Bytes) × (ref : ℕ) × (session.input ≡ Gate5.method_list methods sent)
    × Gate5.Shown 1 users sent ref
    × (asked.is_udp ≡ false → asked.cred ≡ ref)
server_handshake5-Shown_example =
    Gate5.server_handshake5-Shown 1 users here asked session _ session_granted

abbrev client : AddrPort
client = record { ip = v4 1; port = 2000 }

abbrev stranger : AddrPort
stranger = record { ip = v4 2; port = 2000 }

abbrev packets : List Datagram
packets =
    record { src = stranger; bytes = [] }
    ∷ record { src = client; bytes = 0 ∷ 0 ∷ 0 ∷ 1 ∷ 8 ∷ 8 ∷ 8 ∷ 8 ∷ 0 ∷ 53 ∷ 5 ∷ [] }
    ∷ []

read_packet-from_source_example :
    ((Udp.read_packet (some client) packets).packet
      ≡ (Udp.read_packet (some client) (Packets.from_source client packets)).packet)
    × ((Udp.read_packet (some client) packets).client ≡ some client)
read_packet-from_source_example =
    Packets.read_packet-from_source client packets (omega arith) (omega arith, (omega arith, tt))
