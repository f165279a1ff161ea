-- ===== src/Tests/VlessHeader.antt =====
-- The header and the payload streams of VLESS at concrete inputs.
use ntr.Prelude.{
  ℕ, ◌≡◌, refl, arith, true, false, Option, some, [], ◌∷◌, ◌++◌, replicate, length,
  length-replicate,
}
use ntr.Prelude.Bytes.{Bytes}
use ntr.Addr.{no_addr, Socksaddr}
use ntr.Proto.Stream.{ok, err, short_buffer, at}
use ntr.Proto.Wire.{IsSendable, received}
use ntr.Proto.Vless.Streaming
use ntr.Proto.Vless.Handshake.Agree
use ntr.Proto.Vless.Payload

abbrev site : Socksaddr
site = record { addr = no_addr; fqdn = b'a' ∷ b'.' ∷ b'b' ∷ []; port = 443 }

site-IsSendable : IsSendable site
site-IsSendable = record { port_fits = omega arith; name_fits = omega arith; addr_fits = tt }

abbrev anyone : Bytes → Option ℕ
anyone key = some 7

abbrev uuid : Bytes
uuid = replicate 16 3

server_handshake-client_handshake_example :
    Streaming.server_handshake
      (λ a. false)
      anyone
      (at ((Streaming.client_handshake uuid site (at [] [])).1.output ++ (1 ∷ [])) [])
    ≡ (
      ok (record {
        dst = received site;
        cred = 7;
        is_udp = false;
        command = Streaming.command_for site;
        vision = false;
      }),
      at (1 ∷ []) [],
    )
server_handshake-client_handshake_example =
    Agree.server_handshake-client_handshake (λ a. false) anyone 7 uuid site (1 ∷ []) [] refl refl
      refl site-IsSendable

long_chunk : Bytes
long_chunk = replicate 32768 1

length-long_chunk : length long_chunk ≡ 32768
unfolding long_chunk
length-long_chunk = let one : ℕ = 1 in length-replicate 32768 one

server_stream_write_too_long_example :
    Streaming.server_stream_write false long_chunk (at [] []) ≡ ((err short_buffer, at [] []), true)
server_stream_write_too_long_example =
    Payload.server_stream_write_too_long long_chunk (at [] []) (omega (arith, length-long_chunk))
