-- ===== src/Proto/Vless/Payload.antt =====
-- proto/vless: the header of the response between the two payload streams (vless.go), and the frames of
-- UDP packets (udp.go).
use ntr.Prelude.{ℕ, ◌≤◌, ◌<◌, ◌≡◌, refl, ap, arith, true, false, [], ◌∷◌, ◌++◌, ltb, length, some}
use ntr.Prelude.Bytes.{Bytes, be16, be16_read}
use ntr.Buf
use ntr.Buf.{Buffer, new_buffer, default_size, default_headroom}
use ntr.Proto.Stream.{Stream, ok, err, short_buffer, at, and_then-ok, read_full_over, write-ok}
use ntr.Proto.Vless.Codec.{version, encode_response_header}
use ntr.Proto.Vless.Streaming.{
  write_encoded, write_first, server_stream_write, skip_addons, strip_response, read_packet,
  write_packet, write_framed,
}
use ntr.Proto.Vless.Handshake.Encode.{filled, and_write-filled, take-length}

-- The bytes that a first write may have, since it shares a buffer with the response's header.
abbrev pub first_write_room : ℕ
first_write_room = 32254

response_header : encode_response_header new_buffer ≡ ok (filled new_buffer (version ∷ 0 ∷ []))
unfolding encode_response_header new_buffer Buf.write_byte
response_header = refl

-- The first write of at most 32254 bytes is sent behind a header of the response.
pub server_stream_write_first :
    (p i o : Bytes)
    → length p ≤ first_write_room
    → server_stream_write false p (at i o) ≡ ((ok tt, at i (o ++ (version ∷ 0 ∷ p))), true)
unfolding server_stream_write write_first write_encoded new_buffer
server_stream_write_first p i o h =
    rw (response_header, and_write-filled new_buffer (version ∷ 0 ∷ []) refl p (omega arith))
      (ap (λ x. (x, true)) (write-ok (version ∷ 0 ∷ p) i o))

-- A first write of more bytes is refused and sends nothing, and yet the stream takes the header of
-- the response for written.
pub server_stream_write_too_long :
    (p : Bytes) (s : Stream)
    → first_write_room < length p
    → server_stream_write false p s ≡ ((err short_buffer, s), true)
unfolding server_stream_write write_first write_encoded new_buffer Buf.write
server_stream_write_too_long p s h = rw response_header (ground arith)

-- What the client strips off is what the server's first write has put in front of its bytes.
pub strip_response-server_stream_write :
    (p rest o : Bytes)
    → length p ≤ first_write_room
    → strip_response (at ((server_stream_write false p (at [] [])).0.1.output ++ rest) o)
      ≡ (ok tt, at (p ++ rest) o)
unfolding strip_response skip_addons
strip_response-server_stream_write p rest o h =
    rw (server_stream_write_first p [] [] h)
      (and_then-ok _ (read_full_over 2 (version ∷ 0 ∷ []) (p ++ rest) _ o refl refl) refl)

-- A packet of at most 65535 bytes, in a buffer with two bytes of room in front of it, is written as
-- one frame.
write_packet_lem :
    (b : Buffer) (i o : Bytes)
    → length b.bytes ≤ 0xffff
    → 2 ≤ b.headroom
    → write_packet b (at i o) ≡ (ok (some tt), at i (o ++ (be16 (length b.bytes) ++ b.bytes)))
unfolding write_packet Buf.prepend write_framed
write_packet_lem b i o short room = ground (arith, write-ok (be16 (length b.bytes) ++ b.bytes) i o)

-- A packet of at most 65535 bytes that one side has written from a buffer with two bytes of room in
-- front of it is read by the other side into a buffer with room for it, and what follows is left.
pub read_packet-write_packet :
    (b b' : Buffer) (t o : Bytes)
    → length b.bytes ≤ 0xffff
    → 2 ≤ b.headroom
    → length b.bytes ≤ b'.tailroom
    → read_packet b' (at ((write_packet b (at [] [])).1.output ++ t) o)
      ≡ (ok (filled b' b.bytes), at t o)
unfolding read_packet Buf.write
read_packet-write_packet b b' t o short room fits =
    let n = length b.bytes in
    rw (write_packet_lem b [] [] short room) (
      and_then-ok _ (read_full_over 2 (be16 n) (b.bytes ++ t) _ o refl refl) (
        rw (be16_read n (omega arith), has_room)
          (and_then-ok _ (read_full_over n b.bytes t _ o refl refl)
            (ground (arith, take-length b.bytes)))))
  where
    has_room : ltb b'.tailroom (length b.bytes) ≡ false
    has_room = ground arith
