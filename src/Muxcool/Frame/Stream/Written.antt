-- ===== src/Muxcool/Frame/Stream/Written.antt =====
-- muxcool/frame.go: what `WriteFrame` puts on a writer, and what a reader gets back.
use ntr.Prelude.{
  ◌≤◌, ◌<◌, ◌≡◌, refl, ◌⊎◌, inl, inr, arith, Bool, true, false, [], ◌∷◌, ◌++◌, append_assoc,
  append-nil, length,
}
use ntr.Prelude.Bytes.{Bytes, bit_and-bit_or_one, bit_or_one-IsByte}
use ntr.Muxcool.Frame.{
  ok, err, data_too_long, FrameMetadata, has, option_data, read_frame, stream_chunk_size,
}
use ntr.Muxcool.Frame.HeaderRoundTrip.{IsSendable, received, encode_header-wire, header_wire}
use ntr.Muxcool.Frame.RoundTrip.{frame_wire, read_frame-frame_wire}
use ntr.Muxcool.Frame.Stream.{Writer, with_data_option, write_payload, write_frame}

with_data_option-IsSendable :
    (m : FrameMetadata) (payload : Bytes) → IsSendable m → IsSendable (with_data_option m payload)
unfolding with_data_option
with_data_option-IsSendable m payload v = ground (arith, bit_or_one-IsByte m.option)

with_data_option-has :
    (m : FrameMetadata) (payload : Bytes)
    → IsSendable m
    → (has (with_data_option m payload).option option_data ≡ true) ⊎ (payload ≡ [])
unfolding with_data_option
with_data_option-has m [] v = inr refl
with_data_option-has m (x ∷ xs) v = inl (ground (arith, bit_and-bit_or_one m.option v.option_width))

module _ (w : Writer) where
  open w use {State, write, sent}

  write_payload-sent :
      (m : FrameMetadata) (payload : Bytes) (r : State × Bool)
      → (has m.option option_data ≡ true) ⊎ (payload ≡ [])
      → (write_payload w m payload r).1 ≡ ok tt
      → (r.1 ≡ true) × (sent (write_payload w m payload r).0 ≡ sent r.0 ++ payload)
  unfolding write_payload
  write_payload-sent m payload (s, false) d e = cc
  write_payload-sent m [] (s, true) d e = (refl, ground (arith, append-nil (sent s)))
  write_payload-sent m (x ∷ xs) (s, true) d e = (refl, ground (arith, w.write-sent s (x ∷ xs)))

  -- A frame that was written without an error stands whole behind what was there, and a reader gets
  -- it back: the metadata as `received` shows it, with the data bit set if there is data.
  pub write_frame_reads :
      (s : State) (m : FrameMetadata) (payload : Bytes)
      → IsSendable m
      → (write_frame w s m payload).1 ≡ ok tt
      → (bytes : Bytes) × (sent (write_frame w s m payload).0 ≡ sent s ++ bytes)
        × ((rest : Bytes)
            → read_frame (bytes ++ rest)
              ≡ ok (received (with_data_option m payload), payload, rest))
  unfolding write_frame
  write_frame_reads s m payload v e =
      let m' = with_data_option m payload in
      let v' : IsSendable m' = with_data_option-IsSendable m payload v in
      let d = with_data_option-has m payload v in
      let hdr = header_wire m' (length payload) in
      (
        frame_wire m' payload,
        ground (
          arith,
          encode_header-wire m' (length payload) v',
          write_payload-sent m' payload (write s hdr) d,
          w.write-sent s hdr,
          append_assoc (sent s) hdr payload,
        ),
        λ rest. read_frame-frame_wire m' payload rest v' (ground arith) d,
      )

  -- On a writer without errors a frame is refused exactly if its data is longer than a chunk, and
  -- then nothing is written.
  pub write_frame_result :
      (s : State) (m : FrameMetadata) (payload : Bytes)
      → ((t : State) (b : Bytes) → (write t b).1 ≡ true)
      → IsSendable m
      → ((length payload ≤ stream_chunk_size) × ((write_frame w s m payload).1 ≡ ok tt))
        ⊎ ((stream_chunk_size < length payload)
            × (write_frame w s m payload ≡ (s, err data_too_long)))
  unfolding write_frame write_payload
  write_frame_result s m payload reliable v =
      let m' = with_data_option m payload in
      let hdr = header_wire m' (length payload) in
      ground (
        arith,
        encode_header-wire m' (length payload) (with_data_option-IsSendable m payload v),
        reliable s hdr,
        reliable (write s hdr).0 payload,
      )
