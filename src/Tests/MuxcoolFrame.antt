-- ===== src/Tests/MuxcoolFrame.antt =====
-- Frames written to a buffer and read back.
use ntr.Prelude.{ℕ, ◌≤◌, ◌<◌, ◌≡◌, refl, ◌⊎◌, inl, inr, arith, true, some, [], ◌∷◌, ◌++◌, length}
use ntr.Prelude.Bytes.{Bytes}
use ntr.Muxcool.Frame.{
  ok, err, data_too_long, Address, FrameMetadata, status_new, network_tcp, write_addr_port,
  read_addr_port, read_frame, stream_chunk_size,
}
use ntr.Muxcool.Frame.AddressRoundTrip.{canonical, read_addr_port-write_addr_port}
use ntr.Muxcool.Frame.HeaderRoundTrip.{IsSendable, received}
use ntr.Muxcool.Frame.Stream.{Writer, with_data_option, write_frame, write_data}
use ntr.Muxcool.Frame.Stream.Written.{write_frame_reads, write_frame_result}
use ntr.Muxcool.Frame.Stream.Chunks.{read_keeps, write_data_reads, write_data_total}

-- A `bytes.Buffer`, which has no errors.
abbrev buffer : Writer
buffer = record {
  State = Bytes;
  write = λ s b. (s ++ b, true);
  sent = λ s. s;
  write-sent = λ s b h. refl;
}

abbrev example_org : Address
example_org = record { is_domain = true; domain = b'a' ∷ b'.' ∷ b'b' ∷ []; ip = [] }

abbrev opening : FrameMetadata
opening = record {
  session_id = 513;
  status = status_new;
  option = 0;
  network = network_tcp;
  address = example_org;
  port = 443;
}

opening-IsSendable : IsSendable opening
opening-IsSendable = ground arith

abbrev greeting : Bytes
greeting = b'h' ∷ b'i' ∷ []

abbrev address_bytes : Bytes
address_bytes = 1 ∷ 187 ∷ 2 ∷ 3 ∷ b'a' ∷ b'.' ∷ b'b' ∷ []

write_example_org : write_addr_port (9 ∷ []) 443 example_org ≡ ok (9 ∷ address_bytes)
unfolding write_addr_port
write_example_org = refl

read_addr_port-write_addr_port_example :
    read_addr_port ((9 ∷ address_bytes) ++ greeting) 1 ≡ ok (canonical example_org, 443, 8)
read_addr_port-write_addr_port_example =
    read_addr_port-write_addr_port (9 ∷ []) 443 example_org greeting (9 ∷ address_bytes)
      (omega arith) (omega arith) write_example_org

write_frame_result_example :
    ((length greeting ≤ stream_chunk_size) × ((write_frame buffer [] opening greeting).1 ≡ ok tt))
    ⊎ ((stream_chunk_size < length greeting)
        × (write_frame buffer [] opening greeting ≡ ([], err data_too_long)))
write_frame_result_example =
    write_frame_result buffer [] opening greeting (λ t b. refl) opening-IsSendable

write_opening : (write_frame buffer [] opening greeting).1 ≡ ok tt
write_opening = elim write_frame_result_example [
  | inl (_, e) ↦ e
  | inr (l, _) ↦ absurd (omega arith)
]

write_frame_reads_example :
    (bytes : Bytes) × ((write_frame buffer [] opening greeting).0 ≡ bytes)
    × ((rest : Bytes)
        → read_frame (bytes ++ rest)
          ≡ ok (received (with_data_option opening greeting), greeting, rest))
write_frame_reads_example =
    write_frame_reads buffer [] opening greeting opening-IsSendable write_opening

write_data_total_example : (write_data buffer [] 7 greeting).1 ≡ ok tt
write_data_total_example = write_data_total buffer (λ t b. refl) [] 7 greeting (omega arith)

write_data_reads_example :
    (n : ℕ) × (bytes : Bytes) × ((write_data buffer [] 7 greeting).0 ≡ bytes)
    × ((rest : Bytes) → read_keeps n 7 (bytes ++ rest) ≡ some (greeting, rest))
write_data_reads_example =
    write_data_reads buffer [] 7 greeting (omega arith) write_data_total_example
