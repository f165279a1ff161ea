-- ===== src/Muxcool/Frame/HeaderRoundTrip.antt =====
-- muxcool/frame.go: `encodeHeader` against `unmarshalMeta`, the body of a frame's metadata.
use ntr.Prelude.{
  ℕ, suc, ◌+◌, ◌/◌, ◌%◌, ◌≤◌, ◌≡◌, inl, inr, arith, true, [], ◌∷◌, ◌++◌, append-nil, length,
  if◌then◌else◌, Bool-cases,
}
use ntr.Prelude.Bytes.{Bytes, IsByte, IsU16, be16, be16_read}
use ntr.Muxcool.Frame.{
  ok, FrameMetadata, no_address, read_addr_port, writes_address, encode_header, unmarshal_meta, has,
  option_data, seal_header,
}
use ntr.Muxcool.Frame.AddressRoundTrip.{
  IsEncodable, canonical, address_wire, write_addr_port-address_wire, read-address_wire,
  length-address_wire,
}

-- Metadata that a sender may hold: fields within their widths, and an address that can stand in a
-- frame wherever one is written.
pub record IsSendable (m : FrameMetadata) : Type 0 where
  pub session_width : IsU16 m.session_id
  pub option_width : IsByte m.option
  pub port_width : IsU16 m.port
  pub address_fits : writes_address m ≡ true → IsEncodable m.address

-- What the receiver sees of `m`: no address where none is written.
pub received : FrameMetadata → FrameMetadata
received m =
    if writes_address m
    then record m { address = canonical m.address }
    else record m { network = 0; address = no_address; port = 0 }

pub received-option : (m : FrameMetadata) → (received m).option ≡ m.option
unfolding received
received-option m = ground arith

pub received-session_id : (m : FrameMetadata) → (received m).session_id ≡ m.session_id
unfolding received
received-session_id m = ground arith

pub received-status : (m : FrameMetadata) → (received m).status ≡ m.status
unfolding received
received-status m = ground arith

-- The metadata body on the wire.
pub meta_wire : FrameMetadata → Bytes
meta_wire m =
    be16 m.session_id
    ++ (m.status
        ∷ m.option
        ∷ (if writes_address m then m.network ∷ (be16 m.port ++ address_wire m.address) else []))

pub length-meta_wire :
    (m : FrameMetadata) → IsSendable m → (4 ≤ length (meta_wire m)) × (length (meta_wire m) ≤ 264)
unfolding meta_wire
length-meta_wire m v = elim (Bool-cases (writes_address m)) [
  | inl w ↦ rw w (omega (arith, length-address_wire m.address (v.address_fits w)))
  | inr n ↦ rw n (omega arith)
]

unfoldable pub header_wire : FrameMetadata → ℕ → Bytes
header_wire m n =
    be16 (length (meta_wire m))
    ++ (meta_wire m ++ (if has m.option option_data then be16 n else []))

-- With the metadata in the buffer, the length goes in front and the data's length behind.
seal_header_lem :
    (meta : Bytes) (m : FrameMetadata) (n : ℕ)
    → length meta ≤ 512
    → seal_header (0 ∷ 0 ∷ meta) m n
      ≡ ok (be16 (length meta) ++ (meta ++ (if has m.option option_data then be16 n else [])))
unfolding seal_header
seal_header_lem meta m n h = ground (arith, append-nil meta)

-- The encoder always succeeds on sendable metadata, and writes the length of the body, the body,
-- and the length of the data if the frame has data.
pub encode_header-wire :
    (m : FrameMetadata) (n : ℕ) → IsSendable m → encode_header [] m n ≡ ok (header_wire m n)
unfolding encode_header header_wire meta_wire
encode_header-wire m n v = elim (Bool-cases (writes_address m)) [
  | inl w ↦ ground (
    arith,
    seal_header_lem (meta_wire m) m n (omega (arith, length-meta_wire m v)),
    write_addr_port-address_wire
        (0
          ∷ 0
          ∷ m.session_id / 256 % 256
          ∷ m.session_id % 256
          ∷ m.status
          ∷ m.option
          ∷ m.network
          ∷ [])
        m.port m.address (v.address_fits w),
  )
  | inr w ↦ ground (arith, seal_header_lem (meta_wire m) m n (omega (arith, length-meta_wire m v)))
]

-- The decoder inverts the body: it sees `received m`, whatever bytes follow the target address.
pub unmarshal_meta-meta_wire :
    (m : FrameMetadata) → IsSendable m → unmarshal_meta (meta_wire m) ≡ ok (received m)
unfolding meta_wire received unmarshal_meta
unmarshal_meta-meta_wire m v = elim (Bool-cases (writes_address m)) [
  | inl w ↦ ground (arith, be16_read m.session_id, reads w)
  | inr w ↦ ground (arith, be16_read m.session_id)
]
  where
    front : Bytes
    front = m.session_id / 256 % 256 ∷ m.session_id % 256 ∷ m.status ∷ m.option ∷ m.network ∷ []

    reads :
        writes_address m ≡ true
        → read_addr_port (front ++ (be16 m.port ++ address_wire m.address)) 5
          ≡ ok (
            canonical m.address,
            m.port,
            length front + suc (suc (length (address_wire m.address))),
          )
    reads w =
        rw append-nil at
          (read-address_wire front m.port m.address [] v.port_width (v.address_fits w))
