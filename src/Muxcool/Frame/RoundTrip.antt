-- ===== src/Muxcool/Frame/RoundTrip.antt =====
-- muxcool/frame.go: `ReadFrame` on what `WriteFrame`, `WriteData` and `WriteEnd` have written.
use ntr.Prelude.{
  ℕ, ◌≤◌, ◌≡◌, refl, ap, ◌∙◌, ◌⊎◌, inl, inr, arith, true, [], ◌∷◌, ◌++◌, append_assoc, length,
  length-append, if◌then◌else◌, Bool-cases,
}
use ntr.Prelude.Bytes.{Bytes, IsU16, be16, be16_read, take-append, drop-append}
use ntr.Muxcool.Frame.{
  ok, FrameMetadata, has, option_data, read_full, read_data, read_meta, read_frame,
}
use ntr.Muxcool.Frame.HeaderRoundTrip.{
  IsSendable, received, meta_wire, header_wire, length-meta_wire, received-option,
  unmarshal_meta-meta_wire,
}

read_full-append : (xs ys : Bytes) → read_full (length xs) (xs ++ ys) ≡ ok (xs, ys)
unfolding read_full
read_full-append [] ys = refl
read_full-append (x ∷ xs) ys =
    ground (arith, take-append xs ys, drop-append xs ys, length-append xs ys)

read_data_lem :
    (m : FrameMetadata) (payload rest : Bytes)
    → length payload ≤ 8192
    → read_data m (be16 (length payload) ++ (payload ++ rest)) ≡ ok (m, payload, rest)
unfolding read_data
read_data_lem m [] rest h = rw (read_full-append (be16 0) rest)
read_data_lem m (x ∷ xs) rest h =
    let n = length (x ∷ xs) in
    rw (read_full-append (be16 n) ((x ∷ xs) ++ rest))
      (ground (arith, be16_read n, read_full-append (x ∷ xs) rest))

-- The bytes of a whole frame.
abbrev pub frame_wire : FrameMetadata → Bytes → Bytes
frame_wire m payload = header_wire m (length payload) ++ payload

read_meta_lem :
    (m : FrameMetadata) (r : Bytes)
    → IsSendable m
    → read_meta (length (meta_wire m)) (meta_wire m ++ r)
      ≡ (if has m.option option_data then read_data (received m) r else ok (received m, [], r))
unfolding read_meta
read_meta_lem m r v = ground (
  arith,
  length-meta_wire m v,
  read_full-append (meta_wire m) r,
  unmarshal_meta-meta_wire m v,
  received-option m,
)

header_wire-append :
    (m : FrameMetadata) (payload rest : Bytes)
    → frame_wire m payload ++ rest
      ≡ be16 (length (meta_wire m))
        ++ (meta_wire m
            ++ ((if has m.option option_data then be16 (length payload) else [])
                ++ (payload ++ rest)))
unfolding header_wire
header_wire-append m payload rest = simp append_assoc

read_frame_lem : (n : ℕ) (r : Bytes) → IsU16 n → read_frame (be16 n ++ r) ≡ read_meta n r
unfolding read_frame
read_frame_lem n r h = rw (read_full-append (be16 n) r) (ap (λ k. read_meta k r) (be16_read n h))

-- A frame is read back whole, with the reader right behind it.
pub read_frame-frame_wire :
    (m : FrameMetadata) (payload rest : Bytes)
    → IsSendable m
    → length payload ≤ 8192
    → (has m.option option_data ≡ true) ⊎ (payload ≡ [])
    → read_frame (frame_wire m payload ++ rest) ≡ ok (received m, payload, rest)
read_frame-frame_wire m payload rest v h d =
    let data_len : Bytes = if has m.option option_data then be16 (length payload) else [] in
    rw (header_wire-append m payload rest) (
      read_frame_lem (length (meta_wire m)) _ (omega (arith, length-meta_wire m v))
      ∙ read_meta_lem m (data_len ++ (payload ++ rest)) v
      ∙ behind d)
  where
    behind :
        (has m.option option_data ≡ true) ⊎ (payload ≡ [])
        → (if has m.option option_data
            then read_data (received m) (
                (if has m.option option_data then be16 (length payload) else [])
                ++ (payload ++ rest))
            else ok (
              received m,
              [],
              (if has m.option option_data then be16 (length payload) else []) ++ (payload ++ rest),
            ))
          ≡ ok (received m, payload, rest)
    behind (inl e) = rw e (read_data_lem (received m) payload rest h)
    behind (inr e) = elim (Bool-cases (has m.option option_data)) [
      | inl t ↦ rw t (read_data_lem (received m) payload rest h)
      | inr f ↦ rw (f, e)
    ]
