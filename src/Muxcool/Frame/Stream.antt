-- ===== src/Muxcool/Frame/Stream.antt =====
-- muxcool/frame.go: `WriteFrame`, `WriteData` and `WriteEnd`, over an `io.Writer`.
pub mod Written
pub mod Chunks
use ntr.Prelude.{
  ℕ, zero, suc, ◌≡◌, bit_or, Bool, true, false, not, ◌&&◌, List, [], ◌∷◌, ◌++◌, ltb, if◌then◌else◌,
  length, take, drop,
}
use ntr.Prelude.Bytes.{Bytes}
use ntr.Muxcool.Frame.{
  Result, ok, err, Error, data_too_long, write_failed, out_of_fuel, FrameMetadata, no_address, has,
  option_data, option_error, status_keep, status_end, stream_chunk_size, encode_header,
}

-- `io.Writer`: a write answers whether it returned no error, and without an error it has taken all
-- the bytes.
pub record Writer : Type 1 where
  pub State : Type 0
  pub write : State → Bytes → State × Bool
  pub sent : State → Bytes
  pub write-sent : (s : State) (b : Bytes) → (write s b).1 ≡ true → sent (write s b).0 ≡ sent s ++ b

-- `m.Option |= OptionData` if there is data.
pub with_data_option : FrameMetadata → Bytes → FrameMetadata
with_data_option m payload =
    if ltb 0 (length payload) then record m { option = bit_or m.option option_data } else m

module _ (w : Writer) where
  open w use {State, write}

  -- The second write of `WriteFrame`, after the header was written.
  write_payload : FrameMetadata → Bytes → State × Bool → State × Result (Unit {0})
  write_payload m payload (s, false) = (s, err write_failed)
  write_payload m payload (s, true) =
      if has m.option option_data && ltb 0 (length payload)
      then (let (s', sent_all) = write s payload in
          (s', if sent_all then ok tt else err write_failed))
      else (s, ok tt)

  write_header : State → FrameMetadata → Bytes → Result Bytes → State × Result (Unit {0})
  unfolding write_payload
  write_header s m payload (err e) = (s, err e)
  write_header s m payload (ok hdr) = write_payload m payload (write s hdr)

  pub write_frame : State → FrameMetadata → Bytes → State × Result (Unit {0})
  unfolding write_header with_data_option
  write_frame s m payload =
      if ltb stream_chunk_size (length payload)
      then (s, err data_too_long)
      else let m' = with_data_option m payload in
        write_header s m' payload (encode_header [] m' (length payload))

  -- The metadata of the frames of `WriteData`.
  abbrev pub keep_frame : ℕ → FrameMetadata
  keep_frame id = record {
    session_id = id;
    status = status_keep;
    option = option_data;
    network = 0;
    address = no_address;
    port = 0;
  }

  -- What a loop does behind a write that may have failed.
  abbrev pub continue :
      (State → State × Result (Unit {0})) → State × Result (Unit {0}) → State × Result (Unit {0})
  continue rest (s, ok done) = rest s
  continue rest (s, err e) = (s, err e)

  -- `n` of `WriteData`.
  abbrev pub chunk_len : Bytes → ℕ
  chunk_len payload =
      if ltb stream_chunk_size (length payload) then stream_chunk_size else length payload

  -- The loop of `WriteData`, with a bound on its rounds.
  pub write_data_loop : ℕ → State → ℕ → Bytes → State × Result (Unit {0})
  write_data_loop fuel s id [] = (s, ok tt)
  write_data_loop zero s id (b ∷ bs) = (s, err out_of_fuel)
  write_data_loop (suc fuel) s id (b ∷ bs) =
      let n = chunk_len (b ∷ bs) in
      continue (λ s'. write_data_loop fuel s' id (drop n (b ∷ bs)))
        (write_frame s (keep_frame id) (take n (b ∷ bs)))

  -- Each round takes a byte at least, so the length bounds the rounds.
  pub write_data : State → ℕ → Bytes → State × Result (Unit {0})
  unfolding write_data_loop
  write_data s id payload = write_data_loop (length payload) s id payload

  pub write_end : State → ℕ → Bool → State × Result (Unit {0})
  write_end s id has_error =
      write_frame s
        (record {
          session_id = id;
          status = status_end;
          option = if has_error then option_error else 0;
          network = 0;
          address = no_address;
          port = 0;
        })
        []
