-- ===== src/Muxcool/Frame/Stream/Chunks.antt =====
-- muxcool/frame.go: `WriteData` cuts a payload into frames of at most 8192 bytes, and a reader that
-- joins the data of these frames has the payload again.
use ntr.Prelude.{
  ℕ, zero, suc, ◌≤◌, ◌≡◌, refl, sym, ◌∙◌, inl, inr, arith, true, Option, none, some, [], ◌∷◌, ◌++◌,
  append_assoc, append-nil, length, length-drop, length-take, take, drop, ◌==◌, ◌&&◌, if◌then◌else◌,
  take-append-drop,
}
use mathlib.Core.Path.{subst}
use ntr.Prelude.Bytes.{Bytes, IsU16}
use ntr.Muxcool.Frame.{Result, ok, err, FrameMetadata, read_frame, stream_chunk_size, status_keep}
use ntr.Muxcool.Frame.HeaderRoundTrip.{IsSendable, received, received-session_id, received-status}
use ntr.Muxcool.Frame.Stream.{
  Writer, with_data_option, write_frame, write_data_loop, write_data, keep_frame, chunk_len,
  continue,
}
use ntr.Muxcool.Frame.Stream.Written.{write_frame_reads, write_frame_result}

join : Bytes → Option (Bytes × Bytes) → Option (Bytes × Bytes)
join payload none = none
join payload (some (more, rest)) = some (payload ++ more, rest)

read_keep :
    ℕ
    → (Bytes → Option (Bytes × Bytes))
    → Result (FrameMetadata × Bytes × Bytes)
    → Option (Bytes × Bytes)
read_keep id more (err e) = none
read_keep id more (ok (m, payload, rest)) =
    if m.session_id == id && m.status == status_keep then join payload (more rest) else none

-- A reader that takes `n` frames, which must continue the session `id`, and joins their data.
pub read_keeps : ℕ → ℕ → Bytes → Option (Bytes × Bytes)
unfolding join read_keep
read_keeps zero id r = some ([], r)
read_keeps (suc n) id r = read_keep id (read_keeps n id) (read_frame r)

keep_frame-IsSendable : (w : Writer) (id : ℕ) → IsU16 id → IsSendable (keep_frame w id)
keep_frame-IsSendable w id h = ground arith

-- The reader's view of a frame of `WriteData`.
abbrev kept : Writer → ℕ → Bytes → FrameMetadata
kept w id payload = received (with_data_option (keep_frame w id) payload)

kept-session_id : (w : Writer) (id : ℕ) (payload : Bytes) → (kept w id payload).session_id ≡ id
unfolding with_data_option
kept-session_id w id payload =
    received-session_id (with_data_option (keep_frame w id) payload) ∙ ground arith

kept-status : (w : Writer) (id : ℕ) (payload : Bytes) → (kept w id payload).status ≡ status_keep
unfolding with_data_option
kept-status w id payload =
    received-status (with_data_option (keep_frame w id) payload) ∙ ground arith

module _ (w : Writer) where
  open w use {State, write, sent}

  continue-ok :
      (k : State → State × Result (Unit {0})) (r : State × Result (Unit {0}))
      → (continue w k r).1 ≡ ok tt
      → (r.1 ≡ ok tt) × (continue w k r ≡ k r.0)
  continue-ok k (s, ok tt) e = (refl, refl)
  continue-ok k (s, err x) e = cc

  abbrev Readable : State → State → ℕ → Bytes → Type 0
  Readable s s' id payload =
      (n : ℕ) × (bytes : Bytes) × (sent s' ≡ sent s ++ bytes)
      × ((rest : Bytes) → read_keeps n id (bytes ++ rest) ≡ some (payload, rest))

  -- One more frame in front.
  Readable-cons :
      (s t u : State) (id : ℕ) (front back front_bytes : Bytes)
      → sent t ≡ sent s ++ front_bytes
      → ((rest : Bytes) → read_frame (front_bytes ++ rest) ≡ ok (kept w id front, front, rest))
      → Readable t u id back
      → Readable s u id (front ++ back)
  unfolding read_keeps
  Readable-cons s t u id front back front_bytes e reads (n, bytes, e', reads') = (
    suc n,
    front_bytes ++ bytes,
    ground (arith, append_assoc (sent s) front_bytes bytes),
    λ rest. ground (
      arith,
      append_assoc front_bytes bytes rest,
      reads (bytes ++ rest),
      reads' rest,
      kept-session_id w id front,
      kept-status w id front,
    ),
  )

  write_data_loop_reads :
      (fuel : ℕ) (s : State) (id : ℕ) (payload : Bytes)
      → IsU16 id
      → (write_data_loop w fuel s id payload).1 ≡ ok tt
      → Readable s (write_data_loop w fuel s id payload).0 id payload
  unfolding write_data_loop read_keeps
  write_data_loop_reads fuel s id [] h e = (0, [], sym (append-nil (sent s)), λ rest. refl)
  write_data_loop_reads zero s id (b ∷ bs) h e = cc
  write_data_loop_reads (suc fuel) s id (b ∷ bs) h e =
      let n = chunk_len w (b ∷ bs) in
      let p = take n (b ∷ bs) in
      let q = drop n (b ∷ bs) in
      let r = write_frame w s (keep_frame w id) p in
      let k = λ (s' : State). write_data_loop w fuel s' id q in
      let (r_ok, same) = continue-ok k r e in
      let (bytes, sent_eq, reads) =
        write_frame_reads w s (keep_frame w id) p (keep_frame-IsSendable w id h) r_ok in
      let after = write_data_loop_reads fuel r.0 id q h (rw (← same) e) in
      rw same (
        subst (λ x. Readable s (k r.0).0 id x) (take-append-drop n (b ∷ bs))
          (Readable-cons s r.0 (k r.0).0 id p q bytes sent_eq reads after))

  -- If `WriteData` returns no error, a reader joins the frames to the payload, and is right behind
  -- them.
  pub write_data_reads :
      (s : State) (id : ℕ) (payload : Bytes)
      → IsU16 id
      → (write_data w s id payload).1 ≡ ok tt
      → (n : ℕ) × (bytes : Bytes) × (sent (write_data w s id payload).0 ≡ sent s ++ bytes)
        × ((rest : Bytes) → read_keeps n id (bytes ++ rest) ≡ some (payload, rest))
  unfolding write_data
  write_data_reads s id payload h e = write_data_loop_reads (length payload) s id payload h e

  continue_run :
      (k : State → State × Result (Unit {0})) (r : State × Result (Unit {0}))
      → r.1 ≡ ok tt
      → continue w k r ≡ k r.0
  continue_run k (s, ok tt) e = refl
  continue_run k (s, err x) e = cc

  write_frame_ok :
      ((t : State) (b : Bytes) → (write t b).1 ≡ true)
      → (s : State) (id : ℕ) (payload : Bytes) → IsU16 id
      → length payload ≤ stream_chunk_size
      → (write_frame w s (keep_frame w id) payload).1 ≡ ok tt
  write_frame_ok reliable s id payload h n =
      elim (write_frame_result w s (keep_frame w id) payload reliable
        (keep_frame-IsSendable w id h)) [ inl (_, e) ↦ e | inr (l, _) ↦ absurd (omega arith) ]

  write_data_loop_total :
      ((t : State) (b : Bytes) → (write t b).1 ≡ true)
      → (fuel : ℕ) (s : State) (id : ℕ) (payload : Bytes) → IsU16 id
      → length payload ≤ fuel
      → (write_data_loop w fuel s id payload).1 ≡ ok tt
  unfolding write_data_loop
  write_data_loop_total reliable fuel s id [] h n = refl
  write_data_loop_total reliable zero s id (b ∷ bs) h n = absurd (omega arith)
  write_data_loop_total reliable (suc fuel) s id (b ∷ bs) h n =
      let k = chunk_len w (b ∷ bs) in
      let p = take k (b ∷ bs) in
      let q = drop k (b ∷ bs) in
      let r = write_frame w s (keep_frame w id) p in
      let short : length p ≤ stream_chunk_size = ground (arith, length-take k (b ∷ bs)) in
      let fewer : length q ≤ fuel = ground (arith, length-drop k (b ∷ bs)) in
      rw
        (continue_run (λ s'. write_data_loop w fuel s' id q) r
          (write_frame_ok reliable s id p h short))
        (write_data_loop_total reliable fuel r.0 id q h fewer)

  -- Where the writer has no errors `WriteData` returns none: its rounds suffice, and no chunk is too
  -- long.
  pub write_data_total :
      ((t : State) (b : Bytes) → (write t b).1 ≡ true)
      → (s : State) (id : ℕ) (payload : Bytes) → IsU16 id
      → (write_data w s id payload).1 ≡ ok tt
  unfolding write_data
  write_data_total reliable s id payload h =
      write_data_loop_total reliable (length payload) s id payload h (omega arith)
