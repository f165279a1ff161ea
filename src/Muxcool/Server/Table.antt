-- ===== src/Muxcool/Server/Table.antt =====
-- muxcool/server.go: the sessions that the table leads to.
use ntr.Prelude.{
  ℕ, zero, suc, ◌≡◌, ◌≢◌, refl, sym, ap, ◌∙◌, arith, Bool, true, false, not, ◌&&◌, ◌||◌, Option,
  none, some, List, [], ◌∷◌, ◌++◌, ◌==◌, length, set, get_elem?,
}
use ntr.Prelude.Bytes.{Bytes}
use ntr.Prelude.Maps.{nat_Key, nat_eq_iff, lookup, insert, delete, lookup-insert, lookup-delete}
use ntr.Muxcool.Frame.{FrameMetadata}
use ntr.Muxcool.Server.{
  Action, Piece, removes, sends_end, closes_pipe, closes_conn, Session, ServerWorker, Event, frame,
  dialed_tcp, dialed_udp, got_tcp, got_udp, written_udp, ended, stopped, goes_on, link_ended, step,
  steps, handle, handle_new, handle_keep, handle_end, keep_found, end_found, marked, start_finish,
  perform, next_piece, go_on, activated, activate_udp, next_write, flush, open_session, write_pipe,
  add_session, new_session, emit, update, control, keep_session, deliver_udp, land_tcp, read_tcp,
  read_udp, new_server_worker,
}

abbrev pub starts_removes : List Piece → Bool
starts_removes (removes ∷ ts) = true
starts_removes _ = false

-- A session of an id that is not finished, or whose next piece of `finish` is its removal.
abbrev pub is_open : ℕ → Option Session → Bool
is_open id none = false
is_open id (some s) = s.id == id && (not s.finished || starts_removes s.todo)

-- Each entry of the table leads to such a session of its id.
abbrev pub IsTabled : List (ℕ × ℕ) → List Session → Type 0
IsTabled table store = (id p : ℕ) → lookup id table ≡ some p → is_open id (get_elem? store p) ≡ true

is_open-set :
    (xs : List Session) (p : ℕ) (s t : Session) (id q : ℕ)
    → get_elem? xs p ≡ some s
    → (is_open id (some s) ≡ true → is_open id (some t) ≡ true)
    → is_open id (get_elem? xs q) ≡ true
    → is_open id (get_elem? (set xs p t) q) ≡ true
is_open-set [] p s t id q k f h = ground (arith, k)
is_open-set (x ∷ xs) zero s t id zero k f h = f (ap (is_open id) (sym k) ∙ h)
is_open-set (x ∷ xs) zero s t id (suc q) k f h = h
is_open-set (x ∷ xs) (suc p) s t id zero k f h = h
is_open-set (x ∷ xs) (suc p) s t id (suc q) k f h = is_open-set xs p s t id q k f h

is_open-append :
    (xs : List Session) (t : Session) (id q : ℕ)
    → is_open id (get_elem? xs q) ≡ true
    → is_open id (get_elem? (xs ++ (t ∷ [])) q) ≡ true
is_open-append [] t id q h = cc
is_open-append (x ∷ xs) t id zero h = h
is_open-append (x ∷ xs) t id (suc q) h = is_open-append xs t id q h

is_open-last :
    (xs : List Session) (t : Session) (id : ℕ)
    → is_open id (get_elem? (xs ++ (t ∷ [])) (length xs)) ≡ is_open id (some t)
is_open-last [] t id = refl
is_open-last (x ∷ xs) t id = is_open-last xs t id

-- The session at a place changes nothing for another id.
is_open-set_other :
    (xs : List Session) (p : ℕ) (s t : Session) (id q : ℕ)
    → get_elem? xs p ≡ some s
    → s.id ≢ id
    → is_open id (get_elem? xs q) ≡ true
    → is_open id (get_elem? (set xs p t) q) ≡ true
is_open-set_other [] p s t id q k n h = ground (arith, k)
is_open-set_other (x ∷ xs) zero s t id zero k n h = ground arith
is_open-set_other (x ∷ xs) zero s t id (suc q) k n h = h
is_open-set_other (x ∷ xs) (suc p) s t id zero k n h = h
is_open-set_other (x ∷ xs) (suc p) s t id (suc q) k n h = is_open-set_other xs p s t id q k n h

module _ (w : ServerWorker) (h : IsTabled w.sessions w.store) where
  IsTabled-update :
      (p : ℕ) (s t : Session)
      → get_elem? w.store p ≡ some s
      → ((id : ℕ) → is_open id (some s) ≡ true → is_open id (some t) ≡ true)
      → IsTabled w.sessions (set w.store p t)
  IsTabled-update p s t k f id q g = is_open-set w.store p s t id q k (f id) (h id q g)

  IsTabled-add :
      (t : Session)
      → t.finished ≡ false
      → IsTabled (insert t.id (length w.store) w.sessions) (w.store ++ (t ∷ []))
  IsTabled-add t f id q g = ground (
    arith,
    lookup-insert t.id id (length w.store) w.sessions,
    nat_eq_iff t.id id,
    is_open-last w.store t id,
    is_open-append w.store t id q,
    h id q,
  )

  IsTabled-remove :
      (p : ℕ) (s t : Session)
      → get_elem? w.store p ≡ some s
      → IsTabled (delete s.id w.sessions) (set w.store p t)
  IsTabled-remove p s t k id q g = ground (
    arith,
    lookup-delete s.id id w.sessions,
    nat_eq_iff s.id id,
    is_open-set_other w.store p s t id q k,
    h id q,
  )

-- The table and the store of a worker agree.
abbrev pub Tabled : ServerWorker → Type 0
Tabled w = IsTabled w.sessions w.store

module _ (w : ServerWorker) (h : Tabled w) where
  start_finish-Tabled :
      (p : ℕ) (send_end : Bool) (o : Option Session)
      → get_elem? w.store p ≡ o
      → Tabled (start_finish w p send_end o)
  unfolding start_finish update marked
  start_finish-Tabled p send_end none k id q g = h id q g
  start_finish-Tabled p send_end (some s) k id q g =
      ground
        (arith, h id q, IsTabled-update w h p s (marked s send_end) k (λ i o. ground arith) id q)

  -- What is left behind a piece that is no removal.
  is_open-later :
      (s : Session) (t : Piece) (ts : List Piece)
      → s.todo ≡ t ∷ ts
      → starts_removes (t ∷ ts) ≡ false
      → (id : ℕ) → is_open id (some s) ≡ true
      → is_open id (some (record s { todo = ts })) ≡ true
  is_open-later s t ts e n id o = ground (arith, ap starts_removes e)

  next_piece-Tabled :
      (p : ℕ) (s : Session) (ts : List Piece)
      → get_elem? w.store p ≡ some s
      → s.todo ≡ ts
      → Tabled (next_piece w p s ts)
  unfolding next_piece perform emit update
  next_piece-Tabled p s [] k e = h
  next_piece-Tabled p s (removes ∷ ts) k e = IsTabled-remove w h p s (record s { todo = ts }) k
  next_piece-Tabled p s (sends_end ∷ ts) k e =
      IsTabled-update w h p s (record s { todo = ts }) k (is_open-later s sends_end ts e refl)
  next_piece-Tabled p s (closes_pipe ∷ ts) k e =
      IsTabled-update w h p s (record s { todo = ts }) k (is_open-later s closes_pipe ts e refl)
  next_piece-Tabled p s (closes_conn c ∷ ts) k e =
      IsTabled-update w h p s (record s { todo = ts }) k (is_open-later s (closes_conn c) ts e refl)

  go_on-Tabled : (p : ℕ) (o : Option Session) → get_elem? w.store p ≡ o → Tabled (go_on w p o)
  unfolding go_on
  go_on-Tabled p none k = h
  go_on-Tabled p (some s) k = next_piece-Tabled p s s.todo k refl

  next_write-Tabled :
      (p : ℕ) (s : Session) (acts : List Action)
      → get_elem? w.store p ≡ some s
      → Tabled (next_write w p s acts)
  unfolding next_write emit update
  next_write-Tabled p s [] k = h
  next_write-Tabled p s (a ∷ more) k =
      IsTabled-update w h p s (record s { to_write = more }) k (λ i o. o)

  flush-Tabled : (p : ℕ) (o : Option Session) → get_elem? w.store p ≡ o → Tabled (flush w p o)
  unfolding flush
  flush-Tabled p none k = h
  flush-Tabled p (some s) k = next_write-Tabled p s s.to_write k

  handle_new-Tabled : (m : FrameMetadata) (payload : Bytes) → Tabled (handle_new w m payload)
  unfolding handle_new open_session write_pipe add_session emit control
  handle_new-Tabled m payload id q g = ground (
    arith,
    h id q,
    IsTabled-add w h (new_session m.session_id true false false) refl id q,
    IsTabled-add w h (new_session m.session_id false true false) refl id q,
    IsTabled-add w h (new_session m.session_id false false true) refl id q,
  )

  keep_session-Tabled :
      (p : ℕ) (payload : Bytes) (o : Option Session)
      → get_elem? w.store p ≡ o
      → Tabled (keep_session w p payload o)
  unfolding keep_session control emit deliver_udp update
  keep_session-Tabled p payload none k id q g = h id q g
  keep_session-Tabled p payload (some s) k id q g =
      let t : Session = record s { udp_pending = s.udp_pending ++ (payload ∷ []) } in
      ground (arith, h id q, IsTabled-update w h p s t k (λ i o. o) id q)

  keep_found-Tabled :
      (m : FrameMetadata) (payload : Bytes) (o : Option ℕ) → Tabled (keep_found w m payload o)
  unfolding keep_found emit
  keep_found-Tabled m payload none = h
  keep_found-Tabled m payload (some p) = keep_session-Tabled p payload (get_elem? w.store p) refl

  end_found-Tabled : (o : Option ℕ) → Tabled (end_found w o)
  unfolding end_found
  end_found-Tabled none = h
  end_found-Tabled (some p) = start_finish-Tabled p false (get_elem? w.store p) refl

  handle-Tabled : (m : FrameMetadata) (payload : Bytes) → Tabled (handle w m payload)
  unfolding handle handle_keep handle_end
  handle-Tabled m payload id q g = ground (
    arith,
    h id q,
    handle_new-Tabled m payload id q,
    keep_found-Tabled m payload (lookup m.session_id w.sessions) id q,
    end_found-Tabled (lookup m.session_id w.sessions) id q,
  )

  land_tcp-Tabled :
      (p c : ℕ) (o : Option Session) → get_elem? w.store p ≡ o → Tabled (land_tcp w p c o)
  unfolding land_tcp emit update
  land_tcp-Tabled p c none k id q g = h id q g
  land_tcp-Tabled p c (some s) k id q g =
      ground (arith, h id q, IsTabled-update w h p s (record s { conn = some c }) k (λ i o. o) id q)

  activate_udp-Tabled :
      (p c : ℕ) (first : Bytes) (o : Option Session)
      → get_elem? w.store p ≡ o
      → Tabled (activate_udp w p c first o)
  unfolding activate_udp activated emit update
  activate_udp-Tabled p c first none k id q g = h id q g
  activate_udp-Tabled p c first (some s) k id q g =
      let t : Session = activated s c first in
      ground (arith, h id q, IsTabled-update w h p s t k (λ i o. o) id q)

step-Tabled : (w : ServerWorker) (e : Event) → Tabled w → Tabled (step w e)
unfolding step emit read_tcp read_udp
step-Tabled w (frame m payload) h = handle-Tabled w h m payload
step-Tabled w (dialed_tcp p c) h = land_tcp-Tabled w h p c (get_elem? w.store p) refl
step-Tabled w (dialed_udp p c first) h =
    activate_udp-Tabled w h p c first (get_elem? w.store p) refl
step-Tabled w (got_tcp p payload) h = λ id q g. ground (arith, h id q)
step-Tabled w (got_udp p addr port payload) h = λ id q g. ground (arith, h id q)
step-Tabled w (written_udp p) h = flush-Tabled w h p (get_elem? w.store p) refl
step-Tabled w (ended p) h = start_finish-Tabled w h p true (get_elem? w.store p) refl
step-Tabled w (stopped p) h = start_finish-Tabled w h p false (get_elem? w.store p) refl
step-Tabled w (goes_on p) h = go_on-Tabled w h p (get_elem? w.store p) refl
step-Tabled w link_ended h = h

steps-Tabled : (w : ServerWorker) (es : List Event) → Tabled w → Tabled (steps w es)
unfolding steps
steps-Tabled w [] h = h
steps-Tabled w (e ∷ es) h = steps-Tabled (step w e) es (step-Tabled w e h)

new-Tabled : (on_control : Bool) → Tabled (new_server_worker on_control)
unfolding new_server_worker lookup
new-Tabled on_control id p g = ground (arith, g)

-- Whatever events a worker has seen since it was made, the single steps of `finish` among them, each
-- entry of its table leads to a session of the entry's id, which is not finished, or is marked as
-- finished and its removal from the table is the next step of its `finish`.
pub steps-sessions :
    (on_control : Bool) (es : List Event) (id p : ℕ)
    → lookup id (steps (new_server_worker on_control) es).sessions ≡ some p
    → is_open id (get_elem? (steps (new_server_worker on_control) es).store p) ≡ true
steps-sessions on_control es =
    steps-Tabled (new_server_worker on_control) es (new-Tabled on_control)
