-- ===== src/Muxcool/Server/Pending.antt =====
-- muxcool/server.go: the datagrams that wait for the dial of a UDP session.
use ntr.Prelude.{
  ℕ, zero, suc, ◌≤◌, ◌≡◌, refl, arith, Bool, true, false, Option, none, some, List, [], ◌∷◌, ◌++◌,
  length, length-append, set, get_elem?,
}
use ntr.Prelude.Bytes.{Bytes}
use ntr.Prelude.Maps.{nat_Key, lookup}
use ntr.Muxcool.Frame.{FrameMetadata}
use ntr.Muxcool.Server.{
  Action, Piece, removes, sends_end, closes_pipe, closes_conn, Session, ServerWorker,
  max_udp_pending, Event, frame, dialed_tcp, dialed_udp, got_tcp, got_udp, written_udp, ended,
  stopped, goes_on, link_ended, step, steps, handle, handle_new, handle_keep, handle_end,
  keep_found, end_found, marked, start_finish, perform, next_piece, go_on, activated, activate_udp,
  next_write, flush, open_session, write_pipe, add_session, new_session, emit, update, control,
  keep_session, deliver_udp, land_tcp, read_tcp, read_udp, new_server_worker,
}

-- At most 64 datagrams wait.
abbrev pub IsBounded : Session → Type 0
IsBounded s = length s.udp_pending ≤ max_udp_pending

abbrev pub AllBounded : List Session → Type 0
AllBounded store = (p : ℕ) (s : Session) → get_elem? store p ≡ some s → IsBounded s

AllBounded-set :
    (xs : List Session) (i : ℕ) (x : Session)
    → AllBounded xs
    → IsBounded x
    → AllBounded (set xs i x)
AllBounded-set [] i x h k p s e = ground (arith, e)
AllBounded-set (y ∷ ys) zero x h k zero s e = ground (arith, e)
AllBounded-set (y ∷ ys) zero x h k (suc p) s e = h (suc p) s e
AllBounded-set (y ∷ ys) (suc i) x h k zero s e = h zero s e
AllBounded-set (y ∷ ys) (suc i) x h k (suc p) s e =
    AllBounded-set ys i x (λ q t g. h (suc q) t g) k p s e

AllBounded-append :
    (xs : List Session) (x : Session) → AllBounded xs → IsBounded x → AllBounded (xs ++ (x ∷ []))
AllBounded-append [] x h k zero s e = ground (arith, e)
AllBounded-append [] x h k (suc p) s e = ground (arith, e)
AllBounded-append (y ∷ ys) x h k zero s e = h zero s e
AllBounded-append (y ∷ ys) x h k (suc p) s e =
    AllBounded-append ys x (λ q t g. h (suc q) t g) k p s e

module _ (w : ServerWorker) (p : ℕ) (h : AllBounded w.store) where
  start_finish-AllBounded :
      (send_end : Bool) (o : Option Session)
      → get_elem? w.store p ≡ o
      → AllBounded (start_finish w p send_end o).store
  unfolding start_finish update marked
  start_finish-AllBounded send_end none k q t e = h q t e
  start_finish-AllBounded send_end (some s) k q t e =
      ground (arith, h q t, AllBounded-set w.store p (marked s send_end) h (h p s k) q t)

  next_piece-AllBounded :
      (s : Session) (ts : List Piece) → IsBounded s → AllBounded (next_piece w p s ts).store
  unfolding next_piece perform emit update
  next_piece-AllBounded s [] k = h
  next_piece-AllBounded s (removes ∷ ts) k = AllBounded-set w.store p (record s { todo = ts }) h k
  next_piece-AllBounded s (sends_end ∷ ts) k = AllBounded-set w.store p (record s { todo = ts }) h k
  next_piece-AllBounded s (closes_pipe ∷ ts) k =
      AllBounded-set w.store p (record s { todo = ts }) h k
  next_piece-AllBounded s (closes_conn c ∷ ts) k =
      AllBounded-set w.store p (record s { todo = ts }) h k

  go_on-AllBounded : (o : Option Session) → get_elem? w.store p ≡ o → AllBounded (go_on w p o).store
  unfolding go_on
  go_on-AllBounded none k = h
  go_on-AllBounded (some s) k = next_piece-AllBounded s s.todo (h p s k)

  next_write-AllBounded :
      (s : Session) (acts : List Action) → IsBounded s → AllBounded (next_write w p s acts).store
  unfolding next_write emit update
  next_write-AllBounded s [] k = h
  next_write-AllBounded s (a ∷ more) k = AllBounded-set w.store p (record s { to_write = more }) h k

  flush-AllBounded : (o : Option Session) → get_elem? w.store p ≡ o → AllBounded (flush w p o).store
  unfolding flush
  flush-AllBounded none k = h
  flush-AllBounded (some s) k = next_write-AllBounded s s.to_write (h p s k)

module _ (w : ServerWorker) (h : AllBounded w.store) where
  handle_new-AllBounded :
      (m : FrameMetadata) (payload : Bytes) → AllBounded (handle_new w m payload).store
  unfolding handle_new open_session write_pipe add_session emit control
  handle_new-AllBounded m payload q t e =
      let zero_fits : 0 ≤ max_udp_pending = omega arith in
      ground (
        arith,
        h q t,
        AllBounded-append w.store (new_session m.session_id true false false) h zero_fits q t,
        AllBounded-append w.store (new_session m.session_id false true false) h zero_fits q t,
        AllBounded-append w.store (new_session m.session_id false false true) h zero_fits q t,
      )

  deliver_udp-AllBounded :
      (p : ℕ) (s : Session) (payload : Bytes)
      → IsBounded s
      → AllBounded (deliver_udp w p s payload).store
  unfolding deliver_udp update emit
  deliver_udp-AllBounded p s payload k q t e =
      let s' : Session = record s { udp_pending = s.udp_pending ++ (payload ∷ []) } in
      ground (
        arith,
        h q t,
        length-append s.udp_pending (payload ∷ []),
        λ (fits : IsBounded s'). AllBounded-set w.store p s' h fits q t,
      )

  keep_session-AllBounded :
      (p : ℕ) (payload : Bytes) (o : Option Session)
      → get_elem? w.store p ≡ o
      → AllBounded (keep_session w p payload o).store
  unfolding keep_session control emit
  keep_session-AllBounded p payload none k q t e = h q t e
  keep_session-AllBounded p payload (some s) k q t e =
      ground (arith, h q t, deliver_udp-AllBounded p s payload (h p s k) q t)

  keep_found-AllBounded :
      (m : FrameMetadata) (payload : Bytes) (o : Option ℕ)
      → AllBounded (keep_found w m payload o).store
  unfolding keep_found emit
  keep_found-AllBounded m payload none = h
  keep_found-AllBounded m payload (some p) =
      keep_session-AllBounded p payload (get_elem? w.store p) refl

  end_found-AllBounded : (o : Option ℕ) → AllBounded (end_found w o).store
  unfolding end_found
  end_found-AllBounded none = h
  end_found-AllBounded (some p) = start_finish-AllBounded w p h false (get_elem? w.store p) refl

  handle-AllBounded : (m : FrameMetadata) (payload : Bytes) → AllBounded (handle w m payload).store
  unfolding handle handle_keep handle_end
  handle-AllBounded m payload q t e = ground (
    arith,
    h q t,
    handle_new-AllBounded m payload q t,
    keep_found-AllBounded m payload (lookup m.session_id w.sessions) q t,
    end_found-AllBounded (lookup m.session_id w.sessions) q t,
  )

  land_tcp-AllBounded :
      (p c : ℕ) (o : Option Session) → get_elem? w.store p ≡ o → AllBounded (land_tcp w p c o).store
  unfolding land_tcp emit update
  land_tcp-AllBounded p c none k q t e = h q t e
  land_tcp-AllBounded p c (some s) k q t e =
      ground (arith, h q t, AllBounded-set w.store p (record s { conn = some c }) h (h p s k) q t)

  activate_udp-AllBounded :
      (p c : ℕ) (first : Bytes) (o : Option Session)
      → get_elem? w.store p ≡ o
      → AllBounded (activate_udp w p c first o).store
  unfolding activate_udp activated emit update
  activate_udp-AllBounded p c first none k q t e = h q t e
  activate_udp-AllBounded p c first (some s) k q t e =
      let zero_fits : 0 ≤ max_udp_pending = omega arith in
      ground (arith, h q t, AllBounded-set w.store p (activated s c first) h zero_fits q t)

step-AllBounded : (w : ServerWorker) (e : Event) → AllBounded w.store → AllBounded (step w e).store
unfolding step emit read_tcp read_udp
step-AllBounded w (frame m payload) h = handle-AllBounded w h m payload
step-AllBounded w (dialed_tcp p c) h = land_tcp-AllBounded w h p c (get_elem? w.store p) refl
step-AllBounded w (dialed_udp p c first) h =
    activate_udp-AllBounded w h p c first (get_elem? w.store p) refl
step-AllBounded w (got_tcp p payload) h = λ q t e. ground (arith, h q t)
step-AllBounded w (got_udp p addr port payload) h = λ q t e. ground (arith, h q t)
step-AllBounded w (written_udp p) h = flush-AllBounded w p h (get_elem? w.store p) refl
step-AllBounded w (ended p) h = start_finish-AllBounded w p h true (get_elem? w.store p) refl
step-AllBounded w (stopped p) h = start_finish-AllBounded w p h false (get_elem? w.store p) refl
step-AllBounded w (goes_on p) h = go_on-AllBounded w p h (get_elem? w.store p) refl
step-AllBounded w link_ended h = h

new-AllBounded : (on_control : Bool) → AllBounded (new_server_worker on_control).store
unfolding new_server_worker
new-AllBounded on_control p s e = ground (arith, e)

steps-AllBounded :
    (w : ServerWorker) (es : List Event) → AllBounded w.store → AllBounded (steps w es).store
unfolding steps
steps-AllBounded w [] h = h
steps-AllBounded w (e ∷ es) h = steps-AllBounded (step w e) es (step-AllBounded w e h)

-- Whatever events a worker has seen since it was made, at most 64 datagrams wait for the dial of a
-- session.
pub steps-pending :
    (on_control : Bool) (es : List Event) (p : ℕ) (s : Session)
    → get_elem? (steps (new_server_worker on_control) es).store p ≡ some s
    → length s.udp_pending ≤ max_udp_pending
steps-pending on_control es =
    steps-AllBounded (new_server_worker on_control) es (new-AllBounded on_control)
