-- ===== src/Muxcool/Server.antt =====
-- muxcool/server.go: the table of sessions that the server side of a Mux.cool link keeps. A step is what
-- one goroutine does under a lock or between two waits: the read loop takes a frame, a dial ends, a
-- read of a local connection ends, `finish` does its next piece, `landUDP` its next write.
pub mod Alone
pub mod Sessions
pub mod Pending
pub mod Table
pub mod Delivery
use ntr.Prelude.{
  ℕ, suc, ◌+◌, Bool, true, false, not, ◌&&◌, Option, none, some, List, [], ◌∷◌, ◌++◌, map, ltb, leb,
  ◌==◌, if◌then◌else◌, length, set, get_elem?,
}
use ntr.Prelude.Bytes.{Bytes}
use ntr.Prelude.Maps.{nat_Key, lookup, insert, delete}
use ntr.Prelude.Strings.{bytes_eq}
use ntr.Muxcool.Frame.{
  FrameMetadata, Address, status_new, status_keep, status_end, network_udp, network_tcp,
}

-- `InternalDomain`
abbrev pub internal_domain : Bytes
internal_domain = b'r' ∷ b'e' ∷ b'v' ∷ b'e' ∷ b'r' ∷ b's' ∷ b'e' ∷ []

abbrev pub max_server_sessions : ℕ
max_server_sessions = 512

abbrev pub max_udp_pending : ℕ
max_udp_pending = 64

-- What the worker does to the outside, in order. A connection and a session are numbers, the
-- session's being its place in the store.
pub data Action : Type 0 where
  sent_end : ℕ → Bool → Action
  sent_data : ℕ → Bytes → Action
  sent_udp : ℕ → Address → ℕ → Bytes → Action
  controlled : Bytes → Action
  dialing : ℕ → ℕ → Address → ℕ → Action
  conn_written : ℕ → Bytes → Action
  conn_closed : ℕ → Action
  pipe_written : ℕ → Bytes → Action
  pipe_closed : ℕ → Action
  link_closed : Action

-- What `finish` does behind its critical section under `smu`.
pub data Piece : Type 0 where
  removes : Piece
  sends_end : Piece
  closes_pipe : Piece
  closes_conn : ℕ → Piece

-- `serverSession`. `piped` tells whether `inW` is there, `once` whether `finish` has begun. `todo` is
-- what the goroutine in `finish` has still to do, `to_write` what the one in `landUDP` has still to
-- write before it reads.
pub record Session : Type 0 where
  pub id : ℕ
  pub control : Bool
  pub udp : Bool
  pub conn : Option ℕ
  pub finished : Bool
  pub udp_pending : List Bytes
  pub piped : Bool
  pub once : Bool
  pub todo : List Piece
  pub to_write : List Action

-- `ServerWorker`: `store` holds each session that was made, `sessions` leads from an id to its place.
pub record ServerWorker : Type 0 where
  pub on_control : Bool
  pub sessions : List (ℕ × ℕ)
  pub store : List Session
  pub log : List Action

unfoldable pub emit : ServerWorker → List Action → ServerWorker
emit w acts = record w { log = w.log ++ acts }

unfoldable pub update : ServerWorker → ℕ → Session → ServerWorker
update w p s = record w { store = set w.store p s }

unfoldable pub new_server_worker : Bool → ServerWorker
new_server_worker on_control = record {
  on_control = on_control;
  sessions = [];
  store = [];
  log = [];
}

-- A new session and its registration by `addSession`.
unfoldable pub add_session : ServerWorker → Session → ServerWorker
add_session w s = record w {
  store = w.store ++ (s ∷ []);
  sessions = insert s.id (length w.store) w.sessions;
}

abbrev pub new_session : ℕ → Bool → Bool → Bool → Session
new_session id control udp piped = record {
  id = id;
  control = control;
  udp = udp;
  conn = none;
  finished = false;
  udp_pending = [];
  piped = piped;
  once = false;
  todo = [];
  to_write = [];
}

abbrev pub closing_conn : Option ℕ → List Piece
closing_conn none = []
closing_conn (some c) = closes_conn c ∷ []

-- The pieces of `finish` behind the removal from the table, in its order.
unfoldable pub closings : Session → Bool → List Piece
closings s send_end =
    (if send_end then sends_end ∷ [] else [])
    ++ ((if s.piped then closes_pipe ∷ [] else []) ++ closing_conn s.conn)

unfoldable pub marked : Session → Bool → Session
marked s send_end = record s { finished = true; once = true; todo = removes ∷ closings s send_end }

-- The start of `finish`, once a session: the mark under `smu`.
unfoldable pub start_finish : ServerWorker → ℕ → Bool → Option Session → ServerWorker
start_finish w p send_end none = w
start_finish w p send_end (some s) = if s.once then w else update w p (marked s send_end)

unfoldable pub perform : ServerWorker → ℕ → Session → Piece → ServerWorker
perform w p s removes = record w { sessions = delete s.id w.sessions }
perform w p s sends_end = emit w (sent_end s.id false ∷ [])
perform w p s closes_pipe = emit w (pipe_closed p ∷ [])
perform w p s (closes_conn c) = emit w (conn_closed c ∷ [])

unfoldable pub next_piece : ServerWorker → ℕ → Session → List Piece → ServerWorker
next_piece w p s [] = w
next_piece w p s (t ∷ ts) = perform (update w p (record s { todo = ts })) p s t

unfoldable pub go_on : ServerWorker → ℕ → Option Session → ServerWorker
go_on w p none = w
go_on w p (some s) = next_piece w p s s.todo

-- `onControl`, if there is one and there are data.
unfoldable pub control : ServerWorker → Bytes → ServerWorker
control w payload =
    if ltb 0 (length payload) && w.on_control then emit w (controlled payload ∷ []) else w

write_pipe : ServerWorker → ℕ → Bytes → ServerWorker
write_pipe w p payload = if ltb 0 (length payload) then emit w (pipe_written p payload ∷ []) else w

-- `handleNew` behind its guards: the session is registered before its dial starts.
unfoldable pub open_session : ServerWorker → FrameMetadata → Bytes → ServerWorker
unfolding write_pipe
open_session w m payload =
    let p = length w.store in
    if m.network == network_udp
    then emit (add_session w (new_session m.session_id false true false))
        (dialing p network_udp m.address m.port ∷ [])
    else emit (write_pipe (add_session w (new_session m.session_id false false true)) p payload)
        (dialing p network_tcp m.address m.port ∷ [])

unfoldable pub is_control : FrameMetadata → Bool
is_control m = m.address.is_domain && bytes_eq m.address.domain internal_domain

unfoldable pub handle_new : ServerWorker → FrameMetadata → Bytes → ServerWorker
handle_new w m payload =
    if is_control m
    then control (add_session w (new_session m.session_id true false false)) payload
    else elim (lookup m.session_id w.sessions) [
      | some p ↦ emit w (sent_end m.session_id true ∷ [])
      | none ↦
          if leb max_server_sessions (length w.sessions)
          then emit w (sent_end m.session_id true ∷ [])
          else open_session w m payload
    ]

-- `deliverUDP`
unfoldable pub deliver_udp : ServerWorker → ℕ → Session → Bytes → ServerWorker
deliver_udp w p s payload = if s.finished then w else elim s.conn [
  | some c ↦ emit w (conn_written c payload ∷ [])
  | none ↦
      if ltb (length s.udp_pending) max_udp_pending
      then update w p (record s { udp_pending = s.udp_pending ++ (payload ∷ []) })
      else w
]

-- `handleKeep` for a session that the table has.
unfoldable pub keep_session : ServerWorker → ℕ → Bytes → Option Session → ServerWorker
keep_session w p payload none = w
keep_session w p payload (some s) =
    if s.control
    then control w payload
    else if s.udp
    then (if ltb 0 (length payload) then deliver_udp w p s payload else w)
    else if ltb 0 (length payload) && s.piped
    then emit w (pipe_written p payload ∷ [])
    else w

unfoldable pub keep_found : ServerWorker → FrameMetadata → Bytes → Option ℕ → ServerWorker
keep_found w m payload none = emit w (sent_end m.session_id false ∷ [])
keep_found w m payload (some p) = keep_session w p payload (get_elem? w.store p)

unfoldable pub handle_keep : ServerWorker → FrameMetadata → Bytes → ServerWorker
handle_keep w m payload = keep_found w m payload (lookup m.session_id w.sessions)

unfoldable pub end_found : ServerWorker → Option ℕ → ServerWorker
end_found w none = w
end_found w (some p) = start_finish w p false (get_elem? w.store p)

unfoldable pub handle_end : ServerWorker → FrameMetadata → ServerWorker
handle_end w m = end_found w (lookup m.session_id w.sessions)

-- The switch in `Run`.
unfoldable pub handle : ServerWorker → FrameMetadata → Bytes → ServerWorker
handle w m payload =
    if m.status == status_new
    then handle_new w m payload
    else if m.status == status_keep
    then handle_keep w m payload
    else if m.status == status_end
    then handle_end w m
    else w

-- `landTCP` when the dial has ended with a connection: `setConn`, or the connection is closed.
unfoldable pub land_tcp : ServerWorker → ℕ → ℕ → Option Session → ServerWorker
land_tcp w p c none = w
land_tcp w p c (some s) =
    if s.finished then emit w (conn_closed c ∷ []) else update w p (record s { conn = some c })

-- The session when `activateUDP` has succeeded: the first datagram is to write, then those that waited.
unfoldable pub activated : Session → ℕ → Bytes → Session
activated s c first = record s {
  conn = some c;
  udp_pending = [];
  to_write =
      (if ltb 0 (length first) then conn_written c first ∷ [] else [])
      ++ map (conn_written c) s.udp_pending;
}

-- `activateUDP` when the dial has ended with a connection, or the connection is closed.
unfoldable pub activate_udp : ServerWorker → ℕ → ℕ → Bytes → Option Session → ServerWorker
activate_udp w p c first none = w
activate_udp w p c first (some s) =
    if s.finished then emit w (conn_closed c ∷ []) else update w p (activated s c first)

unfoldable pub next_write : ServerWorker → ℕ → Session → List Action → ServerWorker
next_write w p s [] = w
next_write w p s (a ∷ more) = emit (update w p (record s { to_write = more })) (a ∷ [])

unfoldable pub flush : ServerWorker → ℕ → Option Session → ServerWorker
flush w p none = w
flush w p (some s) = next_write w p s s.to_write

-- What the loops of `landTCP` and `landUDP` send for the `n > 0` bytes of a read.
unfoldable pub read_tcp : ServerWorker → Bytes → Option Session → ServerWorker
read_tcp w payload none = w
read_tcp w payload (some s) = emit w (sent_data s.id payload ∷ [])

unfoldable pub read_udp : ServerWorker → Address → ℕ → Bytes → Option Session → ServerWorker
read_udp w addr port payload none = w
read_udp w addr port payload (some s) = emit w (sent_udp s.id addr port payload ∷ [])

-- What the goroutines wait for. `ended` is a dial that failed, the end of a local connection's
-- reads, or a write of a frame that failed; `stopped` is a session whose turn has come in `closeAll`,
-- `link_ended` the end of `closeAll`.
pub data Event : Type 0 where
  frame : FrameMetadata → Bytes → Event
  dialed_tcp : ℕ → ℕ → Event
  dialed_udp : ℕ → ℕ → Bytes → Event
  got_tcp : ℕ → Bytes → Event
  got_udp : ℕ → Address → ℕ → Bytes → Event
  written_udp : ℕ → Event
  ended : ℕ → Event
  stopped : ℕ → Event
  goes_on : ℕ → Event
  link_ended : Event

unfoldable pub step : ServerWorker → Event → ServerWorker
step w (frame m payload) = handle w m payload
step w (dialed_tcp p c) = land_tcp w p c (get_elem? w.store p)
step w (dialed_udp p c first) = activate_udp w p c first (get_elem? w.store p)
step w (got_tcp p payload) = read_tcp w payload (get_elem? w.store p)
step w (got_udp p addr port payload) = read_udp w addr port payload (get_elem? w.store p)
step w (written_udp p) = flush w p (get_elem? w.store p)
step w (ended p) = start_finish w p true (get_elem? w.store p)
step w (stopped p) = start_finish w p false (get_elem? w.store p)
step w (goes_on p) = go_on w p (get_elem? w.store p)
step w link_ended = emit w (link_closed ∷ [])

unfoldable pub steps : ServerWorker → List Event → ServerWorker
steps w [] = w
steps w (e ∷ es) = steps (step w e) es
