-- ===== src/Muxcool/Server/Sessions.antt =====
-- muxcool/server.go: `finish` and the guards of `handleNew`.
use ntr.Prelude.{
  ℕ, zero, suc, ◌≤◌, ◌≡◌, refl, sym, ap, ◌∙◌, append-nil, append_assoc, ◌++◌, if◌then◌else◌, arith,
  Bool, true, false, Option, none, some, List, [], ◌∷◌, Option-cases, inl, inr, length, set,
  get_elem?,
}
use mathlib.Core.Path.{subst}
use ntr.Prelude.Bytes.{Bytes}
use ntr.Prelude.Maps.{insert, nat_Key, lookup, lookup-delete, nat_eq_iff}
use ntr.Muxcool.Frame.{FrameMetadata}
use ntr.Muxcool.Server.{
  Action, sent_end, pipe_closed, conn_closed, Piece, removes, sends_end, closes_pipe, closes_conn,
  Session, ServerWorker, max_server_sessions, handle_new, closings, marked, perform, next_piece,
  update, open_session, write_pipe, add_session, emit, is_control,
}
use ntr.Muxcool.Server.Alone.{do_pieces, finish_at, finish}

length-insert : (k v : ℕ) (m : List (ℕ × ℕ)) → length (insert k v m) ≤ suc (length m)
unfolding insert
length-insert k v [] = omega arith
length-insert k v ((at, held) ∷ more) = ground (arith, length-insert k v more)

pub get_elem?-set_finished :
    {A : Type 0} (xs : List A) (i : ℕ) (x y : A)
    → get_elem? xs i ≡ some x
    → get_elem? (set xs i y) i ≡ some y
get_elem?-set_finished [] i x y h = ground (arith, h)
get_elem?-set_finished (z ∷ zs) zero x y h = refl
get_elem?-set_finished (z ∷ zs) (suc i) x y h = get_elem?-set_finished zs i x y h

-- What a piece does to the outside.
piece_log : ℕ → Session → Piece → List Action
piece_log p s removes = []
piece_log p s sends_end = sent_end s.id false ∷ []
piece_log p s closes_pipe = pipe_closed p ∷ []
piece_log p s (closes_conn c) = conn_closed c ∷ []

pieces_log : ℕ → Session → List Piece → List Action
pieces_log p s [] = []
pieces_log p s (t ∷ ts) = piece_log p s t ++ pieces_log p s ts

-- What `do_pieces` has done.
record Done (w : ServerWorker) (p : ℕ) (s : Session) (ts : List Piece) (w' : ServerWorker)
    : Type 0 where
  at_place : get_elem? w'.store p ≡ some (record s { todo = [] })
  its_log : w'.log ≡ w.log ++ pieces_log p s ts
  stays_gone : lookup s.id w.sessions ≡ none → lookup s.id w'.sessions ≡ none

pieces_log-todo :
    (p : ℕ) (s : Session) (us ts : List Piece)
    → pieces_log p (record s { todo = us }) ts ≡ pieces_log p s ts
unfolding pieces_log piece_log
pieces_log-todo p s us [] = refl
pieces_log-todo p s us (t ∷ ts) = ground (arith, pieces_log-todo p s us ts)

next_piece-log :
    (w : ServerWorker) (p : ℕ) (s : Session) (t : Piece) (ts : List Piece)
    → (next_piece w p s (t ∷ ts)).log ≡ w.log ++ piece_log p s t
unfolding next_piece perform piece_log emit update
next_piece-log w p s removes ts = sym (append-nil w.log)
next_piece-log w p s sends_end ts = refl
next_piece-log w p s closes_pipe ts = refl
next_piece-log w p s (closes_conn c) ts = refl

next_piece-store :
    (w : ServerWorker) (p : ℕ) (s : Session) (t : Piece) (ts : List Piece)
    → (next_piece w p s (t ∷ ts)).store ≡ set w.store p (record s { todo = ts })
unfolding next_piece perform emit update
next_piece-store w p s removes ts = refl
next_piece-store w p s sends_end ts = refl
next_piece-store w p s closes_pipe ts = refl
next_piece-store w p s (closes_conn c) ts = refl

next_piece-gone :
    (w : ServerWorker) (p : ℕ) (s : Session) (t : Piece) (ts : List Piece)
    → lookup s.id w.sessions ≡ none
    → lookup s.id (next_piece w p s (t ∷ ts)).sessions ≡ none
unfolding next_piece perform emit update
next_piece-gone w p s removes ts h = ground (arith, lookup-delete s.id s.id w.sessions)
next_piece-gone w p s sends_end ts h = h
next_piece-gone w p s closes_pipe ts h = h
next_piece-gone w p s (closes_conn c) ts h = h

do_pieces-Done :
    (w : ServerWorker) (p : ℕ) (s : Session) (ts : List Piece)
    → get_elem? w.store p ≡ some s
    → s.todo ≡ ts
    → Done w p s ts (do_pieces w p s ts)
unfolding do_pieces pieces_log
do_pieces-Done w p s [] k e = record {
  at_place = k ∙ ap (λ l. some (record s { todo = l })) e;
  its_log = sym (append-nil w.log);
  stays_gone = λ h. h;
}
do_pieces-Done w p s (t ∷ ts) k e =
    let s' : Session = record s { todo = ts } in
    let w' : ServerWorker = next_piece w p s (t ∷ ts) in
    let done =
      do_pieces-Done w' p s' ts
        (ap (λ l. get_elem? l p) (next_piece-store w p s t ts)
          ∙ get_elem?-set_finished w.store p s s' k)
        refl in
    record {
      at_place = done.at_place;
      its_log =
          done.its_log
          ∙ ap (λ l. l ++ pieces_log p s' ts) (next_piece-log w p s t ts)
          ∙ append_assoc w.log (piece_log p s t) (pieces_log p s' ts)
          ∙ ap (λ l. w.log ++ (piece_log p s t ++ l)) (pieces_log-todo p s ts ts);
      stays_gone = λ h. done.stays_gone (next_piece-gone w p s t ts h);
    }

abbrev close_conn : Option ℕ → List Action
close_conn none = []
close_conn (some c) = conn_closed c ∷ []

-- What a finish shows to the outside.
abbrev finish_log : ℕ → Session → Bool → List Action
finish_log p s send_end =
    (if send_end then sent_end s.id false ∷ [] else [])
    ++ ((if s.piped then pipe_closed p ∷ [] else []) ++ close_conn s.conn)

pieces_log-closings :
    (p : ℕ) (s t : Session) (send_end : Bool)
    → t.id ≡ s.id
    → pieces_log p t (closings s send_end) ≡ finish_log p s send_end
unfolding closings pieces_log piece_log
pieces_log-closings p s t send_end e = elim (Option-cases s.conn) [
  | inl none_there ↦ ground arith
  | inr (c, there) ↦ ground arith
]

-- What a session is when it has been finished.
abbrev finished_session : Session → Session
finished_session s = record s { finished = true; once = true; todo = [] }

-- What `finish` has done with a session at a place.
pub record Finished (w : ServerWorker) (p : ℕ) (s : Session) (send_end : Bool) (w' : ServerWorker)
    : Type 0 where
  pub at_place : get_elem? w'.store p ≡ some (finished_session s)
  pub its_log : w'.log ≡ w.log ++ finish_log p s send_end
  pub gone : lookup s.id w'.sessions ≡ none

-- The removal, and what follows it.
removed : ServerWorker → ℕ → Session → Bool → ServerWorker
removed w p s send_end =
    next_piece (update w p (marked s send_end)) p (marked s send_end)
      (removes ∷ closings s send_end)

closing : Session → Bool → Session
closing s send_end = record s { finished = true; once = true; todo = closings s send_end }

do_pieces-Finished :
    (w : ServerWorker) (p : ℕ) (s : Session) (send_end : Bool)
    → get_elem? w.store p ≡ some s
    → Finished w p s send_end
        (do_pieces (removed w p s send_end) p (closing s send_end) (closings s send_end))
unfolding removed closing marked update next_piece perform
do_pieces-Finished w p s send_end k =
    let t : Session = marked s send_end in
    let u : Session = closing s send_end in
    let done =
      do_pieces-Done (removed w p s send_end) p u (closings s send_end)
        (get_elem?-set_finished (set w.store p t) p t u (get_elem?-set_finished w.store p s t k))
        refl in
    record {
      at_place = done.at_place;
      its_log = done.its_log ∙ ap (λ l. w.log ++ l) (pieces_log-closings p s u send_end refl);
      gone =
          done.stays_gone
            (ground (arith, lookup-delete s.id s.id w.sessions, nat_eq_iff s.id s.id));
    }

finish_at-first :
    (w : ServerWorker) (p : ℕ) (s : Session) (send_end : Bool)
    → s.once ≡ false
    → finish_at w p send_end (some s)
      ≡ do_pieces (removed w p s send_end) p (closing s send_end) (closings s send_end)
unfolding finish_at removed closing do_pieces marked
finish_at-first w p s send_end first =
    let t : Session = marked s send_end in
    ap (λ b. if b then w else do_pieces (update w p t) p t t.todo) first

finish-Finished :
    (w : ServerWorker) (p : ℕ) (s : Session) (send_end : Bool)
    → get_elem? w.store p ≡ some s
    → s.once ≡ false
    → Finished w p s send_end (finish w p send_end)
unfolding finish
finish-Finished w p s send_end k first =
    subst (λ w'. Finished w p s send_end w')
      (sym (ap (finish_at w p send_end) k ∙ finish_at-first w p s send_end first))
      (do_pieces-Finished w p s send_end k)

finish_idle :
    (w : ServerWorker) (p : ℕ) (s : Session) (again : Bool)
    → get_elem? w.store p ≡ some s
    → s.once ≡ true
    → finish w p again ≡ w
unfolding finish finish_at
finish_idle w p s again k e = rw (k, e) refl

-- A session that is finished for the first time, and then again, has sent one End, if the first call
-- asks for one, has then closed its pipe, if it has one, and then its connection, if it has one, all
-- once and nothing else; its id is out of the table, and it stands as finished with nothing to do.
pub finish_once :
    (w : ServerWorker) (p : ℕ) (s : Session) (send_end again : Bool)
    → get_elem? w.store p ≡ some s
    → s.once ≡ false
    → ((finish (finish w p send_end) p again).log ≡ w.log ++ finish_log p s send_end)
      × (lookup s.id (finish (finish w p send_end) p again).sessions ≡ none)
      × (get_elem? (finish (finish w p send_end) p again).store p
          ≡ some (record s { finished = true; once = true; todo = [] }))
finish_once w p s send_end again k first =
    let done = finish-Finished w p s send_end k first in
    let same : finish (finish w p send_end) p again ≡ finish w p send_end =
      finish_idle (finish w p send_end) p (finished_session s) again done.at_place refl in
    rw same (done.its_log, done.gone, done.at_place)

-- A New frame of no control session, on a table of at most 512 sessions, leaves it with at most 512.
pub handle_new_capped :
    (w : ServerWorker) (m : FrameMetadata) (payload : Bytes)
    → is_control m ≡ false
    → length w.sessions ≤ max_server_sessions
    → length (handle_new w m payload).sessions ≤ max_server_sessions
unfolding handle_new open_session write_pipe add_session emit
handle_new_capped w m payload h k =
    ground (arith, length-insert m.session_id (length w.store) w.sessions)
