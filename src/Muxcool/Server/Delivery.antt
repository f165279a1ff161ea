-- ===== src/Muxcool/Server/Delivery.antt =====
-- muxcool/server.go: the datagrams that come before the dial of a UDP session has ended reach its
-- connection.
use ntr.Prelude.{
  ℕ, ◌+◌, ◌≤◌, ◌<◌, ◌≡◌, refl, sym, ap, ◌∙◌, arith, true, false, none, some, List, [], ◌∷◌, ◌++◌,
  map, append_assoc, append-nil, ltb, if◌then◌else◌, length, length-append, get_elem?, All,
}
use ntr.Prelude.Bytes.{Bytes}
use ntr.Muxcool.Server.{
  Session, ServerWorker, max_udp_pending, emit, update, keep_session, deliver_udp, activated,
  next_write, Action, conn_written, conn_closed,
}
use ntr.Muxcool.Server.Alone.{do_writes, land_udp}
use ntr.Muxcool.Server.Sessions.{get_elem?-set_finished}

-- A UDP session that waits for its dial.
pub record Waiting (s : Session) : Type 0 where
  pub no_control : s.control ≡ false
  pub is_udp : s.udp ≡ true
  pub live : s.finished ≡ false
  pub dialing : s.conn ≡ none

-- The datagrams of a list, taken in order from Keep frames of the session at a place.
abbrev pub deliver_all : ServerWorker → ℕ → List Bytes → ServerWorker
deliver_all w p [] = w
deliver_all w p (d ∷ ds) = deliver_all (keep_session w p d (get_elem? w.store p)) p ds

abbrev pub HasData : Bytes → Type 0
HasData d = 0 < length d

queue : Session → List Bytes → Session
queue s ds = record s { udp_pending = s.udp_pending ++ ds }

keep_session-Waiting :
    (w : ServerWorker) (p : ℕ) (s : Session) (d : Bytes)
    → Waiting s
    → HasData d
    → length s.udp_pending < max_udp_pending
    → keep_session w p d (some s) ≡ update w p (queue s (d ∷ []))
unfolding keep_session deliver_udp queue
keep_session-Waiting w p s d v n k = ground (arith, v.no_control, v.is_udp, v.live, v.dialing)

-- What the deliveries have done: the datagrams wait behind those that did, and nothing else happened.
record Queued (w : ServerWorker) (p : ℕ) (s : Session) (ds : List Bytes) (w' : ServerWorker)
    : Type 0 where
  at_place : get_elem? w'.store p ≡ some (queue s ds)
  same_log : w'.log ≡ w.log

deliver_all-Queued :
    (w : ServerWorker) (p : ℕ) (s : Session) (ds : List Bytes)
    → Waiting s
    → All HasData ds
    → get_elem? w.store p ≡ some s
    → length s.udp_pending + length ds ≤ max_udp_pending
    → Queued w p s ds (deliver_all w p ds)
unfolding queue update
deliver_all-Queued w p s [] v n k fits = record {
  at_place = k ∙ ap (λ l. some (record s { udp_pending = l })) (sym (append-nil s.udp_pending));
  same_log = refl;
}
deliver_all-Queued w p s (d ∷ ds) v (n, ns) k fits =
    let s' : Session = queue s (d ∷ []) in
    let w' : ServerWorker = update w p s' in
    let v' : Waiting s' = record {
      no_control = v.no_control;
      is_udp = v.is_udp;
      live = v.live;
      dialing = v.dialing;
    } in
    let q =
      deliver_all-Queued w' p s' ds v' ns (get_elem?-set_finished w.store p s s' k)
        (omega (arith, length-append s.udp_pending (d ∷ []), fits)) in
    let e : keep_session w p d (get_elem? w.store p) ≡ w' =
      ap (keep_session w p d) k ∙ keep_session-Waiting w p s d v n (omega (arith, fits)) in
    rw e (record {
      at_place =
          q.at_place
          ∙ ap (λ l. some (record s { udp_pending = l })) (append_assoc s.udp_pending (d ∷ []) ds);
      same_log = q.same_log;
    })

do_writes-log :
    (w : ServerWorker) (p : ℕ) (s : Session) (acts : List Action)
    → (do_writes w p s acts).log ≡ w.log ++ acts
unfolding do_writes next_write emit update
do_writes-log w p s [] = sym (append-nil w.log)
do_writes-log w p s (a ∷ more) =
    do_writes-log _ p (record s { to_write = more }) more ∙ append_assoc w.log (a ∷ []) more

land_udp-log :
    (w : ServerWorker) (p c : ℕ) (s : Session) (first : Bytes)
    → s.finished ≡ false
    → (land_udp w p c first (some s)).log ≡ w.log ++ (activated s c first).to_write
unfolding land_udp update
land_udp-log w p c s first live =
    let s' : Session = activated s c first in
    ap
      (λ b.
        (if b then emit w (conn_closed c ∷ []) else do_writes (update w p s') p s' s'.to_write).log)
      live
    ∙ do_writes-log (update w p s') p s' s'.to_write

-- Datagrams with data that come to a UDP session before its dial has ended, at most 64 with those that
-- wait, are written to the connection in their order behind the first one when the dial ends.
pub land_udp-deliver_all :
    (w : ServerWorker) (p c : ℕ) (s : Session) (first : Bytes) (ds : List Bytes)
    → Waiting s
    → All HasData ds
    → get_elem? w.store p ≡ some s
    → length s.udp_pending + length ds ≤ max_udp_pending
    → (land_udp (deliver_all w p ds) p c first (get_elem? (deliver_all w p ds).store p)).log
      ≡ w.log
        ++ ((if ltb 0 (length first) then conn_written c first ∷ [] else [])
            ++ map (conn_written c) (s.udp_pending ++ ds))
unfolding activated queue
land_udp-deliver_all w p c s first ds v n k fits =
    let q = deliver_all-Queued w p s ds v n k fits in
    let w' : ServerWorker = deliver_all w p ds in
    ap (λ o. (land_udp w' p c first o).log) q.at_place
    ∙ land_udp-log w' p c (queue s ds) first v.live
    ∙ ap (λ l. l ++ (activated (queue s ds) c first).to_write) q.same_log
