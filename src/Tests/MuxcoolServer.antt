-- ===== src/Tests/MuxcoolServer.antt =====
-- A server with one UDP session, which gets datagrams before its dial ends.
use ntr.Prelude.{
  ℕ, ◌≤◌, ◌≡◌, refl, arith, true, false, none, some, [], ◌∷◌, ◌++◌, ltb, if◌then◌else◌, length, map,
  get_elem?,
}
use ntr.Prelude.Maps.{lookup, insert, nat_Key, nat_eq}
use ntr.Prelude.Strings.{bytes_eq}
use ntr.Muxcool.Frame.{FrameMetadata, status_new, status_keep, option_data, network_udp}
use ntr.Muxcool.Server.{
  Session, ServerWorker, sent_end, dialed_udp, written_udp, activate_udp, activated, update,
  handle_keep, keep_found, keep_session, deliver_udp, flush, next_write, new_session,
  new_server_worker, conn_written, frame, step, steps, handle, handle_new, open_session,
  add_session, emit, is_control, max_udp_pending, max_server_sessions,
}
use ntr.Muxcool.Server.Alone.{finish, land_udp}
use ntr.Muxcool.Server.Sessions.{handle_new_capped, finish_once}
use ntr.Muxcool.Server.Pending.{steps-pending}
use ntr.Muxcool.Server.Table.{is_open, steps-sessions}
use ntr.Muxcool.Server.Delivery.{deliver_all, land_udp-deliver_all}

abbrev new_udp : FrameMetadata
new_udp = record {
  session_id = 7;
  status = status_new;
  option = option_data;
  network = network_udp;
  address = record { is_domain = true; domain = b'a' ∷ []; ip = [] };
  port = 53;
}

abbrev opened : ServerWorker
opened = steps (new_server_worker false) (frame new_udp (1 ∷ []) ∷ [])

abbrev waiting : Session
waiting = new_session 7 false true false

opened_session : get_elem? opened.store 0 ≡ some waiting
unfolding steps step handle handle_new open_session add_session emit is_control new_server_worker
    bytes_eq lookup
opened_session = refl

steps-pending_example : length waiting.udp_pending ≤ max_udp_pending
steps-pending_example = steps-pending false (frame new_udp (1 ∷ []) ∷ []) 0 waiting opened_session

land_udp-deliver_all_example :
    (land_udp
      (deliver_all opened 0 ((2 ∷ []) ∷ (3 ∷ []) ∷ []))
      0
      9
      (1 ∷ [])
      (get_elem? (deliver_all opened 0 ((2 ∷ []) ∷ (3 ∷ []) ∷ [])).store 0)).log
    ≡ opened.log
      ++ ((if ltb 0 (length {A = ℕ} (1 ∷ [])) then conn_written 9 (1 ∷ []) ∷ [] else [])
          ++ map (conn_written 9) (waiting.udp_pending ++ ((2 ∷ []) ∷ (3 ∷ []) ∷ [])))
land_udp-deliver_all_example =
    land_udp-deliver_all opened 0 9 waiting (1 ∷ []) ((2 ∷ []) ∷ (3 ∷ []) ∷ [])
      (record { no_control = refl; is_udp = refl; live = refl; dialing = refl })
      (omega arith, (omega arith, tt)) opened_session (omega arith)

handle_new_capped_example :
    length (handle_new (new_server_worker false) new_udp []).sessions ≤ max_server_sessions
unfolding is_control bytes_eq new_server_worker
handle_new_capped_example =
    handle_new_capped (new_server_worker false) new_udp [] refl (omega arith)

finish_once_example :
    ((finish (finish opened 0 true) 0 false).log ≡ opened.log ++ (sent_end 7 false ∷ []))
    × (lookup 7 (finish (finish opened 0 true) 0 false).sessions ≡ none)
    × (get_elem? (finish (finish opened 0 true) 0 false).store 0
        ≡ some (record waiting { finished = true; once = true; todo = [] }))
finish_once_example = finish_once opened 0 waiting true false opened_session refl

opened_entry : lookup 7 opened.sessions ≡ some 0
unfolding steps step handle handle_new open_session add_session emit is_control new_server_worker
    bytes_eq lookup insert nat_eq
opened_entry = refl

steps-sessions_example : is_open 7 (get_elem? opened.store 0) ≡ true
steps-sessions_example = steps-sessions false (frame new_udp (1 ∷ []) ∷ []) 7 0 opened_entry

-- A datagram that comes when the connection is there, but those that waited are not yet written,
-- overtakes them.
abbrev overtaking : ServerWorker
overtaking = steps opened (
    dialed_udp 0 9 (1 ∷ [])
    ∷ frame (record new_udp { status = status_keep }) (5 ∷ [])
    ∷ written_udp 0
    ∷ [])

overtaking-log :
    overtaking.log ≡ opened.log ++ (conn_written 9 (5 ∷ []) ∷ conn_written 9 (1 ∷ []) ∷ [])
unfolding steps step handle handle_new open_session add_session emit is_control new_server_worker
    bytes_eq lookup insert nat_eq activate_udp activated update handle_keep keep_found keep_session
    deliver_udp flush next_write
overtaking-log = refl
