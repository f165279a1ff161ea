-- ===== src/Proto/Socks/Server.antt =====
-- proto/socks/socks.go and `handleUDPAssoc` of udp.go: the handshake of SOCKS5, and the choice of the version.
use ntr.Prelude.{
  ℕ, Bool, true, false, not, ◌||◌, Option, none, some, [], ◌∷◌, ◌++◌, ◌==◌, if◌then◌else◌, get_or,
}
use ntr.Prelude.Bytes.{Bytes}
use ntr.Prelude.Strings.{bytes_eq}
use ntr.Addr.{Socksaddr}
use ntr.Proto.Stream.{
  Stream, Result, ok, err, Error, Io, pure, fail, ◌>>=◌, ◌>>◌, read_full, write, bad_version,
  no_auth, auth_version, auth_failed, bad_command, listen_failed,
}
use ntr.Proto.Stream
use ntr.Proto.Socks.Address
use ntr.Proto.Socks.Address.{
  Request, version, cmd_connect, cmd_udp_assoc, method_no_auth, method_user_pass, method_none,
  read_addr, reply, reply_addr, ipv4_zero, is_unspecified, no_dst,
}
use ntr.Proto.Socks.Socks4.{version4, server_handshake4, refuse}

-- `slices.Contains`
unfoldable pub contains : Bytes → ℕ → Bool
contains [] m = false
contains (x ∷ xs) m = x == m || contains xs m

-- The local end of a control connection: the address that it is bound to, none where it is no TCP
-- connection, and the port that `net.ListenUDP` opens there, none where it fails.
pub record Local : Type 0 where
  pub bind_ip : Bytes
  pub listen : Option ℕ

unfoldable pub relay_ip : Bytes → Bytes
relay_ip bind_ip = if bytes_eq bind_ip [] || is_unspecified bind_ip then ipv4_zero else bind_ip

module _ {Ref : Type 0} (ambient : Ref) (auth : Bytes → Option Ref) where
  unfoldable pub user_of : Option Ref → Io Ref
  user_of none = refuse (Address.auth_version ∷ 0x01 ∷ []) (fail auth_failed)
  user_of (some r) = do write (Address.auth_version ∷ 0x00 ∷ []); pure r

  unfoldable pub server_user_pass : Io Ref
  server_user_pass = do
    hdr ← read_full 2
    (if not (get_or hdr 0 0 == Address.auth_version) then fail Stream.auth_version else (do
      user ← read_full (get_or hdr 1 0)
      pl ← read_full 1
      pass ← read_full (get_or pl 0 0)
      user_of (auth (user ++ (b':' ∷ pass)))))

  -- The switch on the methods.
  unfoldable pub negotiate : Bool → Bytes → Io Ref
  negotiate auth_required methods =
      if auth_required
      then (if not (contains methods method_user_pass)
          then refuse (version ∷ method_none ∷ []) (fail no_auth)
          else (do write (version ∷ method_user_pass ∷ []); server_user_pass))
      else if contains methods method_no_auth
      then (do write (version ∷ method_no_auth ∷ []); pure ambient)
      else refuse (version ∷ method_none ∷ []) (fail no_auth)

  unfoldable pub assoc_on : Bytes → Option ℕ → Io (Request Ref)
  assoc_on bind_ip none = refuse (reply 0x01) (fail listen_failed)
  assoc_on bind_ip (some port) = do
    write (reply_addr 0x00 (relay_ip bind_ip) port)
    pure (record { cred = ambient; is_udp = true; command = cmd_udp_assoc; dst = no_dst })

  unfoldable pub handle_udp_assoc : Local → Io (Request Ref)
  handle_udp_assoc here = assoc_on here.bind_ip here.listen

  -- What is done with a request.
  unfoldable pub serve : Local → Ref → ℕ → Socksaddr → Io (Request Ref)
  serve here ref cmd dst =
      if cmd == cmd_udp_assoc
      then handle_udp_assoc here
      else if not (cmd == cmd_connect)
      then refuse (reply 0x07) (fail bad_command)
      else (do
        write (reply 0x00)
        pure (record { cred = ref; is_udp = false; command = cmd; dst = dst }))

  unfoldable pub read_request5 : Local → Ref → Io (Request Ref)
  read_request5 here ref = do
    h ← read_full 4
    (if not (get_or h 0 0 == version)
        then fail bad_version
        else (do dst ← read_addr (get_or h 3 0); serve here ref (get_or h 1 0) dst))

  unfoldable pub server_handshake5 : Local → Bool → Io (Request Ref)
  server_handshake5 here auth_required = do
    nm ← read_full 1
    methods ← read_full (get_or nm 0 0)
    ref ← negotiate auth_required methods
    read_request5 here ref

  -- `ServerHandshake`
  unfoldable pub server_handshake : Local → Bool → Io (Request Ref)
  server_handshake here auth_required = do
    v ← read_full 1
    (if get_or v 0 0 == version
        then server_handshake5 here auth_required
        else if get_or v 0 0 == version4
        then server_handshake4 ambient auth
        else fail bad_version)
