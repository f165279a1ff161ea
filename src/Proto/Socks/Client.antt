-- ===== src/Proto/Socks/Client.antt =====
-- proto/socks/client.go: the client's handshake, and the request for UDP ASSOCIATE up to the address of
-- the relay.
use ntr.Prelude.{
  ◌%◌, not, ◌&&◌, ◌||◌, Option, none, some, [], ◌∷◌, ◌++◌, ◌==◌, ltb, if◌then◌else◌, length, get_or,
}
use ntr.Prelude.Bytes.{Bytes}
use ntr.Addr.{Addr, v4, v6, addr_eq, is_valid, Socksaddr, from_ip_port}
use ntr.Proto.Stream.{
  Io, pure, fail, ◌>>=◌, ◌>>◌, read_full, write, bad_version, refused_methods, unknown_method,
  long_credential, auth_failed, refused_request,
}
use ntr.Proto.Socks.Address.{
  version, cmd_connect, cmd_udp_assoc, atyp_ipv4, method_no_auth, method_user_pass, method_none,
  auth_version, read_addr, write_socks_addr,
}

-- The loop of `clientUserPass` that splits the key at its first colon.
unfoldable pub user_of_key : Bytes → Bytes
user_of_key [] = []
user_of_key (c ∷ cs) = if c == b':' then [] else c ∷ user_of_key cs

unfoldable pub pass_of_key : Bytes → Bytes
pass_of_key [] = []
pass_of_key (c ∷ cs) = if c == b':' then cs else pass_of_key cs

-- The message of the sub-negotiation.
unfoldable pub user_pass_message : Bytes → Bytes → Bytes
user_pass_message user pass =
    (auth_version ∷ length user % 256 ∷ []) ++ (user ++ ((length pass % 256 ∷ []) ++ pass))

unfoldable pub send_user_pass : Bytes → Bytes → Io (Unit {0})
send_user_pass user pass =
    if ltb 255 (length user) || ltb 255 (length pass) then fail long_credential else (do
      write (user_pass_message user pass)
      st ← read_full 2
      (if not (get_or st 1 0 == 0x00) then fail auth_failed else pure tt))

unfoldable pub client_user_pass : Bytes → Io (Unit {0})
client_user_pass key = send_user_pass (user_of_key key) (pass_of_key key)

unfoldable pub greeting : Bytes → Bytes
greeting key =
    if ltb 0 (length key)
    then version ∷ 2 ∷ method_no_auth ∷ method_user_pass ∷ []
    else version ∷ 1 ∷ method_no_auth ∷ []

unfoldable pub client_negotiate : Bytes → Io (Unit {0})
client_negotiate key = do
  write (greeting key)
  sel ← read_full 2
  (if not (get_or sel 0 0 == version)
      then fail bad_version
      else if get_or sel 1 0 == method_no_auth
      then pure tt
      else if get_or sel 1 0 == method_user_pass
      then client_user_pass key
      else if get_or sel 1 0 == method_none
      then fail refused_methods
      else fail unknown_method)

unfoldable pub read_reply : Io Socksaddr
read_reply = do
  h ← read_full 4
  (if not (get_or h 0 0 == version)
      then fail bad_version
      else if not (get_or h 1 0 == 0x00)
      then fail refused_request
      else read_addr (get_or h 3 0))

unfoldable pub connect_request : Socksaddr → Bytes
connect_request dst = (version ∷ cmd_connect ∷ 0x00 ∷ []) ++ write_socks_addr dst

unfoldable pub client_handshake : Bytes → Socksaddr → Io (Unit {0})
client_handshake key dst = do
  client_negotiate key
  write (connect_request dst)
  bound ← read_reply
  pure tt

unfoldable pub assoc_request : Bytes
assoc_request = version ∷ cmd_udp_assoc ∷ 0x00 ∷ atyp_ipv4 ∷ 0 ∷ 0 ∷ 0 ∷ 0 ∷ 0 ∷ 0 ∷ []

-- The relay that `DialPacketConn` dials: the server's answer, or the far end of the control
-- connection, where it is a TCP connection, if the answer names no address.
unfoldable pub relay_addr : Socksaddr → Option Addr → Socksaddr
relay_addr relay none = relay
relay_addr relay (some remote) =
    if (is_valid relay.addr && (addr_eq relay.addr (v4 0) || addr_eq relay.addr (v6 0 [])))
      || not (is_valid relay.addr)
    then from_ip_port remote relay.port
    else relay

unfoldable pub dial_packet_conn : Bytes → Option Addr → Io Socksaddr
dial_packet_conn key remote = do
  client_negotiate key
  write assoc_request
  relay ← read_reply
  pure (relay_addr relay remote)
