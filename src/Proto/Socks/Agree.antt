-- ===== src/Proto/Socks/Agree.antt =====
-- proto/socks: the client's handshake and the server's, each on what the other sends.
use ntr.Prelude.{
  ℕ, ◌%◌, ◌≤◌, ◌<◌, ◌≡◌, refl, ap, ◌∙◌, arith, true, false, Option, some, inl, inr, [], ◌∷◌, ◌++◌,
  append_assoc, ltb, if◌then◌else◌, length, Bool-cases,
}
use ntr.Prelude.Bytes.{Bytes, be16, be16_read, IsU16}
use ntr.Addr.{Addr, Socksaddr, is4, is_fqdn}
use ntr.Proto.Stream.{ok, at, and_then-ok, read_full_over, write-ok}
use ntr.Proto.Wire.{
  as4, as16, addr_from4, addr_from16, IsSendable, received, length-as4, length-as16, addr_from4-as4,
  addr_from16-as16,
}
use ntr.Proto.Socks.Address.{
  version, cmd_connect, atyp_ipv4, atyp_domain, atyp_ipv6, auth_version, method_no_auth,
  method_user_pass, no_dst, Request, read_host, read_addr, write_socks_addr, reply,
}
use ntr.Proto.Socks.Server.{
  Local, contains, user_of, server_user_pass, negotiate, serve, read_request5, server_handshake5,
  server_handshake,
}
use ntr.Proto.Socks.Client.{
  user_of_key, pass_of_key, user_pass_message, send_user_pass, client_user_pass, greeting,
  client_negotiate, read_reply, connect_request, client_handshake,
}

addr_of :
    (atyp port : ℕ) (rest t o : Bytes) (host : Socksaddr)
    → IsU16 port
    → read_host atyp (at rest o) ≡ (ok host, at (be16 port ++ t) o)
    → read_addr atyp (at rest o) ≡ (ok (record host { port = port }), at t o)
unfolding read_addr
addr_of atyp port rest t o host fits h = and_then-ok _ h (
    and_then-ok _ (read_full_over 2 (be16 port) t _ o refl refl)
      (ap (λ (n : ℕ). (ok (record host { port = n }), at t o)) (be16_read port fits)))

host_name :
    (name t o : Bytes)
    → length name ≤ 255
    → read_host atyp_domain (at (length name % 256 ∷ (name ++ t)) o)
      ≡ (ok (record no_dst { fqdn = name }), at t o)
unfolding read_host
host_name name t o h =
    and_then-ok _ (read_full_over 1 (length name % 256 ∷ []) (name ++ t) _ o refl refl)
      (and_then-ok _ (read_full_over (length name % 256) name t _ o refl (omega arith)) refl)

host_ip4 :
    (a t o : Bytes)
    → length a ≡ 4
    → read_host atyp_ipv4 (at (a ++ t) o) ≡ (ok (record no_dst { addr = addr_from4 a }), at t o)
unfolding read_host
host_ip4 a t o h = and_then-ok _ (read_full_over 4 a t _ o refl h) refl

host_ip6 :
    (a t o : Bytes)
    → length a ≡ 16
    → read_host atyp_ipv6 (at (a ++ t) o) ≡ (ok (record no_dst { addr = addr_from16 a }), at t o)
unfolding read_host
host_ip6 a t o h = and_then-ok _ (read_full_over 16 a t _ o refl h) refl

-- The type byte of an address and what stands behind it.
pub atyp_of : Socksaddr → ℕ
atyp_of d = if is_fqdn d then atyp_domain else if is4 d.addr then atyp_ipv4 else atyp_ipv6

pub host_wire : Socksaddr → Bytes
host_wire d =
    if is_fqdn d
    then length d.fqdn % 256 ∷ d.fqdn
    else if is4 d.addr
    then as4 d.addr
    else as16 d.addr

write_socks_addr_parts :
    (d : Socksaddr) (t : Bytes)
    → write_socks_addr d ++ t ≡ atyp_of d ∷ (host_wire d ++ (be16 d.port ++ t))
unfolding write_socks_addr atyp_of host_wire
write_socks_addr_parts d t = ground (
  arith,
  append_assoc d.fqdn (be16 d.port) t,
  append_assoc (as4 d.addr) (be16 d.port) t,
  append_assoc (as16 d.addr) (be16 d.port) t,
)

pub read_addr-host_wire :
    (d : Socksaddr) (t o : Bytes)
    → IsSendable d
    → read_addr (atyp_of d) (at (host_wire d ++ (be16 d.port ++ t)) o) ≡ (ok (received d), at t o)
unfolding atyp_of host_wire received
read_addr-host_wire d t o v = elim (Bool-cases (is_fqdn d)) [
  | inl name ↦ rw name (
      addr_of atyp_domain d.port _ t o _ v.port_fits
        (host_name d.fqdn (be16 d.port ++ t) o v.name_fits))
  | inr ip ↦ elim (Bool-cases (is4 d.addr)) [
    | inl four ↦
        rw (ip, four)
          (addr_of atyp_ipv4 d.port _ t o _ v.port_fits
              (host_ip4 (as4 d.addr) (be16 d.port ++ t) o (length-as4 d.addr))
            ∙ ap (λ (a : Addr). (ok (record no_dst { addr = a; port = d.port }), at t o))
                (addr_from4-as4 d.addr four v.addr_fits))
    | inr six ↦
        rw (ip, six)
          (addr_of atyp_ipv6 d.port _ t o _ v.port_fits
              (host_ip6 (as16 d.addr) (be16 d.port ++ t) o (length-as16 d.addr))
            ∙ ap (λ (a : Addr). (ok (record no_dst { addr = a; port = d.port }), at t o))
                (addr_from16-as16 d.addr six v.addr_fits))
  ]
]

-- What the two sides send where the client has a key and the server asks for one.
pub client_sends : Bytes → Socksaddr → Bytes
client_sends key d =
    greeting key ++ (user_pass_message (user_of_key key) (pass_of_key key) ++ connect_request d)

pub server_sends : Bytes
server_sends = (version ∷ method_user_pass ∷ []) ++ ((auth_version ∷ 0x00 ∷ []) ++ reply 0x00)

-- The address 0.0.0.0:0, which the server answers with.
abbrev any_addr : Socksaddr
any_addr = record no_dst { addr = addr_from4 (0 ∷ 0 ∷ 0 ∷ 0 ∷ []) }

read_reply-reply : (t o : Bytes) → read_reply (at (reply 0x00 ++ t) o) ≡ (ok any_addr, at t o)
unfolding read_reply reply
read_reply-reply t o =
    and_then-ok _
      (read_full_over 4 (version ∷ 0x00 ∷ 0x00 ∷ atyp_ipv4 ∷ []) (0 ∷ 0 ∷ 0 ∷ 0 ∷ 0 ∷ 0 ∷ t) _ o
        refl refl)
      (addr_of atyp_ipv4 0 (0 ∷ 0 ∷ 0 ∷ 0 ∷ (be16 0 ++ t)) t o any_addr (omega arith)
        (host_ip4 (0 ∷ 0 ∷ 0 ∷ 0 ∷ []) (be16 0 ++ t) o refl))

send_user_pass_lem :
    (user pass t o : Bytes)
    → length user ≤ 255
    → length pass ≤ 255
    → send_user_pass user pass (at (auth_version ∷ 0x00 ∷ t) o)
      ≡ (ok tt, at t (o ++ user_pass_message user pass))
unfolding send_user_pass
send_user_pass_lem user pass t o h k =
    rw (long_user, long_pass)
      (and_then-ok _ (write-ok (user_pass_message user pass) (auth_version ∷ 0x00 ∷ t) o) (
        and_then-ok _
          (read_full_over 2 (auth_version ∷ 0x00 ∷ []) t _ (o ++ user_pass_message user pass) refl
            refl)
          refl))
  where
    long_user : ltb 255 (length user) ≡ false
    long_user = ground arith

    long_pass : ltb 255 (length pass) ≡ false
    long_pass = ground arith

-- The client's side.
client_side :
    (key : Bytes) (d : Socksaddr) (rest : Bytes)
    → length (user_of_key key) ≤ 255
    → length (pass_of_key key) ≤ 255
    → client_handshake key d (at (server_sends ++ rest) []) ≡ (ok tt, at rest (client_sends key d))
unfolding client_handshake client_negotiate client_user_pass server_sends client_sends
client_side key d rest h k =
    let user = user_of_key key in
    let pass = pass_of_key key in
    let behind : Bytes = auth_version ∷ 0x00 ∷ (reply 0x00 ++ rest) in
    and_then-ok _
      (and_then-ok _ (write-ok (greeting key) (version ∷ method_user_pass ∷ behind) []) (
        and_then-ok _
          (read_full_over 2 (version ∷ method_user_pass ∷ []) behind _ (greeting key) refl refl)
          (send_user_pass_lem user pass (reply 0x00 ++ rest) (greeting key) h k)))
      (and_then-ok _
        (write-ok (connect_request d) (reply 0x00 ++ rest)
          (greeting key ++ user_pass_message user pass))
        (and_then-ok _ (read_reply-reply rest _) (
          ap (λ x. (ok tt, at rest x))
            (append_assoc (greeting key) (user_pass_message user pass) (connect_request d)))))

greeting_key :
    (key : Bytes)
    → 0 < length key
    → greeting key ≡ version ∷ 2 ∷ method_no_auth ∷ method_user_pass ∷ []
unfolding greeting
greeting_key key n = ground arith

module _ {Ref : Type 0} (ambient : Ref) (auth : Bytes → Option Ref) (here : Local) (ref : Ref) where
  -- The request that a server makes of a client's.
  abbrev pub connect_to : Socksaddr → Request Ref
  connect_to d = record { cred = ref; is_udp = false; command = cmd_connect; dst = received d }

  server_user_pass_lem :
      (user pass t o : Bytes)
      → length user ≤ 255
      → length pass ≤ 255
      → auth (user ++ (b':' ∷ pass)) ≡ some ref
      → server_user_pass ambient auth (at (user_pass_message user pass ++ t) o)
        ≡ (ok ref, at t (o ++ (auth_version ∷ 0x00 ∷ [])))
  unfolding server_user_pass user_pass_message user_of
  server_user_pass_lem user pass t o h k known =
      and_then-ok _
        (read_full_over 2 (auth_version ∷ length user % 256 ∷ [])
          (user ++ (length pass % 256 ∷ (pass ++ t))) _ o
          (ap (λ x. auth_version ∷ length user % 256 ∷ x)
            (append_assoc user (length pass % 256 ∷ pass) t))
          refl)
        (and_then-ok _
          (read_full_over (length user % 256) user (length pass % 256 ∷ (pass ++ t)) _ o refl
            (omega arith))
          (and_then-ok _ (read_full_over 1 (length pass % 256 ∷ []) (pass ++ t) _ o refl refl) (
            and_then-ok _ (read_full_over (length pass % 256) pass t _ o refl (omega arith))
              (rw known (and_then-ok _ (write-ok (auth_version ∷ 0x00 ∷ []) t o) refl)))))

  read_request5_lem :
      (d : Socksaddr) (t o : Bytes)
      → IsSendable d
      → read_request5 ambient auth here ref (at (connect_request d ++ t) o)
        ≡ (ok (connect_to d), at t (o ++ reply 0x00))
  unfolding read_request5 connect_request serve
  read_request5_lem d t o v =
      and_then-ok _
        (read_full_over 4 (version ∷ cmd_connect ∷ 0x00 ∷ atyp_of d ∷ [])
          (host_wire d ++ (be16 d.port ++ t)) _ o
          (ap (λ x. version ∷ cmd_connect ∷ 0x00 ∷ x) (write_socks_addr_parts d t)) refl)
        (and_then-ok _ (read_addr-host_wire d t o v)
          (and_then-ok _ (write-ok (reply 0x00) t o) refl))

  -- The server's side of a client with a key.
  server_side :
      (key : Bytes) (d : Socksaddr) (payload : Bytes)
      → 0 < length key
      → length (user_of_key key) ≤ 255
      → length (pass_of_key key) ≤ 255
      → auth (user_of_key key ++ (b':' ∷ pass_of_key key)) ≡ some ref
      → IsSendable d
      → server_handshake ambient auth here true (at (client_sends key d ++ payload) [])
        ≡ (ok (connect_to d), at payload server_sends)
  unfolding server_handshake server_handshake5 negotiate contains client_sends server_sends
  server_side key d payload n h k known v =
      let user = user_of_key key in
      let pass = pass_of_key key in
      let message = user_pass_message user pass in
      let behind = message ++ (connect_request d ++ payload) in
      rw (greeting_key key n) (
        and_then-ok _
          (read_full_over 1 (version ∷ []) (2 ∷ method_no_auth ∷ method_user_pass ∷ behind) _ []
            (ap (λ x. version ∷ 2 ∷ method_no_auth ∷ method_user_pass ∷ x)
              (append_assoc message (connect_request d) payload))
            refl)
          (and_then-ok _
            (read_full_over 1 (2 ∷ []) (method_no_auth ∷ method_user_pass ∷ behind) _ [] refl refl)
            (and_then-ok _
              (read_full_over 2 (method_no_auth ∷ method_user_pass ∷ []) behind _ [] refl refl)
              (and_then-ok _
                (and_then-ok _ (write-ok (version ∷ method_user_pass ∷ []) behind []) (
                  server_user_pass_lem user pass (connect_request d ++ payload)
                    (version ∷ method_user_pass ∷ []) h k known))
                (read_request5_lem d payload
                  ((version ∷ method_user_pass ∷ []) ++ (auth_version ∷ 0x00 ∷ [])) v)))))

  -- A client with a key and a server that requires users come to terms, each on exactly what the other
  -- sends: the client ends with no error, the server takes the user and the target from it, and both
  -- leave what follows; where the key is not empty, its parts have at most 255 bytes, the authenticator
  -- knows user, colon and password, and the target can be sent.
  pub client_handshake-server_handshake :
      (key : Bytes) (d : Socksaddr) (payload rest : Bytes)
      → 0 < length key
      → length (user_of_key key) ≤ 255
      → length (pass_of_key key) ≤ 255
      → auth (user_of_key key ++ (b':' ∷ pass_of_key key)) ≡ some ref
      → IsSendable d
      → (client_handshake key d (at (server_sends ++ rest) [])
          ≡ (ok tt, at rest (client_sends key d)))
        × (server_handshake ambient auth here true (at (client_sends key d ++ payload) [])
            ≡ (ok (connect_to d), at payload server_sends))
  client_handshake-server_handshake key d payload rest n h k known v =
      (client_side key d rest h k, server_side key d payload n h k known v)
