-- ===== src/Proto/Trojan/Handshake.antt =====
-- proto/trojan/trojan.go: the server takes from a client's header what the client put into it.
use ntr.Prelude.{
  ℕ, ◌%◌, ◌≤◌, ◌≡◌, refl, ap, ◌∙◌, arith, Option, some, inl, inr, [], ◌∷◌, ◌++◌, append_assoc, ◌==◌,
  length, Bool-cases,
}
use ntr.Prelude.Bytes.{Bytes, IsU16, be16, be16_read}
use ntr.Addr.{Addr, Socksaddr, is4, is_fqdn, from_ip_port}
use ntr.Proto.Stream.{ok, at, and_then-ok, read_full_over}
use ntr.Proto.Wire.{
  as4, as16, addr_from4, addr_from16, IsSendable, received, length-as4, length-as16, addr_from4-as4,
  addr_from16-as16,
}
use ntr.Proto.Trojan.{
  hash_len, cmd_udp, crlf, atyp_ipv4, atyp_domain, atyp_ipv6, expect_crlf, read_host, read_request,
  write_request, client_header, server_handshake, ip_host, name_host,
}

read_host-name :
    (name t o : Bytes)
    → length name ≤ 255
    → read_host atyp_domain (at (length name % 256 ∷ (name ++ t)) o) ≡ (ok (name_host name), at t o)
unfolding read_host
read_host-name name t o h =
    and_then-ok _ (read_full_over 1 (length name % 256 ∷ []) (name ++ t) _ o refl refl)
      (and_then-ok _ (read_full_over (length name % 256) name t _ o refl (omega arith)) refl)

read_host-ip4 :
    (a t o : Bytes)
    → length a ≡ 4
    → read_host atyp_ipv4 (at (a ++ t) o) ≡ (ok (ip_host (addr_from4 a)), at t o)
unfolding read_host
read_host-ip4 a t o h = and_then-ok _ (read_full_over 4 a t _ o refl h) refl

read_host-ip6 :
    (a t o : Bytes)
    → length a ≡ 16
    → read_host atyp_ipv6 (at (a ++ t) o) ≡ (ok (ip_host (addr_from16 a)), at t o)
unfolding read_host
read_host-ip6 a t o h = and_then-ok _ (read_full_over 16 a t _ o refl h) refl

-- From a host that was read on, the port and the result.
request_of :
    (cmd atyp port : ℕ) (rest t o : Bytes) (host : Socksaddr)
    → IsU16 port
    → read_host atyp (at rest o) ≡ (ok host, at (be16 port ++ t) o)
    → read_request (at (cmd ∷ atyp ∷ rest) o) ≡ (ok (cmd, record host { port = port }), at t o)
unfolding read_request
request_of cmd atyp port rest t o host fits h =
    and_then-ok _ (read_full_over 2 (cmd ∷ atyp ∷ []) rest _ o refl refl) (
      and_then-ok _ h (
        and_then-ok _ (read_full_over 2 (be16 port) t _ o refl refl)
          (ap (λ (n : ℕ). (ok (cmd, record host { port = n }), at t o)) (be16_read port fits))))

read_request-write_request :
    (cmd : ℕ) (d : Socksaddr) (t o : Bytes)
    → IsSendable d
    → read_request (at (write_request cmd d ++ t) o) ≡ (ok (cmd, received d), at t o)
unfolding write_request received from_ip_port
read_request-write_request cmd d t o v = elim (Bool-cases (is_fqdn d)) [
  | inl name ↦
      rw (name, append_assoc d.fqdn (be16 d.port) t)
        (request_of cmd atyp_domain d.port _ t o _ v.port_fits
          (read_host-name d.fqdn (be16 d.port ++ t) o v.name_fits))
  | inr ip ↦ elim (Bool-cases (is4 d.addr)) [
    | inl four ↦
        rw (ip, four, append_assoc (as4 d.addr) (be16 d.port) t)
          (request_of cmd atyp_ipv4 d.port _ t o _ v.port_fits
              (read_host-ip4 (as4 d.addr) (be16 d.port ++ t) o (length-as4 d.addr))
            ∙ ap (λ (a : Addr). (ok (cmd, from_ip_port a d.port), at t o))
                (addr_from4-as4 d.addr four v.addr_fits))
    | inr six ↦
        rw (ip, six, append_assoc (as16 d.addr) (be16 d.port) t)
          (request_of cmd atyp_ipv6 d.port _ t o _ v.port_fits
              (read_host-ip6 (as16 d.addr) (be16 d.port ++ t) o (length-as16 d.addr))
            ∙ ap (λ (a : Addr). (ok (cmd, from_ip_port a d.port), at t o))
                (addr_from16-as16 d.addr six v.addr_fits))
  ]
]

expect_crlf-crlf : (t o : Bytes) → expect_crlf (at (crlf ++ t) o) ≡ (ok tt, at t o)
unfolding expect_crlf
expect_crlf-crlf t o = and_then-ok _ (read_full_over 2 crlf t _ o refl refl) refl

-- The server's handshake on a header that `h` stands at the front of.
server_on_header :
    {Ref : Type 0} (auth : Bytes → Option Ref) (ref : Ref) (h : Bytes) (cmd : ℕ) (d : Socksaddr)
    (t o : Bytes)
    → length h ≡ hash_len
    → auth h ≡ some ref
    → IsSendable d
    → server_handshake auth (at (h ++ (crlf ++ (write_request cmd d ++ (crlf ++ t)))) o) ≡ (
      ok (record { dst = received d; cred = ref; is_udp = cmd == cmd_udp; command = cmd }),
      at t o,
    )
unfolding server_handshake
server_on_header auth ref h cmd d t o l known v =
    and_then-ok _ (read_full_over hash_len h _ _ o refl l) (
      and_then-ok _ (expect_crlf-crlf _ o) (
        and_then-ok _ (read_request-write_request cmd d (crlf ++ t) o v)
          (and_then-ok _ (expect_crlf-crlf t o) (rw known refl))))

-- A server that reads what a client has sent for a target, and the payload behind it, takes the
-- client's user, command and target from it and leaves exactly the payload; where the key is 56
-- bytes, the authenticator knows it and the target can be sent.
pub server_handshake-client_header :
    {Ref : Type 0} (auth : Bytes → Option Ref) (ref : Ref) (key : Bytes → Bytes) (password : Bytes)
    (cmd : ℕ) (d : Socksaddr) (payload o : Bytes)
    → length (key password) ≡ hash_len
    → auth (key password) ≡ some ref
    → IsSendable d
    → server_handshake auth (at (client_header key cmd password d ++ payload) o) ≡ (
      ok (record { dst = received d; cred = ref; is_udp = cmd == cmd_udp; command = cmd }),
      at payload o,
    )
unfolding client_header
server_handshake-client_header auth ref key password cmd d payload o l known v =
    rw
      (
        append_assoc (key password) (crlf ++ (write_request cmd d ++ crlf)) payload,
        append_assoc (write_request cmd d) crlf payload,
      )
      (server_on_header auth ref (key password) cmd d payload o l known v)
