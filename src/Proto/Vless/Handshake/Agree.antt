-- ===== src/Proto/Vless/Handshake/Agree.antt =====
-- proto/vless/vless.go: the server takes from a client's header what the client put into it.
use ntr.Prelude.{
  ℕ, ◌%◌, ◌/◌, ◌≤◌, ◌≡◌, refl, ap, ◌∙◌, sym, arith, Bool, false, inl, inr, [], ◌∷◌, ◌++◌,
  append_assoc, if◌then◌else◌, length, length-append, get_or, Bool-cases, Option, some,
}
use ntr.Prelude.Bytes.{Bytes, IsU16, be16, be16_read, get_or-append_zero, take-append_eq}
use ntr.Prelude.Strings.{bytes_eq_iff}
use ntr.Addr.{Addr, Socksaddr, is4, is_fqdn, from_ip_port, from_fqdn}
use ntr.Buf.{new_buffer}
use ntr.Proto.Stream.{Stream, ok, at, and_then-ok, read_full_over, write-ok}
use ntr.Proto.Wire.{
  as4, as16, addr_from4, addr_from16, IsSendable, received, length-as4, length-as16, addr_from4-as4,
  addr_from16-as16,
}
use ntr.Proto.Vless.Codec.{
  version, atyp_ipv4, atyp_domain, atyp_ipv6, no_dst, RequestHeader, has_address,
}
use ntr.Proto.Vless.Streaming.{
  carrier_fqdn, read_addr_stream, read_addr_port_stream, read_addons_stream, read_target,
  read_request_header, write_encoded, write_request_header, command_for, client_handshake,
  request_target, accept, server_handshake,
}
use ntr.Proto.Vless.Handshake.Encode.{
  addr_wire, target_wire, header_wire, encode-header_wire, length-header_wire,
}

target_of :
    (port atyp : ℕ) (rest t o : Bytes) (d : Socksaddr)
    → IsU16 port
    → read_addr_stream port atyp (at rest o) ≡ (ok d, at t o)
    → read_addr_port_stream (at (be16 port ++ (atyp ∷ rest)) o) ≡ (ok d, at t o)
unfolding read_addr_port_stream
target_of port atyp rest t o d fits h =
    and_then-ok _ (read_full_over 3 (port / 256 % 256 ∷ port % 256 ∷ atyp ∷ []) rest _ o refl refl)
      (rw (be16_read port fits) h)

read_name :
    (port : ℕ) (name t o : Bytes)
    → length name ≤ 255
    → read_addr_stream port atyp_domain (at (length name % 256 ∷ (name ++ t)) o)
      ≡ (ok (from_fqdn name port), at t o)
unfolding read_addr_stream
read_name port name t o h =
    and_then-ok _ (read_full_over 1 (length name % 256 ∷ []) (name ++ t) _ o refl refl)
      (and_then-ok _ (read_full_over (length name % 256) name t _ o refl (omega arith)) refl)

read_ip4 :
    (port : ℕ) (a t o : Bytes)
    → length a ≡ 4
    → read_addr_stream port atyp_ipv4 (at (a ++ t) o)
      ≡ (ok (from_ip_port (addr_from4 a) port), at t o)
unfolding read_addr_stream
read_ip4 port a t o h = and_then-ok _ (read_full_over 4 a t _ o refl h) refl

read_ip6 :
    (port : ℕ) (a t o : Bytes)
    → length a ≡ 16
    → read_addr_stream port atyp_ipv6 (at (a ++ t) o)
      ≡ (ok (from_ip_port (addr_from16 a) port), at t o)
unfolding read_addr_stream
read_ip6 port a t o h = and_then-ok _ (read_full_over 16 a t _ o refl h) refl

read_addr_port_stream-addr_wire :
    (d : Socksaddr) (t o : Bytes)
    → IsSendable d
    → read_addr_port_stream (at (addr_wire d ++ t) o) ≡ (ok (received d), at t o)
unfolding addr_wire received from_ip_port from_fqdn
read_addr_port_stream-addr_wire d t o v = elim (Bool-cases (is_fqdn d)) [
  | inl name ↦
      rw name
        (target_of d.port atyp_domain _ t o _ v.port_fits (read_name d.port d.fqdn t o v.name_fits))
  | inr ip ↦ elim (Bool-cases (is4 d.addr)) [
    | inl four ↦
        rw (ip, four)
          (target_of d.port atyp_ipv4 _ t o _ v.port_fits
              (read_ip4 d.port (as4 d.addr) t o (length-as4 d.addr))
            ∙ ap (λ (a : Addr). (ok (from_ip_port a d.port), at t o))
                (addr_from4-as4 d.addr four v.addr_fits))
    | inr six ↦
        rw (ip, six)
          (target_of d.port atyp_ipv6 _ t o _ v.port_fits
              (read_ip6 d.port (as16 d.addr) t o (length-as16 d.addr))
            ∙ ap (λ (a : Addr). (ok (from_ip_port a d.port), at t o))
                (addr_from16-as16 d.addr six v.addr_fits))
  ]
]

-- The target that a header shows to the server's reader.
pub seen_target : RequestHeader → Socksaddr
seen_target h = if has_address h.command then received h.dst else no_dst

read_target-target_wire :
    (h : RequestHeader) (t o : Bytes)
    → IsSendable h.dst
    → read_target h.command (at (target_wire h ++ t) o) ≡ (ok (seen_target h), at t o)
unfolding read_target target_wire seen_target
read_target-target_wire h t o v = elim (Bool-cases (has_address h.command)) [
  | inl has ↦ rw has (read_addr_port_stream-addr_wire h.dst t o v)
  | inr no_target ↦ rw no_target refl
]

read_addons_stream_of :
    (a t o : Bytes)
    → length a ≤ 255
    → read_addons_stream (length a % 256) (at (a ++ t) o) ≡ (ok a, at t o)
unfolding read_addons_stream
read_addons_stream_of [] t o h = refl
read_addons_stream_of (x ∷ xs) t o h =
    ground (arith, read_full_over (length (x ∷ xs) % 256) (x ∷ xs) t ((x ∷ xs) ++ t) o refl)

regroup_header :
    (v l c : ℕ) (u a g t : Bytes)
    → (v ∷ (u ++ (l ∷ (a ++ (c ∷ g))))) ++ t ≡ (v ∷ (u ++ (l ∷ []))) ++ (a ++ (c ∷ (g ++ t)))
regroup_header v l c u a g t = simp append_assoc

-- Reading a header that stands in front of a payload gives its user, addons and command, and the
-- target where the command has one.
pub read_request_header-header_wire :
    (h : RequestHeader) (t o : Bytes)
    → length h.uuid ≡ 16
    → length h.addons ≤ 255
    → IsSendable h.dst
    → read_request_header (at (header_wire h ++ t) o)
      ≡ (ok (record h { dst = seen_target h }), at t o)
unfolding read_request_header header_wire
read_request_header-header_wire h t o u a v =
    let l = length h.addons % 256 in
    let fixed = version ∷ (h.uuid ++ (l ∷ [])) in
    let rest = h.addons ++ (h.command ∷ (target_wire h ++ t)) in
    let last : get_or (h.uuid ++ (l ∷ [])) 16 0 ≡ l =
      ap (λ k. get_or (h.uuid ++ (l ∷ [])) k 0) (sym u) ∙ get_or-append_zero h.uuid (l ∷ []) 0 in
    and_then-ok _
      (read_full_over 18 fixed rest _ o
        (regroup_header version l h.command h.uuid h.addons (target_wire h) t)
        (omega (arith, length-append h.uuid (l ∷ []), u)))
      (rw (last, take-append_eq 16 h.uuid (l ∷ []) u)
        (and_then-ok _ (read_addons_stream_of h.addons (h.command ∷ (target_wire h ++ t)) o a) (
          and_then-ok _ (read_full_over 1 (h.command ∷ []) (target_wire h ++ t) _ o refl refl)
            (and_then-ok _ (read_target-target_wire h t o v) refl))))

-- What a client of this code writes for a command.
pub write_request_header-header_wire :
    (uuid : Bytes) (cmd : ℕ) (d : Socksaddr) (i o : Bytes)
    → length uuid ≡ 16
    → IsSendable d
    → write_request_header uuid cmd d (at i o) ≡ (
      ok tt,
      at i (o ++ header_wire (record { uuid = uuid; addons = []; command = cmd; dst = d })),
    )
unfolding write_request_header write_encoded new_buffer
write_request_header-header_wire uuid cmd d i o u v =
    let h : RequestHeader = record { uuid = uuid; addons = []; command = cmd; dst = d } in
    rw (encode-header_wire new_buffer h (omega (arith, length-header_wire h u refl v)))
      (write-ok (header_wire h) i o)

-- The target of a request is the one that the client was asked for, the carrier of Mux.cool too,
-- which has no address on the wire.
request_target-command_for :
    (uuid : Bytes) (d : Socksaddr)
    → request_target (record {
      uuid = uuid;
      addons = [];
      command = command_for d;
      dst = seen_target (record { uuid = uuid; addons = []; command = command_for d; dst = d });
    })
      ≡ received d
unfolding request_target command_for seen_target received from_fqdn
request_target-command_for uuid d = ground (arith, bytes_eq_iff d.fqdn carrier_fqdn)

client_handshake_sent :
    (key : Bytes) (d : Socksaddr)
    → length key ≡ 16
    → IsSendable d
    → (client_handshake key d (at [] [])).1.output
      ≡ header_wire (record { uuid = key; addons = []; command = command_for d; dst = d })
unfolding client_handshake
client_handshake_sent key d k v =
    let wrote = write_request_header-header_wire key (command_for d) d [] [] k v in
    rw (k, wrote) refl

accept_plain :
    {Ref : Type 0} (is_vision : Bytes → Bool) (ref : Ref) (h : RequestHeader) (d to : Socksaddr)
    → h.addons ≡ []
    → is_vision [] ≡ false
    → h.command ≡ command_for d
    → request_target h ≡ to
    → (s : Stream)
    → accept is_vision (some ref) h s ≡ (
      ok (record { dst = to; cred = ref; is_udp = false; command = command_for d; vision = false }),
      s,
    )
unfolding accept command_for
accept_plain is_vision ref h d to a p c e s = ground arith

-- A server that reads what a client has sent for a target, and the payload behind it, takes the
-- client's user and target from it and leaves exactly the payload; where the key is 16 bytes, the
-- authenticator knows it, the target can be sent and no addons is not the vision flow. That holds
-- too for the target of the Mux.cool carrier, for which no address is sent.
pub server_handshake-client_handshake :
    {Ref : Type 0} (is_vision : Bytes → Bool) (auth : Bytes → Option Ref) (ref : Ref) (key : Bytes)
    (d : Socksaddr) (payload o : Bytes)
    → length key ≡ 16
    → auth key ≡ some ref
    → is_vision [] ≡ false
    → IsSendable d
    → server_handshake is_vision auth
        (at ((client_handshake key d (at [] [])).1.output ++ payload) o)
      ≡ (
        ok (record {
          dst = received d;
          cred = ref;
          is_udp = false;
          command = command_for d;
          vision = false;
        }),
        at payload o,
      )
unfolding server_handshake
server_handshake-client_handshake is_vision auth ref key d payload o k known plain v =
    let h : RequestHeader = record { uuid = key; addons = []; command = command_for d; dst = d } in
    rw (client_handshake_sent key d k v) (
      and_then-ok _ (read_request_header-header_wire h payload o k (omega arith) v) (
        rw known (
          accept_plain is_vision ref (record h { dst = seen_target h }) d (received d) refl plain
            refl (request_target-command_for key d) (at payload o))))
