-- ===== src/Proto/Socks/Gate.antt =====
-- proto/socks: whether an inbound with users lets a request in without a user.
use ntr.Prelude.{
  ℕ, zero, suc, ◌/◌, ◌%◌, ◌<◌, ◌≡◌, refl, ap, ◌∙◌, sym, arith, true, false, Option, none, some, [],
  ◌∷◌, ◌++◌, append_assoc, append-nil, ◌==◌, length, All, take,
}
use ntr.Prelude.Bytes.{Bytes, be16_read, IsU16}
use ntr.Addr.{Addr, Socksaddr, from_ip_port}
use ntr.Proto.Stream.{Stream, ok, at, and_then-ok, read_full_over, write-ok}
use ntr.Proto.Wire.{addr_from4}
use ntr.Proto.Socks.Socks4.{
  version4, cmd4_connect, rep4_granted, max_socks4_field, is_socks4a_marker, read_field,
  read_cstring, reply4, read_target4, ref_or, grant4, server_handshake4,
}
use ntr.Proto.Socks.Server.{Local, server_handshake}

-- A field of bytes that are not zero, behind those that the loop has.
read_field-nul :
    (rounds : ℕ) (out field t o : Bytes)
    → length field < rounds
    → All (λ b. 0 < b) field
    → read_field rounds out (at (field ++ (0 ∷ t)) o) ≡ (ok (out ++ field), at t o)
unfolding read_field
read_field-nul zero out field t o h k = absurd (omega arith)
read_field-nul (suc rounds) out [] t o h k =
    and_then-ok _ (read_full_over 1 (0 ∷ []) t _ o refl refl)
      (ap (λ x. (ok x, at t o)) (sym (append-nil out)))
read_field-nul (suc rounds) out (c ∷ cs) t o h (k, ks) =
    and_then-ok _ (read_full_over 1 (c ∷ []) (cs ++ (0 ∷ t)) _ o refl refl) (
      rw nonzero (
        read_field-nul rounds (out ++ (c ∷ [])) cs t o (omega arith) ks
        ∙ ap (λ x. (ok x, at t o)) (append_assoc out (c ∷ []) cs)))
  where
    nonzero : (c == 0) ≡ false
    nonzero = ground arith

-- A SOCKS4 request for a connection to an address, of a client that names any user or none.
abbrev pub request4 : ℕ → Bytes → Bytes → Bytes → Bytes
request4 port ip userid payload =
    version4 ∷ cmd4_connect ∷ port / 256 % 256 ∷ port % 256 ∷ (ip ++ (userid ++ (0 ∷ payload)))

read_target4-plain :
    (ip : Bytes) (port : ℕ) (a : Addr) (s : Stream)
    → is_socks4a_marker ip ≡ false
    → read_target4 ip port a s ≡ (ok (from_ip_port a port), s)
unfolding read_target4
read_target4-plain ip port a s h = rw h refl

-- Whom the request of a client without a password runs as.
abbrev pub empty_key_or : {Ref : Type 0} → Ref → Option Ref → Ref
empty_key_or ambient none = ambient
empty_key_or ambient (some ref) = ref

grant4-connect :
    {Ref : Type 0} (ambient : Ref) (auth : Bytes → Option Ref) (o : Option Ref) (port : ℕ)
    (a : Addr) (dst : Socksaddr) (i out : Bytes)
    → auth [] ≡ o
    → grant4 ambient auth cmd4_connect port a dst (at i out) ≡ (
      ok (record {
        cred = empty_key_or ambient o;
        is_udp = false;
        command = cmd4_connect;
        dst = dst;
      }),
      at i (out ++ reply4 rep4_granted port a),
    )
unfolding grant4 ref_or
grant4-connect ambient auth none port a dst i o h =
    and_then-ok _ (write-ok (reply4 rep4_granted port a) i o) (rw h refl)
grant4-connect ambient auth (some ref) port a dst i o h =
    and_then-ok _ (write-ok (reply4 rep4_granted port a) i o) (rw h refl)

-- An inbound that requires users grants every request of SOCKS4 for a connection to an address that is
-- no marker of SOCKS4a, with a user of less than 256 bytes that are not zero. The user is read and
-- forgotten: the request runs as the one whom the authenticator knows for the empty key, and as the
-- ambient one where it knows none.
pub server_handshake-request4 :
    {Ref : Type 0} (ambient : Ref) (auth : Bytes → Option Ref) (here : Local) (port : ℕ)
    (ip userid payload o : Bytes)
    → IsU16 port
    → length ip ≡ 4
    → is_socks4a_marker ip ≡ false
    → length userid < max_socks4_field
    → All (λ b. 0 < b) userid
    → server_handshake ambient auth here true (at (request4 port ip userid payload) o) ≡ (
      ok (record {
        cred = empty_key_or ambient (auth []);
        is_udp = false;
        command = cmd4_connect;
        dst = from_ip_port (addr_from4 ip) port;
      }),
      at payload (o ++ reply4 rep4_granted port (addr_from4 ip)),
    )
unfolding server_handshake server_handshake4 read_cstring
server_handshake-request4 ambient auth here port ip userid payload o fits four plain short named =
    let head = cmd4_connect ∷ port / 256 % 256 ∷ port % 256 ∷ ip in
    and_then-ok _ (read_full_over 1 (version4 ∷ []) _ _ o refl refl) (
      and_then-ok _ (read_full_over 7 head (userid ++ (0 ∷ payload)) _ o refl (omega (arith, four)))
        (and_then-ok _ (read_field-nul max_socks4_field [] userid payload o short named) (
          rw (be16_read port fits, whole)
            (and_then-ok _ (read_target4-plain ip port (addr_from4 ip) (at payload o) plain)
              (grant4-connect ambient auth (auth []) port (addr_from4 ip) _ payload o refl)))))
  where
    take-length : (xs : Bytes) → take (length xs) xs ≡ xs
    take-length [] = refl
    take-length (x ∷ xs) = ap (λ ys. x ∷ ys) (take-length xs)

    whole : take 4 ip ≡ ip
    whole = ap (λ n. take n ip) (sym four) ∙ take-length ip
