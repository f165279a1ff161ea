-- ===== src/Proto/Socks/Gate5.antt =====
-- proto/socks/socks.go: an inbound of SOCKS5 that requires users serves no one without a credential.
use ntr.Prelude.{
  ℕ, ◌≡◌, arith, true, false, Option, none, some, inl, inr, [], ◌∷◌, ◌++◌, ◌==◌, get_or, Bool-cases,
  refl, sym, ap, ◌∙◌, leb, leb→le, length, length-take, take, drop, take-append-drop, ==_iff,
}
use mathlib.Core.Path.{subst}
use ntr.Prelude.Bytes.{Bytes}
use ntr.Addr.{Socksaddr}
use ntr.Proto.Stream.{Stream, ok, Error, fail, and_then-eq-ok, read_full, write}
use ntr.Proto.Socks.Address
use ntr.Proto.Socks.Address.{
  Request, version, cmd_connect, cmd_udp_assoc, method_user_pass, read_addr, reply,
}
use ntr.Proto.Socks.Socks4.{refuse}
use ntr.Proto.Socks.Server.{
  Local, contains, user_of, server_user_pass, negotiate, assoc_on, handle_udp_assoc, serve,
  read_request5, server_handshake5,
}

-- A refusal is no success.
refuse-ne-ok :
    {A B : Type 0} (answer : Bytes) (e : Error) (s s' : Stream) (a : A)
    → refuse {A = A} answer (fail e) s ≡ (ok a, s')
    → B
unfolding refuse
refuse-ne-ok answer e s s' a h = absurd (cc)

-- What a read takes off the front of the bytes that came, and a write leaves there.
read_full-front :
    (n : ℕ) (p : Bytes) (s s' : Stream)
    → read_full n s ≡ (ok p, s')
    → (s.input ≡ p ++ s'.input) × (length p ≡ n)
unfolding read_full
read_full-front n p s s' h = elim (Bool-cases (leb n (length s.input))) [
  | inl enough ↦
      let e : (ok (take n s.input), record s { input = drop n s.input }) ≡ (ok p, s') =
        rw enough at h in
      let front : take n s.input ≡ p = ground (arith, e) in
      let rest : drop n s.input ≡ s'.input = ap (λ x. x.1.input) e in
      (
        sym (take-append-drop n s.input)
            ∙ ap (λ x. x ++ drop n s.input) front
            ∙ ap (λ x. p ++ x) rest,
        ap length (sym front)
            ∙ length-take n s.input
            ∙ omega (arith, leb→le n (length s.input) enough),
      )
  | inr short ↦ absurd (cc (rw short at h))
]

write-front : (p : Bytes) (s s' : Stream) → write p s ≡ (ok tt, s') → s.input ≡ s'.input
unfolding write
write-front p s s' h = ground (arith, h)

one_byte : (p : Bytes) → length p ≡ 1 → p ≡ get_or p 0 0 ∷ []
one_byte [] h = absurd (omega (arith, h))
one_byte (x ∷ []) h = refl
one_byte (x ∷ y ∷ p) h = absurd (omega (arith, h))

two_bytes : (p : Bytes) → length p ≡ 2 → p ≡ get_or p 0 0 ∷ get_or p 1 0 ∷ []
two_bytes [] h = absurd (omega (arith, h))
two_bytes (x ∷ []) h = absurd (omega (arith, h))
two_bytes (x ∷ y ∷ []) h = refl
two_bytes (x ∷ y ∷ z ∷ p) h = absurd (omega (arith, h))

-- The message of RFC 1929, a user and a password behind their lengths, with what follows it.
abbrev pub user_pass : Bytes → Bytes → Bytes → Bytes
user_pass user pass rest = 1 ∷ length user ∷ (user ++ (length pass ∷ (pass ++ rest)))

-- The methods behind their number.
abbrev pub method_list : Bytes → Bytes → Bytes
method_list methods rest = length methods ∷ (methods ++ rest)

module _ {Ref : Type 0} (ambient : Ref) (auth : Bytes → Option Ref) where
  -- The bytes are a user and a password that the authenticator takes, joined by a colon, for `ref`.
  pub record Shown (input : Bytes) (ref : Ref) : Type 0 where
    pub user : Bytes
    pub pass : Bytes
    pub rest : Bytes
    pub sent : input ≡ user_pass user pass rest
    pub known : auth (user ++ (b':' ∷ pass)) ≡ some ref

  user_of-eq-ok :
      (o : Option Ref) (ref : Ref) (s s' : Stream)
      → user_of ambient auth o s ≡ (ok ref, s')
      → o ≡ some ref
  unfolding user_of
  user_of-eq-ok none ref s s' h = refuse-ne-ok _ _ s s' ref h
  user_of-eq-ok (some r) ref s s' h =
      let (done, s1, p, q) = and_then-eq-ok (write (Address.auth_version ∷ 0x00 ∷ []) s) _ h in
      ground (arith, q)

  server_user_pass-Shown :
      (ref : Ref) (s s' : Stream)
      → server_user_pass ambient auth s ≡ (ok ref, s')
      → Shown s.input ref
  unfolding server_user_pass
  server_user_pass-Shown ref s s' h =
      let (hdr, s1, p1, q1) = and_then-eq-ok (read_full 2 s) _ h in
      elim (Bool-cases (get_or hdr 0 0 == Address.auth_version)) [
        | inl good ↦
            let q1' = rw good at q1 in
            let (user, s2, p2, q2) = and_then-eq-ok (read_full (get_or hdr 1 0) s1) _ q1' in
            let (pl, s3, p3, q3) = and_then-eq-ok (read_full 1 s2) _ q2 in
            let (pass, s4, p4, q4) = and_then-eq-ok (read_full (get_or pl 0 0) s3) _ q3 in
            let (i1, l1) = read_full-front 2 hdr s s1 p1 in
            let (i2, l2) = read_full-front (get_or hdr 1 0) user s1 s2 p2 in
            let (i3, l3) = read_full-front 1 pl s2 s3 p3 in
            let (i4, l4) = read_full-front (get_or pl 0 0) pass s3 s4 p4 in
            let tail : s2.input ≡ length pass ∷ (pass ++ s4.input) =
              i3
              ∙ ap (λ x. x ++ s3.input) (one_byte pl l3)
              ∙ ap (λ n. n ∷ s3.input) (sym l4)
              ∙ ap (λ x. length pass ∷ x) i4 in
            let head : s.input ≡ 1 ∷ length user ∷ s1.input =
              i1
              ∙ ap (λ x. x ++ s1.input) (two_bytes hdr l1)
              ∙ ap (λ n. n ∷ get_or hdr 1 0 ∷ s1.input) ((==_iff _ _).0 good)
              ∙ ap (λ n. 1 ∷ n ∷ s1.input) (sym l2) in
            record {
              user = user;
              pass = pass;
              rest = s4.input;
              sent = head ∙ ap (λ x. 1 ∷ length user ∷ x) (i2 ∙ ap (λ x. user ++ x) tail);
              known = user_of-eq-ok _ ref s4 s' q4;
            }
        | inr bad ↦ absurd (cc (rw bad at q1))
      ]

  negotiate-Shown :
      (methods : Bytes) (ref : Ref) (s s' : Stream)
      → negotiate ambient auth true methods s ≡ (ok ref, s')
      → Shown s.input ref
  unfolding negotiate
  negotiate-Shown methods ref s s' h = elim (Bool-cases (contains methods method_user_pass)) [
    | inl offered ↦
        let (done, s1, p, q) =
          and_then-eq-ok (write (version ∷ method_user_pass ∷ []) s) _ (rw offered at h) in
        subst (λ i. Shown i ref) (sym (write-front (version ∷ method_user_pass ∷ []) s s1 p))
          (server_user_pass-Shown ref s1 s' q)
    | inr not_offered ↦ refuse-ne-ok _ _ s s' ref (rw not_offered at h)
  ]

  assoc_on-udp :
      (bind_ip : Bytes) (port : Option ℕ) (r : Request Ref) (s s' : Stream)
      → assoc_on ambient auth bind_ip port s ≡ (ok r, s')
      → r.is_udp ≡ true
  unfolding assoc_on
  assoc_on-udp bind_ip none r s s' h = refuse-ne-ok _ _ s s' r h
  assoc_on-udp bind_ip (some port) r s s' h =
      let (done, s1, p, q) = and_then-eq-ok (write _ s) _ h in ground (arith, q)

  serve-cred :
      (here : Local) (ref : Ref) (cmd : ℕ) (dst : Socksaddr) (r : Request Ref) (s s' : Stream)
      → serve ambient auth here ref cmd dst s ≡ (ok r, s')
      → r.is_udp ≡ false
      → r.cred ≡ ref
  unfolding serve handle_udp_assoc
  serve-cred here ref cmd dst r s s' h stream = elim (Bool-cases (cmd == cmd_udp_assoc)) [
    | inl packets ↦
        let udp = assoc_on-udp here.bind_ip here.listen r s s' (rw packets at h) in
        absurd (cc (udp, stream))
    | inr other ↦ elim (Bool-cases (cmd == cmd_connect)) [
      | inl connect ↦
          let (done, s1, p, q) =
            and_then-eq-ok (write (reply 0x00) s) _ (rw (other, connect) at h) in
          ground (arith, q)
      | inr neither ↦ refuse-ne-ok _ _ s s' r (rw (other, neither) at h)
    ]
  ]

  read_request5-cred :
      (here : Local) (ref : Ref) (r : Request Ref) (s s' : Stream)
      → read_request5 ambient auth here ref s ≡ (ok r, s')
      → r.is_udp ≡ false
      → r.cred ≡ ref
  unfolding read_request5
  read_request5-cred here ref r s s' h stream =
      let (hd, s1, p1, q1) = and_then-eq-ok (read_full 4 s) _ h in
      elim (Bool-cases (get_or hd 0 0 == version)) [
        | inl good ↦
            let (dst, s2, p2, q2) =
              and_then-eq-ok (read_addr (get_or hd 3 0) s1) _ (rw good at q1) in
            serve-cred here ref (get_or hd 1 0) dst r s2 s' q2 stream
        | inr bad ↦ absurd (cc (rw bad at q1))
      ]

  -- Whatever the peer sends, if an inbound of SOCKS5 that requires users grants a request, then what
  -- came is a list of methods and behind it the message of RFC 1929, with a user and a password which
  -- the authenticator, given both with a colon between, knows; and a request for a connection runs
  -- under the reference that it gives for them.
  pub server_handshake5-Shown :
      (here : Local) (r : Request Ref) (s s' : Stream)
      → server_handshake5 ambient auth here true s ≡ (ok r, s')
      → (methods sent : Bytes) × (ref : Ref) × (s.input ≡ method_list methods sent)
        × Shown sent ref
        × (r.is_udp ≡ false → r.cred ≡ ref)
  unfolding server_handshake5
  server_handshake5-Shown here r s s' h =
      let (nm, s1, p1, q1) = and_then-eq-ok (read_full 1 s) _ h in
      let (methods, s2, p2, q2) = and_then-eq-ok (read_full (get_or nm 0 0) s1) _ q1 in
      let (ref, s3, p3, q3) = and_then-eq-ok (negotiate ambient auth true methods s2) _ q2 in
      let (i1, l1) = read_full-front 1 nm s s1 p1 in
      let (i2, l2) = read_full-front (get_or nm 0 0) methods s1 s2 p2 in
      (
        methods,
        s2.input,
        ref,
        i1
            ∙ ap (λ x. x ++ s1.input) (one_byte nm l1)
            ∙ ap (λ n. n ∷ s1.input) (sym l2)
            ∙ ap (λ x. length methods ∷ x) i2,
        negotiate-Shown methods ref s2 s3 p3,
        read_request5-cred here ref r s3 s' q3,
      )
