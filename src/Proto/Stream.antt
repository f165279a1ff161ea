-- ===== src/Proto/Stream.antt =====
-- The stream that a handshake runs on, `link.Stream` of core/link as the protocols use it: bytes that
-- the peer sent, bytes that were written, and whether a write succeeds. A write that fails has
-- written nothing.
use ntr.Prelude.{
  ℕ, ◌≡◌, refl, ap, ◌∙◌, arith, Bool, true, [], ◌∷◌, ◌++◌, leb, if◌then◌else◌, length,
  length-append, take, drop,
}
use ntr.Prelude.Bytes.{Bytes, take-append_eq, drop-append_eq}

-- The errors of `io`, of the streams and of the three protocols.
pub data Error : Type 0 where
  eof unexpected_eof write_failed short_buffer : Error
  bad_version no_auth auth_version auth_failed bad_atyp bad_command listen_failed : Error
  socks4_command socks4_field refused_methods unknown_method long_credential refused_request : Error
  short_header short_udp no_client bad_header bad_frame unknown_user packet_too_large bad_key
        unsupported_flow :
      Error

pub data Result {ℓ} (A : Type ℓ) : Type ℓ where
  ok : A → Result A
  err : Error → Result A

pub record Stream : Type 0 where
  pub input : Bytes
  pub output : Bytes
  pub writable : Bool

abbrev pub Io : Type 0 → Type 0
Io A = Stream → Result A × Stream

module _ {A : Type 0} where
  abbrev pub pure : A → Io A
  pure a s = (ok a, s)

  abbrev pub fail : Error → Io A
  fail e s = (err e, s)

abbrev pub and_then : {A B : Type 0} → Result A × Stream → (A → Io B) → Result B × Stream
and_then (ok a, s) f = f a s
and_then (err e, s) f = (err e, s)

infixl 5 ◌>>=◌ ◌>>◌
abbrev pub ◌>>=◌ : {A B : Type 0} → Io A → (A → Io B) → Io B
◌>>=◌ m f s = and_then (m s) f

abbrev pub ◌>>◌ : {A B : Type 0} → Io A → Io B → Io B
m >> k = m >>= λ _. k

-- `io.ReadFull` into a buffer of `n` bytes.
unfoldable pub read_full : ℕ → Io Bytes
read_full n s =
    if leb n (length s.input)
    then (ok (take n s.input), record s { input = drop n s.input })
    else (err (elim s.input [ [] ↦ eof | ◌∷◌ x xs ↦ unexpected_eof ]), record s { input = [] })

unfoldable pub write : Bytes → Io (Unit {0})
write p s =
    if s.writable then (ok tt, record s { output = s.output ++ p }) else (err write_failed, s)

-- A stream at some point of a handshake that goes well.
abbrev pub at : Bytes → Bytes → Stream
at i o = record { input = i; output = o; writable = true }

-- What a step that goes well hands on, and one that does not.
pub and_then-ok :
    {A B : Type 0} {x : Result A × Stream} (f : A → Io B) {s : Stream} {a : A}
    {r : Result B × Stream}
    → x ≡ (ok a, s)
    → f a s ≡ r
    → and_then x f ≡ r
and_then-ok f p q = ap (λ y. and_then y f) p ∙ q

pub read_full-append :
    (n : ℕ) (p r o : Bytes) → length p ≡ n → read_full n (at (p ++ r) o) ≡ (ok p, at r o)
unfolding read_full
read_full-append n p r o h =
    ground (arith, take-append_eq n p r h, drop-append_eq n p r h, length-append p r)

pub write-ok : (p i o : Bytes) → write p (at i o) ≡ (ok tt, at i (o ++ p))
unfolding write
write-ok p i o = refl

pub read_full_over :
    (n : ℕ) (p r i o : Bytes) → i ≡ p ++ r → length p ≡ n → read_full n (at i o) ≡ (ok p, at r o)
read_full_over n p r i o e h = rw e (read_full-append n p r o h)

-- A step that went well came from one that did.
pub and_then-eq-ok :
    {A B : Type 0} (x : Result A × Stream) (f : A → Io B) {b : B} {s' : Stream}
    → and_then x f ≡ (ok b, s')
    → (a : A) × (s : Stream) × (x ≡ (ok a, s)) × (f a s ≡ (ok b, s'))
and_then-eq-ok (ok a, s) f h = (a, s, refl, h)
and_then-eq-ok (err e, s) f h = cc
