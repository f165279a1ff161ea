-- ===== src/Proto/Vless/Handshake/Encode.antt =====
-- proto/vless/codec.go: the bytes of an encoded request header.
use ntr.Prelude.{
  ℕ, ◌-◌, ◌%◌, ◌≤◌, ◌≡◌, refl, ap, ◌∙◌, sym, arith, inl, inr, [], ◌∷◌, ◌++◌, append_assoc,
  append-nil, ltb, if◌then◌else◌, length, length-append, take, Bool-cases,
}
use mathlib.Core.Path.{subst}
use ntr.Prelude.Bytes.{Bytes, be16}
use ntr.Addr.{Socksaddr, is4, is_fqdn}
use ntr.Buf
use ntr.Buf.{Buffer, new_buffer, default_size, default_headroom}
use ntr.Proto.Stream.{Result, ok}
use ntr.Proto.Wire.{as4, as16, length-as4, length-as16, IsSendable}
use ntr.Proto.Vless.Codec.{
  version, atyp_ipv4, atyp_domain, atyp_ipv6, RequestHeader, has_address, encode, and_write,
  and_write_byte, write_addr_port,
}

-- What stands on the wire behind the command.
unfoldable pub addr_wire : Socksaddr → Bytes
addr_wire d =
    be16 d.port
    ++ (if is_fqdn d
        then atyp_domain ∷ length d.fqdn % 256 ∷ d.fqdn
        else if is4 d.addr
        then atyp_ipv4 ∷ as4 d.addr
        else atyp_ipv6 ∷ as16 d.addr)

unfoldable pub target_wire : RequestHeader → Bytes
target_wire h = if has_address h.command then addr_wire h.dst else []

unfoldable pub header_wire : RequestHeader → Bytes
header_wire h =
    version ∷ (h.uuid ++ (length h.addons % 256 ∷ (h.addons ++ (h.command ∷ target_wire h))))

-- The buffer with bytes written to it.
abbrev pub filled : Buffer → Bytes → Buffer
filled b p = record b { bytes = b.bytes ++ p; tailroom = b.tailroom - length p }

pub take-length : (xs : Bytes) → take (length xs) xs ≡ xs
take-length [] = refl
take-length (x ∷ xs) = ap (λ ys. x ∷ ys) (take-length xs)

module _ (b : Buffer) (p : Bytes) {r : Result Buffer} (wrote : r ≡ ok (filled b p)) where
  pub and_write-filled :
      (q : Bytes) → length (p ++ q) ≤ b.tailroom → and_write r q ≡ ok (filled b (p ++ q))
  unfolding Buf.write
  and_write-filled q h =
      rw wrote (ground (arith, take-length q, append_assoc b.bytes p q, length-append p q))

  pub and_write_byte-filled :
      (c : ℕ)
      → length (p ++ (c ∷ [])) ≤ b.tailroom
      → and_write_byte r c ≡ ok (filled b (p ++ (c ∷ [])))
  unfolding Buf.write_byte
  and_write_byte-filled c h =
      rw wrote (ground (arith, append_assoc b.bytes p (c ∷ []), length-append p (c ∷ [])))

shorter : (p q : Bytes) (n : ℕ) → length (p ++ q) ≤ n → length p ≤ n
shorter p q n h = omega (arith, length-append p q)

-- Three parts, and four, behind a prefix.
regroup3 : (p a q s : Bytes) → ((p ++ a) ++ q) ++ s ≡ p ++ (a ++ (q ++ s))
regroup3 p a q s = simp append_assoc

regroup4 : (p a q s t : Bytes) → (((p ++ a) ++ q) ++ s) ++ t ≡ p ++ (a ++ (q ++ (s ++ t)))
regroup4 p a q s t = simp append_assoc

module _ (b : Buffer) (p : Bytes) {r : Result Buffer} (wrote : r ≡ ok (filled b p)) where
  and_write3 :
      (port : ℕ) (atyp : ℕ) (ip : Bytes)
      → length (p ++ (be16 port ++ (atyp ∷ ip))) ≤ b.tailroom
      → and_write (and_write_byte (and_write r (be16 port)) atyp) ip
        ≡ ok (filled b (p ++ (be16 port ++ (atyp ∷ ip))))
  and_write3 port atyp ip h =
      let same = regroup3 p (be16 port) (atyp ∷ []) ip in
      let all : length (((p ++ be16 port) ++ (atyp ∷ [])) ++ ip) ≤ b.tailroom = rw same h in
      let two = shorter ((p ++ be16 port) ++ (atyp ∷ [])) ip b.tailroom all in
      let one = shorter (p ++ be16 port) (atyp ∷ []) b.tailroom two in
      and_write-filled b _
        (and_write_byte-filled b _ (and_write-filled b p wrote (be16 port) one) atyp two) ip all
      ∙ ap (λ x. ok (filled b x)) same

  and_write4 :
      (port atyp len : ℕ) (name : Bytes)
      → length (p ++ (be16 port ++ (atyp ∷ len ∷ name))) ≤ b.tailroom
      → and_write (and_write_byte (and_write_byte (and_write r (be16 port)) atyp) len) name
        ≡ ok (filled b (p ++ (be16 port ++ (atyp ∷ len ∷ name))))
  and_write4 port atyp len name h =
      let same = regroup4 p (be16 port) (atyp ∷ []) (len ∷ []) name in
      let all : length ((((p ++ be16 port) ++ (atyp ∷ [])) ++ (len ∷ [])) ++ name) ≤ b.tailroom =
        rw same h in
      let three = shorter (((p ++ be16 port) ++ (atyp ∷ [])) ++ (len ∷ [])) name b.tailroom all in
      let two = shorter ((p ++ be16 port) ++ (atyp ∷ [])) (len ∷ []) b.tailroom three in
      let one = shorter (p ++ be16 port) (atyp ∷ []) b.tailroom two in
      and_write-filled b _
        (and_write_byte-filled b _
          (and_write_byte-filled b _ (and_write-filled b p wrote (be16 port) one) atyp two) len
          three)
        name all
      ∙ ap (λ x. ok (filled b x)) same

  write_addr_port-addr_wire :
      (d : Socksaddr)
      → length (p ++ addr_wire d) ≤ b.tailroom
      → write_addr_port r d ≡ ok (filled b (p ++ addr_wire d))
  unfolding write_addr_port addr_wire
  write_addr_port-addr_wire d h = elim (Bool-cases (is_fqdn d)) [
    | inl name ↦ rw name (and_write4 d.port atyp_domain (length d.fqdn % 256) d.fqdn (rw name at h))
    | inr ip ↦ elim (Bool-cases (is4 d.addr)) [
      | inl four ↦ rw (ip, four) (and_write3 d.port atyp_ipv4 (as4 d.addr) (rw (ip, four) at h))
      | inr six ↦ rw (ip, six) (and_write3 d.port atyp_ipv6 (as16 d.addr) (rw (ip, six) at h))
    ]
  ]

write_addons :
    (b : Buffer) (p a : Bytes) (r : Result Buffer)
    → r ≡ ok (filled b p)
    → length (p ++ a) ≤ b.tailroom
    → (if ltb 0 (length a) then and_write r a else r) ≡ ok (filled b (p ++ a))
write_addons b p [] r wrote h = wrote ∙ ap (λ x. ok (filled b x)) (sym (append-nil p))
write_addons b p (x ∷ xs) r wrote h = ground (arith, and_write-filled b p wrote (x ∷ xs) h)

write_target :
    (b : Buffer) (p : Bytes) (r : Result Buffer) (h : RequestHeader)
    → r ≡ ok (filled b p)
    → length (p ++ target_wire h) ≤ b.tailroom
    → (if has_address h.command then write_addr_port r h.dst else r)
      ≡ ok (filled b (p ++ target_wire h))
unfolding target_wire
write_target b p r h wrote fits = elim (Bool-cases (has_address h.command)) [
  | inl has ↦ rw has (write_addr_port-addr_wire b p wrote h.dst (rw has at fits))
  | inr no_target ↦ rw no_target (wrote ∙ ap (λ x. ok (filled b x)) (sym (append-nil p)))
]

filled_nil : (b : Buffer) → ok b ≡ ok (filled b [])
filled_nil b = ground (arith, append-nil b.bytes)

regroup6 :
    (v u l a c t : Bytes)
    → ((((([] ++ v) ++ u) ++ l) ++ a) ++ c) ++ t ≡ v ++ (u ++ (l ++ (a ++ (c ++ t))))
regroup6 v u l a c t = simp append_assoc

-- The encoder appends the header to a buffer that has the room for it.
pub encode-header_wire :
    (b : Buffer) (h : RequestHeader)
    → length (header_wire h) ≤ b.tailroom
    → encode b h ≡ ok (filled b (header_wire h))
unfolding encode header_wire
encode-header_wire b h fits =
    let l = length h.addons % 256 in
    let p1 = version ∷ [] in
    let p2 = p1 ++ h.uuid in
    let p3 = p2 ++ (l ∷ []) in
    let p4 = p3 ++ h.addons in
    let p5 = p4 ++ (h.command ∷ []) in
    let same = regroup6 (version ∷ []) h.uuid (l ∷ []) h.addons (h.command ∷ []) (target_wire h) in
    let f6 : length (p5 ++ target_wire h) ≤ b.tailroom =
      subst (λ x. length x ≤ b.tailroom) (sym same) fits in
    let f5 = shorter p5 (target_wire h) b.tailroom f6 in
    let f4 = shorter p4 (h.command ∷ []) b.tailroom f5 in
    let f3 = shorter p3 h.addons b.tailroom f4 in
    let f2 = shorter p2 (l ∷ []) b.tailroom f3 in
    let f1 = shorter p1 h.uuid b.tailroom f2 in
    let w1 = and_write_byte-filled b [] (filled_nil b) version f1 in
    let w3 = and_write_byte-filled b p2 (and_write-filled b p1 w1 h.uuid f2) l f3 in
    let w5 = and_write_byte-filled b p4 (write_addons b p3 h.addons _ w3 f4) h.command f5 in
    write_target b p5 _ h w5 f6 ∙ ap (λ x. ok (filled b x)) same

-- The headers that the clients of this code write: no addons, a key of 16 bytes.
pub length-header_wire :
    (h : RequestHeader)
    → length h.uuid ≡ 16
    → h.addons ≡ []
    → IsSendable h.dst
    → length (header_wire h) ≤ 300
unfolding header_wire target_wire addr_wire
length-header_wire h u a v = ground (
  arith,
  length-append h.uuid (length h.addons % 256 ∷ (h.addons ++ (h.command ∷ target_wire h))),
  length-append h.addons (h.command ∷ target_wire h),
  length-as4 h.dst.addr,
  length-as16 h.dst.addr,
  v.name_fits,
)
