-- ===== src/Dns/FakeIp/Range.antt =====
-- dns/fakeip.go: the addresses that a pool answers with are of its ranges.
use ntr.Prelude.{
  ℕ, zero, suc, ◌+◌, ◌-◌, ◌*◌, ◌/◌, ◌^◌, ◌<◌, ◌≤◌, ◌≡◌, refl, ap, ◌∙◌, sym, arith, true, Option,
  none, some, List, [],
}
use ntr.Prelude.Bytes.{Bytes}
use native.Mathlib.Nat.{
  add-mul, div-eq_of_lt-le, div-lt_iff_lt-mul, mul-le-mul_right, pow-suc, mod-eq_of_lt,
}
use ntr.Prelude.Maps.{lookup, lookup-insert}
use ntr.Prelude.Strings.{bytes_Key, trim_last_dot}
use ntr.Dns.FakeIp.Evict.{evict-SameRanges, evict_keeps4, evict_keeps6}
use ntr.Addr.{Addr, is_valid, no_addr, is4, is6, unmap, v4, v6, next, Prefix, masked, contains}
use ntr.Dns.FakeIp.Answers.{Reachable, created, asked}
use ntr.Dns.FakeIp.{
  in_pool, Pool, FakeIpConfig, wrap_next, take4, take6, evict, alloc, alloc4, alloc6, new_pool,
  set_inet4, set_inet6, empty_pool,
}

pow_split : (b k : ℕ) → 2 ^ (b + k) ≡ 2 ^ b * 2 ^ k
pow_split b zero = let e : b + 0 ≡ b = omega arith in rw e (omega arith)
pow_split b (suc k) = grind (arith, pow_split b k, pow-suc 2 k, pow-suc 2 (b + k))

-- The block of `m` numbers that `n` is in, and the second number of it.
block_first : (n m : ℕ) → 2 ≤ m → n / m * m / m ≡ n / m
block_first n m h = div-eq_of_lt-le m (omega arith) (omega (arith, add-mul (n / m) 1 m))

block_second : (n m : ℕ) → 2 ≤ m → (n / m * m + 1) / m ≡ n / m
block_second n m h = div-eq_of_lt-le m (omega arith) (omega (arith, add-mul (n / m) 1 m))

block_below : (n r m : ℕ) → 2 ≤ m → n < r * m → n / m * m + 1 < r * m
block_below n r m h k =
    let q = (div-lt_iff_lt-mul {k = m} {x = n} {y = r} (omega arith)).1 k in
    let le : n / m + 1 ≤ r = omega (arith, q) in
    omega (arith, add-mul (n / m) 1 m, mul-le-mul_right m le)

pow_two_le : (k : ℕ) → 2 ≤ 2 ^ suc k
pow_two_le zero = omega arith
pow_two_le (suc k) = omega (arith, pow_two_le k, pow-suc 2 (suc k))

-- A prefix with two addresses at least, and with an address of its family.
abbrev pub Roomy : Addr → ℕ → Type 0
Roomy no_addr bits = Unit
Roomy (v4 n) bits = (n < 2 ^ 32) × (bits < 32)
Roomy (v6 n z) bits = (n < 2 ^ 128) × (bits < 128)

two_addresses : (bits w : ℕ) → bits < w → 2 ≤ 2 ^ (w - bits)
two_addresses bits w k =
    let f : suc (w - bits - 1) ≡ w - bits = omega arith in rw (← f) (pow_two_le (w - bits - 1))

second_fits :
    (n bits w : ℕ) → n < 2 ^ w → bits < w → n / 2 ^ (w - bits) * 2 ^ (w - bits) + 1 < 2 ^ w
second_fits n bits w h k =
    let e : bits + suc (w - bits - 1) ≡ w = omega arith in
    let f : suc (w - bits - 1) ≡ w - bits = omega arith in
    let two = two_addresses bits w k in
    let split : 2 ^ w ≡ 2 ^ bits * 2 ^ (w - bits) =
      ap (λ x. 2 ^ x) (sym e)
      ∙ pow_split bits (suc (w - bits - 1))
      ∙ ap (λ x. 2 ^ bits * 2 ^ x) f in
    let below = block_below n (2 ^ bits) (2 ^ (w - bits)) two (omega (arith, split)) in
    omega (arith, split, below)

abbrev masked_at : Addr → ℕ → Prefix
masked_at a bits = masked (record { addr = a; bits = bits })

masked_next :
    (a : Addr) (bits : ℕ)
    → Roomy a bits
    → is_valid a ≡ true
    → contains (masked_at a bits) (next ((masked_at a bits).addr)) ≡ true
unfolding contains masked next is_valid
masked_next no_addr bits h v = cc
masked_next (v4 n) bits (h, k) v =
    let below = second_fits n bits 32 h k in
    let two = two_addresses bits 32 k in
    ground (
      arith,
      below,
      mod-eq_of_lt below,
      block_first n (2 ^ (32 - bits)) two,
      block_second n (2 ^ (32 - bits)) two,
    )
masked_next (v6 n z) bits (h, k) v =
    let below = second_fits n bits 128 h k in
    let two = two_addresses bits 128 k in
    ground (
      arith,
      below,
      mod-eq_of_lt below,
      block_first n (2 ^ (128 - bits)) two,
      block_second n (2 ^ (128 - bits)) two,
    )

wrap_next-contains :
    (ip : Addr) (p : Prefix) → contains p (next p.addr) ≡ true → contains p (wrap_next ip p) ≡ true
unfolding wrap_next
wrap_next-contains ip p h = ground arith

-- The cursors and the addresses given are of the ranges.
pub record Ranged (p : Pool) : Type 0 where
  pub first4 : p.have4 ≡ true → contains p.p4 (next p.p4.addr) ≡ true
  pub first6 : p.have6 ≡ true → contains p.p6 (next p.p6.addr) ≡ true
  pub at4 : p.have4 ≡ true → contains p.p4 p.cur4 ≡ true
  pub at6 : p.have6 ≡ true → contains p.p6 p.cur6 ≡ true
  pub held4 : (h : Bytes) (a : Addr) → lookup h p.d2v4 ≡ some a → contains p.p4 a ≡ true
  pub held6 : (h : Bytes) (a : Addr) → lookup h p.d2v6 ≡ some a → contains p.p6 a ≡ true

take4-Ranged : (p : Pool) (host : Bytes) → Ranged p → p.have4 ≡ true → Ranged (take4 p host)
unfolding take4
take4-Ranged p host r k =
    let p' = record p { cur4 = wrap_next p.cur4 p.p4 } in
    let s = evict-SameRanges p' p.cur4 in
    record {
      first4 = λ e. rw s.p4 (r.first4 k);
      first6 = λ e. rw s.p6 (r.first6 (sym s.have6 ∙ e));
      at4 = λ e. rw (s.p4, s.cur4) (wrap_next-contains p.cur4 p.p4 (r.first4 k));
      at6 = λ e. rw (s.p6, s.cur6) (r.at6 (sym s.have6 ∙ e));
      held4 = λ h a g. rw s.p4 (
          ground (
            arith,
            r.at4 k,
            r.held4 h a,
            evict_keeps4 p' p.cur4 h a,
            lookup-insert host h p.cur4 (evict p' p.cur4).d2v4,
          ));
      held6 = λ h a g. rw s.p6 (r.held6 h a (evict_keeps6 p' p.cur4 h a g));
    }

take6-Ranged : (p : Pool) (host : Bytes) → Ranged p → p.have6 ≡ true → Ranged (take6 p host)
unfolding take6
take6-Ranged p host r k =
    let p' = record p { cur6 = wrap_next p.cur6 p.p6 } in
    let s = evict-SameRanges p' p.cur6 in
    record {
      first4 = λ e. rw s.p4 (r.first4 (sym s.have4 ∙ e));
      first6 = λ e. rw s.p6 (r.first6 k);
      at4 = λ e. rw (s.p4, s.cur4) (r.at4 (sym s.have4 ∙ e));
      at6 = λ e. rw (s.p6, s.cur6) (wrap_next-contains p.cur6 p.p6 (r.first6 k));
      held4 = λ h a g. rw s.p4 (r.held4 h a (evict_keeps4 p' p.cur6 h a g));
      held6 = λ h a g. rw s.p6 (
          ground (
            arith,
            r.at6 k,
            r.held6 h a,
            evict_keeps6 p' p.cur6 h a,
            lookup-insert host h p.cur6 (evict p' p.cur6).d2v6,
          ));
    }

alloc-Ranged : (p : Pool) (name : Bytes) (qtype : ℕ) → Ranged p → Ranged (alloc p name qtype).0
unfolding alloc alloc4 alloc6
alloc-Ranged p name qtype r =
    let host = trim_last_dot name in ground (arith, take4-Ranged p host r, take6-Ranged p host r)

-- Each range that the configuration names has two addresses at least.
abbrev pub AllRoomy : FakeIpConfig → Type 0
AllRoomy cfg =
    ((x : Prefix) → cfg.inet4 ≡ some x → Roomy x.addr x.bits)
    × ((x : Prefix) → cfg.inet6 ≡ some x → Roomy x.addr x.bits)

set_inet4-Ranged :
    (o : Option Prefix) (p : Pool)
    → ((x : Prefix) → o ≡ some x → Roomy x.addr x.bits)
    → p.d2v4 ≡ []
    → Ranged p
    → Ranged (set_inet4 o p)
unfolding set_inet4 unmap is4 is_valid lookup
set_inet4-Ranged none p roomy e r = r
set_inet4-Ranged (some x) p roomy e r =
    ground (arith, masked_next x.addr x.bits (roomy x refl), r.first6, r.at6, r.held6)

set_inet6-Ranged :
    (o : Option Prefix) (p : Pool)
    → ((x : Prefix) → o ≡ some x → Roomy x.addr x.bits)
    → p.d2v6 ≡ []
    → Ranged p
    → Ranged (set_inet6 o p)
unfolding set_inet6 is6 is_valid lookup
set_inet6-Ranged none p roomy e r = r
set_inet6-Ranged (some x) p roomy e r =
    ground (arith, masked_next x.addr x.bits (roomy x refl), r.first4, r.at4, r.held4)

empty_pool-Ranged : (exclude : List Bytes) → Ranged (empty_pool exclude)
unfolding empty_pool lookup
empty_pool-Ranged exclude = ground arith

set_inet4-d2v6 :
    (o : Option Prefix) (exclude : List Bytes) → (set_inet4 o (empty_pool exclude)).d2v6 ≡ []
unfolding set_inet4 empty_pool
set_inet4-d2v6 o exclude = ground arith

empty_pool-d2v4 : (exclude : List Bytes) → (empty_pool exclude).d2v4 ≡ []
unfolding empty_pool
empty_pool-d2v4 exclude = refl

Reachable-Ranged : {cfg : FakeIpConfig} {p : Pool} → AllRoomy cfg → Reachable cfg p → Ranged p
unfolding new_pool
Reachable-Ranged {cfg = cfg} (room4, room6) created =
    set_inet6-Ranged cfg.inet6 (set_inet4 cfg.inet4 (empty_pool cfg.exclude)) room6
      (set_inet4-d2v6 cfg.inet4 cfg.exclude)
      (set_inet4-Ranged cfg.inet4 (empty_pool cfg.exclude) room4 (empty_pool-d2v4 cfg.exclude)
        (empty_pool-Ranged cfg.exclude))
Reachable-Ranged room (asked p name qtype r) = alloc-Ranged p name qtype (Reachable-Ranged room r)

-- In every pool that queries lead to, an address that a query is answered with is in one of the
-- configured ranges, where each range has two addresses at least and the address
-- is not IPv4-mapped.
pub in_pool-alloc :
    {cfg : FakeIpConfig} (p : Pool) (name : Bytes) (qtype : ℕ) (ip : Addr)
    → AllRoomy cfg
    → Reachable cfg p
    → unmap ip ≡ ip
    → (alloc p name qtype).1 ≡ some ip
    → in_pool p ip ≡ true
unfolding alloc alloc4 alloc6 in_pool
in_pool-alloc p name qtype ip room reached plain k =
    let r = Reachable-Ranged room reached in
    ground (arith, r.at4, r.at6, r.held4 (trim_last_dot name) ip, r.held6 (trim_last_dot name) ip)
