-- ===== src/Dns/FakeIp/Answers.antt =====
-- dns/fakeip.go: what a pool answers, over the pools that its operations lead to.
use ntr.Prelude.{ℕ, ◌≡◌, arith, some, ◌≢◌, ◌⊎◌}
use ntr.Prelude.Bytes.{Bytes}
use ntr.Prelude.Maps.{lookup, lookup-insert}
use ntr.Prelude.Strings.{bytes_eq_iff, bytes_Key, trim_last_dot}
use ntr.Addr.{Addr, addr_eq_iff, addr_Key, unmap}
use ntr.Dns.FakeIp.{
  FakeIpConfig, Pool, evict, take4, take6, alloc4, alloc6, alloc, domain_of, new_pool, wrap_next,
}
use ntr.Dns.FakeIp.Evict.{WellFormed, evict-Evicted, evict-SameRanges}
use ntr.Dns.FakeIp.Mapping.{alloc-WellFormed, new_pool-WellFormed}

-- The pools that a new pool becomes by queries.
pub data Reachable (cfg : FakeIpConfig) : Pool → Type 0 where
  created : Reachable cfg (new_pool cfg)
  asked :
      (p : Pool) (name : Bytes) (qtype : ℕ) → Reachable cfg p → Reachable cfg (alloc p name qtype).0

-- In every pool that queries lead to, the maps agree: each address leads back to the domain that has
-- it, and an address that leads to a domain is the domain's in one of the families.
pub Reachable-WellFormed : {cfg : FakeIpConfig} {p : Pool} → Reachable cfg p → WellFormed p
Reachable-WellFormed {cfg = cfg} created = new_pool-WellFormed cfg
Reachable-WellFormed (asked p name qtype r) = alloc-WellFormed p name qtype (Reachable-WellFormed r)

take_others4 :
    (p : Pool) (host : Bytes) (a : Addr)
    → WellFormed p
    → a ≢ p.cur4
    → lookup a (take4 p host).ip2d ≡ lookup a p.ip2d
unfolding take4
take_others4 p host a w ne =
    let p' = record p { cur4 = wrap_next p.cur4 p.p4 } in
    let v =
      evict-Evicted p' p.cur4
        (record { mapped4 = w.mapped4; mapped6 = w.mapped6; owned = w.owned }) in
    ground (
      arith,
      v.others a ne,
      lookup-insert p.cur4 a host (evict p' p.cur4).ip2d,
      addr_eq_iff p.cur4 a,
    )

take_others6 :
    (p : Pool) (host : Bytes) (a : Addr)
    → WellFormed p
    → a ≢ p.cur6
    → lookup a (take6 p host).ip2d ≡ lookup a p.ip2d
unfolding take6
take_others6 p host a w ne =
    let p' = record p { cur6 = wrap_next p.cur6 p.p6 } in
    let v =
      evict-Evicted p' p.cur6
        (record { mapped4 = w.mapped4; mapped6 = w.mapped6; owned = w.owned }) in
    ground (
      arith,
      v.others a ne,
      lookup-insert p.cur6 a host (evict p' p.cur6).ip2d,
      addr_eq_iff p.cur6 a,
    )

take_found4 : (p : Pool) (host : Bytes) → lookup p.cur4 (take4 p host).ip2d ≡ some host
unfolding take4
take_found4 p host =
    let p' = record p { cur4 = wrap_next p.cur4 p.p4 } in
    ground
      (arith, lookup-insert p.cur4 p.cur4 host (evict p' p.cur4).ip2d, addr_eq_iff p.cur4 p.cur4)

take_found6 : (p : Pool) (host : Bytes) → lookup p.cur6 (take6 p host).ip2d ≡ some host
unfolding take6
take_found6 p host =
    let p' = record p { cur6 = wrap_next p.cur6 p.p6 } in
    ground
      (arith, lookup-insert p.cur6 p.cur6 host (evict p' p.cur6).ip2d, addr_eq_iff p.cur6 p.cur6)

take_held4 : (p : Pool) (host : Bytes) → lookup host (take4 p host).d2v4 ≡ some p.cur4
unfolding take4
take_held4 p host =
    let p' = record p { cur4 = wrap_next p.cur4 p.p4 } in
    ground (arith, lookup-insert host host p.cur4 (evict p' p.cur4).d2v4, bytes_eq_iff host host)

take_held6 : (p : Pool) (host : Bytes) → lookup host (take6 p host).d2v6 ≡ some p.cur6
unfolding take6
take_held6 p host =
    let p' = record p { cur6 = wrap_next p.cur6 p.p6 } in
    ground (arith, lookup-insert host host p.cur6 (evict p' p.cur6).d2v6, bytes_eq_iff host host)

-- In every pool that queries lead to, an address that a query is answered with leads back to the
-- name of the query without its last dot, where the address is not IPv4-mapped.
pub domain_of-alloc :
    {cfg : FakeIpConfig} (p : Pool) (name : Bytes) (qtype : ℕ) (ip : Addr)
    → Reachable cfg p
    → unmap ip ≡ ip
    → (alloc p name qtype).1 ≡ some ip
    → domain_of (alloc p name qtype).0 ip ≡ some (trim_last_dot name)
unfolding alloc alloc4 alloc6 domain_of
domain_of-alloc p name qtype ip r plain k =
    let host = trim_last_dot name in
    let w = Reachable-WellFormed r in
    ground (arith, take_found4 p host, take_found6 p host, w.mapped4 host ip, w.mapped6 host ip)

alloc4_again :
    (p : Pool) (host : Bytes) (ip : Addr)
    → (alloc4 p host).1 ≡ some ip
    → alloc4 (alloc4 p host).0 host ≡ ((alloc4 p host).0, some ip)
unfolding alloc4 take4
alloc4_again p host ip k =
    let s = evict-SameRanges (record p { cur4 = wrap_next p.cur4 p.p4 }) p.cur4 in
    ground (arith, take_held4 p host, s.have4)

alloc6_again :
    (p : Pool) (host : Bytes) (ip : Addr)
    → (alloc6 p host).1 ≡ some ip
    → alloc6 (alloc6 p host).0 host ≡ ((alloc6 p host).0, some ip)
unfolding alloc6 take6
alloc6_again p host ip k =
    let s = evict-SameRanges (record p { cur6 = wrap_next p.cur6 p.p6 }) p.cur6 in
    ground (arith, take_held6 p host, s.have6)

-- A query that was answered with an address is answered with the same address again, and changes
-- the pool no more.
pub alloc_again :
    (p : Pool) (name : Bytes) (qtype : ℕ) (ip : Addr)
    → (alloc p name qtype).1 ≡ some ip
    → alloc (alloc p name qtype).0 name qtype ≡ ((alloc p name qtype).0, some ip)
unfolding alloc
alloc_again p name qtype ip k =
    let host = trim_last_dot name in ground (arith, alloc4_again p host ip, alloc6_again p host ip)

-- In every pool that queries lead to, a query changes the domain of no other address than the one
-- that it is answered with.
pub domain_of_others :
    {cfg : FakeIpConfig} (p : Pool) (name : Bytes) (qtype : ℕ) (a : Addr)
    → Reachable cfg p
    → (alloc p name qtype).1 ≢ some (unmap a)
    → domain_of (alloc p name qtype).0 a ≡ domain_of p a
unfolding alloc alloc4 alloc6 domain_of
domain_of_others p name qtype a r ne =
    let host = trim_last_dot name in
    let w = Reachable-WellFormed r in
    ground (arith, take_others4 p host (unmap a) w, take_others6 p host (unmap a) w)

-- In every pool that queries lead to, two domains have no address in common.
pub Reachable-injective :
    {cfg : FakeIpConfig} (p : Pool) (h k : Bytes) (a : Addr)
    → Reachable cfg p
    → (lookup h p.d2v4 ≡ some a) ⊎ (lookup h p.d2v6 ≡ some a)
    → (lookup k p.d2v4 ≡ some a) ⊎ (lookup k p.d2v6 ≡ some a)
    → h ≡ k
Reachable-injective p h k a r x y =
    let w = Reachable-WellFormed r in
    ground (arith, w.mapped4 h a, w.mapped6 h a, w.mapped4 k a, w.mapped6 k a)
