-- ===== src/Dns/FakeIp/Mapping.antt =====
-- dns/fakeip.go: every pool that the operations lead to is well formed, and finds the domains again.
use ntr.Prelude.{ℕ, ◌≡◌, arith, none, inl, inr, Bool-cases}
use ntr.Prelude.Bytes.{Bytes}
use ntr.Prelude.Maps.{lookup, insert, lookup-insert}
use ntr.Prelude.Strings.{bytes_eq_iff, bytes_Key, trim_last_dot}
use ntr.Addr.{Addr, addr_eq, addr_eq_iff, addr_Key}
use ntr.Dns.FakeIp.{
  FakeIpConfig, Pool, evict, take4, take6, alloc4, alloc6, alloc, new_pool, set_inet4, set_inet6,
  empty_pool, wrap_next,
}
use ntr.Dns.FakeIp.Evict.{WellFormed, Evicted, evict-Evicted}

-- To give an address without an owner to a host without an address keeps the maps in agreement.
module _ (p q : Pool) (ip : Addr) (host : Bytes) (v : Evicted p ip q) where
  place4 :
      lookup host p.d2v4 ≡ none
      → WellFormed (record q { d2v4 = insert host ip q.d2v4; ip2d = insert ip host q.ip2d })
  place4 none_yet = record {
    mapped4 = λ h a g. ground (
      arith,
      v.formed.mapped4 h a,
      v.free,
      lookup-insert host h ip q.d2v4,
      lookup-insert ip a host q.ip2d,
      addr_eq_iff ip a,
      bytes_eq_iff host h,
    );
    mapped6 = λ h a g.
        ground
          (arith, v.formed.mapped6 h a g, v.free, lookup-insert ip a host q.ip2d, addr_eq_iff ip a);
    owned = λ a h g. elim (Bool-cases (addr_eq ip a)) [
      | inl same ↦ inl (
          ground (
            arith,
            lookup-insert ip a host q.ip2d,
            lookup-insert host h ip q.d2v4,
            addr_eq_iff ip a,
            bytes_eq_iff host h,
          ))
      | inr other ↦ elim (v.formed.owned a h (ground (arith, lookup-insert ip a host q.ip2d))) [
        | inl o ↦
            inl (ground (arith, v.kept4 h a o, lookup-insert host h ip q.d2v4, bytes_eq_iff host h))
        | inr o ↦ inr o
      ]
    ];
  }

  place6 :
      lookup host p.d2v6 ≡ none
      → WellFormed (record q { d2v6 = insert host ip q.d2v6; ip2d = insert ip host q.ip2d })
  place6 none_yet = record {
    mapped6 = λ h a g. ground (
      arith,
      v.formed.mapped6 h a,
      v.free,
      lookup-insert host h ip q.d2v6,
      lookup-insert ip a host q.ip2d,
      addr_eq_iff ip a,
      bytes_eq_iff host h,
    );
    mapped4 = λ h a g.
        ground
          (arith, v.formed.mapped4 h a g, v.free, lookup-insert ip a host q.ip2d, addr_eq_iff ip a);
    owned = λ a h g. elim (Bool-cases (addr_eq ip a)) [
      | inl same ↦ inr (
          ground (
            arith,
            lookup-insert ip a host q.ip2d,
            lookup-insert host h ip q.d2v6,
            addr_eq_iff ip a,
            bytes_eq_iff host h,
          ))
      | inr other ↦ elim (v.formed.owned a h (ground (arith, lookup-insert ip a host q.ip2d))) [
        | inr o ↦
            inr (ground (arith, v.kept6 h a o, lookup-insert host h ip q.d2v6, bytes_eq_iff host h))
        | inl o ↦ inl o
      ]
    ];
  }

take4-WellFormed :
    (p : Pool) (host : Bytes) → WellFormed p → lookup host p.d2v4 ≡ none → WellFormed (take4 p host)
unfolding take4
take4-WellFormed p host w k =
    let p' = record p { cur4 = wrap_next p.cur4 p.p4 } in
    place4 p' (evict p' p.cur4) p.cur4 host
      (evict-Evicted p' p.cur4
        (record { mapped4 = w.mapped4; mapped6 = w.mapped6; owned = w.owned }))
      k

take6-WellFormed :
    (p : Pool) (host : Bytes) → WellFormed p → lookup host p.d2v6 ≡ none → WellFormed (take6 p host)
unfolding take6
take6-WellFormed p host w k =
    let p' = record p { cur6 = wrap_next p.cur6 p.p6 } in
    place6 p' (evict p' p.cur6) p.cur6 host
      (evict-Evicted p' p.cur6
        (record { mapped4 = w.mapped4; mapped6 = w.mapped6; owned = w.owned }))
      k

pub alloc-WellFormed :
    (p : Pool) (name : Bytes) (qtype : ℕ) → WellFormed p → WellFormed (alloc p name qtype).0
unfolding alloc alloc4 alloc6
alloc-WellFormed p name qtype w =
    let host = trim_last_dot name in
    ground (arith, take4-WellFormed p host w, take6-WellFormed p host w)

pub new_pool-WellFormed : (cfg : FakeIpConfig) → WellFormed (new_pool cfg)
unfolding new_pool set_inet4 set_inet6 empty_pool lookup
new_pool-WellFormed cfg = ground arith
