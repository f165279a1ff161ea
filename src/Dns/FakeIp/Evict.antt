-- ===== src/Dns/FakeIp/Evict.antt =====
-- dns/fakeip.go: what `evictLocked` leaves in the maps.
use ntr.Prelude.{
  ◌≡◌, refl, ◌∙◌, arith, true, Option, none, some, List, ◌≢◌, ◌⊎◌, inl, inr, Option-cases,
}
use ntr.Prelude.Bytes.{Bytes}
use ntr.Prelude.Maps.{lookup, delete, lookup-delete}
use ntr.Prelude.Strings.{bytes_eq_iff, bytes_Key}
use ntr.Addr.{Addr, no_addr, addr_eq_iff, addr_Key}
use ntr.Dns.FakeIp.{Pool, holds, purge, drop_old, evict}

module _ (m : List (Bytes × Addr)) (old : Bytes) (ip : Addr) where
  holds_of : lookup old m ≡ some ip → holds m old ip ≡ true
  unfolding holds
  holds_of h = ground (arith, addr_eq_iff ip ip)

  pub purge_keeps :
      (h : Bytes) (a : Addr) → lookup h (purge m old ip) ≡ some a → lookup h m ≡ some a
  unfolding purge
  purge_keeps h a k = ground (arith, lookup-delete old h m)

  pub purge_drops :
      (h : Bytes) (a : Addr)
      → (lookup h m ≡ some ip → h ≡ old)
      → lookup h (purge m old ip) ≡ some a
      → a ≢ ip
  unfolding purge
  purge_drops h a f k e = ground (arith, lookup-delete old h m, holds_of, f, bytes_eq_iff old h)

  pub purge_other :
      (h : Bytes) (a : Addr) → lookup h m ≡ some a → a ≢ ip → lookup h (purge m old ip) ≡ some a
  unfolding purge holds
  purge_other h a k e =
      ground
        (arith, lookup-delete old h m, bytes_eq_iff old h, addr_eq_iff a ip, addr_eq_iff no_addr ip)

-- What holds of a pool between two operations: the maps from the domains lead into the map back, and
-- each address of that is the address of its domain in one of the two families.
pub record WellFormed (p : Pool) : Type 0 where
  pub mapped4 : (h : Bytes) (a : Addr) → lookup h p.d2v4 ≡ some a → lookup a p.ip2d ≡ some h
  pub mapped6 : (h : Bytes) (a : Addr) → lookup h p.d2v6 ≡ some a → lookup a p.ip2d ≡ some h
  pub owned :
      (a : Addr) (h : Bytes)
      → lookup a p.ip2d ≡ some h
      → (lookup h p.d2v4 ≡ some a) ⊎ (lookup h p.d2v6 ≡ some a)

-- A pool that evicted an address is well formed, and knows the address no more.
pub record Evicted (p : Pool) (ip : Addr) (q : Pool) : Type 0 where
  pub formed : WellFormed q
  pub free : lookup ip q.ip2d ≡ none
  pub others : (a : Addr) → a ≢ ip → lookup a q.ip2d ≡ lookup a p.ip2d
  pub kept4 : (h : Bytes) (a : Addr) → lookup h q.d2v4 ≡ some a → lookup h p.d2v4 ≡ some a
  pub kept6 : (h : Bytes) (a : Addr) → lookup h q.d2v6 ≡ some a → lookup h p.d2v6 ≡ some a

lookup-delete_other :
    (ip a : Addr) (m : List (Addr × Bytes)) → a ≢ ip → lookup a (delete ip m) ≡ lookup a m
lookup-delete_other ip a m ne = ground (arith, lookup-delete ip a m, addr_eq_iff ip a)

delete_keeps :
    (ip a : Addr) (h : Bytes) (m : List (Addr × Bytes))
    → lookup a (delete ip m) ≡ some h
    → (a ≢ ip) × (lookup a m ≡ some h)
delete_keeps ip a h m k = ground (arith, lookup-delete ip a m, addr_eq_iff ip a)

module _ (p : Pool) (ip : Addr) (old : Bytes) (w : WellFormed p) where
  drop_old-Evicted : lookup ip p.ip2d ≡ some old → Evicted p ip (drop_old p ip (some old))
  unfolding drop_old
  drop_old-Evicted k = record {
    formed = record {
      mapped4 = λ h a g.
          let ne = purge_drops p.d2v4 old ip h a (λ e. ground (arith, w.mapped4 h ip e)) g in
          lookup-delete_other ip a p.ip2d ne ∙ w.mapped4 h a (purge_keeps p.d2v4 old ip h a g);
      mapped6 = λ h a g.
          let ne = purge_drops p.d2v6 old ip h a (λ e. ground (arith, w.mapped6 h ip e)) g in
          lookup-delete_other ip a p.ip2d ne ∙ w.mapped6 h a (purge_keeps p.d2v6 old ip h a g);
      owned = λ a h g.
          let (ne, g') = delete_keeps ip a h p.ip2d g in
          elim (w.owned a h g') [
            | inl o ↦ inl (purge_other p.d2v4 old ip h a o ne)
            | inr o ↦ inr (purge_other p.d2v6 old ip h a o ne)
          ];
    };
    free = ground (arith, lookup-delete ip ip p.ip2d, addr_eq_iff ip ip);
    others = λ a. lookup-delete_other ip a p.ip2d;
    kept4 = purge_keeps p.d2v4 old ip;
    kept6 = purge_keeps p.d2v6 old ip;
  }

pub evict-Evicted : (p : Pool) (ip : Addr) → WellFormed p → Evicted p ip (evict p ip)
unfolding evict drop_old
evict-Evicted p ip w = elim (Option-cases (lookup ip p.ip2d)) [
  | inl k ↦ rw k (record {
    formed = w;
    free = k;
    others = λ a ne. refl;
    kept4 = λ h a g. g;
    kept6 = λ h a g. g;
  })
  | inr (old, k) ↦ rw k (drop_old-Evicted p ip old w k)
]

-- What an eviction leaves alone.
pub record SameRanges (p q : Pool) : Type 0 where
  pub p4 : q.p4 ≡ p.p4
  pub p6 : q.p6 ≡ p.p6
  pub have4 : q.have4 ≡ p.have4
  pub have6 : q.have6 ≡ p.have6
  pub cur4 : q.cur4 ≡ p.cur4
  pub cur6 : q.cur6 ≡ p.cur6

pub evict-SameRanges : (p : Pool) (ip : Addr) → SameRanges p (evict p ip)
unfolding evict drop_old
evict-SameRanges p ip = ground arith

drop_keeps4 :
    (p : Pool) (ip : Addr) (o : Option Bytes) (h : Bytes) (a : Addr)
    → lookup h (drop_old p ip o).d2v4 ≡ some a
    → lookup h p.d2v4 ≡ some a
unfolding drop_old
drop_keeps4 p ip none h a g = g
drop_keeps4 p ip (some old) h a g = purge_keeps p.d2v4 old ip h a g

pub evict_keeps4 :
    (p : Pool) (ip : Addr) (h : Bytes) (a : Addr)
    → lookup h (evict p ip).d2v4 ≡ some a
    → lookup h p.d2v4 ≡ some a
unfolding evict
evict_keeps4 p ip h a = drop_keeps4 p ip (lookup ip p.ip2d) h a

drop_keeps6 :
    (p : Pool) (ip : Addr) (o : Option Bytes) (h : Bytes) (a : Addr)
    → lookup h (drop_old p ip o).d2v6 ≡ some a
    → lookup h p.d2v6 ≡ some a
unfolding drop_old
drop_keeps6 p ip none h a g = g
drop_keeps6 p ip (some old) h a g = purge_keeps p.d2v6 old ip h a g

pub evict_keeps6 :
    (p : Pool) (ip : Addr) (h : Bytes) (a : Addr)
    → lookup h (evict p ip).d2v6 ≡ some a
    → lookup h p.d2v6 ≡ some a
unfolding evict
evict_keeps6 p ip h a = drop_keeps6 p ip (lookup ip p.ip2d) h a
