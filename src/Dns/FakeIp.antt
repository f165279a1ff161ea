-- ===== src/Dns/FakeIp.antt =====
-- dns/fakeip.go: the pool that answers DNS queries with addresses of its own and finds the domain of
-- such an address again. A lock is held over each operation, so an operation is one step.
pub mod Evict
pub mod Mapping
pub mod Answers
pub mod Range
use ntr.Prelude.{
  ℕ, Bool, true, false, not, ◌&&◌, ◌||◌, Option, none, some, List, [], ◌∷◌, ◌++◌, ◌==◌,
  if◌then◌else◌,
}
use ntr.Prelude.Bytes.{Bytes}
use ntr.Prelude.Maps.{lookup, insert, delete}
use ntr.Prelude.Strings.{bytes_eq, bytes_Key, has_suffix, to_lower, trim_last_dot, trim_space}
use ntr.Addr.{
  Addr, no_addr, is_valid, is4, is6, is4in6, unmap, next, addr_eq, addr_Key, Prefix, masked,
  contains,
}

-- `FakeIPConfig`, a zero prefix being none.
pub record FakeIpConfig : Type 0 where
  pub inet4 : Option Prefix
  pub inet6 : Option Prefix
  pub exclude : List Bytes

-- `fakeIPPool`. `have4` and `have6` tell whether `p4` and `p6` hold a range.
pub record Pool : Type 0 where
  pub p4 : Prefix
  pub p6 : Prefix
  pub have4 : Bool
  pub have6 : Bool
  pub cur4 : Addr
  pub cur6 : Addr
  pub d2v4 : List (Bytes × Addr)
  pub d2v6 : List (Bytes × Addr)
  pub ip2d : List (Addr × Bytes)
  pub exclude : List Bytes

-- The loop over `cfg.Exclude`.
norm_excludes : List Bytes → List Bytes
norm_excludes [] = []
norm_excludes (e ∷ es) =
    let s = to_lower (trim_last_dot (trim_space e)) in
    let rest = norm_excludes es in if not (bytes_eq s []) then s ∷ rest else rest

abbrev no_prefix : Prefix
no_prefix = record { addr = no_addr; bits = 0 }

unfoldable pub empty_pool : List Bytes → Pool
unfolding norm_excludes
empty_pool exclude = record {
  p4 = no_prefix;
  p6 = no_prefix;
  have4 = false;
  have6 = false;
  cur4 = no_addr;
  cur6 = no_addr;
  d2v4 = [];
  d2v6 = [];
  ip2d = [];
  exclude = norm_excludes exclude;
}

-- The two tests of `newFakeIPPool` and what they set.
unfoldable pub set_inet4 : Option Prefix → Pool → Pool
set_inet4 none p = p
set_inet4 (some x) p =
    if is4 (unmap x.addr)
    then record p { p4 = masked x; have4 = true; cur4 = next ((masked x).addr) }
    else p

unfoldable pub set_inet6 : Option Prefix → Pool → Pool
set_inet6 none p = p
set_inet6 (some x) p =
    if is6 x.addr && not (is4in6 x.addr)
    then record p { p6 = masked x; have6 = true; cur6 = next ((masked x).addr) }
    else p

unfoldable pub new_pool : FakeIpConfig → Pool
new_pool cfg = set_inet6 cfg.inet6 (set_inet4 cfg.inet4 (empty_pool cfg.exclude))

excluded_by : List Bytes → Bytes → Bool
excluded_by [] host = false
excluded_by (suf ∷ sufs) host =
    (bytes_eq host suf || has_suffix host (b'.' ∷ suf)) || excluded_by sufs host

unfoldable pub excluded : Pool → Bytes → Bool
unfolding excluded_by
excluded p name = excluded_by p.exclude (trim_last_dot name)

unfoldable pub wrap_next : Addr → Prefix → Addr
wrap_next ip pfx =
    let n = next ip in if not (is_valid n) || not (contains pfx n) then next pfx.addr else n

-- `d2v[old] == ip`, where a missing key reads as the zero address.
unfoldable pub holds : List (Bytes × Addr) → Bytes → Addr → Bool
holds m old ip = elim (lookup old m) [ none ↦ addr_eq no_addr ip | some a ↦ addr_eq a ip ]

-- `if p.d2v[old] == ip { delete(p.d2v, old) }`
unfoldable pub purge : List (Bytes × Addr) → Bytes → Addr → List (Bytes × Addr)
purge m old ip = if holds m old ip then delete old m else m

unfoldable pub drop_old : Pool → Addr → Option Bytes → Pool
drop_old p ip none = p
drop_old p ip (some old) = record p {
  ip2d = delete ip p.ip2d;
  d2v4 = purge p.d2v4 old ip;
  d2v6 = purge p.d2v6 old ip;
}

-- `evictLocked`
unfoldable pub evict : Pool → Addr → Pool
evict p ip = drop_old p ip (lookup ip p.ip2d)

abbrev pub type_a : ℕ
type_a = 1

abbrev pub type_aaaa : ℕ
type_aaaa = 28

-- The bodies of the two cases of `alloc` behind the look for an address that the host has.
unfoldable pub take4 : Pool → Bytes → Pool
take4 p host =
    let q = evict (record p { cur4 = wrap_next p.cur4 p.p4 }) p.cur4 in
    record q { d2v4 = insert host p.cur4 q.d2v4; ip2d = insert p.cur4 host q.ip2d }

unfoldable pub take6 : Pool → Bytes → Pool
take6 p host =
    let q = evict (record p { cur6 = wrap_next p.cur6 p.p6 }) p.cur6 in
    record q { d2v6 = insert host p.cur6 q.d2v6; ip2d = insert p.cur6 host q.ip2d }

-- The two cases of `alloc`.
unfoldable pub alloc4 : Pool → Bytes → Pool × Option Addr
alloc4 p host =
    if not p.have4
    then (p, none)
    else elim (lookup host p.d2v4) [ some ip ↦ (p, some ip) | none ↦ (take4 p host, some p.cur4) ]

unfoldable pub alloc6 : Pool → Bytes → Pool × Option Addr
alloc6 p host =
    if not p.have6
    then (p, none)
    else elim (lookup host p.d2v6) [ some ip ↦ (p, some ip) | none ↦ (take6 p host, some p.cur6) ]

unfoldable pub alloc : Pool → Bytes → ℕ → Pool × Option Addr
unfolding alloc4 alloc6
alloc p name qtype =
    let host = trim_last_dot name in
    if qtype == type_a
    then alloc4 p host
    else if qtype == type_aaaa
    then alloc6 p host
    else (p, none)

-- `lookup`
unfoldable pub domain_of : Pool → Addr → Option Bytes
domain_of p ip = lookup (unmap ip) p.ip2d

-- `contains`
unfoldable pub in_pool : Pool → Addr → Bool
in_pool p ip = let a = unmap ip in (p.have4 && contains p.p4 a) || (p.have6 && contains p.p6 a)
