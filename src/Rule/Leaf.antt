-- ===== src/Rule/Leaf.antt =====
-- rule/engine.go: what one leaf rule adds to the smallest order: its own order, where it matches.
use Prim.Native.Nat.{min}
use ntr.Prelude.{
  ℕ, ◌≤◌, ◌≡◌, arith, Bool, true, false, not, ◌&&◌, ◌||◌, Option, List, [], ◌∷◌, ◌++◌, inl, inr,
  Option-cases, length,
}
use ntr.Prelude.Bytes.{Bytes}
use ntr.Prelude.Maps.{nat_Key, nat_eq}
use ntr.Prelude.Strings.{bytes_eq, bytes_Key, to_lower, contains as contains_bytes}
use ntr.Addr.{Addr, Prefix, masked, contains, is_fqdn}
use ntr.Rule.Types.{Dims, Ctx, Engine, ord_none}
use ntr.Rule.Match.{any, norm_domain, suffix_key, ip_set, cidr_contains, match_ip, match_process}
use ntr.Rule.Compile.{ok, put_min, put_all, append_all, is_empty, put_cidrs, put_networks, add_leaf}
use ntr.Rule.MinOrd.{
  hit, hit-or, hit-false, merge, get_ord, get_ord-le, get_ord-put_min, get_ord-put_all, min_of,
  min_of-le, min_of-append_one, min_of-append_all,
}
use ntr.Rule.Labels.{below, walk_min-put_all}
use ntr.Rule.Best.{guarded, host_part, ips_part}

-- The leaf rules as the engine reads them. A domain is matched by `DomainSuffix` if it is the suffix
-- or stands below it, and a sniffed protocol is compared with the value in lower case.
unfoldable pub host_matches : Dims → Bytes → Bool
host_matches d host =
    any (λ x. bytes_eq (norm_domain x) host) d.domain
    || any (λ s. below host (suffix_key s)) d.domain_suffix
    || any (λ k. contains_bytes host (to_lower k)) d.domain_keyword
    || any (λ set. set host) d.geo_site

module _ (parse_prefix : Bytes → Option Prefix) where
  unfoldable pub dims_match : Dims → Ctx → Bool
  dims_match d c =
      (not (bytes_eq c.network []) && any (λ x. bytes_eq x c.network) d.network)
      || (not (bytes_eq c.proto []) && any (λ x. bytes_eq (to_lower x) c.proto) d.protocol)
      || (is_fqdn c.dst && host_matches d (norm_domain c.dst.fqdn))
      || any (match_ip parse_prefix d) (ip_set c.dst c.ips)
      || any (λ p. nat_eq p c.dst.port) d.port

  unfoldable pub leaf_matches : Dims → Ctx → Bool
  leaf_matches d c = dims_match d c || match_process parse_prefix d c

module _ (ord : ℕ) (small : ord ≤ ord_none) where
  pub guarded-hit :
      (b t : Bool) (o o' : ℕ)
      → o' ≡ min o (hit t ord)
      → guarded b o' ≡ min (guarded b o) (hit (b && t) ord)
  unfolding guarded
  guarded-hit true t o o' h = h
  guarded-hit false t o o' h = omega arith

  pub get_ord-put_networks :
      (ns : List Bytes) (m m' : List (Bytes × ℕ)) (j : Bytes)
      → put_networks ord ns m ≡ ok m'
      → get_ord m' j ≡ min (get_ord m j) (hit (any (λ x. bytes_eq x j) ns) ord)
  unfolding put_networks any
  get_ord-put_networks [] m m' j h =
      let same : m ≡ m' = cc in rw (← same) (hit-false (get_ord m j) ord (get_ord-le m j))
  get_ord-put_networks (n ∷ ns) m m' j h = ground (
    arith,
    get_ord-put_networks ns (put_min m n ord) m' j,
    get_ord-put_min m n j ord small,
    hit-or (bytes_eq n j) (any (λ x. bytes_eq x j) ns) ord small,
  )

  min_of-put_cidrs :
      (parse_prefix : Bytes → Option Prefix) (ip : Addr) (cs : List Bytes)
      (m m' : List (Prefix × ℕ))
      → put_cidrs parse_prefix ord cs m ≡ ok m'
      → min_of (λ p. contains p ip) m'
        ≡ min
            (min_of (λ p. contains p ip) m)
            (hit (any (λ text. cidr_contains parse_prefix text ip) cs) ord)
  unfolding put_cidrs any cidr_contains
  min_of-put_cidrs parse_prefix ip [] m m' h =
      let same : m ≡ m' = cc in
      rw (← same) (hit-false (min_of (λ p. contains p ip) m) ord (min_of-le (λ p. contains p ip) m))
  min_of-put_cidrs parse_prefix ip (c ∷ cs) m m' h = elim (Option-cases (parse_prefix c)) [
    | inl bad ↦ ground arith
    | inr (p, good) ↦ ground (
      arith,
      min_of-put_cidrs parse_prefix ip cs (m ++ ((masked p, ord) ∷ [])) m',
      min_of-append_one (λ q. contains q ip) m (masked p) ord small,
      hit-or (contains (masked p) ip) (any (λ text. cidr_contains parse_prefix text ip) cs) ord
          small,
    )
  ]

  pub host_part-put :
      (e e' : Engine) (d : Dims) (host : Bytes)
      → e'.exact ≡ put_all norm_domain ord d.domain e.exact
      → e'.suffix ≡ put_all suffix_key ord d.domain_suffix e.suffix
      → e'.keyword ≡ append_all to_lower ord d.domain_keyword e.keyword
      → e'.geosite ≡ append_all (λ (s : Bytes → Bool). s) ord d.geo_site e.geosite
      → host_part e' host ≡ min (host_part e host) (hit (host_matches d host) ord)
  unfolding host_part host_matches
  host_part-put e e' d host p q r s =
      let exact_hit = any (λ x. bytes_eq (norm_domain x) host) d.domain in
      let suffix_hit = any (λ x. below host (suffix_key x)) d.domain_suffix in
      let keyword_hit = any (λ k. contains_bytes host (to_lower k)) d.domain_keyword in
      let site_hit = any (λ (set : Bytes → Bool). set host) d.geo_site in
      merge (exact_hit || suffix_hit || keyword_hit) site_hit ord _ _ small
        (merge (exact_hit || suffix_hit) keyword_hit ord _ _ small
          (merge exact_hit suffix_hit ord _ _ small
            (rw p (get_ord-put_all norm_domain ord d.domain e.exact host small))
            (rw q (
              walk_min-put_all suffix_key ord d.domain_suffix e.suffix small (length host) host
                (omega arith))))
          (rw r (
            min_of-append_all (λ kw. contains_bytes host kw) to_lower ord d.domain_keyword e.keyword
              small)))
        (rw s (
          min_of-append_all (λ (set : Bytes → Bool). set host) (λ (x : Bytes → Bool). x) ord
            d.geo_site e.geosite small))

  pub ips_part-put :
      (parse_prefix : Bytes → Option Prefix) (e e' : Engine) (d : Dims)
      → put_cidrs parse_prefix ord d.ip_cidr e.cidr ≡ ok e'.cidr
      → e'.geoip ≡ append_all (λ (s : Addr → Bool). s) ord d.geo_ip e.geoip
      → (ips : List Addr)
      → ips_part e'.cidr e'.geoip ips
        ≡ min (ips_part e.cidr e.geoip ips) (hit (any (match_ip parse_prefix d) ips) ord)
  unfolding ips_part match_ip any
  ips_part-put parse_prefix e e' d p q [] = omega arith
  ips_part-put parse_prefix e e' d p q (ip ∷ ips) =
      let cidr_hit = any (λ text. cidr_contains parse_prefix text ip) d.ip_cidr in
      let geo_hit = any (λ (set : Addr → Bool). set ip) d.geo_ip in
      merge (cidr_hit || geo_hit) (any (match_ip parse_prefix d) ips) ord _ _ small
        (merge cidr_hit geo_hit ord _ _ small
          (min_of-put_cidrs parse_prefix ip d.ip_cidr e.cidr e'.cidr p)
          (rw q (
            min_of-append_all (λ (set : Addr → Bool). set ip) (λ (x : Addr → Bool). x) ord d.geo_ip
              e.geoip small)))
        (ips_part-put parse_prefix e e' d p q ips)

-- What `add_leaf` has written, where it gives no error.
pub record IsAdded (parse_prefix : Bytes → Option Prefix) (ord : ℕ) (d : Dims) (e e' : Engine)
    : Type 0 where
  pub exact_put : e'.exact ≡ put_all norm_domain ord d.domain e.exact
  pub suffix_put : e'.suffix ≡ put_all suffix_key ord d.domain_suffix e.suffix
  pub keyword_put : e'.keyword ≡ append_all to_lower ord d.domain_keyword e.keyword
  pub cidr_put : put_cidrs parse_prefix ord d.ip_cidr e.cidr ≡ ok e'.cidr
  pub ports_put : e'.ports ≡ put_all (λ (p : ℕ). p) ord d.port e.ports
  pub netw_put : put_networks ord d.network e.netw ≡ ok e'.netw
  pub protocol_put : e'.protocol ≡ put_all to_lower ord d.protocol e.protocol
  pub geoip_put : e'.geoip ≡ append_all (λ (s : Addr → Bool). s) ord d.geo_ip e.geoip
  pub geosite_put : e'.geosite ≡ append_all (λ (s : Bytes → Bool). s) ord d.geo_site e.geosite
  pub name_put : e'.proc_name ≡ put_all (λ (x : Bytes). x) ord d.process_name e.proc_name
  pub path_put : e'.proc_path ≡ put_all (λ (x : Bytes). x) ord d.process_path e.proc_path
  pub has_proc_put :
      e'.has_proc ≡ ((e.has_proc || not (is_empty d.process_name)) || not (is_empty d.process_path))
  pub logical_kept : e'.logical ≡ e.logical
  pub has_ip_kept : e'.has_ip ≡ e.has_ip
  pub targets_kept : e'.targets ≡ e.targets
  pub fallback_kept : e'.fallback ≡ e.fallback
  pub has_logical_kept : e'.has_logical ≡ e.has_logical

pub add_leaf-IsAdded :
    (parse_prefix : Bytes → Option Prefix) (ord : ℕ) (d : Dims) (e e' : Engine)
    → add_leaf parse_prefix e d ord ≡ ok e'
    → IsAdded parse_prefix ord d e e'
unfolding add_leaf
add_leaf-IsAdded parse_prefix ord d e e' h = ground arith
