-- ===== src/Rule/Route.antt =====
-- rule/engine.go: `RouteConnIPs` and `dimsBest` on a compiled engine.
use ntr.Prelude.{
  ℕ, zero, suc, Bool, not, ◌&&◌, Option, none, some, List, [], ◌∷◌, ltb, ◌==◌, if◌then◌else◌,
  length, get_elem?,
}
use ntr.Prelude.Bytes.{Bytes}
use ntr.Prelude.Maps.{Key, nat_Key, lookup}
use ntr.Prelude.Strings.{bytes_eq, bytes_Key, contains as contains_bytes, after_dot}
use ntr.Addr.{Addr, AddrPort, Socksaddr, contains, is_fqdn}
use ntr.Rule.Types.{ProcessFinder, Ctx, Engine, ord_none}
use ntr.Rule.Match.{norm_domain, ip_set, proc}

-- `if o, ok := m[k]; ok && o < best { best = o }`
probe_found : Option ℕ → ℕ → ℕ
probe_found none best = best
probe_found (some o) best = if ltb o best then o else best

unfoldable pub probe : {K : Type 0} ⦃e : Key K⦄ → List (K × ℕ) → K → ℕ → ℕ
unfolding probe_found
probe m k best = probe_found (lookup k m) best

-- A loop over entries that keeps the order of the last one that is smaller and passes.
unfoldable pub scan : {K : Type 0} → (K → Bool) → List (K × ℕ) → ℕ → ℕ
scan p [] best = best
scan p ((k, o) ∷ es) best = scan p es (if ltb o best && p k then o else best)

-- The loop over the parent labels of a host, with a bound on its rounds.
unfoldable pub walk : ℕ → List (Bytes × ℕ) → Bytes → ℕ → ℕ
walk fuel m [] best = best
walk zero m (c ∷ cs) best = best
walk (suc fuel) m (c ∷ cs) best =
    let best' = probe m (c ∷ cs) best in
    elim (after_dot (c ∷ cs)) [ none ↦ best' | some s ↦ walk fuel m s best' ]

-- The loop over the addresses of the target.
unfoldable pub scan_ips : Engine → List Addr → ℕ → ℕ
scan_ips e [] best = best
scan_ips e (ip ∷ ips) best =
    scan_ips e ips (scan (λ set. set ip) e.geoip (scan (λ p. contains p ip) e.cidr best))

-- The block of `dimsBest` under `dst.IsFqdn()`. Each round of `walk` takes a byte at least.
unfoldable pub host_best : Engine → Bytes → ℕ → ℕ
host_best e host best =
    scan (λ set. set host) e.geosite
      (scan (λ kw. contains_bytes host kw) e.keyword
        (walk (length host) e.suffix host (probe e.exact host best)))

-- `dimsBest`
unfoldable pub dims_best : Engine → Socksaddr → List Addr → Bytes → Bytes → ℕ
dims_best e dst ips network proto =
    let b1 = if not (bytes_eq network []) then probe e.netw network ord_none else ord_none in
    let b2 = if not (bytes_eq proto []) then probe e.protocol proto b1 else b1 in
    let b3 = if is_fqdn dst then host_best e (norm_domain dst.fqdn) b2 else b2 in
    let b4 = scan_ips e (ip_set dst ips) b3 in probe e.ports dst.port b4

-- The probes of the process indexes.
unfoldable pub probe_process : Engine → Option (Bytes × Bytes) → ℕ → ℕ
probe_process e none best = best
probe_process e (some (name, path)) best = probe e.proc_path path (probe e.proc_name name best)

-- The order of the first rule that matches, or `ord_none`. In `RouteConnIPs` a context without a
-- finder or a valid source is not asked for the process, and here `proc` answers none for it; the
-- context of the composite rules has the same fields with either.
unfoldable pub best_ord : Engine → Ctx → ℕ
unfolding probe_process
best_ord e c =
    let b1 = dims_best e c.dst c.ips c.network c.proto in
    let b2 = if e.has_proc then probe_process e (proc c) b1 else b1 in
    if e.has_logical then scan (λ holds. holds c) e.logical b2 else b2

-- `RouteConnIPs`; none is the panic of an index out of range.
unfoldable pub route_conn_ips :
    Engine → Socksaddr → List Addr → AddrPort → Bytes → Bytes → Option ProcessFinder → Option Bytes
route_conn_ips e dst ips src network proto finder =
    let c : Ctx = record {
      dst = dst;
      src = src;
      ips = ips;
      network = network;
      proto = proto;
      finder = finder;
    } in
    let best = best_ord e c in
    if best == ord_none then some e.fallback else get_elem? e.targets best

unfoldable pub route_conn :
    Engine → Socksaddr → AddrPort → Bytes → Bytes → Option ProcessFinder → Option Bytes
route_conn e dst src network proto finder = route_conn_ips e dst [] src network proto finder

unfoldable pub route : Engine → Socksaddr → Option Bytes
route e dst = route_conn e dst (record { ip = Addr.no_addr; port = 0 }) [] [] none
