-- ===== src/Rule/Best.antt =====
-- rule/engine.go: the order that `RouteConnIPs` finds, as the smallest order over the indexes, and
-- what a rule adds to it.
use Prim.Native.Nat.{min}
use ntr.Prelude.{
  ℕ, ◌≤◌, ◌≡◌, refl, arith, Bool, true, false, not, Option, none, some, List, [], ◌∷◌,
  if◌then◌else◌, length,
}
use ntr.Prelude.Bytes.{Bytes}
use ntr.Prelude.Maps.{nat_Key, lookup}
use ntr.Prelude.Strings.{bytes_eq, bytes_Key, contains as contains_bytes}
use ntr.Addr.{Addr, Prefix, contains, is_fqdn}
use ntr.Rule.Types.{IpSet, Ctx, Engine, ord_none}
use ntr.Rule.Match.{norm_domain, ip_set, proc}
use ntr.Rule.Route.{probe, scan, walk, scan_ips, probe_process, host_best, dims_best, best_ord}
use ntr.Rule.MinOrd.{get_ord, get_ord-le, probe-min, min_of, min_of-le, scan-min}
use ntr.Rule.Labels.{walk_min, walk-min}

-- The parts of the smallest order.
unfoldable pub guarded : Bool → ℕ → ℕ
guarded b o = if b then o else ord_none

unfoldable pub host_part : Engine → Bytes → ℕ
host_part e host =
    min
      (min (min (get_ord e.exact host) (walk_min (length host) e.suffix host))
        (min_of (λ kw. contains_bytes host kw) e.keyword))
      (min_of (λ set. set host) e.geosite)

unfoldable pub ips_part : List (Prefix × ℕ) → List (IpSet × ℕ) → List Addr → ℕ
ips_part cidr geoip [] = ord_none
ips_part cidr geoip (ip ∷ ips) =
    min (min (min_of (λ p. contains p ip) cidr) (min_of (λ set. set ip) geoip))
      (ips_part cidr geoip ips)

unfoldable pub proc_part : Engine → Option (Bytes × Bytes) → ℕ
proc_part e none = ord_none
proc_part e (some (name, path)) = min (get_ord e.proc_name name) (get_ord e.proc_path path)

unfoldable pub dims_part : Engine → Ctx → ℕ
unfolding guarded host_part ips_part
dims_part e c =
    min
      (min
        (min
          (min (guarded (not (bytes_eq c.network [])) (get_ord e.netw c.network))
            (guarded (not (bytes_eq c.proto [])) (get_ord e.protocol c.proto)))
          (guarded (is_fqdn c.dst) (host_part e (norm_domain c.dst.fqdn))))
        (ips_part e.cidr e.geoip (ip_set c.dst c.ips)))
      (get_ord e.ports c.dst.port)

unfoldable pub least : Engine → Ctx → ℕ
least e c = min (min (dims_part e c) (proc_part e (proc c))) (min_of (λ holds. holds c) e.logical)

pub least-le : (e : Engine) (c : Ctx) → least e c ≤ ord_none
unfolding least
least-le e c = omega (arith, min_of-le (λ (holds : Ctx → Bool). holds c) e.logical)

-- The flags say which indexes are in use.
pub record IsFlagged (e : Engine) : Type 0 where
  pub no_proc_name : e.has_proc ≡ false → e.proc_name ≡ []
  pub no_proc_path : e.has_proc ≡ false → e.proc_path ≡ []
  pub no_logical : e.has_logical ≡ false → e.logical ≡ []

host_best-min :
    (e : Engine) (host : Bytes) (best : ℕ)
    → best ≤ ord_none
    → host_best e host best ≡ min best (host_part e host)
unfolding host_best host_part
host_best-min e host best h =
    let b1 = probe e.exact host best in
    let b2 = walk (length host) e.suffix host b1 in
    let b3 = scan (λ kw. contains_bytes host kw) e.keyword b2 in
    omega (
      arith,
      probe-min e.exact host best h,
      walk-min (length host) e.suffix host b1 (omega (arith, probe-min e.exact host best h)),
      scan-min (λ kw. contains_bytes host kw) e.keyword b2,
      scan-min (λ set. set host) e.geosite b3,
    )

scan_ips-min :
    (e : Engine) (ips : List Addr) (best : ℕ)
    → best ≤ ord_none
    → scan_ips e ips best ≡ min best (ips_part e.cidr e.geoip ips)
unfolding scan_ips ips_part
scan_ips-min e [] best h = omega arith
scan_ips-min e (ip ∷ ips) best h =
    let b1 = scan (λ p. contains p ip) e.cidr best in
    let b2 = scan (λ (set : Addr → Bool). set ip) e.geoip b1 in
    let p1 = scan-min (λ p. contains p ip) e.cidr best h in
    let p2 = scan-min (λ set. set ip) e.geoip b1 (omega arith) in
    omega (arith, p1, p2, scan_ips-min e ips b2 (omega arith))

-- A round under a test, whose branch takes a minimum.
guarded-min :
    (b : Bool) (best x o : ℕ)
    → best ≤ ord_none
    → (best ≤ ord_none → x ≡ min best o)
    → (if b then x else best) ≡ min best (guarded b o)
unfolding guarded
guarded-min true best x o h k = k h
guarded-min false best x o h k = omega arith

min-le_none : {a b : ℕ} (o : ℕ) → b ≡ min a o → a ≤ ord_none → b ≤ ord_none
min-le_none o h k = omega arith

from_none : {b o : ℕ} → b ≡ min ord_none o → o ≤ ord_none → b ≡ o
from_none h k = omega arith

guarded-le : (b : Bool) (o : ℕ) → o ≤ ord_none → guarded b o ≤ ord_none
unfolding guarded
guarded-le b o h = ground arith

dims_best-min : (e : Engine) (c : Ctx) → dims_best e c.dst c.ips c.network c.proto ≡ dims_part e c
unfolding dims_best dims_part
dims_best-min e c =
    let named = not (bytes_eq c.network []) in
    let sniffed = not (bytes_eq c.proto []) in
    let b1 = if named then probe e.netw c.network ord_none else ord_none in
    let b2 = if sniffed then probe e.protocol c.proto b1 else b1 in
    let host = norm_domain c.dst.fqdn in
    let b3 = if is_fqdn c.dst then host_best e host b2 else b2 in
    let b4 = scan_ips e (ip_set c.dst c.ips) b3 in
    let none_le : ord_none ≤ ord_none = omega arith in
    let e1 = guarded-min named ord_none _ _ none_le (probe-min e.netw c.network ord_none) in
    let h1 = min-le_none _ e1 none_le in
    let e1' = from_none e1 (guarded-le named _ (get_ord-le e.netw c.network)) in
    let e2 = guarded-min sniffed b1 _ _ h1 (probe-min e.protocol c.proto b1) in
    let h2 = min-le_none _ e2 h1 in
    let e3 = guarded-min (is_fqdn c.dst) b2 _ _ h2 (host_best-min e host b2) in
    let h3 = min-le_none _ e3 h2 in
    let e4 = scan_ips-min e (ip_set c.dst c.ips) b3 h3 in
    let e5 = probe-min e.ports c.dst.port b4 (min-le_none _ e4 h3) in cc (e1', e2, e3, e4, e5)

get_ord-nil : (k : Bytes) (m : List (Bytes × ℕ)) → m ≡ [] → get_ord m k ≡ ord_none
unfolding get_ord lookup
get_ord-nil k m h = rw h refl

min_of-nil : {K : Type 0} (p : K → Bool) (es : List (K × ℕ)) → es ≡ [] → min_of p es ≡ ord_none
unfolding min_of
min_of-nil p es h = rw h refl

probe_process-min :
    (e : Engine) (o : Option (Bytes × Bytes)) (best : ℕ)
    → best ≤ ord_none
    → probe_process e o best ≡ min best (proc_part e o)
unfolding probe_process proc_part
probe_process-min e none best h = omega arith
probe_process-min e (some (name, path)) best h = omega (
  arith,
  probe-min e.proc_name name best h,
  probe-min e.proc_path path (probe e.proc_name name best),
)

-- Without the flag the process indexes are empty.
proc_part_unflagged :
    (e : Engine) (o : Option (Bytes × Bytes))
    → IsFlagged e
    → e.has_proc ≡ false
    → proc_part e o ≡ ord_none
unfolding proc_part
proc_part_unflagged e none f h = refl
proc_part_unflagged e (some (name, path)) f h = omega (
  arith,
  get_ord-nil name e.proc_name (f.no_proc_name h),
  get_ord-nil path e.proc_path (f.no_proc_path h),
)

dims_part-le : (e : Engine) (c : Ctx) → dims_part e c ≤ ord_none
unfolding dims_part
dims_part-le e c = omega (arith, get_ord-le e.ports c.dst.port)

with_process :
    (e : Engine) (c : Ctx)
    → IsFlagged e
    → (if e.has_proc then probe_process e (proc c) (dims_part e c) else dims_part e c)
      ≡ min (dims_part e c) (proc_part e (proc c))
with_process e c f = ground (
  arith,
  dims_part-le e c,
  probe_process-min e (proc c) (dims_part e c),
  proc_part_unflagged e (proc c) f,
)

-- `RouteConnIPs` takes the smallest order over all indexes.
pub best_ord-least : (e : Engine) (c : Ctx) → IsFlagged e → best_ord e c ≡ least e c
unfolding best_ord least
best_ord-least e c f = ground (
  arith,
  dims_best-min e c,
  dims_part-le e c,
  with_process e c f,
  scan-min (λ (holds : Ctx → Bool). holds c) e.logical (min (dims_part e c) (proc_part e (proc c))),
  min_of-nil (λ (holds : Ctx → Bool). holds c) e.logical,
  f.no_logical,
)
