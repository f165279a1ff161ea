-- ===== src/Rule/AddRule.antt =====
-- rule/engine.go: what one round of the loop of `Compile` adds to the smallest order.
use Prim.Native.Nat.{min}
use ntr.Prelude.{
  ℕ, ◌%◌, ◌^◌, ◌≤◌, ◌≡◌, refl, ap, arith, Bool, true, false, not, ◌&&◌, ◌||◌, Option, none, some,
  List, [], ◌∷◌, ◌++◌, if◌then◌else◌, ◌⊎◌, inl, inr, set,
}
use ntr.Prelude.Bytes.{Bytes}
use ntr.Prelude.Maps.{nat_Key, nat_eq}
use ntr.Prelude.Strings.{bytes_eq, bytes_Key, to_lower}
use ntr.Addr.{Prefix, is_fqdn}
use ntr.Rule.Types.{Dims, Ctx, Engine, ord_none, Rule, op, dims, target}
use ntr.Rule.Match.{any, norm_domain, ip_set, proc, match_ip, match_found, match_process, eval}
use ntr.Rule.Compile.{ok, put_all, is_empty, add_leaf, add_composite, add_rule, rule_uses_ip}
use ntr.Rule.MinOrd.{hit, merge, get_ord-put_all, min_of, min_of-append_one}
use ntr.Rule.Best.{host_part, proc_part, dims_part, least, IsFlagged}
use ntr.Rule.Leaf.{
  host_matches, dims_match, leaf_matches, guarded-hit, get_ord-put_networks, host_part-put,
  ips_part-put, IsAdded, add_leaf-IsAdded,
}

module _ (parse_prefix : Bytes → Option Prefix) (ord : ℕ) (small : ord ≤ ord_none) where
  dims_part-IsAdded :
      (d : Dims) (e e' : Engine) (c : Ctx)
      → IsAdded parse_prefix ord d e e'
      → dims_part e' c ≡ min (dims_part e c) (hit (dims_match parse_prefix d c) ord)
  unfolding dims_part dims_match
  dims_part-IsAdded d e e' c a =
      let net_hit = any (λ x. bytes_eq x c.network) d.network in
      let proto_hit = any (λ x. bytes_eq (to_lower x) c.proto) d.protocol in
      let host = norm_domain c.dst.fqdn in
      let host_hit = host_matches d host in
      let named = not (bytes_eq c.network []) in
      let sniffed = not (bytes_eq c.proto []) in
      let fqdn = is_fqdn c.dst in
      let ip_hit = any (match_ip parse_prefix d) (ip_set c.dst c.ips) in
      merge ((named && net_hit) || (sniffed && proto_hit) || (fqdn && host_hit) || ip_hit)
        (any (λ p. nat_eq p c.dst.port) d.port) ord _ _ small
        (merge ((named && net_hit) || (sniffed && proto_hit) || (fqdn && host_hit)) ip_hit ord _ _
          small
          (merge ((named && net_hit) || (sniffed && proto_hit)) (fqdn && host_hit) ord _ _ small
            (merge (named && net_hit) (sniffed && proto_hit) ord _ _ small
              (guarded-hit ord small named net_hit _ _
                (get_ord-put_networks ord small d.network e.netw e'.netw c.network a.netw_put))
              (guarded-hit ord small sniffed proto_hit _ _ (
                rw a.protocol_put
                  (get_ord-put_all to_lower ord d.protocol e.protocol c.proto small))))
            (guarded-hit ord small fqdn host_hit _ _ (
              host_part-put ord small e e' d host a.exact_put a.suffix_put a.keyword_put
                a.geosite_put)))
          (ips_part-put ord small parse_prefix e e' d a.cidr_put a.geoip_put (ip_set c.dst c.ips)))
        (rw a.ports_put (get_ord-put_all (λ (p : ℕ). p) ord d.port e.ports c.dst.port small))

  proc_part-IsAdded :
      (d : Dims) (e e' : Engine) (o : Option (Bytes × Bytes))
      → IsAdded parse_prefix ord d e e'
      → proc_part e' o ≡ min (proc_part e o) (hit (match_found parse_prefix d o) ord)
  unfolding proc_part match_found
  proc_part-IsAdded d e e' none a = omega arith
  proc_part-IsAdded d e e' (some (name, path)) a =
      merge (any (λ x. bytes_eq x name) d.process_name) (any (λ x. bytes_eq x path) d.process_path)
        ord _ _ small
        (rw a.name_put
          (get_ord-put_all (λ (x : Bytes). x) ord d.process_name e.proc_name name small))
        (rw a.path_put
          (get_ord-put_all (λ (x : Bytes). x) ord d.process_path e.proc_path path small))

  least-IsAdded :
      (d : Dims) (e e' : Engine) (c : Ctx)
      → IsAdded parse_prefix ord d e e'
      → least e' c ≡ min (least e c) (hit (leaf_matches parse_prefix d c) ord)
  unfolding least leaf_matches match_process
  least-IsAdded d e e' c a = omega (
    arith,
    merge (dims_match parse_prefix d c) (match_found parse_prefix d (proc c)) ord (dims_part e c)
        (proc_part e (proc c)) small (dims_part-IsAdded d e e' c a)
        (proc_part-IsAdded d e e' (proc c) a),
    ap (min_of (λ holds. holds c)) a.logical_kept,
  )

  put_all-nil :
      {A : Type 0} (key : A → Bytes) (xs : List A) (m : List (Bytes × ℕ))
      → is_empty xs ≡ true
      → put_all key ord xs m ≡ m
  unfolding put_all
  put_all-nil key [] m h = refl
  put_all-nil key (x ∷ xs) m h = cc

  IsFlagged-IsAdded :
      (d : Dims) (e e' : Engine) → IsAdded parse_prefix ord d e e' → IsFlagged e → IsFlagged e'
  IsFlagged-IsAdded d e e' a f = ground (
    arith,
    a.has_proc_put,
    a.name_put,
    a.path_put,
    a.logical_kept,
    a.has_logical_kept,
    f.no_proc_name,
    f.no_proc_path,
    f.no_logical,
    put_all-nil (λ (x : Bytes). x) d.process_name e.proc_name,
    put_all-nil (λ (x : Bytes). x) d.process_path e.proc_path,
  )

-- A rule of the table as the engine reads it.
unfoldable pub rule_matches : (Bytes → Option Prefix) → Rule → Ctx → Bool
rule_matches parse_prefix r c =
    if not (bytes_eq (op r) []) then eval parse_prefix r c else leaf_matches parse_prefix (dims r) c

add_composite-ok :
    (parse_prefix : Bytes → Option Prefix) (e e' : Engine) (r : Rule) (ord : ℕ)
    → add_composite parse_prefix e r ord ≡ ok e'
    → record e { logical = e.logical ++ ((eval parse_prefix r, ord) ∷ []); has_logical = true } ≡ e'
unfolding add_composite
add_composite-ok parse_prefix e e' r ord h = ground arith

least-add_composite :
    (parse_prefix : Bytes → Option Prefix) (e e' : Engine) (r : Rule) (ord : ℕ) (c : Ctx)
    → ord ≤ ord_none
    → add_composite parse_prefix e r ord ≡ ok e'
    → least e' c ≡ min (least e c) (hit (eval parse_prefix r c) ord)
unfolding least dims_part host_part proc_part
least-add_composite parse_prefix e e' r ord c small h =
    rw (← add_composite-ok parse_prefix e e' r ord h) (
      omega (
        arith,
        min_of-append_one (λ (holds : Ctx → Bool). holds c) e.logical (eval parse_prefix r) ord
            small,
      ))

IsFlagged-add_composite :
    (parse_prefix : Bytes → Option Prefix) (e e' : Engine) (r : Rule) (ord : ℕ)
    → IsFlagged e
    → add_composite parse_prefix e r ord ≡ ok e'
    → IsFlagged e'
IsFlagged-add_composite parse_prefix e e' r ord f h =
    rw (← add_composite-ok parse_prefix e e' r ord h)
      (ground (arith, f.no_proc_name, f.no_proc_path))

-- The engine with the rule's target, in front of the index updates.
abbrev pub with_target : Engine → ℕ → Rule → Engine
with_target e i r = record e {
  targets = set e.targets i (target r);
  has_ip = e.has_ip || rule_uses_ip r;
}

-- Where `add_rule` gives no error, it has taken one of the two ways.
add_rule-ways :
    (parse_prefix : Bytes → Option Prefix) (e e' : Engine) (i : ℕ) (r : Rule)
    → i ≤ ord_none
    → add_rule parse_prefix e i r ≡ ok e'
    → ((not (bytes_eq (op r) []) ≡ true)
        × (add_composite parse_prefix (with_target e i r) r i ≡ ok e'))
      ⊎ ((not (bytes_eq (op r) []) ≡ false)
          × (add_leaf parse_prefix (with_target e i r) (dims r) i ≡ ok e'))
unfolding add_rule
add_rule-ways parse_prefix e e' i r small h =
    let same : i % 2 ^ 32 ≡ i = omega arith in ground (arith, same)

-- The order of the rule joins the smallest order if the rule matches.
pub least-add_rule :
    (parse_prefix : Bytes → Option Prefix) (e e' : Engine) (i : ℕ) (r : Rule) (c : Ctx)
    → i ≤ ord_none
    → add_rule parse_prefix e i r ≡ ok e'
    → least e' c ≡ min (least e c) (hit (rule_matches parse_prefix r c) i)
unfolding rule_matches least dims_part host_part proc_part
least-add_rule parse_prefix e e' i r c small h =
    elim (add_rule-ways parse_prefix e e' i r small h) [
      | inl (o, k) ↦ rw o (least-add_composite parse_prefix (with_target e i r) e' r i c small k)
      | inr (o, k) ↦ rw o (
          least-IsAdded parse_prefix i small (dims r) (with_target e i r) e' c
            (add_leaf-IsAdded parse_prefix i (dims r) (with_target e i r) e' k))
    ]

pub IsFlagged-add_rule :
    (parse_prefix : Bytes → Option Prefix) (e e' : Engine) (i : ℕ) (r : Rule)
    → i ≤ ord_none
    → IsFlagged e
    → add_rule parse_prefix e i r ≡ ok e'
    → IsFlagged e'
IsFlagged-add_rule parse_prefix e e' i r small f h =
    let f' : IsFlagged (with_target e i r) = record {
      no_proc_name = f.no_proc_name;
      no_proc_path = f.no_proc_path;
      no_logical = f.no_logical;
    } in
    elim (add_rule-ways parse_prefix e e' i r small h) [
      | inl (o, k) ↦ IsFlagged-add_composite parse_prefix (with_target e i r) e' r i f' k
      | inr (o, k) ↦
          IsFlagged-IsAdded parse_prefix i small (dims r) (with_target e i r) e'
            (add_leaf-IsAdded parse_prefix i (dims r) (with_target e i r) e' k) f'
    ]

-- The target of the rule stands at its place, and the fallback stays.
pub add_rule-targets :
    (parse_prefix : Bytes → Option Prefix) (e e' : Engine) (i : ℕ) (r : Rule)
    → i ≤ ord_none
    → add_rule parse_prefix e i r ≡ ok e'
    → (e'.targets ≡ set e.targets i (target r)) × (e'.fallback ≡ e.fallback)
add_rule-targets parse_prefix e e' i r small h =
    elim (add_rule-ways parse_prefix e e' i r small h) [
      | inl (o, k) ↦ rw (← add_composite-ok parse_prefix (with_target e i r) e' r i k) (refl, refl)
      | inr (o, k) ↦
          let a = add_leaf-IsAdded parse_prefix i (dims r) (with_target e i r) e' k in
          (a.targets_kept, a.fallback_kept)
    ]

pub add_rule-has_ip :
    (parse_prefix : Bytes → Option Prefix) (e e' : Engine) (i : ℕ) (r : Rule)
    → i ≤ ord_none
    → add_rule parse_prefix e i r ≡ ok e'
    → e'.has_ip ≡ (e.has_ip || rule_uses_ip r)
add_rule-has_ip parse_prefix e e' i r small h = elim (add_rule-ways parse_prefix e e' i r small h) [
  | inl (o, k) ↦ rw (← add_composite-ok parse_prefix (with_target e i r) e' r i k) refl
  | inr (o, k) ↦ (add_leaf-IsAdded parse_prefix i (dims r) (with_target e i r) e' k).has_ip_kept
]
