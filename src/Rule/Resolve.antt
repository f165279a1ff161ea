-- ===== src/Rule/Resolve.antt =====
-- rule/engine.go: `HasIPRules` tells when the addresses of a domain need not be resolved.
use ntr.Prelude.{
  ℕ, suc, ◌+◌, ◌^◌, ◌≤◌, ◌<◌, ◌≡◌, refl, sym, ap, ◌∙◌, arith, false, not, ◌||◌, Option, some, List,
  [], ◌∷◌, length, ltb,
}
use ntr.Prelude.Bytes.{Bytes}
use ntr.Addr.{Addr, Prefix, Socksaddr, AddrPort}
use ntr.Rule.Types.{
  Ctx, Engine, ord_none, Dims, Rule, rule, Rules, nil, cons, op, dims, ProcessFinder,
}
use ntr.Rule.Match.{
  any, match_ip, match_leaf, match_process, proc, ip_set, eval, eval_all, eval_any,
}
use ntr.Rule.Compile.{ok, is_empty, rule_uses_ip, rules_use_ip, compile_from, empty_engine, compile}
use ntr.Rule.Route.{route_conn_ips}
use ntr.Rule.Labels.{any_none}
use ntr.Rule.Leaf.{leaf_matches, dims_match}
use ntr.Rule.AddRule.{rule_matches, add_rule-has_ip}
use ntr.Rule.FirstMatch.{first_match, compile_from_step, compile-ok, route_conn_ips-first_match}

-- How many IP predicates stand in a rule and in the rules below it.
mutual
  pub ip_predicates : Rule → ℕ
  ip_predicates (rule d o subs inverted to) =
      length d.ip_cidr + length d.geo_ip + sub_ip_predicates subs

  pub sub_ip_predicates : Rules → ℕ
  sub_ip_predicates nil = 0
  sub_ip_predicates (cons r rs) = ip_predicates r + sub_ip_predicates rs

-- How many stand in a table.
pub table_ips : List Rule → ℕ
table_ips [] = 0
table_ips (r ∷ rs) = ip_predicates r + table_ips rs

is_empty-length {ℓ} : {A : Type ℓ} (xs : List A) → not (is_empty xs) ≡ ltb 0 (length xs)
is_empty-length [] = refl
is_empty-length (x ∷ xs) = ground arith

mutual
  unfolding rule_uses_ip ip_predicates

  uses_ip : (r : Rule) → rule_uses_ip r ≡ ltb 0 (ip_predicates r)
  uses_ip (rule d o subs inverted to) =
      ground (arith, is_empty-length d.ip_cidr, is_empty-length d.geo_ip, subs_use_ip subs)

  subs_use_ip : (rs : Rules) → rules_use_ip rs ≡ ltb 0 (sub_ip_predicates rs)
  subs_use_ip nil = refl
  subs_use_ip (cons r rs) = ground (arith, uses_ip r, subs_use_ip rs)

any_uses_ip : (rs : List Rule) → any rule_uses_ip rs ≡ ltb 0 (table_ips rs)
unfolding any table_ips
any_uses_ip [] = refl
any_uses_ip (r ∷ rs) = ground (arith, uses_ip r, any_uses_ip rs)

nil_of_empty {ℓ} : {A : Type ℓ} (xs : List A) → not (is_empty xs) ≡ false → xs ≡ []
nil_of_empty [] h = refl
nil_of_empty (x ∷ xs) h = cc

module _ (parse_prefix : Bytes → Option Prefix) where
  match_ip_unused :
      (d : Dims) (ip : Addr) → d.ip_cidr ≡ [] → d.geo_ip ≡ [] → match_ip parse_prefix d ip ≡ false
  unfolding match_ip any
  match_ip_unused d ip h k = rw (h, k) refl

  pub match_ips_unused :
      (d : Dims) (ips : List Addr)
      → not (is_empty d.ip_cidr) ≡ false
      → not (is_empty d.geo_ip) ≡ false
      → any (match_ip parse_prefix d) ips ≡ false
  match_ips_unused d ips h k =
      any_none (match_ip parse_prefix d) ips
        (λ ip. match_ip_unused d ip (nil_of_empty d.ip_cidr h) (nil_of_empty d.geo_ip k))

  abbrev with_ips : Ctx → List Addr → Ctx
  with_ips c ips = record c { ips = ips }

  proc_ips : (c : Ctx) (ips : List Addr) → proc (with_ips c ips) ≡ proc c
  unfolding proc
  proc_ips c ips = ground arith

  match_leaf_ips :
      (d : Dims) (c : Ctx) (ips : List Addr)
      → not (is_empty d.ip_cidr) ≡ false
      → not (is_empty d.geo_ip) ≡ false
      → match_leaf parse_prefix d (with_ips c ips) ≡ match_leaf parse_prefix d c
  unfolding match_leaf match_process
  match_leaf_ips d c ips h k =
      rw
        (
          proc_ips c ips,
          match_ips_unused d (ip_set c.dst ips) h k,
          match_ips_unused d (ip_set c.dst c.ips) h k,
        )
        refl

  leaf_matches_ips :
      (d : Dims) (c : Ctx) (ips : List Addr)
      → not (is_empty d.ip_cidr) ≡ false
      → not (is_empty d.geo_ip) ≡ false
      → leaf_matches parse_prefix d (with_ips c ips) ≡ leaf_matches parse_prefix d c
  unfolding leaf_matches dims_match match_process
  leaf_matches_ips d c ips h k =
      rw
        (
          proc_ips c ips,
          match_ips_unused d (ip_set c.dst ips) h k,
          match_ips_unused d (ip_set c.dst c.ips) h k,
        )
        refl

  mutual
    unfolding eval rule_uses_ip

    eval_ips :
        (r : Rule) (c : Ctx) (ips : List Addr)
        → rule_uses_ip r ≡ false
        → eval parse_prefix r (with_ips c ips) ≡ eval parse_prefix r c
    eval_ips (rule d o subs inverted to) c ips h =
        ground (arith, match_leaf_ips d c ips, eval_all_ips subs c ips, eval_any_ips subs c ips)

    eval_all_ips :
        (rs : Rules) (c : Ctx) (ips : List Addr)
        → rules_use_ip rs ≡ false
        → eval_all parse_prefix rs (with_ips c ips) ≡ eval_all parse_prefix rs c
    eval_all_ips nil c ips h = refl
    eval_all_ips (cons r rs) c ips h = ground (arith, eval_ips r c ips, eval_all_ips rs c ips)

    eval_any_ips :
        (rs : Rules) (c : Ctx) (ips : List Addr)
        → rules_use_ip rs ≡ false
        → eval_any parse_prefix rs (with_ips c ips) ≡ eval_any parse_prefix rs c
    eval_any_ips nil c ips h = refl
    eval_any_ips (cons r rs) c ips h = ground (arith, eval_ips r c ips, eval_any_ips rs c ips)

  rule_matches_ips :
      (r : Rule) (c : Ctx) (ips : List Addr)
      → rule_uses_ip r ≡ false
      → rule_matches parse_prefix r (with_ips c ips) ≡ rule_matches parse_prefix r c
  unfolding rule_matches rule_uses_ip dims op
  rule_matches_ips (rule d o subs inverted to) c ips h =
      ground (arith, leaf_matches_ips d c ips, eval_ips (rule d o subs inverted to) c ips h)

  first_match_ips :
      (rs : List Rule) (fallback : Bytes) (c : Ctx) (ips : List Addr)
      → any rule_uses_ip rs ≡ false
      → first_match parse_prefix rs fallback (with_ips c ips)
        ≡ first_match parse_prefix rs fallback c
  unfolding first_match any
  first_match_ips [] fallback c ips h = refl
  first_match_ips (r ∷ rs) fallback c ips h =
      ground (arith, rule_matches_ips r c ips, first_match_ips rs fallback c ips)

  has_ip-compile_from :
      (e e' : Engine) (i : ℕ) (rs : List Rule)
      → i + length rs ≤ ord_none
      → compile_from parse_prefix e i rs ≡ ok e'
      → e'.has_ip ≡ (e.has_ip || any rule_uses_ip rs)
  unfolding compile_from any
  has_ip-compile_from e e' i [] h k = ground arith
  has_ip-compile_from e e' i (r ∷ rs) h k =
      let (e1, p, q) = compile_from_step parse_prefix e e' i r rs k in
      ground (
        arith,
        add_rule-has_ip parse_prefix e e1 i r (omega arith) p,
        has_ip-compile_from e1 e' (suc i) rs (omega arith) q,
      )

  has_ip-any :
      (rules : List Rule) (fallback : Bytes) (e : Engine)
      → length rules < 2 ^ 32
      → compile parse_prefix rules fallback ≡ ok e
      → e.has_ip ≡ any rule_uses_ip rules
  unfolding empty_engine
  has_ip-any rules fallback e n h =
      has_ip-compile_from (empty_engine parse_prefix (length rules) fallback) e 0 rules
        (omega arith) (compile-ok parse_prefix rules fallback e h)

  -- The engine of fewer than 2 ^ 32 rules says that it has IP rules exactly if there is an IP predicate
  -- in a rule of the table or below one, at any depth: a text of `ip_cidr` or a set of `geo_ip`.
  pub compile-has_ip :
      (rules : List Rule) (fallback : Bytes) (e : Engine)
      → length rules < 2 ^ 32
      → compile parse_prefix rules fallback ≡ ok e
      → e.has_ip ≡ ltb 0 (table_ips rules)
  compile-has_ip rules fallback e n h = has_ip-any rules fallback e n h ∙ any_uses_ip rules

  -- Where `HasIPRules` of fewer than 2 ^ 32 rules says no, the addresses that a domain resolves to change
  -- no route: to skip the resolution is safe.
  pub route_conn_ips_unresolved :
      (rules : List Rule) (fallback : Bytes) (e : Engine) (dst : Socksaddr) (ips : List Addr)
      (src : AddrPort) (network proto : Bytes) (finder : Option ProcessFinder)
      → length rules < 2 ^ 32
      → compile parse_prefix rules fallback ≡ ok e
      → e.has_ip ≡ false
      → route_conn_ips e dst ips src network proto finder
        ≡ route_conn_ips e dst [] src network proto finder
  route_conn_ips_unresolved rules fallback e dst ips src network proto finder n h none_used =
      let c : Ctx = record {
        dst = dst;
        src = src;
        ips = [];
        network = network;
        proto = proto;
        finder = finder;
      } in
      route_conn_ips-first_match parse_prefix rules fallback e dst ips src network proto finder n h
      ∙ ap some
          (first_match_ips rules fallback c ips (sym (has_ip-any rules fallback e n h) ∙ none_used))
      ∙ sym (
          route_conn_ips-first_match parse_prefix rules fallback e dst [] src network proto finder n
            h)
