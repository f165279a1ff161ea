-- ===== src/Rule/Agree.antt =====
-- rule/engine.go: a leaf inside a composite rule (`matchLeaf`) against the same leaf at the top of the
-- table (the indexes).
use ntr.Prelude.{
  ◌≡◌, ◌≢◌, refl, ap, sym, ◌∙◌, arith, Bool, false, ◌||◌, Option, some, List, [], ◌∷◌, All,
  if◌then◌else◌,
}
use ntr.Prelude.Bytes.{Bytes}
use ntr.Prelude.Maps.{nat_eq}
use ntr.Prelude.Strings.{bytes_eq, bytes_eq_iff, has_suffix, to_lower}
use ntr.Addr.{Prefix}
use ntr.Rule.Types.{Ctx, Dims, Engine, Rule, rule, nil, cons, op, dims, target}
use ntr.Rule.Match.{
  eval, any, match_leaf, match_host, match_process, ip_set, norm_domain, suffix_key,
}
use ntr.Rule.Compile.{ok, compile, op_or}
use ntr.Rule.Route.{route_conn_ips}
use ntr.Rule.AddRule.{rule_matches}
use ntr.Rule.FirstMatch.{first_match, route_conn_ips-first_match}
use ntr.Rule.Resolve.{match_ips_unused}
use ntr.Rule.Labels.{below}
use ntr.Rule.Leaf.{leaf_matches, dims_match, host_matches}

any_ext_on :
    {A : Type 0} (P : A → Type 0) (p q : A → Bool) (xs : List A)
    → ((x : A) → P x → p x ≡ q x)
    → All P xs
    → any p xs ≡ any q xs
unfolding any
any_ext_on P p q [] h a = refl
any_ext_on P p q (x ∷ xs) h (a, rest) = ground (arith, h x a, any_ext_on P p q xs h rest)

-- No predicate.
abbrev pub no_dims : Dims
no_dims = record {
  domain = [];
  domain_suffix = [];
  domain_keyword = [];
  ip_cidr = [];
  port = [];
  network = [];
  protocol = [];
  geo_ip = [];
  geo_site = [];
  process_name = [];
  process_path = [];
}

-- Predicates that the two ways read alike: protocols in lower case, and suffixes
-- that are not empty without the dot in front and the last dot.
abbrev pub IsPlain : Dims → Type 0
IsPlain d = All (λ x. to_lower x ≡ x) d.protocol × All (λ s. suffix_key s ≢ []) d.domain_suffix

suffix_plain :
    (host s : Bytes)
    → suffix_key s ≢ []
    → (bytes_eq host (suffix_key s) || has_suffix host (b'.' ∷ suffix_key s))
      ≡ below host (suffix_key s)
unfolding below
suffix_plain host s h = ground (arith, bytes_eq_iff (suffix_key s) [])

module _ (parse_prefix : Bytes → Option Prefix) where
  match_host-host_matches :
      (d : Dims) (host : Bytes)
      → All (λ s. suffix_key s ≢ []) d.domain_suffix
      → match_host parse_prefix d host ≡ host_matches d host
  unfolding match_host host_matches
  match_host-host_matches d host a =
      rw
        (any_ext_on (λ s. suffix_key s ≢ []) _ (λ s. below host (suffix_key s)) d.domain_suffix
          (λ s h. suffix_plain host s h) a)
        refl

  leaf_plain :
      (d : Dims) (c : Ctx) → IsPlain d → match_leaf parse_prefix d c ≡ leaf_matches parse_prefix d c
  unfolding match_leaf leaf_matches dims_match nat_eq
  leaf_plain d c (lower, suffixes) =
      let host = norm_domain c.dst.fqdn in
      ground (
        arith,
        match_host-host_matches d host suffixes,
        any_ext_on (λ x. to_lower x ≡ x) (λ x. bytes_eq x c.proto)
            (λ x. bytes_eq (to_lower x) c.proto) d.protocol
            (λ x h. ap (λ y. bytes_eq y c.proto) (sym h)) lower,
      )

-- The table of one rule, which is a leaf, and the table whose one rule is an `or` of that leaf.
abbrev pub leaf_table : Dims → Bytes → List Rule
leaf_table d to = rule d [] nil false to ∷ []

abbrev pub or_table : Dims → Bytes → List Rule
or_table d to = rule no_dims op_or (cons (rule d [] nil false []) nil) false to ∷ []

-- The engines of the two tables.
pub record Engines (parse_prefix : Bytes → Option Prefix) (d : Dims) (to fallback : Bytes)
    : Type 0 where
  pub of_leaf : Engine
  pub of_or : Engine
  pub leaf_compiles : compile parse_prefix (leaf_table d to) fallback ≡ ok of_leaf
  pub or_compiles : compile parse_prefix (or_table d to) fallback ≡ ok of_or

abbrev pub route_ctx : Engine → Ctx → Option Bytes
route_ctx e c = route_conn_ips e c.dst c.ips c.src c.network c.proto c.finder

module _ (parse_prefix : Bytes → Option Prefix) where
  route_ctx-leaf_table :
      (d : Dims) (to fallback : Bytes) (e : Engine) (c : Ctx)
      → compile parse_prefix (leaf_table d to) fallback ≡ ok e
      → route_ctx e c ≡ some (if leaf_matches parse_prefix d c then to else fallback)
  unfolding first_match rule_matches op dims target bytes_eq
  route_ctx-leaf_table d to fallback e c h =
      route_conn_ips-first_match parse_prefix (leaf_table d to) fallback e c.dst c.ips c.src
        c.network c.proto c.finder (omega arith) h

  route_ctx-or_table :
      (d : Dims) (to fallback : Bytes) (e : Engine) (c : Ctx)
      → compile parse_prefix (or_table d to) fallback ≡ ok e
      → route_ctx e c ≡ some (if match_leaf parse_prefix d c then to else fallback)
  unfolding first_match rule_matches op dims target bytes_eq eval
  route_ctx-or_table d to fallback e c h =
      route_conn_ips-first_match parse_prefix (or_table d to) fallback e c.dst c.ips c.src c.network
        c.proto c.finder (omega arith) h
      ∙ ground arith

  -- A leaf with plain predicates, which are protocols in lower case and suffixes that are not empty
  -- without the dot in front and the last dot, routes every connection alike as the one rule of a
  -- table, by the indexes, and inside an `or` that is the one rule of a table, by its closure.
  pub route_conn_ips-or_table :
      (d : Dims) (to fallback : Bytes) (es : Engines parse_prefix d to fallback) (c : Ctx)
      → IsPlain d
      → route_ctx es.of_leaf c ≡ route_ctx es.of_or c
  route_conn_ips-or_table d to fallback es c plain =
      route_ctx-leaf_table d to fallback es.of_leaf c es.leaf_compiles
      ∙ ap (λ b. some (if b then to else fallback)) (sym (leaf_plain parse_prefix d c plain))
      ∙ sym (route_ctx-or_table d to fallback es.of_or c es.or_compiles)

-- A leaf with one protocol and nothing else.
abbrev pub only_protocol : Bytes → Dims
only_protocol p = record no_dims { protocol = p ∷ [] }

module _ (parse_prefix : Bytes → Option Prefix) where
  leaf_protocol :
      (p : Bytes) (c : Ctx)
      → c.proto ≢ []
      → leaf_matches parse_prefix (only_protocol p) c ≡ bytes_eq (to_lower p) c.proto
  unfolding leaf_matches dims_match host_matches match_process any
  leaf_protocol p c sniffed = ground (
    arith,
    match_ips_unused parse_prefix (only_protocol p) (ip_set c.dst c.ips) refl refl,
    bytes_eq_iff c.proto [],
  )

  match_leaf_protocol :
      (p : Bytes) (c : Ctx)
      → to_lower p ≢ p
      → to_lower c.proto ≡ c.proto
      → match_leaf parse_prefix (only_protocol p) c ≡ false
  unfolding match_leaf match_host match_process any
  match_leaf_protocol p c upper sniffed = ground (
    arith,
    match_ips_unused parse_prefix (only_protocol p) (ip_set c.dst c.ips) refl refl,
    bytes_eq_iff p c.proto,
    differs,
  )
    where
      differs : p ≢ c.proto
      differs e = upper (ap to_lower e ∙ sniffed ∙ sym e)

  -- For a protocol that is not written in lower case, and a connection whose sniffed protocol is in
  -- lower case and not empty: as the one rule of a table the leaf of this protocol matches exactly if
  -- its lower case was sniffed, and inside an `or` it never matches.
  pub route_conn_ips_protocol_case :
      (p to fallback : Bytes) (es : Engines parse_prefix (only_protocol p) to fallback) (c : Ctx)
      → to_lower p ≢ p
      → to_lower c.proto ≡ c.proto
      → c.proto ≢ []
      → (route_ctx es.of_leaf c ≡ some (if bytes_eq (to_lower p) c.proto then to else fallback))
        × (route_ctx es.of_or c ≡ some fallback)
  route_conn_ips_protocol_case p to fallback es c upper sniffed nonempty = (
    route_ctx-leaf_table parse_prefix (only_protocol p) to fallback es.of_leaf c es.leaf_compiles
        ∙ ap (λ b. some (if b then to else fallback)) (leaf_protocol p c nonempty),
    route_ctx-or_table parse_prefix (only_protocol p) to fallback es.of_or c es.or_compiles
        ∙ ap (λ b. some (if b then to else fallback)) (match_leaf_protocol p c upper sniffed),
  )
