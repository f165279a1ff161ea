-- ===== src/Rule/Compile.antt =====
-- rule/engine.go: `Compile`, which checks the rules and fills the indexes.
use ntr.Prelude.{
  ℕ, suc, ◌+◌, ◌%◌, ◌^◌, Bool, true, false, not, ◌||◌, Option, none, some, List, [], ◌∷◌, ◌++◌, ltb,
  ◌==◌, if◌then◌else◌, length, set, replicate,
}
use ntr.Prelude.Bytes.{Bytes}
use ntr.Prelude.Maps.{Key, nat_Key, lookup, insert}
use ntr.Prelude.Strings.{bytes_eq, bytes_Key, to_lower}
use ntr.Addr.{Addr, Prefix, masked}
use ntr.Rule.Types.{Dims, Rule, rule, Rules, nil, cons, Engine, dims, op, target}
use ntr.Rule.Match.{norm_domain, suffix_key, eval}

pub data Error : Type 0 where
  no_default no_target bad_op no_sub leaf_in_composite sub_target bad_sub_dims bad_dims bad_cidr :
      Error
  bad_network : Error

pub data Result {ℓ} (A : Type ℓ) : Type ℓ where
  ok : A → Result A
  err : Error → Result A

infixl 5 ◌>>=◌
abbrev pub ◌>>=◌ {ℓ κ} : {A : Type ℓ} {B : Type κ} → Result A → (A → Result B) → Result B
ok a >>= f = f a
err e >>= f = err e

abbrev pub is_empty {ℓ} : {A : Type ℓ} → List A → Bool
is_empty [] = true
is_empty (x ∷ xs) = false

-- `putMin`: keeps the smaller order of a key.
put_min_at : {K : Type 0} ⦃e : Key K⦄ → List (K × ℕ) → K → ℕ → Option ℕ → List (K × ℕ)
put_min_at m k ord none = insert k ord m
put_min_at m k ord (some o) = if ltb ord o then insert k ord m else m

unfoldable pub put_min : {K : Type 0} ⦃e : Key K⦄ → List (K × ℕ) → K → ℕ → List (K × ℕ)
unfolding put_min_at
put_min m k ord = put_min_at m k ord (lookup k m)

-- A loop of `putMin` over the values of a predicate, each turned into a key.
unfoldable pub put_all :
    {K A : Type 0} ⦃e : Key K⦄ → (A → K) → ℕ → List A → List (K × ℕ) → List (K × ℕ)
put_all key ord [] m = m
put_all key ord (x ∷ xs) m = put_all key ord xs (put_min m (key x) ord)

-- A loop of `append` to a list of entries.
unfoldable pub append_all : {K A : Type 0} → (A → K) → ℕ → List A → List (K × ℕ) → List (K × ℕ)
append_all key ord [] m = m
append_all key ord (x ∷ xs) m = append_all key ord xs (m ++ ((key x, ord) ∷ []))

abbrev one_if : Bool → ℕ
one_if true = 1
one_if false = 0

-- `dimCount`
unfoldable pub dim_count : Dims → ℕ
dim_count d =
    one_if (not (is_empty d.domain))
    + one_if (not (is_empty d.domain_suffix))
    + one_if (not (is_empty d.domain_keyword))
    + one_if (not (is_empty d.ip_cidr))
    + one_if (not (is_empty d.port))
    + one_if (not (is_empty d.network))
    + one_if (not (is_empty d.protocol))
    + one_if (not (is_empty d.geo_ip))
    + one_if (not (is_empty d.geo_site))
    + one_if (not (is_empty d.process_name))
    + one_if (not (is_empty d.process_path))

-- `ruleUsesIP`
unfoldable mutual
  pub rule_uses_ip : Rule → Bool
  rule_uses_ip (rule d op subs inverted to) =
      not (is_empty d.ip_cidr) || not (is_empty d.geo_ip) || rules_use_ip subs

  pub rules_use_ip : Rules → Bool
  rules_use_ip nil = false
  rules_use_ip (cons r rs) = rule_uses_ip r || rules_use_ip rs

abbrev op_and : Bytes
op_and = b'a' ∷ b'n' ∷ b'd' ∷ []

abbrev pub op_or : Bytes
op_or = b'o' ∷ b'r' ∷ []

abbrev is_nil : Rules → Bool
is_nil nil = true
is_nil (cons r rs) = false

-- The checks of `validateComposite` on the rule itself.
unfoldable pub check_composite : Bytes → Dims → Bool → Result (Unit {0})
check_composite op d no_subs =
    if not (bytes_eq op op_and || bytes_eq op op_or)
    then err bad_op
    else if no_subs
    then err no_sub
    else if not (dim_count d == 0)
    then err leaf_in_composite
    else ok tt

-- `validateComposite`, its loop over the rules below, and the loop's body. Each makes the checks of
-- a composite rule and goes on below it.
unfoldable mutual
  pub validate_composite : Rule → Result (Unit {0})
  validate_composite (rule d op subs inverted to) =
      check_composite op d (is_nil subs) >>= λ _. validate_subs subs

  pub validate_subs : Rules → Result (Unit {0})
  validate_subs nil = ok tt
  validate_subs (cons r rs) = validate_sub r >>= λ _. validate_subs rs

  pub validate_sub : Rule → Result (Unit {0})
  validate_sub (rule d op subs inverted to) =
      if not (bytes_eq to [])
      then err sub_target
      else if not (bytes_eq op [])
      then (check_composite op d (is_nil subs) >>= λ _. validate_subs subs)
      else if dim_count d == 1
      then ok tt
      else err bad_sub_dims

put_cidr : Option Prefix → ℕ → List (Prefix × ℕ) → Result (List (Prefix × ℕ))
put_cidr none ord m = err bad_cidr
put_cidr (some p) ord m = ok (m ++ ((masked p, ord) ∷ []))

-- The loop over `IPCIDR`.
unfoldable pub put_cidrs :
    (Bytes → Option Prefix) → ℕ → List Bytes → List (Prefix × ℕ) → Result (List (Prefix × ℕ))
unfolding put_cidr
put_cidrs parse_prefix ord [] m = ok m
put_cidrs parse_prefix ord (c ∷ cs) m =
    put_cidr (parse_prefix c) ord m >>= λ m'. put_cidrs parse_prefix ord cs m'

abbrev tcp : Bytes
tcp = b't' ∷ b'c' ∷ b'p' ∷ []

abbrev udp : Bytes
udp = b'u' ∷ b'd' ∷ b'p' ∷ []

put_network : ℕ → Bytes → List (Bytes × ℕ) → Result (List (Bytes × ℕ))
put_network ord n m =
    if bytes_eq n tcp || bytes_eq n udp then ok (put_min m n ord) else err bad_network

-- The loop over `Network`.
unfoldable pub put_networks : ℕ → List Bytes → List (Bytes × ℕ) → Result (List (Bytes × ℕ))
unfolding put_network
put_networks ord [] m = ok m
put_networks ord (n ∷ ns) m = put_network ord n m >>= λ m'. put_networks ord ns m'

module _ (parse_prefix : Bytes → Option Prefix) where
  -- The index updates of the loop's body for a leaf.
  unfoldable pub add_leaf : Engine → Dims → ℕ → Result Engine
  add_leaf e d ord = put_cidrs parse_prefix ord d.ip_cidr e.cidr >>= λ cidr'.
      put_networks ord d.network e.netw >>= λ netw'. ok (record e {
        exact = put_all norm_domain ord d.domain e.exact;
        suffix = put_all suffix_key ord d.domain_suffix e.suffix;
        keyword = append_all to_lower ord d.domain_keyword e.keyword;
        cidr = cidr';
        ports = put_all (λ (p : ℕ). p) ord d.port e.ports;
        netw = netw';
        protocol = put_all to_lower ord d.protocol e.protocol;
        geoip = append_all (λ (s : Addr → Bool). s) ord d.geo_ip e.geoip;
        geosite = append_all (λ (s : Bytes → Bool). s) ord d.geo_site e.geosite;
        proc_name = put_all (λ (x : Bytes). x) ord d.process_name e.proc_name;
        proc_path = put_all (λ (x : Bytes). x) ord d.process_path e.proc_path;
        has_proc = (e.has_proc || not (is_empty d.process_name)) || not (is_empty d.process_path);
      })

  unfoldable pub add_composite : Engine → Rule → ℕ → Result Engine
  add_composite e r ord = validate_composite r >>= λ _.
      ok (record e { logical = e.logical ++ ((eval parse_prefix r, ord) ∷ []); has_logical = true })

  -- The body of the loop of `Compile`, for the rule at place `i`.
  unfoldable pub add_rule : Engine → ℕ → Rule → Result Engine
  add_rule e i r =
      if bytes_eq (target r) []
      then err no_target
      else let ord = i % 2 ^ 32 in
        let e' = record e {
          targets = set e.targets i (target r);
          has_ip = e.has_ip || rule_uses_ip r;
        } in
        if not (bytes_eq (op r) [])
        then add_composite e' r ord
        else if dim_count (dims r) == 1
        then add_leaf e' (dims r) ord
        else err bad_dims

  unfoldable pub compile_from : Engine → ℕ → List Rule → Result Engine
  compile_from e i [] = ok e
  compile_from e i (r ∷ rs) = add_rule e i r >>= λ e'. compile_from e' (suc i) rs

  unfoldable pub empty_engine : ℕ → Bytes → Engine
  empty_engine n fallback = record {
    targets = replicate n [];
    fallback = fallback;
    exact = [];
    suffix = [];
    keyword = [];
    cidr = [];
    geoip = [];
    geosite = [];
    ports = [];
    netw = [];
    protocol = [];
    proc_name = [];
    proc_path = [];
    has_proc = false;
    has_ip = false;
    logical = [];
    has_logical = false;
  }

  -- `Compile`
  unfoldable pub compile : List Rule → Bytes → Result Engine
  compile rules fallback =
      if bytes_eq fallback []
      then err no_default
      else compile_from (empty_engine (length rules) fallback) 0 rules
