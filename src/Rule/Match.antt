-- ===== src/Rule/Match.antt =====
-- rule/engine.go: whether a rule matches: `matchLeaf`, `compileEval` and what they call.
use ntr.Prelude.{
  Bool, true, false, not, ◌&&◌, ◌||◌, Option, none, some, List, [], ◌∷◌, ◌==◌, if◌then◌else◌,
}
use ntr.Prelude.Bytes.{Bytes}
use ntr.Prelude.Strings.{
  bytes_eq, has_suffix, contains as contains_bytes, to_lower, trim_last_dot, trim_first_dot,
}
use ntr.Addr.{Addr, is_valid, unmap, Prefix, masked, contains, Socksaddr, is_fqdn, is_ip}
use ntr.Rule.Types.{Dims, Rule, rule, Rules, nil, cons, Ctx}

-- A loop that returns true at the first element that passes.
unfoldable pub any {ℓ} : {A : Type ℓ} → (A → Bool) → List A → Bool
any p [] = false
any p (x ∷ xs) = p x || any p xs

unfoldable pub norm_domain : Bytes → Bytes
norm_domain d = to_lower (trim_last_dot d)

-- The key of a `DomainSuffix`.
unfoldable pub suffix_key : Bytes → Bytes
suffix_key s = norm_domain (trim_first_dot s)

-- `ipSet`
unfoldable pub ip_set : Socksaddr → List Addr → List Addr
ip_set dst resolved = if is_ip dst then unmap dst.addr ∷ [] else resolved

-- `proc`: nothing without a finder or a valid source.
find_with :
    Option (Bytes → ntr.Addr.AddrPort → Option (Bytes × Bytes)) → Ctx → Option (Bytes × Bytes)
find_with none c = none
find_with (some f) c = if is_valid c.src.ip then f c.network c.src else none

unfoldable pub proc : Ctx → Option (Bytes × Bytes)
unfolding find_with
proc c = find_with c.finder c

-- The text of a prefix is read by `netip.ParsePrefix`.
module _ (parse_prefix : Bytes → Option Prefix) where
  prefix_contains : Option Prefix → Addr → Bool
  prefix_contains none ip = false
  prefix_contains (some p) ip = contains (masked p) ip

  unfoldable pub cidr_contains : Bytes → Addr → Bool
  unfolding prefix_contains
  cidr_contains text ip = prefix_contains (parse_prefix text) ip

  -- The block of `matchLeaf` under `dst.IsFqdn()`.
  unfoldable pub match_host : Dims → Bytes → Bool
  match_host d host =
      any (λ x. bytes_eq (norm_domain x) host) d.domain
      || any (λ s. bytes_eq host (suffix_key s) || has_suffix host (b'.' ∷ suffix_key s))
          d.domain_suffix
      || any (λ k. contains_bytes host (to_lower k)) d.domain_keyword
      || any (λ set. set host) d.geo_site

  unfoldable pub match_ip : Dims → Addr → Bool
  match_ip d ip = any (λ text. cidr_contains text ip) d.ip_cidr || any (λ set. set ip) d.geo_ip

  -- The test for empty lists in front of the lookup changes no answer.
  unfoldable pub match_found : Dims → Option (Bytes × Bytes) → Bool
  match_found d none = false
  match_found d (some (name, path)) =
      any (λ x. bytes_eq x name) d.process_name || any (λ x. bytes_eq x path) d.process_path

  unfoldable pub match_process : Dims → Ctx → Bool
  unfolding match_found
  match_process d c = match_found d (proc c)

  unfoldable pub match_leaf : Dims → Ctx → Bool
  match_leaf d c =
      (is_fqdn c.dst && match_host d (norm_domain c.dst.fqdn))
      || any (match_ip d) (ip_set c.dst c.ips)
      || any (λ p. p == c.dst.port) d.port
      || (not (bytes_eq c.network []) && any (λ x. bytes_eq x c.network) d.network)
      || (not (bytes_eq c.proto []) && any (λ x. bytes_eq x c.proto) d.protocol)
      || match_process d c

  -- `compileEval`: the closure is the function partly applied. Any operator but `and` is an `or`.
  unfoldable mutual
    pub eval : Rule → Ctx → Bool
    eval (rule d op subs inverted to) c =
        if bytes_eq op []
        then match_leaf d c
        else let found =
            if bytes_eq op (b'a' ∷ b'n' ∷ b'd' ∷ []) then eval_all subs c else eval_any subs c in
          if inverted then not found else found

    pub eval_all : Rules → Ctx → Bool
    eval_all nil c = true
    eval_all (cons r rs) c = eval r c && eval_all rs c

    pub eval_any : Rules → Ctx → Bool
    eval_any nil c = false
    eval_any (cons r rs) c = eval r c || eval_any rs c
