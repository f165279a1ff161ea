-- ===== src/Rule/FirstMatch.antt =====
-- rule/engine.go: the engine that `Compile` builds routes by the first rule that matches.
use Prim.Native.Nat.{min}
use ntr.Prelude.{
  ℕ, suc, ◌+◌, ◌^◌, ◌≤◌, ◌<◌, ◌≡◌, refl, ◌∙◌, arith, Option, some, List, [], ◌∷◌, ◌==◌,
  if◌then◌else◌, Bool-cases, inl, inr, ◌≢◌, length, get_elem?, length-set, length-replicate,
  get_elem?-set_self, get_elem?-set_ne,
}
use mathlib.Core.Path.{subst}
use ntr.Prelude.Bytes.{Bytes}
use ntr.Addr.{Addr, Prefix, Socksaddr, AddrPort}
use ntr.Rule.Types.{Ctx, Engine, ord_none, Rule, target, ProcessFinder}
use ntr.Rule.Compile.{Result, ok, err, ◌>>=◌, add_rule, compile_from, empty_engine, compile}
use ntr.Rule.Route.{best_ord, route_conn_ips}
use ntr.Rule.Best.{least, least-le, IsFlagged, best_ord-least}
use ntr.Rule.Empty.{empty_engine-IsFlagged, least-empty_engine}
use ntr.Rule.AddRule.{rule_matches, least-add_rule, IsFlagged-add_rule, add_rule-targets}

module _ (parse_prefix : Bytes → Option Prefix) where
  -- The specification: the rules from the top, the first one that matches, or the fallback.
  unfoldable pub first_match : List Rule → Bytes → Ctx → Bytes
  first_match [] fallback c = fallback
  first_match (r ∷ rs) fallback c =
      if rule_matches parse_prefix r c then target r else first_match rs fallback c

  -- The order of that rule, counted from `i`.
  unfoldable pub first_ord : ℕ → List Rule → Ctx → ℕ
  first_ord i [] c = ord_none
  first_ord i (r ∷ rs) c = if rule_matches parse_prefix r c then i else first_ord (suc i) rs c

  first_ord-ge :
      (i j : ℕ) (rs : List Rule) (c : Ctx)
      → i ≤ j
      → j + length rs ≤ ord_none
      → (i ≤ first_ord j rs c) × (first_ord j rs c ≤ ord_none)
  unfolding first_ord
  first_ord-ge i j [] c h k = omega arith
  first_ord-ge i j (r ∷ rs) c h k = ground (arith, first_ord-ge i (suc j) rs c)

  pub compile_from_step :
      (e e' : Engine) (i : ℕ) (r : Rule) (rs : List Rule)
      → compile_from parse_prefix e i (r ∷ rs) ≡ ok e'
      → (e1 : Engine) × (add_rule parse_prefix e i r ≡ ok e1)
        × (compile_from parse_prefix e1 (suc i) rs ≡ ok e')
  unfolding compile_from
  compile_from_step e e' i r rs h = go (add_rule parse_prefix e i r) refl h
    where
      go :
          (m : Result Engine)
          → add_rule parse_prefix e i r ≡ m
          → (m >>= λ e1. compile_from parse_prefix e1 (suc i) rs) ≡ ok e'
          → (e1 : Engine) × (add_rule parse_prefix e i r ≡ ok e1)
            × (compile_from parse_prefix e1 (suc i) rs ≡ ok e')
      go (ok e1) p q = (e1, p, q)
      go (err x) p q = cc

  least-compile_from :
      (e e' : Engine) (i : ℕ) (rs : List Rule) (c : Ctx)
      → i + length rs ≤ ord_none
      → IsFlagged e
      → compile_from parse_prefix e i rs ≡ ok e'
      → (least e' c ≡ min (least e c) (first_ord i rs c)) × IsFlagged e'
  unfolding compile_from first_ord
  least-compile_from e e' i [] c h f k =
      let same : e ≡ e' = cc in
      subst (λ x. (least x c ≡ min (least e c) ord_none) × IsFlagged x) same
        (omega (arith, least-le e c), f)
  least-compile_from e e' i (r ∷ rs) c h f k =
      let (e1, p, q) = compile_from_step e e' i r rs k in
      let small : i ≤ ord_none = omega arith in
      let (l, f') =
        least-compile_from e1 e' (suc i) rs c (omega arith)
          (IsFlagged-add_rule parse_prefix e e1 i r small f p) q in
      (
        ground (
          arith,
          l,
          least-add_rule parse_prefix e e1 i r c small p,
          first_ord-ge i (suc i) rs c (omega arith) (omega arith),
        ),
        f',
      )

  targets_kept :
      (e e' : Engine) (i j : ℕ) (rs : List Rule)
      → i + length rs ≤ ord_none
      → j < i
      → compile_from parse_prefix e i rs ≡ ok e'
      → get_elem? e'.targets j ≡ get_elem? e.targets j
  unfolding compile_from
  targets_kept e e' i j [] h l k = let same : e ≡ e' = cc in rw same refl
  targets_kept e e' i j (r ∷ rs) h l k =
      let (e1, p, q) = compile_from_step e e' i r rs k in
      let (t, _) = add_rule-targets parse_prefix e e1 i r (omega arith) p in
      let apart : i ≢ j = omega arith in
      targets_kept e1 e' (suc i) j rs (omega arith) (omega arith) q
      ∙ rw t (get_elem?-set_ne e.targets (target r) apart)

  -- What a route answers for an order.
  abbrev answer : Engine → ℕ → Option Bytes
  answer e best = if best == ord_none then some e.fallback else get_elem? e.targets best

  answer-first_ord :
      (e e' : Engine) (i : ℕ) (rs : List Rule) (c : Ctx)
      → i + length rs ≤ ord_none
      → i + length rs ≤ length e.targets
      → compile_from parse_prefix e i rs ≡ ok e'
      → answer e' (first_ord i rs c) ≡ some (first_match rs e.fallback c)
  unfolding compile_from first_ord first_match
  answer-first_ord e e' i [] c h g k = let same : e ≡ e' = cc in rw same refl
  answer-first_ord e e' i (r ∷ rs) c h g k =
      let (e1, p, q) = compile_from_step e e' i r rs k in
      let (t, d) = add_rule-targets parse_prefix e e1 i r (omega arith) p in
      let rest =
        answer-first_ord e1 e' (suc i) rs c (omega arith)
          (rw t (rw (length-set e.targets i (target r)) (omega arith))) q in
      elim (Bool-cases (rule_matches parse_prefix r c)) [
        | inl m ↦
            let kept : get_elem? e'.targets i ≡ some (target r) =
              targets_kept e1 e' (suc i) i rs (omega arith) (omega arith) q
              ∙ rw t (get_elem?-set_self e.targets i (target r) (omega arith)) in
            rw m (ground (arith, kept))
        | inr n ↦ rw n (rw d at rest)
      ]

  pub compile-ok :
      (rules : List Rule) (fallback : Bytes) (e : Engine)
      → compile parse_prefix rules fallback ≡ ok e
      → compile_from parse_prefix (empty_engine parse_prefix (length rules) fallback) 0 rules ≡ ok e
  unfolding compile
  compile-ok rules fallback e h = ground arith

  -- A compiled engine routes to the target of the first rule that matches, and to the fallback where
  -- none does: for every table that compiles, of fewer than 2 ^ 32 rules, and every target, source,
  -- network, sniffed protocol and finder. No index is out of range.
  pub route_conn_ips-first_match :
      (rules : List Rule) (fallback : Bytes) (e : Engine) (dst : Socksaddr) (ips : List Addr)
      (src : AddrPort) (network proto : Bytes) (finder : Option ProcessFinder)
      → length rules < 2 ^ 32
      → compile parse_prefix rules fallback ≡ ok e
      → route_conn_ips e dst ips src network proto finder
        ≡ some (
            first_match rules fallback (record {
              dst = dst;
              src = src;
              ips = ips;
              network = network;
              proto = proto;
              finder = finder;
            }))
  unfolding route_conn_ips empty_engine
  route_conn_ips-first_match rules fallback e dst ips src network proto finder n h =
      let c : Ctx = record {
        dst = dst;
        src = src;
        ips = ips;
        network = network;
        proto = proto;
        finder = finder;
      } in
      let start = empty_engine parse_prefix (length rules) fallback in
      let no_target : Bytes = [] in
      let run = compile-ok rules fallback e h in
      let (l, f) =
        least-compile_from start e 0 rules c (omega arith)
          (empty_engine-IsFlagged parse_prefix (length rules) fallback) run in
      let best : best_ord e c ≡ first_ord 0 rules c = omega (
        arith,
        best_ord-least e c f,
        l,
        least-empty_engine parse_prefix (length rules) fallback c,
        first_ord-ge 0 0 rules c (omega arith) (omega arith),
      ) in
      rw best (
        answer-first_ord start e 0 rules c (omega arith)
          (omega (arith, length-replicate (length rules) no_target)) run)
