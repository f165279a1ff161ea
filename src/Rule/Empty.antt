-- ===== src/Rule/Empty.antt =====
-- rule/engine.go: the engine before the first rule finds no order.
use ntr.Prelude.{
  ℕ, zero, suc, ◌≡◌, refl, arith, Option, none, some, List, [], ◌∷◌, inl, inr, Option-cases, length,
}
use ntr.Prelude.Bytes.{Bytes}
use ntr.Prelude.Maps.{lookup, nat_Key}
use ntr.Prelude.Strings.{bytes_Key, after_dot}
use ntr.Addr.{Addr, Prefix}
use ntr.Rule.Types.{Ctx, ord_none}
use ntr.Rule.Match.{proc, norm_domain, ip_set}
use ntr.Rule.Compile.{empty_engine}
use ntr.Rule.MinOrd.{get_ord, min_of}
use ntr.Rule.Labels.{walk_min}
use ntr.Rule.Best.{ips_part, proc_part, dims_part, least, IsFlagged}

walk_min-nil : (fuel : ℕ) (s : Bytes) → walk_min fuel [] s ≡ ord_none
unfolding walk_min get_ord lookup
walk_min-nil fuel [] = refl
walk_min-nil zero (c ∷ cs) = refl
walk_min-nil (suc fuel) (c ∷ cs) = elim (Option-cases (after_dot (c ∷ cs))) [
  | inl n ↦ ground arith
  | inr (s, e) ↦ ground (arith, walk_min-nil fuel s)
]

ips_part-nil : (ips : List Addr) → ips_part [] [] ips ≡ ord_none
unfolding ips_part min_of
ips_part-nil [] = refl
ips_part-nil (ip ∷ ips) = omega (arith, ips_part-nil ips)

module _ (parse_prefix : Bytes → Option Prefix) (n : ℕ) (fallback : Bytes) where
  pub empty_engine-IsFlagged : IsFlagged (empty_engine parse_prefix n fallback)
  unfolding empty_engine
  empty_engine-IsFlagged = record {
    no_proc_name = λ h. refl;
    no_proc_path = λ h. refl;
    no_logical = λ h. refl;
  }

  proc_part-empty_engine :
      (o : Option (Bytes × Bytes)) → proc_part (empty_engine parse_prefix n fallback) o ≡ ord_none
  unfolding proc_part empty_engine get_ord lookup
  proc_part-empty_engine none = refl
  proc_part-empty_engine (some (name, path)) = refl

  dims_part-empty_engine : (c : Ctx) → dims_part (empty_engine parse_prefix n fallback) c ≡ ord_none
  unfolding dims_part empty_engine get_ord lookup min_of
  dims_part-empty_engine c =
      let host = norm_domain c.dst.fqdn in
      ground (arith, walk_min-nil (length host) host, ips_part-nil (ip_set c.dst c.ips))

  pub least-empty_engine : (c : Ctx) → least (empty_engine parse_prefix n fallback) c ≡ ord_none
  unfolding least min_of empty_engine
  least-empty_engine c = omega (arith, dims_part-empty_engine c, proc_part-empty_engine (proc c))
