-- ===== src/Meter/IpGate/Sizes.antt =====
-- meter/limits.go: how many keys the map of `ipGate` has, `len(g.ips)`.
use ntr.Prelude.{
  ℕ, suc, ◌+◌, ◌≡◌, refl, arith, Bool, true, false, not, ◌&&◌, Option, none, some, List, [], ◌∷◌,
  ◌==◌, if◌then◌else◌, length,
}
use ntr.Prelude.Maps.{Key, lookup, insert, delete}

unfoldable pub is_some {ℓ} : {A : Type ℓ} → Option A → Bool
is_some none = false
is_some (some a) = true

module _ {ℓ κ} {K : Type ℓ} {V : Type κ} ⦃e : Key K⦄ where
  -- How often a key stands in the list of the entries.
  unfoldable pub occurs : K → List (K × V) → ℕ
  occurs key [] = 0
  occurs key ((at, held) ∷ more) =
      let rest = occurs key more in if e.key_eq at key then suc rest else rest

  module _ (key : K) where
    pub length-insert :
        (v : V) (m : List (K × V))
        → length (insert key v m) ≡ (if is_some (lookup key m) then length m else suc (length m))
    unfolding insert lookup is_some
    length-insert v [] = refl
    length-insert v ((at, held) ∷ more) = ground (arith, length-insert v more)

    pub length-delete : (m : List (K × V)) → length (delete key m) + occurs key m ≡ length m
    unfolding delete occurs
    length-delete [] = refl
    length-delete ((at, held) ∷ more) = ground (arith, length-delete more)

    pub occurs-lookup : (m : List (K × V)) → (occurs key m == 0) ≡ not (is_some (lookup key m))
    unfolding lookup occurs is_some
    occurs-lookup [] = refl
    occurs-lookup ((at, held) ∷ more) = ground (arith, occurs-lookup more)

    module _ (asked : K) where
      pub occurs-insert :
          (v : V) (m : List (K × V))
          → occurs asked (insert key v m)
            ≡ (if e.key_eq key asked && (occurs key m == 0) then 1 else occurs asked m)
      unfolding insert occurs
      occurs-insert v [] = ground arith
      occurs-insert v ((at, held) ∷ more) = ground (
        arith,
        occurs-insert v more,
        e.key_eq_iff at key,
        e.key_eq_iff at asked,
        e.key_eq_iff key asked,
      )

      pub occurs-delete :
          (m : List (K × V))
          → occurs asked (delete key m) ≡ (if e.key_eq key asked then 0 else occurs asked m)
      unfolding delete occurs
      occurs-delete [] = ground arith
      occurs-delete ((at, held) ∷ more) = ground (
        arith,
        occurs-delete more,
        e.key_eq_iff at key,
        e.key_eq_iff at asked,
        e.key_eq_iff key asked,
      )
