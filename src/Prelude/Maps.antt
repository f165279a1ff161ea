-- ===== src/Prelude/Maps.antt =====
-- Go maps as association lists: `lookup` is `m[k]` with its `ok`, `insert` is `m[k] = v`.
use Prim.Native.Nat.{ℕ}
use mathlib.Core.Path.{◌≡◌, refl}
use mathlib.Core.Logic.{◌↔◌}
use mathlib.Core.Bool.{Bool, true}
use mathlib.Core.Option.{Option, none, some}
use mathlib.Core.List.{List, [], ◌∷◌}
use native.Mathlib.Omega.{arith}
use ntr.Prelude.Tests.{◌==◌, if◌then◌else◌}

-- A decidable equality, as the keys of a map have it.
pub record Key {ℓ} (A : Type ℓ) : Type ℓ where
  pub key_eq : A → A → Bool
  pub key_eq_iff : (a b : A) → (key_eq a b ≡ true) ↔ (a ≡ b)

unfoldable pub nat_eq : ℕ → ℕ → Bool
nat_eq a b = a == b

pub nat_eq_iff : (a b : ℕ) → (nat_eq a b ≡ true) ↔ (a ≡ b)
unfolding nat_eq
nat_eq_iff a b = ground arith

instance abbrev pub nat_Key : Key ℕ
nat_Key = record { key_eq = nat_eq; key_eq_iff = nat_eq_iff }

module _ {ℓ} {K : Type ℓ} ⦃e : Key K⦄ where
  pub key_eq_refl : (k : K) → e.key_eq k k ≡ true
  key_eq_refl k = (e.key_eq_iff k k).1 refl

module _ {ℓ κ} {K : Type ℓ} {V : Type κ} ⦃e : Key K⦄ where
  unfoldable pub lookup : K → List (K × V) → Option V
  lookup key [] = none
  lookup key ((at, held) ∷ more) = if e.key_eq at key then some held else lookup key more

  unfoldable pub insert : K → V → List (K × V) → List (K × V)
  insert key new [] = (key, new) ∷ []
  insert key new ((at, held) ∷ more) =
      if e.key_eq at key then (key, new) ∷ more else (at, held) ∷ insert key new more

  unfoldable pub delete : K → List (K × V) → List (K × V)
  delete key [] = []
  delete key ((at, held) ∷ more) =
      if e.key_eq at key then delete key more else (at, held) ∷ delete key more

  module _ (key asked : K) where
    pub lookup-insert :
        (new : V) (m : List (K × V))
        → lookup asked (insert key new m)
          ≡ (if e.key_eq key asked then some new else lookup asked m)
    unfolding insert lookup
    lookup-insert new [] = refl
    lookup-insert new ((at, held) ∷ more) = ground (
      arith,
      lookup-insert new more,
      e.key_eq_iff at key,
      e.key_eq_iff at asked,
      e.key_eq_iff key asked,
    )

    pub lookup-delete :
        (m : List (K × V))
        → lookup asked (delete key m) ≡ (if e.key_eq key asked then none else lookup asked m)
    unfolding delete lookup
    lookup-delete [] = ground arith
    lookup-delete ((at, held) ∷ more) = ground (
      arith,
      lookup-delete more,
      e.key_eq_iff at key,
      e.key_eq_iff at asked,
      e.key_eq_iff key asked,
    )
