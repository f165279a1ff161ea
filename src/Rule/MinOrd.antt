-- ===== src/Rule/MinOrd.antt =====
-- The indexes of rule/engine.go as functions that take the smallest order of a match.
use Prim.Native.Nat.{min}
use ntr.Prelude.{
  ℕ, ◌≤◌, ◌≡◌, arith, Bool, false, ◌&&◌, ◌||◌, Option, none, some, List, [], ◌∷◌, ◌++◌, ltb,
  if◌then◌else◌, inl, inr, Option-cases,
}
use ntr.Prelude.Maps.{Key, lookup, lookup-insert}
use ntr.Rule.Types.{ord_none}
use ntr.Rule.Match.{any}
use ntr.Rule.Compile.{put_min, put_all, append_all}
use ntr.Rule.Route.{probe, scan}

-- The order that a test gives.
abbrev pub hit : Bool → ℕ → ℕ
hit b i = if b then i else ord_none

pub hit-or : (a b : Bool) (i : ℕ) → i ≤ ord_none → hit (a || b) i ≡ min (hit a i) (hit b i)
hit-or a b i h = ground arith

pub hit-false : (a i : ℕ) → a ≤ ord_none → a ≡ min a (hit false i)
hit-false a i h = omega arith

abbrev pub or_none : Option ℕ → ℕ
or_none none = ord_none
or_none (some o) = min o ord_none

pub merge :
    (x y : Bool) (i a b : ℕ) {a' b' : ℕ}
    → i ≤ ord_none
    → a' ≡ min a (hit x i)
    → b' ≡ min b (hit y i)
    → min a' b' ≡ min (min a b) (hit (x || y) i)
merge x y i a b h p q = omega (arith, hit-or x y i h)

module _ {K : Type 0} ⦃e : Key K⦄ where
  -- The order of a key.
  unfoldable pub get_ord : List (K × ℕ) → K → ℕ
  get_ord m k = or_none (lookup k m)

  pub probe-min :
      (m : List (K × ℕ)) (k : K) (best : ℕ)
      → best ≤ ord_none
      → probe m k best ≡ min best (get_ord m k)
  unfolding probe get_ord
  probe-min m k best h = elim (Option-cases (lookup k m)) [
    | inl n ↦ ground arith
    | inr (o, s) ↦ ground arith
  ]

  pub get_ord-put_min :
      (m : List (K × ℕ)) (k j : K) (ord : ℕ)
      → ord ≤ ord_none
      → get_ord (put_min m k ord) j ≡ min (get_ord m j) (hit (e.key_eq k j) ord)
  unfolding get_ord put_min
  get_ord-put_min m k j ord h = elim (Option-cases (lookup k m)) [
    | inl n ↦ ground (arith, lookup-insert k j ord m, e.key_eq_iff k j)
    | inr (o, s) ↦ ground (arith, lookup-insert k j ord m, e.key_eq_iff k j)
  ]

  pub get_ord-le : (m : List (K × ℕ)) (k : K) → get_ord m k ≤ ord_none
  unfolding get_ord
  get_ord-le m k = ground arith

  pub get_ord-put_all :
      {A : Type 0} (key : A → K) (ord : ℕ) (xs : List A) (m : List (K × ℕ)) (j : K)
      → ord ≤ ord_none
      → get_ord (put_all key ord xs m) j
        ≡ min (get_ord m j) (hit (any (λ x. e.key_eq (key x) j) xs) ord)
  unfolding put_all any
  get_ord-put_all key ord [] m j h = hit-false (get_ord m j) ord (get_ord-le m j)
  get_ord-put_all key ord (x ∷ xs) m j h = omega (
    arith,
    get_ord-put_all key ord xs (put_min m (key x) ord) j h,
    get_ord-put_min m (key x) j ord h,
    hit-or (e.key_eq (key x) j) (any (λ y. e.key_eq (key y) j) xs) ord h,
  )

module _ {K : Type 0} (p : K → Bool) where
  -- The smallest order of an entry that passes.
  unfoldable pub min_of : List (K × ℕ) → ℕ
  min_of [] = ord_none
  min_of ((k, o) ∷ es) = min (if p k then min o ord_none else ord_none) (min_of es)

  pub min_of-le : (es : List (K × ℕ)) → min_of es ≤ ord_none
  unfolding min_of
  min_of-le [] = omega arith
  min_of-le ((k, o) ∷ es) = omega (arith, min_of-le es)

  pub scan-min :
      (es : List (K × ℕ)) (best : ℕ) → best ≤ ord_none → scan p es best ≡ min best (min_of es)
  unfolding scan min_of
  scan-min [] best h = omega arith
  scan-min ((k, o) ∷ es) best h =
      ground (arith, scan-min es (if ltb o best && p k then o else best))

  pub min_of-append_one :
      (es : List (K × ℕ)) (k : K) (ord : ℕ)
      → ord ≤ ord_none
      → min_of (es ++ ((k, ord) ∷ [])) ≡ min (min_of es) (hit (p k) ord)
  unfolding min_of
  min_of-append_one [] k ord h = ground arith
  min_of-append_one ((j, o) ∷ es) k ord h = omega (arith, min_of-append_one es k ord h)

  pub min_of-append_all :
      {A : Type 0} (key : A → K) (ord : ℕ) (xs : List A) (es : List (K × ℕ))
      → ord ≤ ord_none
      → min_of (append_all key ord xs es) ≡ min (min_of es) (hit (any (λ x. p (key x)) xs) ord)
  unfolding append_all any
  min_of-append_all key ord [] es h = hit-false (min_of es) ord (min_of-le es)
  min_of-append_all key ord (x ∷ xs) es h = omega (
    arith,
    min_of-append_all key ord xs (es ++ ((key x, ord) ∷ [])) h,
    min_of-append_one es (key x) ord h,
    hit-or (p (key x)) (any (λ y. p (key y)) xs) ord h,
  )
