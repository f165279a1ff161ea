-- ===== src/Rule/Labels.antt =====
-- The loop of rule/engine.go over the parent labels of a host: `a.b.c`, `b.c`, `c`.
use Prim.Native.Nat.{min}
use ntr.Prelude.{
  ℕ, zero, suc, ◌≤◌, ◌<◌, ◌≡◌, refl, ◌∙◌, arith, Bool, false, not, ◌&&◌, ◌||◌, none, some, List, [],
  ◌∷◌, inl, inr, Option-cases, length,
}
use ntr.Prelude.Bytes.{Bytes}
use ntr.Prelude.Strings.{bytes_eq, bytes_eq_iff, bytes_Key, has_suffix, after_dot}
use ntr.Rule.Types.{ord_none}
use ntr.Rule.Match.{any}
use ntr.Rule.Compile.{put_all}
use ntr.Rule.Route.{probe, walk}
use ntr.Rule.MinOrd.{hit, get_ord, probe-min, get_ord-le, get_ord-put_all, hit-or}

-- Whether `s` is the domain `k` or stands below it.
unfoldable pub below : Bytes → Bytes → Bool
below s k = not (bytes_eq k []) && (bytes_eq s k || has_suffix s (b'.' ∷ k))

after_dot_suffix :
    (s r k : Bytes)
    → after_dot s ≡ some r
    → has_suffix s (b'.' ∷ k) ≡ (bytes_eq r k || has_suffix r (b'.' ∷ k))
unfolding after_dot has_suffix bytes_eq
after_dot_suffix [] r k h = cc
after_dot_suffix (c ∷ cs) r k h = ground (arith, after_dot_suffix cs r k)

after_dot-none : (s k : Bytes) → after_dot s ≡ none → has_suffix s (b'.' ∷ k) ≡ false
unfolding after_dot has_suffix bytes_eq
after_dot-none [] k h = refl
after_dot-none (c ∷ cs) k h = ground (arith, after_dot-none cs k)

after_dot_shorter : (s r : Bytes) → after_dot s ≡ some r → length r < length s
unfolding after_dot
after_dot_shorter [] r h = cc
after_dot_shorter (c ∷ cs) r h = ground (arith, after_dot_shorter cs r)

-- The smallest order of a key among the parents of `s`.
unfoldable pub walk_min : ℕ → List (Bytes × ℕ) → Bytes → ℕ
walk_min fuel m [] = ord_none
walk_min zero m (c ∷ cs) = ord_none
walk_min (suc fuel) m (c ∷ cs) = elim (after_dot (c ∷ cs)) [
  | none ↦ get_ord m (c ∷ cs)
  | some s ↦ min (get_ord m (c ∷ cs)) (walk_min fuel m s)
]

pub walk_min-le : (fuel : ℕ) (m : List (Bytes × ℕ)) (s : Bytes) → walk_min fuel m s ≤ ord_none
unfolding walk_min
walk_min-le fuel m [] = omega arith
walk_min-le zero m (c ∷ cs) = omega arith
walk_min-le (suc fuel) m (c ∷ cs) = elim (Option-cases (after_dot (c ∷ cs))) [
  | inl n ↦ ground (arith, get_ord-le m (c ∷ cs))
  | inr (s, e) ↦ ground (arith, get_ord-le m (c ∷ cs))
]

pub walk-min :
    (fuel : ℕ) (m : List (Bytes × ℕ)) (s : Bytes) (best : ℕ)
    → best ≤ ord_none
    → walk fuel m s best ≡ min best (walk_min fuel m s)
unfolding walk walk_min
walk-min fuel m [] best h = omega arith
walk-min zero m (c ∷ cs) best h = omega arith
walk-min (suc fuel) m (c ∷ cs) best h = elim (Option-cases (after_dot (c ∷ cs))) [
  | inl n ↦ ground (arith, probe-min m (c ∷ cs) best h)
  | inr (s, e) ↦
      ground (arith, probe-min m (c ∷ cs) best h, walk-min fuel m s (probe m (c ∷ cs) best))
]

bytes_eq_comm : (s k : Bytes) → bytes_eq s k ≡ bytes_eq k s
bytes_eq_comm s k = ground (arith, bytes_eq_iff s k, bytes_eq_iff k s)

below_empty : (k : Bytes) → below [] k ≡ false
unfolding below bytes_eq has_suffix
below_empty [] = refl
below_empty (x ∷ xs) = refl

-- Below a host is the host itself and what is below its parent.
below_parent :
    (c : ℕ) (cs r k : Bytes)
    → after_dot (c ∷ cs) ≡ some r
    → below (c ∷ cs) k ≡ (bytes_eq k (c ∷ cs) || below r k)
unfolding below bytes_eq has_suffix
below_parent c cs r [] e = refl
below_parent c cs r (x ∷ xs) e =
    ground (arith, after_dot_suffix (c ∷ cs) r (x ∷ xs) e, bytes_eq_comm (c ∷ cs) (x ∷ xs))

below_top :
    (c : ℕ) (cs k : Bytes) → after_dot (c ∷ cs) ≡ none → below (c ∷ cs) k ≡ bytes_eq k (c ∷ cs)
unfolding below bytes_eq
below_top c cs [] e = refl
below_top c cs (x ∷ xs) e =
    ground (arith, after_dot-none (c ∷ cs) (x ∷ xs) e, bytes_eq_comm (c ∷ cs) (x ∷ xs))

module _ {A : Type 0} where
  pub any_ext : (p q : A → Bool) (xs : List A) → ((x : A) → p x ≡ q x) → any p xs ≡ any q xs
  unfolding any
  any_ext p q [] h = refl
  any_ext p q (x ∷ xs) h = ground (arith, h x, any_ext p q xs h)

  pub any-or : (p q : A → Bool) (xs : List A) → any (λ x. p x || q x) xs ≡ (any p xs || any q xs)
  unfolding any
  any-or p q [] = refl
  any-or p q (x ∷ xs) = ground (arith, any-or p q xs)

  pub any_none : (p : A → Bool) (xs : List A) → ((x : A) → p x ≡ false) → any p xs ≡ false
  unfolding any
  any_none p [] h = refl
  any_none p (x ∷ xs) h = ground (arith, h x, any_none p xs h)

  module _ (key : A → Bytes) (ord : ℕ) (xs : List A) (m : List (Bytes × ℕ))
      (small : ord ≤ ord_none) where
    walk_min-top :
        (c : ℕ) (cs : Bytes)
        → after_dot (c ∷ cs) ≡ none
        → get_ord (put_all key ord xs m) (c ∷ cs)
          ≡ min (get_ord m (c ∷ cs)) (hit (any (λ x. below (c ∷ cs) (key x)) xs) ord)
    walk_min-top c cs e =
        rw
          (any_ext (λ x. below (c ∷ cs) (key x)) (λ x. bytes_eq (key x) (c ∷ cs)) xs
            (λ x. below_top c cs (key x) e))
          (get_ord-put_all key ord xs m (c ∷ cs) small)

    any-below :
        (c : ℕ) (cs r : Bytes)
        → after_dot (c ∷ cs) ≡ some r
        → any (λ x. below (c ∷ cs) (key x)) xs
          ≡ (any (λ x. bytes_eq (key x) (c ∷ cs)) xs || any (λ x. below r (key x)) xs)
    any-below c cs r e =
        any_ext (λ x. below (c ∷ cs) (key x)) (λ x. bytes_eq (key x) (c ∷ cs) || below r (key x)) xs
          (λ x. below_parent c cs r (key x) e)
        ∙ any-or (λ x. bytes_eq (key x) (c ∷ cs)) (λ x. below r (key x)) xs

    -- What suffix rules add to the walk over the labels of a host.
    pub walk_min-put_all :
        (fuel : ℕ) (s : Bytes)
        → length s ≤ fuel
        → walk_min fuel (put_all key ord xs m) s
          ≡ min (walk_min fuel m s) (hit (any (λ x. below s (key x)) xs) ord)
    unfolding walk_min
    walk_min-put_all fuel [] h =
        rw (any_none (λ x. below [] (key x)) xs (λ x. below_empty (key x))) (omega arith)
    walk_min-put_all zero (c ∷ cs) h = absurd (omega arith)
    walk_min-put_all (suc fuel) (c ∷ cs) h = elim (Option-cases (after_dot (c ∷ cs))) [
      | inl n ↦ ground (arith, walk_min-top c cs n)
      | inr (r, e) ↦ ground (
        arith,
        any-below c cs r e,
        get_ord-put_all key ord xs m (c ∷ cs) small,
        walk_min-put_all fuel r (omega (arith, after_dot_shorter (c ∷ cs) r e)),
        hit-or (any (λ x. bytes_eq (key x) (c ∷ cs)) xs) (any (λ x. below r (key x)) xs) ord small,
      )
    ]
