-- ===== src/Outbound/Group/Choice.antt =====
-- outbound/group/group.go: what is chosen is alive, if anything is, and near the best.
use ntr.Prelude.{
  ℕ, zero, suc, ◌+◌, ◌*◌, ◌%◌, ◌^◌, ◌≤◌, ◌<◌, ◌≡◌, refl, sym, ap, ◌∙◌, arith, true, false, Option,
  none, some, List, [], ◌∷◌, ltb, get_elem?, inl, inr, Option-cases, Bool-cases,
}
use mathlib.Core.Path.{subst}
use ntr.Prelude.Bytes.{Bytes}
use ntr.Outbound.Group.{
  Group, MemState, url_test, fallback, known_alive, better, best_of, delay_or_max, less64,
  replace_by, first_alive, reselect_by, reselect, or_first,
}

module _ (state : List (Bytes × MemState)) where
  -- What has been found is alive with its delay,
  abbrev IsKnown : Option (Bytes × ℕ) → Type 0
  IsKnown none = Unit {0}
  IsKnown (some (b, bd)) = known_alive state b ≡ some bd

  -- and at least as good as `d`.
  record Best (d : ℕ) (best : Option (Bytes × ℕ)) : Type 0 where
    name : Bytes
    delay : ℕ
    found : best ≡ some (name, delay)
    known : known_alive state name ≡ some delay
    least : delay ≤ d

  better-IsKnown :
      (best : Option (Bytes × ℕ)) (m : Bytes) (o : Option ℕ)
      → known_alive state m ≡ o
      → IsKnown best
      → IsKnown (better best m o)
  unfolding better
  better-IsKnown best m none k b = b
  better-IsKnown none m (some d) k b = k
  better-IsKnown (some (c, cd)) m (some d) k b = elim (Bool-cases (ltb d cd)) [
    | inl less ↦ rw (less, better) k
    | inr more ↦ rw (more, better) b
  ]

  better-Best :
      (d : ℕ) (best : Option (Bytes × ℕ)) (m : Bytes) (o : Option ℕ)
      → known_alive state m ≡ o
      → Best d best
      → Best d (better best m o)
  unfolding better
  better-Best d best m none k b = b
  better-Best d best m (some e) k b = rw (b.found) (elim (Bool-cases (ltb e b.delay)) [
    | inl less ↦
        rw (less, better)
          (record {
            name = m;
            delay = e;
            found = refl;
            known = k;
            least = ground (arith, less, b.least);
          })
    | inr more ↦
        rw (more, better)
          (record {
            name = b.name;
            delay = b.delay;
            found = refl;
            known = b.known;
            least = b.least;
          })
  ])

  taken-Best :
      (d : ℕ) (best : Option (Bytes × ℕ)) (m : Bytes)
      → known_alive state m ≡ some d
      → IsKnown best
      → Best d (better best m (some d))
  unfolding better
  taken-Best d none m k b = record {
    name = m;
    delay = d;
    found = refl;
    known = k;
    least = omega arith;
  }
  taken-Best d (some (c, cd)) m k b = elim (Bool-cases (ltb d cd)) [
    | inl less ↦
        rw (less, better)
          (record { name = m; delay = d; found = refl; known = k; least = omega arith })
    | inr more ↦
        rw (more, better)
          (record { name = c; delay = cd; found = refl; known = b; least = ground (arith, more) })
  ]

  best_of-keeps :
      (d : ℕ) (ms : List Bytes) (best : Option (Bytes × ℕ))
      → Best d best
      → Best d (best_of state ms best)
  unfolding best_of
  best_of-keeps d [] best b = b
  best_of-keeps d (m ∷ ms) best b =
      best_of-keeps d ms (better best m (known_alive state m))
        (better-Best d best m (known_alive state m) refl b)

  best_of-Best :
      (d : ℕ) (ms : List Bytes) (i : ℕ) (m : Bytes) (best : Option (Bytes × ℕ))
      → get_elem? ms i ≡ some m
      → known_alive state m ≡ some d
      → IsKnown best
      → Best d (best_of state ms best)
  unfolding best_of
  best_of-Best d [] i m best at k b = ground (arith, at)
  best_of-Best d (c ∷ ms) zero m best at k b =
      let same : c ≡ m = ground (arith, at) in
      rw (ap (known_alive state) same ∙ k) (
        best_of-keeps d ms (better best c (some d))
          (taken-Best d best c (ap (known_alive state) same ∙ k) b))
  best_of-Best d (c ∷ ms) (suc i) m best at k b =
      best_of-Best d ms i m (better best c (known_alive state c)) at k
        (better-IsKnown best c (known_alive state c) refl b)

ltb-shift : (a b : ℕ) → ltb (a + 2 ^ 63) (b + 2 ^ 63) ≡ ltb a b
ltb-shift a b = ground arith

less64-ltb : (a b : ℕ) → a < 2 ^ 63 → b < 2 ^ 63 → less64 (a % 2 ^ 64) b ≡ ltb a b
unfolding less64
less64-ltb a b p q =
    let x : (a % 2 ^ 64 + 2 ^ 63) % 2 ^ 64 ≡ a + 2 ^ 63 = omega (arith, p) in
    let y : (b + 2 ^ 63) % 2 ^ 64 ≡ b + 2 ^ 63 = omega (arith, q) in rw x (rw y (ltb-shift a b))

-- A member that is alive with at most the delay `c`.
pub record Within (state : List (Bytes × MemState)) (picked : Bytes) (c : ℕ) : Type 0 where
  pub delay : ℕ
  pub alive : known_alive state picked ≡ some delay
  pub bound : delay ≤ c

module _ (g : Group) (d : ℕ)
    (fast : (name : Bytes) (e : ℕ)
      → known_alive g.state name ≡ some e
      → e + g.opts.tolerance * 1000000 < 2 ^ 62) where
  module _ (b : Bytes) (bd : ℕ) (known : known_alive g.state b ≡ some bd) (least : bd ≤ d) where
    slower_at :
        (o : Option ℕ)
        → known_alive g.state g.picked ≡ o
        → less64
            ((bd + g.opts.tolerance * 1000000) % 2 ^ 64)
            (delay_or_max (known_alive g.state g.picked))
          ≡ false
        → less64 ((bd + g.opts.tolerance * 1000000) % 2 ^ 64) (delay_or_max o) ≡ false
    slower_at o at h =
        subst (λ z. less64 ((bd + g.opts.tolerance * 1000000) % 2 ^ 64) (delay_or_max z) ≡ false) at
          h

    replaced :
        less64
            ((bd + g.opts.tolerance * 1000000) % 2 ^ 64)
            (delay_or_max (known_alive g.state g.picked))
          ≡ true
        → Within g.state (replace_by g (some (b, bd))) (d + g.opts.tolerance * 1000000)
    unfolding replace_by
    replaced faster =
        rw (faster, replace_by) (record { delay = bd; alive = known; bound = omega (arith, least) })

    kept :
        less64
            ((bd + g.opts.tolerance * 1000000) % 2 ^ 64)
            (delay_or_max (known_alive g.state g.picked))
          ≡ false
        → Within g.state (replace_by g (some (b, bd))) (d + g.opts.tolerance * 1000000)
    unfolding replace_by delay_or_max
    kept slower =
        rw (slower, replace_by)
          (elim (Option-cases (known_alive g.state g.picked)) [
            | inl dead ↦ absurd (
                let f = fast b bd known in
                let t : ltb (bd + g.opts.tolerance * 1000000) (2 ^ 62) ≡ false =
                  sym (less64-ltb _ (2 ^ 62) (omega (arith, f)) (omega arith))
                  ∙ slower_at none dead slower in
                ground (arith, f, t))
            | inr (c, at) ↦ record {
              delay = c;
              alive = at;
              bound =
                  let f = fast b bd known in
                  let h = fast g.picked c at in
                  let t : ltb (bd + g.opts.tolerance * 1000000) c ≡ false =
                    sym (less64-ltb _ c (omega (arith, f)) (omega (arith, h)))
                    ∙ slower_at (some c) at slower in
                  ground (arith, t, least);
            }
          ])

  replace_by-Within :
      Best g.state d (best_of g.state g.opts.members none)
      → Within g.state
          (replace_by g (best_of g.state g.opts.members none))
          (d + g.opts.tolerance * 1000000)
  replace_by-Within b =
      rw (b.found)
        (elim (Bool-cases (
          less64 ((b.delay + g.opts.tolerance * 1000000) % 2 ^ 64)
            (delay_or_max (known_alive g.state g.picked)))) [
              | inl faster ↦ replaced b.name b.delay b.known b.least faster
              | inr slower ↦ kept b.name b.delay b.known b.least slower
            ])

  by_url_test :
      Within g.state
        (replace_by g (best_of g.state g.opts.members none))
        (d + g.opts.tolerance * 1000000)
      → Within g.state (reselect_by url_test g) (d + g.opts.tolerance * 1000000)
  unfolding reselect_by
  by_url_test w = w

  -- After the choice of a group that tests delays, if any member is alive the member picked is alive,
  -- and its delay exceeds that of none by more than the tolerance; where the delays with the tolerance
  -- are below 2 ^ 62 nanoseconds.
  pub reselect-url_test :
      (i : ℕ) (m : Bytes)
      → g.opts.strategy ≡ url_test
      → get_elem? g.opts.members i ≡ some m
      → known_alive g.state m ≡ some d
      → Within (reselect g).state (reselect g).picked (d + g.opts.tolerance * 1000000)
  unfolding reselect
  reselect-url_test i m test at k =
      subst (λ s. Within g.state (reselect_by s g) (d + g.opts.tolerance * 1000000)) (sym test)
        (by_url_test (replace_by-Within (best_of-Best g.state d g.opts.members i m none at k tt)))

-- A member that is alive, where none before it is.
pub record First (state : List (Bytes × MemState)) (ms : List Bytes) (i : ℕ) (name : Bytes)
    : Type 0 where
  pub place : ℕ
  pub there : get_elem? ms place ≡ some name
  pub delay : ℕ
  pub alive : known_alive state name ≡ some delay
  pub before : place ≤ i

first_alive-First :
    (state : List (Bytes × MemState)) (ms : List Bytes) (i d : ℕ) (m kept : Bytes)
    → get_elem? ms i ≡ some m
    → known_alive state m ≡ some d
    → First state ms i (or_first kept (first_alive state ms))
unfolding first_alive or_first
first_alive-First state [] i d m kept at k = ground (arith, at)
first_alive-First state (c ∷ ms) zero d m kept at k =
    let same : c ≡ m = ground (arith, at) in
    rw (ap (known_alive state) same ∙ k, first_alive)
      (record {
        place = 0;
        there = refl;
        delay = d;
        alive = ap (known_alive state) same ∙ k;
        before = omega arith;
      })
first_alive-First state (c ∷ ms) (suc i) d m kept at k = elim (Option-cases (known_alive state c)) [
  | inr (e, now) ↦
      rw (now, first_alive)
        (record { place = 0; there = refl; delay = e; alive = now; before = omega arith })
  | inl dead ↦
      let f = first_alive-First state ms i d m kept at k in
      rw (dead, first_alive)
        (record {
          place = suc f.place;
          there = f.there;
          delay = f.delay;
          alive = f.alive;
          before = omega (arith, f.before);
        })
]

by_fallback :
    (g : Group) (i : ℕ)
    → First g.state g.opts.members i (or_first g.picked (first_alive g.state g.opts.members))
    → First g.state g.opts.members i (reselect_by fallback g)
unfolding reselect_by
by_fallback g i f = f

-- After the choice of a fallback group, for every member that is alive the member picked is alive, and
-- stands at its place or before it.
pub reselect-fallback :
    (g : Group) (i d : ℕ) (m : Bytes)
    → g.opts.strategy ≡ fallback
    → get_elem? g.opts.members i ≡ some m
    → known_alive g.state m ≡ some d
    → First (reselect g).state (reselect g).opts.members i (reselect g).picked
unfolding reselect
reselect-fallback g i d m back at k =
    subst (λ s. First g.state g.opts.members i (reselect_by s g)) (sym back)
      (by_fallback g i (first_alive-First g.state g.opts.members i d m g.picked at k))
