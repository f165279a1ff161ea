-- ===== src/Meter/Registry/Counts.antt =====
-- meter/meter.go and meter/limits.go: the counters of connections are right in every reachable state
-- of the registry, and keep their limits.
use ntr.Prelude.{
  ℕ, suc, ◌≤◌, ◌<◌, ◌≡◌, refl, sym, ap, ◌∙◌, arith, true, false, Option, none, some, List, [], ◌∷◌,
  ◌++◌, inl, inr, Bool-cases, Option-cases, if◌then◌else◌,
}
use mathlib.Core.Path.{subst}
use ntr.Prelude.Maps.{nat_eq, nat_eq_iff}
use ntr.Addr.{Addr}
use ntr.Meter.Counter.{pos, inc, dec, int_leb, is_zero}
use ntr.Meter.IpGate.Sizes.{is_some}
use ntr.Meter.Registry.{Registry, cell_of, unit_at, limit_of, open_conn}
use ntr.Meter.Registry.Effects.{Moved, same, is_limit}
use ntr.Meter.Registry.Answers.{Answer}
use ntr.Meter.Registry.Calls.{open_conn-Answer}
use ntr.Meter.Registry.Uncounted.{run_call-Moved, close_conn-Moved}
use ntr.Meter.Registry.World.{
  World, opened_by, Step, opens, closes, calls, Steps, stay, next, tally, tally-append, Kept,
  limits_same, is_limit_same, tally_same,
}

same-Kept : (a : ℕ) (r q : Registry) (ids : List ℕ) → Moved same a r q → Kept r ids → Kept q ids
same-Kept a r q ids m k = record {
  conns = λ id. ground (arith, m.conns id, k.conns id);
  own = λ id n alone most set.
      k.own id n (sym (limits_same m id) ∙ alone) (sym (m.maxes id) ∙ most) set;
  lives = λ s. ground (arith, m.lives s, k.lives s, tally_same m s ids);
  units = λ s n most set.
      ground (arith, k.units s n (sym (m.unit_maxes s) ∙ most) set, tally_same m s ids);
}

inc-pos : (n : ℕ) → inc (pos n) ≡ pos (suc n)
unfolding inc
inc-pos n = refl

dec-pos : (n : ℕ) → dec (pos (suc n)) ≡ pos n
unfolding dec
dec-pos n = refl

room-lt : (m n : ℕ) → int_leb (pos m) (pos n) ≡ false → n < m
unfolding int_leb
room-lt m n h = ground arith

is_limit-limit_of : (r : Registry) (id s : ℕ) → is_limit r id s ≡ true → limit_of r id ≡ some s
unfolding is_limit
is_limit-limit_of r id s h = elim (Option-cases (limit_of r id)) [
  | inl alone ↦ ground (arith, h, alone)
  | inr (t, at) ↦ ground (arith, h, at, nat_eq_iff t s)
]

module _ (id : ℕ) (r q : Registry) (ids : List ℕ) (a : Answer r id true q) (k : Kept r ids) where
  own_room_at :
      (b : ℕ)
      → b ≡ id
      → limit_of r b ≡ none
      → is_zero (cell_of r b).max_conns ≡ false
      → int_leb (cell_of r b).max_conns (cell_of r b).conns_live ≡ false
  own_room_at b e =
      subst
        (λ z.
          limit_of r z ≡ none
          → is_zero (cell_of r z).max_conns ≡ false
          → int_leb (cell_of r z).max_conns (cell_of r z).conns_live ≡ false)
        (sym e) (a.own_room refl)

  own_grows :
      (b n : ℕ)
      → limit_of r b ≡ none
      → (cell_of r b).max_conns ≡ pos n
      → is_zero (pos n) ≡ false
      → (if nat_eq b id then suc (tally (nat_eq b) ids) else tally (nat_eq b) ids) ≤ n
  own_grows b n alone most set = elim (Bool-cases (nat_eq b id)) [
    | inr other ↦ rw other (k.own b n alone most set)
    | inl it ↦ rw it (
        let room =
          ap (λ z. int_leb z (pos (tally (nat_eq b) ids))) (sym most)
          ∙ ap (int_leb (cell_of r b).max_conns) (sym (k.conns b))
          ∙ own_room_at b ((nat_eq_iff b id).0 it) alone (ap is_zero most ∙ set) in
        room-lt n (tally (nat_eq b) ids) room)
  ]

  units_grow :
      (s n : ℕ)
      → (unit_at r s).max_conns ≡ pos n
      → is_zero (pos n) ≡ false
      → (if is_limit r id s
          then suc (tally (λ b. is_limit r b s) ids)
          else tally (λ b. is_limit r b s) ids)
        ≤ n
  units_grow s n most set = elim (Bool-cases (is_limit r id s)) [
    | inr other ↦ rw other (k.units s n most set)
    | inl it ↦ rw it (
        let room =
          ap (λ z. int_leb z (pos (tally (λ b. is_limit r b s) ids))) (sym most)
          ∙ ap (int_leb (unit_at r s).max_conns) (sym (k.lives s))
          ∙ a.unit_room s refl (is_limit-limit_of r id s it) in
        room-lt n (tally (λ b. is_limit r b s) ids) room)
  ]

  admitted-Kept : Kept q (id ∷ ids)
  unfolding tally
  admitted-Kept = record {
    conns = λ b. ground (
      arith,
      a.moved.conns b,
      k.conns b,
      inc-pos (tally (nat_eq b) ids),
      nat_eq_iff b id,
      nat_eq_iff id b,
    );
    own = λ b n alone most set.
        own_grows b n (sym (limits_same a.moved b) ∙ alone) (sym (a.moved.maxes b) ∙ most) set;
    lives = λ s. ground (
      arith,
      a.moved.lives s,
      k.lives s,
      inc-pos (tally (λ b. is_limit r b s) ids),
      tally_same a.moved s ids,
      is_limit_same a.moved s id,
    );
    units = λ s n most set. ground (
      arith,
      units_grow s n (sym (a.moved.unit_maxes s) ∙ most) set,
      tally_same a.moved s ids,
      is_limit_same a.moved s id,
    );
  }

module _ (id : ℕ) (r q : Registry) (before after : List ℕ) (m : Moved dec id r q)
    (k : Kept r (before ++ (id ∷ after))) where
  closed-Kept : Kept q (before ++ after)
  closed-Kept = record {
    conns = λ b. ground (
      arith,
      m.conns b,
      k.conns b,
      dec-pos (tally (nat_eq b) (before ++ after)),
      tally-append (nat_eq b) before after id,
      nat_eq_iff b id,
      nat_eq_iff id b,
    );
    own = λ b n alone most set.
        let old = k.own b n (sym (limits_same m b) ∙ alone) (sym (m.maxes b) ∙ most) set in
        ground (arith, old, tally-append (nat_eq b) before after id);
    lives = λ s. ground (
      arith,
      m.lives s,
      k.lives s,
      dec-pos (tally (λ b. is_limit r b s) (before ++ after)),
      tally-append (λ b. is_limit r b s) before after id,
      tally_same m s (before ++ after),
    );
    units = λ s n most set.
        let old = k.units s n (sym (m.unit_maxes s) ∙ most) set in
        ground (
          arith,
          old,
          tally-append (λ b. is_limit r b s) before after id,
          tally_same m s (before ++ after),
        );
  }

opens-Kept :
    (r : Registry) (ids : List ℕ) (id : ℕ) (src : Addr) (now : ℕ) (o : Option ℕ)
    → Answer r id (is_some o) (open_conn r id src now).1
    → Kept r ids
    → Kept (open_conn r id src now).1 (opened_by o id ids)
unfolding is_some
opens-Kept r ids id src now none a k = same-Kept id r _ ids a.moved k
opens-Kept r ids id src now (some conn) a k = admitted-Kept id r _ ids a k

IsKept : World → Type 0
IsKept w = Kept w.reg w.opened

Step-Kept : {w x : World} → Step w x → IsKept w → IsKept x
unfolding IsKept
Step-Kept (opens r ids id src now) k =
    opens-Kept r ids id src now (open_conn r id src now).0 (open_conn-Answer r id src now) k
Step-Kept (closes r before after id src conn m) k =
    closed-Kept id r _ before after (close_conn-Moved r id src conn m) k
Step-Kept (calls r ids c) k = same-Kept 0 r _ ids (run_call-Moved c r 0) k

Steps-Kept : {w x : World} → Steps w x → IsKept w → IsKept x
Steps-Kept (stay w) k = k
Steps-Kept (next s t) k = Step-Kept t (Steps-Kept s k)

-- A registry whose counters of connections are all zero, as configuring a new one leaves it.
pub record IsIdle (r : Registry) : Type 0 where
  pub conns : (id : ℕ) → (cell_of r id).conns_live ≡ pos 0
  pub lives : (s : ℕ) → (unit_at r s).live ≡ pos 0

IsIdle-Kept : (r : Registry) → IsIdle r → Kept r []
unfolding tally
IsIdle-Kept r i = record {
  conns = i.conns;
  own = λ id m a b c. omega arith;
  lives = i.lives;
  units = λ s m a b. omega arith;
}

-- From a registry that counts no connections, whatever connections come, are refused, are ended from
-- outside and close, and whatever users are disabled and enabled: the counter of a user is the number
-- of the user's connections that have not closed, and where the user has a limit alone, of one
-- connection or more, they are no more than that.
pub Steps-own_limit :
    (r : Registry) (w : World) (id m : ℕ)
    → IsIdle r
    → Steps (record { reg = r; opened = [] }) w
    → limit_of w.reg id ≡ none
    → (cell_of w.reg id).max_conns ≡ pos m
    → 0 < m
    → ((cell_of w.reg id).conns_live ≡ pos (tally (nat_eq id) w.opened))
      × (tally (nat_eq id) w.opened ≤ m)
unfolding IsKept is_zero
Steps-own_limit r w id m i s alone most set =
    let k = Steps-Kept s (IsIdle-Kept r i) in (k.conns id, k.own id m alone most (ground arith))

-- From a registry that counts no connections, whatever connections come, are refused, are ended from
-- outside and close: the counter of a unit that users share is the number of the connections that have
-- not closed of all users whose limit it is, and they are no more than the unit's limit, where it is
-- one or more.
pub Steps-shared_limit :
    (r : Registry) (w : World) (s m : ℕ)
    → IsIdle r
    → Steps (record { reg = r; opened = [] }) w
    → (unit_at w.reg s).max_conns ≡ pos m
    → 0 < m
    → ((unit_at w.reg s).live ≡ pos (tally (λ id. is_limit w.reg id s) w.opened))
      × (tally (λ id. is_limit w.reg id s) w.opened ≤ m)
unfolding IsKept is_zero
Steps-shared_limit r w s m i t most set =
    let k = Steps-Kept t (IsIdle-Kept r i) in (k.lives s, k.units s m most (ground arith))
