-- ===== src/Meter/Registry/Effects.antt =====
-- meter/limits.go: what the calls of the registry do to the counters of connections.
use ntr.Prelude.{
  ℕ, ◌≡◌, refl, ap, ◌∙◌, arith, Bool, false, none, some, inl, inr, Option-cases, if◌then◌else◌,
}
use ntr.Prelude.Maps.{nat_Key, nat_eq, nat_eq_iff, lookup-insert}
use ntr.Meter.Counter.{ℤ}
use ntr.Meter.Cell.{Cell}
use ntr.Meter.Registry.{Registry, SharedLimit, cell_of, modify_cell, unit_at, modify_unit, limit_of}

unfoldable pub is_limit : Registry → ℕ → ℕ → Bool
is_limit r id s = elim (limit_of r id) [ none ↦ false | some t ↦ nat_eq t s ]

-- The registry with the counter of `id`'s cell, and of the unit that limits it, put through `f`.
pub record Moved (f : ℤ → ℤ) (id : ℕ) (r q : Registry) : Type 0 where
  pub conns :
      (a : ℕ)
      → (cell_of q a).conns_live
        ≡ (if nat_eq id a then f (cell_of r a).conns_live else (cell_of r a).conns_live)
  pub maxes : (a : ℕ) → (cell_of q a).max_conns ≡ (cell_of r a).max_conns
  pub shares : (a : ℕ) → (cell_of q a).shared ≡ (cell_of r a).shared
  pub lives :
      (s : ℕ)
      → (unit_at q s).live ≡ (if is_limit r id s then f (unit_at r s).live else (unit_at r s).live)
  pub unit_maxes : (s : ℕ) → (unit_at q s).max_conns ≡ (unit_at r s).max_conns

abbrev pub same : ℤ → ℤ
same z = z

module _ (f : Cell → Cell) (id a : ℕ) (r : Registry) where
  pub cell_of-modify :
      cell_of (modify_cell f id r) a ≡ (if nat_eq id a then f (cell_of r id) else cell_of r a)
  unfolding cell_of modify_cell
  cell_of-modify = ground (arith, lookup-insert id a (f (cell_of r id)) r.cells)

module _ (f : SharedLimit → SharedLimit) (s a : ℕ) (r : Registry) where
  unit_at-modify :
      unit_at (modify_unit f s r) a ≡ (if nat_eq s a then f (unit_at r s) else unit_at r a)
  unfolding unit_at modify_unit
  unit_at-modify = ground (arith, lookup-insert s a (f (unit_at r s)) r.units)

cell_of-modify_unit :
    (f : SharedLimit → SharedLimit) (s a : ℕ) (r : Registry)
    → cell_of (modify_unit f s r) a ≡ cell_of r a
unfolding cell_of modify_unit
cell_of-modify_unit f s a r = refl

pub unit_at-modify_cell :
    (f : Cell → Cell) (id s : ℕ) (r : Registry) → unit_at (modify_cell f id r) s ≡ unit_at r s
unfolding unit_at modify_cell
unit_at-modify_cell f id s r = refl

pub limit_of-eq :
    (r q : Registry) (id : ℕ)
    → (cell_of q id).shared ≡ (cell_of r id).shared
    → ((s : ℕ) → (unit_at q s).max_conns ≡ (unit_at r s).max_conns)
    → limit_of q id ≡ limit_of r id
unfolding limit_of
limit_of-eq r q id e k = elim (Option-cases (cell_of r id).shared) [
  | inl alone ↦ rw (alone, limit_of) (rw (e ∙ alone, limit_of) refl)
  | inr (s, at) ↦ rw (at, limit_of) (rw (e ∙ at, limit_of) (rw (k s) refl))
]

module _ (f g h : ℤ → ℤ) (id : ℕ) {r q p : Registry} where
  pub Moved-trans : Moved f id r q → Moved g id q p → ((z : ℤ) → h z ≡ g (f z)) → Moved h id r p
  unfolding is_limit
  Moved-trans m n e = record {
    conns = λ a. ground (arith, m.conns a, n.conns a, e (cell_of r a).conns_live);
    maxes = λ a. n.maxes a ∙ m.maxes a;
    shares = λ a. n.shares a ∙ m.shares a;
    lives = λ s. ground (
      arith,
      m.lives s,
      n.lives s,
      limit_of-eq r q id (m.shares id) m.unit_maxes,
      e (unit_at r s).live,
    );
    unit_maxes = λ s. n.unit_maxes s ∙ m.unit_maxes s;
  }

pub Moved-refl : (id : ℕ) (r : Registry) → Moved same id r r
Moved-refl id r = record {
  conns = λ a. ground arith;
  maxes = λ a. refl;
  shares = λ a. refl;
  lives = λ s. ground arith;
  unit_maxes = λ s. refl;
}

-- What a cell is changed to, of which only the counter of connections is read here.
pub record Moves (f : ℤ → ℤ) (g : Cell → Cell) (c : Cell) : Type 0 where
  pub conn : (g c).conns_live ≡ f c.conns_live
  pub most : (g c).max_conns ≡ c.max_conns
  pub unit : (g c).shared ≡ c.shared

module _ (f : ℤ → ℤ) (g : Cell → Cell) (id : ℕ) (r : Registry) (m : Moves f g (cell_of r id)) where
  modify_cell-conns :
      (a : ℕ)
      → (cell_of (modify_cell g id r) a).conns_live
        ≡ (if nat_eq id a then f (cell_of r a).conns_live else (cell_of r a).conns_live)
  modify_cell-conns a = ground (arith, cell_of-modify g id a r, nat_eq_iff id a, m.conn)

  modify_cell-maxes : (a : ℕ) → (cell_of (modify_cell g id r) a).max_conns ≡ (cell_of r a).max_conns
  modify_cell-maxes a = ground (arith, cell_of-modify g id a r, nat_eq_iff id a, m.most)

  modify_cell-shares : (a : ℕ) → (cell_of (modify_cell g id r) a).shared ≡ (cell_of r a).shared
  modify_cell-shares a = ground (arith, cell_of-modify g id a r, nat_eq_iff id a, m.unit)

  pub limit_of-modify_cell : limit_of (modify_cell g id r) id ≡ limit_of r id
  limit_of-modify_cell =
      limit_of-eq r (modify_cell g id r) id (modify_cell-shares id)
        (λ s. ap (λ u. u.max_conns) (unit_at-modify_cell g id s r))

  pub modify_cell-Moved : limit_of r id ≡ none → Moved f id r (modify_cell g id r)
  unfolding is_limit
  modify_cell-Moved alone = record {
    conns = modify_cell-conns;
    maxes = modify_cell-maxes;
    shares = modify_cell-shares;
    lives = λ s. ground (arith, alone, unit_at-modify_cell g id s r);
    unit_maxes = λ s. ap (λ u. u.max_conns) (unit_at-modify_cell g id s r);
  }

pub record UnitMoves (f : ℤ → ℤ) (g : SharedLimit → SharedLimit) (u : SharedLimit) : Type 0 where
  pub live : (g u).live ≡ f u.live
  pub most : (g u).max_conns ≡ u.max_conns

-- The cell and the unit that limits it.
unfoldable pub modify_both :
    (Cell → Cell) → (SharedLimit → SharedLimit) → ℕ → ℕ → Registry → Registry
modify_both g u id s r = modify_cell g id (modify_unit u s r)

module _ (f : ℤ → ℤ) (g : Cell → Cell) (u : SharedLimit → SharedLimit) (id s : ℕ) (r : Registry)
    (m : Moves f g (cell_of r id)) (n : UnitMoves f u (unit_at r s)) where
  modify_both-cell : (a : ℕ) → cell_of (modify_both g u id s r) a ≡ cell_of (modify_cell g id r) a
  unfolding modify_both cell_of modify_cell modify_unit
  modify_both-cell a = refl

  modify_both-unit : (t : ℕ) → unit_at (modify_both g u id s r) t ≡ unit_at (modify_unit u s r) t
  unfolding modify_both unit_at modify_cell modify_unit
  modify_both-unit t = refl

  pub modify_both-Moved : limit_of r id ≡ some s → Moved f id r (modify_both g u id s r)
  unfolding is_limit
  modify_both-Moved at = record {
    conns = λ a. ap (λ c. c.conns_live) (modify_both-cell a) ∙ modify_cell-conns f g id r m a;
    maxes = λ a. ap (λ c. c.max_conns) (modify_both-cell a) ∙ modify_cell-maxes f g id r m a;
    shares = λ a. ap (λ c. c.shared) (modify_both-cell a) ∙ modify_cell-shares f g id r m a;
    lives =
        λ t. ground (arith, at, modify_both-unit t, unit_at-modify u s t r, nat_eq_iff s t, n.live);
    unit_maxes =
        λ t. ground (arith, modify_both-unit t, unit_at-modify u s t r, nat_eq_iff s t, n.most);
  }

-- What counts nothing.
pub modify_cell-kept :
    (g : Cell → Cell) (id : ℕ) (r : Registry)
    → Moves same g (cell_of r id)
    → Moved same id r (modify_cell g id r)
modify_cell-kept g id r m = record {
  conns = modify_cell-conns same g id r m;
  maxes = modify_cell-maxes same g id r m;
  shares = modify_cell-shares same g id r m;
  lives = λ s. ground (arith, unit_at-modify_cell g id s r);
  unit_maxes = λ s. ap (λ u. u.max_conns) (unit_at-modify_cell g id s r);
}

-- It is the same for every user then.
pub Moved-other : (id a : ℕ) {r q : Registry} → Moved same id r q → Moved same a r q
Moved-other id a m = record {
  conns = λ b. ground (arith, m.conns b);
  maxes = m.maxes;
  shares = m.shares;
  lives = λ s. ground (arith, m.lives s);
  unit_maxes = m.unit_maxes;
}

-- What leaves the cells and the units alone.
pub untouched :
    (id : ℕ) {r q : Registry} → q.cells ≡ r.cells → q.units ≡ r.units → Moved same id r q
unfolding cell_of unit_at
untouched id c u = record {
  conns = λ b. ground (arith, c);
  maxes = λ b. ground (arith, c);
  shares = λ b. ground (arith, c);
  lives = λ s. ground (arith, u);
  unit_maxes = λ s. ground (arith, u);
}

-- The unit may be changed first or last.
pub modify_both-swap :
    (g : Cell → Cell) (u : SharedLimit → SharedLimit) (id s : ℕ) (r : Registry)
    → modify_unit u s (modify_cell g id r) ≡ modify_both g u id s r
unfolding modify_both cell_of unit_at modify_cell modify_unit
modify_both-swap g u id s r = refl
