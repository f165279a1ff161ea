-- ===== src/Meter/Registry/World.antt =====
-- meter/meter.go: the states that the calls of a registry lead to, and what is to hold in them.
use ntr.Prelude.{
  ℕ, suc, ◌≤◌, ◌≡◌, refl, arith, Bool, false, Option, none, some, List, [], ◌∷◌, ◌++◌,
  if◌then◌else◌,
}
use ntr.Prelude.Maps.{nat_eq}
use ntr.Addr.{Addr}
use ntr.Meter.Counter.{ℤ, pos, is_zero}
use ntr.Meter.Traffic.{Meter}
use ntr.Meter.Registry.{Registry, cell_of, unit_at, limit_of, open_conn}
use ntr.Meter.Registry.Control.{close_conn}
use ntr.Meter.Registry.Effects.{Moved, is_limit, limit_of-eq}
use ntr.Meter.Registry.Uncounted.{Call, run_call}

-- The registry, and the users of the connections that are open.
pub record World : Type 0 where
  pub reg : Registry
  pub opened : List ℕ

abbrev pub opened_by : Option ℕ → ℕ → List ℕ → List ℕ
opened_by none id ids = ids
opened_by (some conn) id ids = id ∷ ids

-- A connection comes and may be refused, one that is open is closed once, or anything else is called.
pub data Step : World → World → Type 0 where
  opens :
      (r : Registry) (ids : List ℕ) (id : ℕ) (src : Addr) (now : ℕ)
      → Step
          (record { reg = r; opened = ids })
          (record {
            reg = (open_conn r id src now).1;
            opened = opened_by (open_conn r id src now).0 id ids;
          })
  closes :
      (r : Registry) (before after : List ℕ) (id : ℕ) (src : Addr) (conn : ℕ) (m : Meter)
      → Step
          (record { reg = r; opened = before ++ (id ∷ after) })
          (record { reg = close_conn r id src conn m; opened = before ++ after })
  calls :
      (r : Registry) (ids : List ℕ) (c : Call)
      → Step (record { reg = r; opened = ids }) (record { reg = run_call c r; opened = ids })

pub data Steps : World → World → Type 0 where
  stay : (w : World) → Steps w w
  next : {w x y : World} → Steps w x → Step x y → Steps w y

-- How many of the connections are of a user that the test takes.
unfoldable pub tally : (ℕ → Bool) → List ℕ → ℕ
tally f [] = 0
tally f (id ∷ ids) = let rest = tally f ids in if f id then suc rest else rest

pub tally-eq : (f g : ℕ → Bool) → ((a : ℕ) → f a ≡ g a) → (ids : List ℕ) → tally f ids ≡ tally g ids
unfolding tally
tally-eq f g e [] = refl
tally-eq f g e (id ∷ ids) = ground (arith, e id, tally-eq f g e ids)

pub tally-append :
    (f : ℕ → Bool) (before after : List ℕ) (id : ℕ)
    → tally f (before ++ (id ∷ after))
      ≡ (if f id then suc (tally f (before ++ after)) else tally f (before ++ after))
unfolding tally
tally-append f [] after id = refl
tally-append f (a ∷ before) after id = ground (arith, tally-append f before after id)

-- The cells of the users without a unit, and the units.
pub record Kept (r : Registry) (ids : List ℕ) : Type 0 where
  pub conns : (id : ℕ) → (cell_of r id).conns_live ≡ pos (tally (nat_eq id) ids)
  pub own :
      (id m : ℕ)
      → limit_of r id ≡ none
      → (cell_of r id).max_conns ≡ pos m
      → is_zero (pos m) ≡ false
      → tally (nat_eq id) ids ≤ m
  pub lives : (s : ℕ) → (unit_at r s).live ≡ pos (tally (λ a. is_limit r a s) ids)
  pub units :
      (s m : ℕ)
      → (unit_at r s).max_conns ≡ pos m
      → is_zero (pos m) ≡ false
      → tally (λ a. is_limit r a s) ids ≤ m

module _ {f : ℤ → ℤ} {id : ℕ} {r q : Registry} (m : Moved f id r q) where
  pub limits_same : (a : ℕ) → limit_of q a ≡ limit_of r a
  limits_same a = limit_of-eq r q a (m.shares a) m.unit_maxes

  pub is_limit_same : (s a : ℕ) → is_limit q a s ≡ is_limit r a s
  unfolding is_limit
  is_limit_same s a = ground (arith, limits_same a)

  pub tally_same :
      (s : ℕ) (ids : List ℕ) → tally (λ a. is_limit q a s) ids ≡ tally (λ a. is_limit r a s) ids
  tally_same s = tally-eq (λ a. is_limit q a s) (λ a. is_limit r a s) (is_limit_same s)
