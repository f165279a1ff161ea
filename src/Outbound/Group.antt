-- ===== src/Outbound/Group.antt =====
-- outbound/group/group.go: an outbound that chooses one of its members. A member is its name, what it
-- dials is not modelled. Parameters: what a probe of a member says, and the hash of a target.
use ntr.Prelude.{
  ℕ, zero, suc, ◌+◌, ◌*◌, ◌%◌, ◌^◌, Bool, true, false, not, ◌&&◌, Option, none, some, List, [], ◌∷◌,
  ltb, ◌==◌, if◌then◌else◌, length,
}
use ntr.Prelude.Bytes.{Bytes}
use ntr.Prelude.Maps.{lookup, insert}
use ntr.Prelude.Strings.{bytes_eq, bytes_Key}
pub mod Choice
pub mod Balance

pub data Strategy : Type 0 where
  select : Strategy
  url_test : Strategy
  fallback : Strategy
  load_balance : Strategy

pub record MemState : Type 0 where
  pub delay : ℕ
  pub alive : Bool

-- A `time.Duration` that is not negative is its number of nanoseconds.
pub record Options : Type 0 where
  pub members : List Bytes
  pub strategy : Strategy
  pub default_name : Bytes
  pub tolerance : ℕ
  pub lb_hash : Bool

-- What is picked is a member's name.
pub record Group : Type 0 where
  pub opts : Options
  pub picked : Bytes
  pub rr : ℕ
  pub state : List (Bytes × MemState)

unfoldable pub member_named : Bytes → List Bytes → Option Bytes
member_named name [] = none
member_named name (m ∷ ms) =
    let rest = member_named name ms in if bytes_eq m name then some m else rest

unfoldable pub all_alive : List Bytes → List (Bytes × MemState)
all_alive [] = []
all_alive (m ∷ ms) = insert m (record { delay = 0; alive = true }) (all_alive ms)

unfoldable pub or_first : Bytes → Option Bytes → Bytes
or_first m none = m
or_first m (some n) = n

-- Without members there is an error; the URL of the probe is left out.
unfoldable pub new_group : Options → Option Group
new_group opts = elim opts.members [
  | [] ↦ none
  | m ∷ ms ↦ some (record {
    opts = opts;
    picked = or_first m (member_named opts.default_name (m ∷ ms));
    rr = 0;
    state = all_alive (m ∷ ms);
  })
]

unfoldable pub pick_if : Group → Option Bytes → Bool × Group
pick_if g none = (false, g)
pick_if g (some m) = (true, record g { picked = m })

unfoldable pub select_outbound : Group → Bytes → Bool × Group
select_outbound g name = pick_if g (member_named name g.opts.members)

unfoldable pub alive_of : Group → Bytes → Bool
alive_of g name = elim (lookup name g.state) [ none ↦ true | some s ↦ s.alive ]

-- `s != nil && s.alive`
unfoldable pub known_alive : List (Bytes × MemState) → Bytes → Option ℕ
known_alive state name = elim (lookup name state) [
  | none ↦ none
  | some s ↦ if s.alive then some s.delay else none
]

unfoldable pub probed : List (Bytes × MemState) → List (Bytes × MemState) → List (Bytes × MemState)
probed [] state = state
probed ((name, s) ∷ more) state = probed more (insert name s state)

-- The first of the least delays, as `best` and `bestD` have it at the end.
unfoldable pub better : Option (Bytes × ℕ) → Bytes → Option ℕ → Option (Bytes × ℕ)
better best m none = best
better none m (some d) = some (m, d)
better (some (b, bd)) m (some d) = if ltb d bd then some (m, d) else some (b, bd)

unfoldable pub best_of :
    List (Bytes × MemState) → List Bytes → Option (Bytes × ℕ) → Option (Bytes × ℕ)
best_of state [] best = best
best_of state (m ∷ ms) best = best_of state ms (better best m (known_alive state m))

unfoldable pub delay_or_max : Option ℕ → ℕ
delay_or_max none = 2 ^ 62
delay_or_max (some d) = d

-- `a < b` of type `int64`.
unfoldable pub less64 : ℕ → ℕ → Bool
less64 a b = ltb ((a + 2 ^ 63) % 2 ^ 64) ((b + 2 ^ 63) % 2 ^ 64)

unfoldable pub replace_by : Group → Option (Bytes × ℕ) → Bytes
replace_by g none = g.picked
replace_by g (some (b, bd)) =
    if less64 ((bd + g.opts.tolerance * 1000000) % 2 ^ 64)
      (delay_or_max (known_alive g.state g.picked))
    then b
    else g.picked

unfoldable pub first_alive : List (Bytes × MemState) → List Bytes → Option Bytes
first_alive state [] = none
first_alive state (m ∷ ms) =
    let rest = first_alive state ms in elim (known_alive state m) [ none ↦ rest | some d ↦ some m ]

unfoldable pub reselect_by : Strategy → Group → Bytes
reselect_by url_test g = replace_by g (best_of g.state g.opts.members none)
reselect_by fallback g = or_first g.picked (first_alive g.state g.opts.members)
reselect_by _ g = g.picked

unfoldable pub reselect : Group → Group
reselect g = record g { picked = reselect_by g.opts.strategy g }

-- What the probes say, in the order in which they end.
unfoldable pub probe_all : Group → List (Bytes × MemState) → Group
probe_all g results = reselect (record g { state = probed results g.state })

unfoldable pub name_at : List Bytes → ℕ → Bytes
name_at [] i = []
name_at (m ∷ ms) zero = m
name_at (m ∷ ms) (suc i) = name_at ms i

-- `k` members from the `i`-th after `start`, and the first of them that is alive.
unfoldable pub scan : Group → ℕ → ℕ → ℕ → Option Bytes
scan g start i zero = none
scan g start i (suc k) =
    let rest = scan g start (suc i) k in
    let name = name_at g.opts.members ((start + i) % length g.opts.members) in
    if alive_of g name then some name else rest

-- The load balancing by the hash, where `h` is the hash of the target.
unfoldable pub pick_hashed : Group → ℕ → Bytes
pick_hashed g h =
    let n = length g.opts.members in
    let start = h % n in or_first (name_at g.opts.members start) (scan g start 0 n)
