-- ===== src/Meter/Cell.antt =====
-- meter/meter.go and meter/limits.go: `Cell`, what is counted for a user, the connections that are
-- alive, and the limits. A pointer to a unit or to a gate that cells share is its number in the
-- registry. The rate limiter and the sampled rates are left out, they read the clock.
use ntr.Prelude.{
  ℕ, ◌+◌, ◌%◌, ◌^◌, Bool, true, false, Option, none, some, List, [], ◌∷◌, if◌then◌else◌, length,
}
use ntr.Prelude.Maps.{nat_Key, lookup, insert, delete}
use ntr.Addr.{Addr, addr_eq}
use ntr.Meter.Counter.{ℤ, pos}
pub mod Disable

-- The function that ends a connection is the connection's number.
pub record ConnHandle : Type 0 where
  pub kill : ℕ
  pub last_active : ℕ
  pub src : Addr

pub record Cell : Type 0 where
  pub up : ℕ
  pub down : ℕ
  pub conns_total : ℕ
  pub conns_live : ℤ
  pub disabled : Bool
  pub live : List (ℕ × ConnHandle)
  pub max_conns : ℤ
  pub rejected_conns : ℕ
  pub ipg : Option ℕ
  pub shared : Option ℕ

-- `&Cell{}`
unfoldable pub new_cell : Cell
new_cell = record {
  up = 0;
  down = 0;
  conns_total = 0;
  conns_live = pos 0;
  disabled = false;
  live = [];
  max_conns = pos 0;
  rejected_conns = 0;
  ipg = none;
  shared = none;
}

-- The counters of type `atomic.Uint64`.
unfoldable pub add64 : ℕ → ℕ → ℕ
add64 a b = (a + b) % 2 ^ 64

unfoldable pub add_guarded : Cell → ℕ → ConnHandle → Bool × Cell
add_guarded c id h =
    if c.disabled then (false, c) else (true, record c { live = insert id h c.live })

unfoldable pub remove_live : Cell → ℕ → Cell
remove_live c id = record c { live = delete id c.live }

unfoldable pub kills : List (ℕ × ConnHandle) → List ℕ
kills [] = []
kills ((id, h) ∷ more) = h.kill ∷ kills more

-- What it ends, and the cell.
unfoldable pub kill_all : Cell → List ℕ × Cell
kill_all c = (kills c.live, record c { live = [] })

-- The critical section of `KillConn`.
unfoldable pub kill_one : Cell → ℕ → List ℕ × Cell
kill_one c id = elim (lookup id c.live) [
  | none ↦ ([], record c { live = delete id c.live })
  | some h ↦ (h.kill ∷ [], record c { live = delete id c.live })
]

unfoldable pub from_ip : List (ℕ × ConnHandle) → Addr → List (ℕ × ConnHandle) × List ℕ
from_ip [] ip = ([], [])
from_ip ((id, h) ∷ more) ip =
    let (kept, killed) = from_ip more ip in
    if addr_eq h.src ip then (kept, h.kill ∷ killed) else ((id, h) ∷ kept, killed)

-- The critical section of `KillIP`.
unfoldable pub kill_ip : Cell → Addr → List ℕ × Cell
kill_ip c ip = let (kept, killed) = from_ip c.live ip in (killed, record c { live = kept })

unfoldable pub set_disabled : Bool → Cell → Cell
set_disabled b c = record c { disabled = b }
