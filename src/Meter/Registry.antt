-- ===== src/Meter/Registry.antt =====
-- meter/meter.go and meter/limits.go: `Registry`, the cells by the number of their user, the numbers
-- of the bills, and the connections that are registered. What pointers lead to, the units and gates
-- that cells share, lies in two stores under numbers.
use ntr.Prelude.{
  ℕ, ◌+◌, ◌%◌, ◌^◌, Bool, true, false, not, ◌&&◌, ◌||◌, Option, none, some, List, [], ◌∷◌, ◌==◌,
  ltb, if◌then◌else◌, length,
}
use ntr.Prelude.Bytes.{Bytes}
use ntr.Prelude.Maps.{nat_Key, lookup, insert, delete}
use ntr.Prelude.Strings.{bytes_Key}
use ntr.Addr.{Addr}
use ntr.Meter.Counter.{ℤ, pos, inc, dec, int_leb, is_zero, is_positive}
use ntr.Meter.IpGate.{IpGate, new_ip_gate, acquire, release}
use ntr.Meter.Cell.{
  Cell, ConnHandle, new_cell, add64, add_guarded, remove_live, kill_all, kill_one, kill_ip,
  set_disabled,
}
pub mod Control
pub mod Bills
pub mod Effects
pub mod Answers
pub mod Calls
pub mod Uncounted
pub mod World
pub mod Counts
pub mod Reload

pub record Limits : Type 0 where
  pub max_conns : ℤ
  pub max_ips : ℤ

pub record SharedLimit : Type 0 where
  pub max_conns : ℤ
  pub live : ℤ
  pub rejected : ℕ
  pub ipg : Option ℕ

pub record Registry : Type 0 where
  pub cells : List (ℕ × Cell)
  pub conn_seq : ℕ
  pub idx : List (ℕ × ℕ)
  pub bills : List (Bytes × ℕ)
  pub labels : List (ℕ × Bytes)
  pub next_id : ℕ
  pub units : List (ℕ × SharedLimit)
  pub gates : List (ℕ × IpGate)
  pub next_ref : ℕ

abbrev pub user_base : ℕ
user_base = 2 ^ 20

unfoldable pub new_registry : Registry
new_registry = record {
  cells = [];
  conn_seq = 0;
  idx = [];
  bills = [];
  labels = [];
  next_id = user_base + 1;
  units = [];
  gates = [];
  next_ref = 0;
}

unfoldable pub id_for_bill : Registry → Bytes → ℕ × Registry
id_for_bill r bill = elim (lookup bill r.bills) [
  | some id ↦ (id, r)
  | none ↦ (
    r.next_id,
    record r {
      next_id = (r.next_id + 1) % 2 ^ 64;
      bills = insert bill r.next_id r.bills;
      labels = insert r.next_id bill r.labels;
    },
  )
]

unfoldable pub id_by_bill : Registry → Bytes → Option ℕ
id_by_bill r bill = lookup bill r.bills

unfoldable pub bill_of : Registry → ℕ → Bytes
bill_of r id = elim (lookup id r.labels) [ none ↦ [] | some bill ↦ bill ]

-- `r.cell(id)`: a cell that is missing is made.
unfoldable pub cell_of : Registry → ℕ → Cell
cell_of r id = elim (lookup id r.cells) [ none ↦ new_cell | some c ↦ c ]

unfoldable pub modify_cell : (Cell → Cell) → ℕ → Registry → Registry
modify_cell f id r = record r { cells = insert id (f (cell_of r id)) r.cells }

-- What the reference of a unit or a gate leads to; there is no reference that leads to nothing.
unfoldable pub unit_at : Registry → ℕ → SharedLimit
unit_at r s = elim (lookup s r.units) [
  | none ↦ record { max_conns = pos 0; live = pos 0; rejected = 0; ipg = none }
  | some u ↦ u
]

unfoldable pub modify_unit : (SharedLimit → SharedLimit) → ℕ → Registry → Registry
modify_unit f s r = record r { units = insert s (f (unit_at r s)) r.units }

unfoldable pub gate_at : Registry → ℕ → IpGate
gate_at r g = elim (lookup g r.gates) [ none ↦ new_ip_gate 0 | some gate ↦ gate ]

-- The gate of a cell, where it has one.
unfoldable pub acquire_ip : Option ℕ → Addr → Registry → Bool × Registry
acquire_ip none src r = (true, r)
acquire_ip (some g) src r =
    let (entered, gate) = acquire (gate_at r g) src in
    (entered, record r { gates = insert g gate r.gates })

unfoldable pub release_ip : Option ℕ → Addr → Registry → Registry
release_ip none src r = r
release_ip (some g) src r = record r { gates = insert g (release (gate_at r g) src) r.gates }

-- `s != nil && s.maxConns > 0`: the unit that limits the connections of a cell.
unfoldable pub limit_of : Registry → ℕ → Option ℕ
limit_of r id = elim (cell_of r id).shared [
  | none ↦ none
  | some s ↦ if is_positive (unit_at r s).max_conns then some s else none
]

unfoldable pub conn_added : Cell → Cell
conn_added c = record c { conns_live = inc c.conns_live }

unfoldable pub conn_rejected : Cell → Cell
conn_rejected c = record c { rejected_conns = add64 c.rejected_conns 1 }

unfoldable pub unit_added : SharedLimit → SharedLimit
unit_added u = record u { live = inc u.live }

unfoldable pub unit_rejected : SharedLimit → SharedLimit
unit_rejected u = record u { rejected = add64 u.rejected 1 }

unfoldable pub acquire_shared : Registry → ℕ → ℕ → Bool × Registry
acquire_shared r id s =
    if int_leb (unit_at r s).max_conns (unit_at r s).live
    then (false, modify_cell conn_rejected id (modify_unit unit_rejected s r))
    else (true, modify_cell conn_added id (modify_unit unit_added s r))

unfoldable pub acquire_own : Registry → ℕ → Bool × Registry
acquire_own r id =
    let c = cell_of r id in
    if not (is_zero c.max_conns) && int_leb c.max_conns c.conns_live
    then (false, modify_cell conn_rejected id r)
    else (true, modify_cell conn_added id r)

-- `tryAcquireConn`, with nobody between the load and the swap.
unfoldable pub try_acquire_conn : Registry → ℕ → Bool × Registry
try_acquire_conn r id = elim (limit_of r id) [
  | none ↦ acquire_own r id
  | some s ↦ acquire_shared r id s
]

unfoldable pub release_conn : Registry → ℕ → Registry
release_conn r id =
    let r' = modify_cell (λ c. record c { conns_live = dec c.conns_live }) id r in
    elim (limit_of r' id) [
      | none ↦ r'
      | some s ↦ modify_unit (λ u. record u { live = dec u.live }) s r'
    ]

unfoldable pub conn_opened : ℕ → ConnHandle → Cell → Cell
conn_opened conn h c =
    let c' = (add_guarded c conn h).1 in record c' { conns_total = add64 c'.conns_total 1 }

-- The last part of `Open`: the connection is registered, unless its user is disabled.
unfoldable pub register : Registry → ℕ → Addr → ℕ → Option ℕ × Registry
register r id src now =
    let conn = add64 r.conn_seq 1 in
    let h : ConnHandle = record { kill = conn; last_active = now; src = src } in
    if (add_guarded (cell_of r id) conn h).0
    then (
      some conn,
      modify_cell (conn_opened conn h) id
          (record r { conn_seq = conn; idx = insert conn id r.idx }),
    )
    else (none, release_ip (cell_of r id).ipg src (release_conn (record r { conn_seq = conn }) id))

-- The number of the connection, if it is admitted.
unfoldable pub open_conn : Registry → ℕ → Addr → ℕ → Option ℕ × Registry
open_conn r id src now =
    let r0 = modify_cell (λ c. c) id r in
    let ipg = (cell_of r0 id).ipg in
    let (entered, r1) = acquire_ip ipg src r0 in
    if entered
    then (let (room, r2) = try_acquire_conn r1 id in
        if room then register r2 id src now else (none, release_ip ipg src r2))
    else (none, r1)
