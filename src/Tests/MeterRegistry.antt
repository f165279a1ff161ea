-- ===== src/Tests/MeterRegistry.antt =====
-- The registry of users and connections at concrete inputs.
use ntr.Prelude.{ℕ, ◌≤◌, ◌<◌, ◌≡◌, refl, arith, Option, none, some, [], ◌∷◌}
use ntr.Prelude.Maps.{lookup, insert, nat_eq}
use ntr.Addr.{Addr, v4}
use ntr.Meter.Counter.{pos, inc, int_leb, is_zero, is_positive}
use ntr.Meter.Cell.{Cell, new_cell}
use ntr.Meter.Registry.{
  Registry, Limits, new_registry, user_base, id_for_bill, bill_of, cell_of, unit_at, limit_of,
  open_conn,
}
use ntr.Meter.Registry.Control.{set_limits, set_limits_shared, close_conn, disable}
use ntr.Meter.Registry.Effects.{is_limit}
use ntr.Meter.Registry.Bills.{all_bills, id_for_bill-stable}
use ntr.Meter.Registry.World.{World, opens, stay, next, tally}
use ntr.Meter.Registry.Counts.{IsIdle, Steps-own_limit, Steps-shared_limit}
use ntr.Meter.Registry.Reload.{shift, new_unit, Steps-reloaded}

abbrev home : Addr
home = v4 0x0a000001

id_for_bill-stable_example :
    (let (id, r) = id_for_bill (all_bills new_registry ((b'a' ∷ []) ∷ [])) (b'b' ∷ []) in
      let r' = all_bills r ((b'c' ∷ []) ∷ (b'b' ∷ []) ∷ []) in
      (id_for_bill r' (b'b' ∷ []) ≡ (id, r')) × (bill_of r' id ≡ b'b' ∷ []) × (user_base < id))
id_for_bill-stable_example =
    id_for_bill-stable ((b'a' ∷ []) ∷ []) ((b'c' ∷ []) ∷ (b'b' ∷ []) ∷ []) (b'b' ∷ []) (omega arith)

abbrev one_each : Limits
one_each = record { max_conns = pos 1; max_ips = pos 0 }

-- The user 7 may have one connection.
abbrev limited : Registry
limited = record new_registry { cells = (7, record new_cell { max_conns = pos 1 }) ∷ [] }

limited_by_set_limits : set_limits new_registry 7 one_each ≡ limited
unfolding set_limits new_registry ntr.Meter.Registry.modify_cell insert
    ntr.Meter.Registry.Control.new_gate_ref is_positive new_cell cell_of
    ntr.Meter.Registry.Control.or_else lookup
limited_by_set_limits = refl

limited-IsIdle : IsIdle limited
unfolding cell_of unit_at lookup new_registry new_cell
limited-IsIdle = record { conns = λ id. ground arith; lives = λ s. refl }

abbrev first : Option ℕ × Registry
first = open_conn limited 7 home 1

second_refused : (open_conn first.1 7 home 2).0 ≡ none
unfolding open_conn new_registry new_cell ntr.Meter.Registry.acquire_ip cell_of lookup
    ntr.Meter.Registry.modify_cell insert nat_eq ntr.Meter.Registry.try_acquire_conn limit_of
    ntr.Meter.Registry.acquire_own is_zero int_leb ntr.Meter.Registry.register
    ntr.Meter.Cell.add_guarded ntr.Meter.Registry.conn_added ntr.Meter.Registry.conn_opened inc
second_refused = refl

Steps-own_limit_example :
    ((cell_of first.1 7).conns_live ≡ pos (tally (nat_eq 7) (7 ∷ [])))
    × (tally (nat_eq 7) (7 ∷ []) ≤ 1)
unfolding open_conn new_registry new_cell limit_of cell_of lookup ntr.Meter.Registry.acquire_ip
    ntr.Meter.Registry.modify_cell insert nat_eq ntr.Meter.Registry.try_acquire_conn
    ntr.Meter.Registry.acquire_own is_zero int_leb ntr.Meter.Registry.register
    ntr.Meter.Cell.add_guarded ntr.Meter.Registry.conn_added ntr.Meter.Registry.conn_opened
Steps-own_limit_example =
    Steps-own_limit limited (record { reg = first.1; opened = 7 ∷ [] }) 7 1 limited-IsIdle
      (next (stay _) (opens limited [] 7 home 1)) refl refl (omega arith)

-- The users 7 and 8 may have one connection together.
abbrev sharing : Registry
sharing = record new_registry {
  cells = (7, record new_cell { shared = some 0 }) ∷ (8, record new_cell { shared = some 0 }) ∷ [];
  units = (0, record { max_conns = pos 1; live = pos 0; rejected = 0; ipg = none }) ∷ [];
  next_ref = 1;
}

sharing_by_set_limits : set_limits_shared new_registry (7 ∷ 8 ∷ []) one_each ≡ sharing
unfolding set_limits_shared new_registry ntr.Meter.Registry.Control.share
    ntr.Meter.Registry.modify_cell insert ntr.Meter.Registry.Control.new_gate_ref is_positive nat_eq
    new_cell cell_of lookup
sharing_by_set_limits = refl

sharing-IsIdle : IsIdle sharing
unfolding cell_of unit_at lookup new_registry new_cell
sharing-IsIdle = record { conns = λ id. ground arith; lives = λ s. ground arith }

abbrev shared_first : Option ℕ × Registry
shared_first = open_conn sharing 7 home 1

Steps-shared_limit_example :
    ((unit_at shared_first.1 0).live ≡ pos (tally (λ id. is_limit shared_first.1 id 0) (7 ∷ [])))
    × (tally (λ id. is_limit shared_first.1 id 0) (7 ∷ []) ≤ 1)
unfolding open_conn set_limits_shared new_registry new_cell unit_at lookup
    ntr.Meter.Registry.acquire_ip cell_of ntr.Meter.Registry.modify_cell insert nat_eq
    ntr.Meter.Registry.try_acquire_conn limit_of is_positive ntr.Meter.Registry.acquire_shared
    int_leb ntr.Meter.Registry.register ntr.Meter.Cell.add_guarded ntr.Meter.Registry.modify_unit
    ntr.Meter.Registry.conn_added ntr.Meter.Registry.unit_added
Steps-shared_limit_example =
    Steps-shared_limit sharing (record { reg = shared_first.1; opened = 7 ∷ [] }) 0 1 sharing-IsIdle
      (next (stay _) (opens sharing [] 7 home 1)) refl (omega arith)

-- The limit of one connection is set again while a connection of the user 7 is open; then a second
-- connection of the user is admitted.
abbrev reloaded : Registry
reloaded = set_limits_shared shared_first.1 (7 ∷ []) one_each

second_after_reload : (open_conn reloaded 7 home 2).0 ≡ some 2
unfolding open_conn set_limits_shared ntr.Meter.Registry.acquire_ip ntr.Meter.Registry.modify_cell
    insert unit_at cell_of lookup nat_eq ntr.Meter.Registry.try_acquire_conn limit_of
    ntr.Meter.Registry.acquire_shared ntr.Meter.Registry.acquire_own int_leb is_positive is_zero
    ntr.Meter.Registry.register ntr.Meter.Cell.add_guarded ntr.Meter.Cell.add64
    ntr.Meter.Registry.modify_unit ntr.Meter.Registry.conn_added ntr.Meter.Registry.unit_added
    ntr.Meter.Registry.conn_opened inc new_registry new_cell ntr.Meter.Registry.Control.new_gate_ref
    ntr.Meter.Registry.Control.share
second_after_reload = refl

Steps-reloaded_example :
    (let unit = new_unit shared_first.1 (7 ∷ []) one_each in
      let w : World = record { reg = (open_conn reloaded 7 home 2).1; opened = 7 ∷ 7 ∷ [] } in
      shift (tally (λ id. is_limit reloaded id unit) (7 ∷ [])) (unit_at w.reg unit).live
      ≡ pos (tally (λ id. is_limit w.reg id unit) (7 ∷ 7 ∷ [])))
unfolding open_conn set_limits_shared ntr.Meter.Registry.acquire_ip ntr.Meter.Registry.modify_cell
    insert unit_at cell_of lookup nat_eq ntr.Meter.Registry.try_acquire_conn limit_of
    ntr.Meter.Registry.acquire_shared ntr.Meter.Registry.acquire_own int_leb is_positive is_zero
    ntr.Meter.Registry.register ntr.Meter.Cell.add_guarded ntr.Meter.Cell.add64
    ntr.Meter.Registry.modify_unit ntr.Meter.Registry.conn_added ntr.Meter.Registry.unit_added
    ntr.Meter.Registry.conn_opened inc new_registry new_cell ntr.Meter.Registry.Control.new_gate_ref
    ntr.Meter.Registry.Control.share
Steps-reloaded_example =
    Steps-reloaded shared_first.1 (7 ∷ []) one_each (7 ∷ [])
      (record { reg = (open_conn reloaded 7 home 2).1; opened = 7 ∷ 7 ∷ [] })
      (next (stay _) (opens reloaded (7 ∷ []) 7 home 2))
