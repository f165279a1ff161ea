-- ===== src/Meter/Traffic.antt =====
-- meter/meter.go: `Meter`, which counts the bytes of a connection and only now and then adds them to
-- the cell of its user. The handle is the connection's number in the cell; throttling is left out.
-- A read or a write gives no negative number of bytes.
use ntr.Prelude.{ℕ, ◌+◌, ◌*◌, Bool, true, false, Option, none, some, ◌==◌, ltb, if◌then◌else◌}
use ntr.Prelude.Maps.{nat_Key, lookup, insert}
use ntr.Meter.Cell.{Cell, ConnHandle, add64}
pub mod Sums
pub mod Account

abbrev pub drain_threshold : ℕ
drain_threshold = 128 * 1024

pub record Meter : Type 0 where
  pub h : Option ℕ
  pub local_up : ℕ
  pub local_dn : ℕ

-- A handle that is no more in the cell is read by nobody.
unfoldable pub touch : Meter → Cell → ℕ → Cell
touch m c now = elim m.h [
  | none ↦ c
  | some id ↦ elim (lookup id c.live) [
    | none ↦ c
    | some h ↦ record c { live = insert id (record h { last_active = now }) c.live }
  ]
]

unfoldable pub map_cell : (Cell → Cell) → Option Cell → Option Cell
map_cell f none = none
map_cell f (some c) = some (f c)

unfoldable pub add_up : Meter → Option Cell → ℕ → ℕ → Meter × Option Cell
add_up m c n now =
    if n == 0
    then (m, c)
    else (let local = add64 m.local_up n in
        if ltb local drain_threshold then (record m { local_up = local }, c) else (
          record m { local_up = 0 },
          map_cell (λ c. let c' = touch m c now in record c' { up = add64 c'.up local }) c,
        ))

unfoldable pub add_down : Meter → Option Cell → ℕ → ℕ → Meter × Option Cell
add_down m c n now =
    if n == 0
    then (m, c)
    else (let local = add64 m.local_dn n in
        if ltb local drain_threshold then (record m { local_dn = local }, c) else (
          record m { local_dn = 0 },
          map_cell (λ c. let c' = touch m c now in record c' { down = add64 c'.down local }) c,
        ))

unfoldable pub flush : Meter → Option Cell → Meter × Option Cell
flush m c = (
  record m { local_up = 0; local_dn = 0 },
  map_cell
      (λ c. record c {
        up = if ltb 0 m.local_up then add64 c.up m.local_up else c.up;
        down = if ltb 0 m.local_dn then add64 c.down m.local_dn else c.down;
      })
      c,
)
