-- ===== src/Meter/Traffic/Account.antt =====
-- meter/meter.go: no byte is lost between `AddUp`, `AddDown` and `Flush`.
use ntr.Prelude.{
  ℕ, ◌+◌, ◌%◌, ◌^◌, ◌<◌, ◌≡◌, refl, arith, Option, some, List, [], ◌∷◌, All, ltb, if◌then◌else◌,
}
use ntr.Meter.Cell.{Cell, add64}
use ntr.Meter.Traffic.{Meter, map_cell, add_up, add_down, flush}
use ntr.Meter.Traffic.Sums.{
  Transfer, went_up, went_down, up_of, down_of, IsInt, transfer, transfers, total, Accounts,
  Counted, recount, add_up-Counted, add_down-Counted,
}

transfer-Counted :
    (up down : ℕ) (m : Meter) (o : Option Cell) (t : Transfer)
    → IsInt t
    → Counted up down (m, o)
    → Counted (up + up_of t) (down + down_of t) (transfer (m, o) t)
transfer-Counted up down m o (went_up n now) b k =
    let at : o ≡ some k.cell = k.is_cell in
    rw at (
      recount (add_up m (some k.cell) n now) refl (omega arith)
        (add_up-Counted up down m k.cell n now b.0 k.sums))
transfer-Counted up down m o (went_down n now) b k =
    let at : o ≡ some k.cell = k.is_cell in
    rw at (
      recount (add_down m (some k.cell) n now) (omega arith) refl
        (add_down-Counted up down m k.cell n now b.1 k.sums))

transfers-Counted :
    (up down : ℕ) (mc : Meter × Option Cell) (ts : List Transfer)
    → All IsInt ts
    → Counted up down mc
    → Counted (up + total up_of ts) (down + total down_of ts) (transfers mc ts)
unfolding transfers total
transfers-Counted up down mc [] all k = recount mc (omega arith) (omega arith) k
transfers-Counted up down (m, o) (t ∷ ts) (b, all) k = recount _ (omega arith) (omega arith) (
    transfers-Counted (up + up_of t) (down + down_of t) (transfer (m, o) t) ts all
      (transfer-Counted up down m o t b k))

abbrev pub new_meter : Option ℕ → Meter
new_meter h = record { h = h; local_up = 0; local_dn = 0 }

flush-sum :
    (held kept whole : ℕ)
    → (held + kept) % 2 ^ 64 ≡ whole % 2 ^ 64
    → held < 2 ^ 64
    → (if ltb 0 kept then add64 held kept else held) ≡ whole % 2 ^ 64
unfolding add64
flush-sum held kept whole e b = ground (arith, e)

start :
    (h : Option ℕ) (c : Cell)
    → c.up < 2 ^ 64
    → c.down < 2 ^ 64
    → Counted c.up c.down (new_meter h, some c)
start h c bu bd = record {
  cell = c;
  is_cell = refl;
  sums = record {
    ups = omega arith;
    downs = omega arith;
    up_bound = omega arith;
    down_bound = omega arith;
    up_word = bu;
    down_word = bd;
  };
}

-- Whatever a connection has sent and received, in whichever order, each time less than 2 ^ 63 bytes,
-- its meter keeps back less than 128 KiB of either direction, and the cell and the meter together
-- have all the bytes, modulo 2 ^ 64.
pub transfers-Accounts :
    (h : Option ℕ) (c : Cell) (ts : List Transfer)
    → c.up < 2 ^ 64
    → c.down < 2 ^ 64
    → All IsInt ts
    → (d : Cell) × ((transfers (new_meter h, some c) ts).1 ≡ some d)
      × Accounts
          (c.up + total up_of ts)
          (c.down + total down_of ts)
          (transfers (new_meter h, some c) ts).0
          d
transfers-Accounts h c ts bu bd all =
    let k = transfers-Counted c.up c.down (new_meter h, some c) ts all (start h c bu bd) in
    (k.cell, k.is_cell, k.sums)

flush_sums :
    (up down : ℕ) (m : Meter) (o : Option Cell)
    → Counted up down (m, o)
    → (d : Cell) × ((flush m o).1 ≡ some d) × (d.up ≡ up % 2 ^ 64) × (d.down ≡ down % 2 ^ 64)
unfolding flush map_cell
flush_sums up down m o k =
    let at : o ≡ some k.cell = k.is_cell in
    rw at (
      _,
      refl,
      flush-sum k.cell.up m.local_up up k.sums.ups k.sums.up_word,
      flush-sum k.cell.down m.local_dn down k.sums.downs k.sums.down_word,
    )

-- When such a connection has ended, the counters of the cell have grown by exactly the bytes of the
-- two directions, modulo 2 ^ 64.
pub flush-transfers :
    (h : Option ℕ) (c : Cell) (ts : List Transfer)
    → c.up < 2 ^ 64
    → c.down < 2 ^ 64
    → All IsInt ts
    → (let (m, o) = transfers (new_meter h, some c) ts in
        (d : Cell) × ((flush m o).1 ≡ some d)
        × (d.up ≡ (c.up + total up_of ts) % 2 ^ 64)
        × (d.down ≡ (c.down + total down_of ts) % 2 ^ 64))
flush-transfers h c ts bu bd all =
    flush_sums _ _ (transfers (new_meter h, some c) ts).0 (transfers (new_meter h, some c) ts).1
      (transfers-Counted c.up c.down (new_meter h, some c) ts all (start h c bu bd))
