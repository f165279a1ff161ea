-- ===== src/Meter/Registry/Answers.antt =====
-- meter/limits.go: `tryAcquireConn` counts a connection exactly if it admits it.
use ntr.Prelude.{
  ℕ, ◌≡◌, refl, arith, Bool, true, false, not, ◌&&◌, none, some, inl, inr, Bool-cases, Option-cases,
  if◌then◌else◌,
}
use ntr.Prelude.Maps.{nat_Key}
use ntr.Meter.Counter.{ℤ, inc, int_leb, is_zero}
use ntr.Meter.Cell.{Cell}
use ntr.Meter.Registry.{
  Registry, SharedLimit, cell_of, unit_at, limit_of, acquire_shared, acquire_own, try_acquire_conn,
  conn_added, conn_rejected, unit_added, unit_rejected,
}
use ntr.Meter.Registry.Effects.{
  Moved, Moves, UnitMoves, same, modify_cell-Moved, modify_both, modify_both-Moved,
}

abbrev pub counted : Bool → ℤ → ℤ
counted b z = if b then inc z else z

-- Who is admitted is counted, and found room.
pub record Answer (r : Registry) (id : ℕ) (b : Bool) (q : Registry) : Type 0 where
  pub moved : Moved (counted b) id r q
  pub own_room :
      b ≡ true
      → limit_of r id ≡ none
      → is_zero (cell_of r id).max_conns ≡ false
      → int_leb (cell_of r id).max_conns (cell_of r id).conns_live ≡ false
  pub unit_room :
      (s : ℕ)
      → b ≡ true
      → limit_of r id ≡ some s
      → int_leb (unit_at r s).max_conns (unit_at r s).live ≡ false

added-Moves : (c : Cell) → Moves inc conn_added c
unfolding conn_added
added-Moves c = record { conn = refl; most = refl; unit = refl }

rejected-Moves : (c : Cell) → Moves same conn_rejected c
unfolding conn_rejected
rejected-Moves c = record { conn = refl; most = refl; unit = refl }

unit_added-Moves : (u : SharedLimit) → UnitMoves inc unit_added u
unfolding unit_added
unit_added-Moves u = record { live = refl; most = refl }

unit_rejected-Moves : (u : SharedLimit) → UnitMoves same unit_rejected u
unfolding unit_rejected
unit_rejected-Moves u = record { live = refl; most = refl }

module _ (r : Registry) (id : ℕ) where
  acquire_own-Answer : limit_of r id ≡ none → Answer r id (acquire_own r id).0 (acquire_own r id).1
  unfolding acquire_own
  acquire_own-Answer alone =
      elim (Bool-cases (
        not (is_zero (cell_of r id).max_conns)
        && int_leb (cell_of r id).max_conns (cell_of r id).conns_live)) [
          | inl full ↦
              rw (full, acquire_own)
                (record {
                  moved =
                      modify_cell-Moved same conn_rejected id r (rejected-Moves (cell_of r id))
                        alone;
                  own_room = λ no l z. ground (arith, no);
                  unit_room = λ s no l. ground (arith, no);
                })
          | inr room ↦
              rw (room, acquire_own)
                (record {
                  moved = modify_cell-Moved inc conn_added id r (added-Moves (cell_of r id)) alone;
                  own_room = λ t l z. ground (arith, room, z);
                  unit_room = λ s t l. ground (arith, l, alone);
                })
        ]

  acquire_shared-Answer :
      (s : ℕ)
      → limit_of r id ≡ some s
      → Answer r id (acquire_shared r id s).0 (acquire_shared r id s).1
  unfolding acquire_shared modify_both
  acquire_shared-Answer s at =
      elim (Bool-cases (int_leb (unit_at r s).max_conns (unit_at r s).live)) [
        | inl full ↦
            rw (full, acquire_shared)
              (record {
                moved =
                    modify_both-Moved same conn_rejected unit_rejected id s r
                      (rejected-Moves (cell_of r id)) (unit_rejected-Moves (unit_at r s)) at;
                own_room = λ no l z. ground (arith, no);
                unit_room = λ s no l. ground (arith, no);
              })
        | inr room ↦
            rw (room, acquire_shared)
              (record {
                moved =
                    modify_both-Moved inc conn_added unit_added id s r (added-Moves (cell_of r id))
                      (unit_added-Moves (unit_at r s)) at;
                own_room = λ t l z. ground (arith, l, at);
                unit_room = λ t yes_ l. ground (arith, l, at, room);
              })
      ]

  pub try_acquire_conn-Answer : Answer r id (try_acquire_conn r id).0 (try_acquire_conn r id).1
  unfolding try_acquire_conn
  try_acquire_conn-Answer = elim (Option-cases (limit_of r id)) [
    | inl alone ↦ rw (alone, try_acquire_conn) (acquire_own-Answer alone)
    | inr (s, at) ↦ rw (at, try_acquire_conn) (acquire_shared-Answer s at)
  ]
