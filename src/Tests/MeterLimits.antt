-- ===== src/Tests/MeterLimits.antt =====
-- The limits and counters of users at concrete inputs.
use ntr.Prelude.{ℕ, ◌≡◌, refl, arith, true, false, none, some, List, [], ◌∷◌, ◌≤◌}
use ntr.Prelude.Maps.{lookup, insert, delete, nat_eq}
use ntr.Addr.{Addr, v4}
use ntr.Meter.Counter.{pos, inc, is_zero, int_leb, int_eq}
use ntr.Meter.IpGate.{new_ip_gate}
use ntr.Meter.IpGate.Refines.{
  Event, comes, ends, gate_answers, online_answers, gate_answers-online_answers,
}
use ntr.Meter.Gate.{Gate, new_gate, load_live, compare_and_swap}
use ntr.Meter.Gate.World.{
  after_load, after_swap, World, Steps, Step, stay, next, loads, swaps, swaps_not,
}
use ntr.Meter.Gate.Limit.{fresh, Steps-within, Steps-enters}
use ntr.Meter.Cell.{Cell, ConnHandle, new_cell, add_guarded, kill_all, set_disabled}
use ntr.Meter.Cell.Disable.{adds, removes, run_sections, disabled-no_live}
use ntr.Meter.Traffic.{flush}
use ntr.Meter.Traffic.Sums.{Transfer, went_up, went_down, transfers, total}
use ntr.Meter.Traffic.Account.{new_meter, flush-transfers}

abbrev home : Addr
home = v4 0x0a000001

abbrev away : Addr
away = v4 0x0a000002

-- One address at a time: a second connection from it enters, another address waits until both ended.
abbrev visits : List Event
visits = comes home ∷ comes home ∷ comes away ∷ ends home ∷ comes away ∷ ends home ∷ comes away ∷ []

visits_answered :
    gate_answers (new_ip_gate 1) visits ≡ true ∷ true ∷ false ∷ true ∷ false ∷ true ∷ true ∷ []
unfolding gate_answers new_ip_gate ntr.Meter.IpGate.acquire lookup ntr.Meter.IpGate.admit_new
    ntr.Meter.IpGate.release insert ntr.Addr.addr_eq ntr.Meter.IpGate.count_or_zero delete
visits_answered = refl

gate_answers-online_answers_example :
    gate_answers (new_ip_gate 1) visits ≡ online_answers 1 [] visits
gate_answers-online_answers_example = gate_answers-online_answers 1 visits

-- Two callers at a gate for one connection load the counter, one swaps, the other finds it changed.
abbrev narrow : Gate
narrow = record { max_conns = pos 1; live = pos 0; rejected = 0; has_rate = false }

abbrev two_loaded : World
two_loaded = record { gate = narrow; loaded = (1, pos 0) ∷ (2, pos 0) ∷ []; holders = 0 }

abbrev one_in : World
one_in = record { gate = record narrow { live = pos 1 }; loaded = (2, pos 0) ∷ []; holders = 1 }

abbrev one_out : World
one_out = record { gate = record narrow { live = pos 1 }; loaded = []; holders = 1 }

abbrev one_loaded : World
one_loaded = record { gate = narrow; loaded = (1, pos 0) ∷ []; holders = 0 }

race : Steps (fresh narrow) one_out
unfolding load_live compare_and_swap lookup insert delete is_zero int_leb int_eq inc nat_eq
race =
    let first : Step 1 (fresh narrow) one_loaded = loads (fresh narrow) 1 (pos 0) refl refl in
    let second : Step 2 one_loaded two_loaded = loads one_loaded 2 (pos 0) refl refl in
    let third : Step 1 two_loaded one_in = swaps two_loaded 1 (pos 0) refl refl in
    let fourth : Step 2 one_in one_out = swaps_not one_in 2 (pos 0) refl refl in
    next (next (next (next (stay (fresh narrow)) first) second) third) fourth

Steps-within_example : (one_out.gate.live ≡ pos one_out.holders) × (one_out.holders ≤ 1)
unfolding new_gate is_zero
Steps-within_example = Steps-within 1 false narrow one_out (omega arith) refl race

Steps-enters_example :
    (let loaded = after_load (fresh narrow) 5 (pos 0) in
      let entered = after_swap loaded 5 (pos 0) in
      Step 5 (fresh narrow) loaded × Step 5 loaded entered × (entered.gate.live ≡ pos 1))
unfolding new_gate is_zero
Steps-enters_example =
    Steps-enters 1 false narrow (fresh narrow) 5 (omega arith) refl (stay (fresh narrow))

abbrev handle_of : ℕ → ConnHandle
handle_of n = record { kill = n; last_active = 0; src = home }

-- `Disable` runs between the two halves of two connections' `Open`.
disabled-no_live_example :
    (let ended =
        run_sections
          (adds 3 (handle_of 3) ∷ [])
          (kill_all (
            run_sections
              (adds 2 (handle_of 2) ∷ removes 1 ∷ [])
              (set_disabled true (run_sections (adds 1 (handle_of 1) ∷ []) new_cell)))).1 in
      (ended.live ≡ []) × ((add_guarded ended 4 (handle_of 4)).0 ≡ false))
disabled-no_live_example =
    disabled-no_live new_cell (adds 1 (handle_of 1) ∷ []) (adds 2 (handle_of 2) ∷ removes 1 ∷ [])
      (adds 3 (handle_of 3) ∷ []) 4 (handle_of 4)

abbrev downloads : List Transfer
downloads = went_up 1000 1 ∷ went_down 131000 2 ∷ went_down 500 3 ∷ went_down 7 4 ∷ []

flush-transfers_example :
    (let (m, o) = transfers (new_meter none, some new_cell) downloads in
      (d : Cell) × ((flush m o).1 ≡ some d) × (d.up ≡ 1000) × (d.down ≡ 131507))
unfolding new_cell total
flush-transfers_example = flush-transfers none new_cell downloads (omega arith) (omega arith) (
  (omega arith, omega arith),
  ((omega arith, omega arith), ((omega arith, omega arith), ((omega arith, omega arith), tt))),
)
