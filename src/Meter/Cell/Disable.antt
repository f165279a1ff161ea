-- ===== src/Meter/Cell/Disable.antt =====
-- meter/meter.go: a cell that is disabled keeps no connection alive, however the critical sections of
-- `Open`, `Disable` and the others interleave.
use ntr.Prelude.{ℕ, ◌≡◌, refl, ap, arith, true, false, List, [], ◌∷◌}
use ntr.Prelude.Maps.{nat_Key, lookup, delete}
use ntr.Addr.{Addr}
use ntr.Meter.Cell.{
  Cell, ConnHandle, add_guarded, remove_live, kill_all, kill_one, kill_ip, from_ip, set_disabled,
}

-- The critical sections but that of `Enable`.
pub data Section : Type 0 where
  adds : ℕ → ConnHandle → Section
  removes : ℕ → Section
  disables : Section
  kills_all : Section
  kills_one : ℕ → Section
  kills_ip : Addr → Section

abbrev pub run_section : Section → Cell → Cell
run_section (adds id h) c = (add_guarded c id h).1
run_section (removes id) c = remove_live c id
run_section disables c = set_disabled true c
run_section kills_all c = (kill_all c).1
run_section (kills_one id) c = (kill_one c id).1
run_section (kills_ip ip) c = (kill_ip c ip).1

unfoldable pub run_sections : List Section → Cell → Cell
run_sections [] c = c
run_sections (s ∷ ss) c = run_sections ss (run_section s c)

-- What stays so once it is so.
record Ended (c : Cell) : Type 0 where
  off : c.disabled ≡ true
  none_left : c.live ≡ []

stays_off : (s : Section) (c : Cell) → c.disabled ≡ true → (run_section s c).disabled ≡ true
unfolding add_guarded remove_live kill_all kill_one kill_ip set_disabled
stays_off (adds id h) c e = ground (arith, e)
stays_off (removes id) c e = e
stays_off disables c e = refl
stays_off kills_all c e = e
stays_off (kills_one id) c e = ground (arith, e)
stays_off (kills_ip ip) c e = ground (arith, e)

stays_empty :
    (s : Section) (c : Cell) → c.disabled ≡ true → c.live ≡ [] → (run_section s c).live ≡ []
unfolding add_guarded remove_live kill_all kill_one kill_ip set_disabled delete lookup from_ip
stays_empty (adds id h) c off e = ground (arith, off, e)
stays_empty (removes id) c off e = ap (delete id) e
stays_empty disables c off e = e
stays_empty kills_all c off e = refl
stays_empty (kills_one id) c off e = rw e refl
stays_empty (kills_ip ip) c off e = rw e refl

run-off : (ss : List Section) (c : Cell) → c.disabled ≡ true → (run_sections ss c).disabled ≡ true
unfolding run_sections
run-off [] c e = e
run-off (s ∷ ss) c e = run-off ss (run_section s c) (stays_off s c e)

run-Ended : (ss : List Section) (c : Cell) → Ended c → Ended (run_sections ss c)
unfolding run_sections
run-Ended [] c e = e
run-Ended (s ∷ ss) c e =
    run-Ended ss (run_section s c)
      (record { off = stays_off s c e.off; none_left = stays_empty s c e.off e.none_left })

-- When `Disable` has set the switch and then ended what was alive, whatever critical sections ran
-- before, between and after these two, but no `Enable` after the first, the cell keeps no connection
-- alive and takes no other.
pub disabled-no_live :
    (c : Cell) (before between after : List Section) (id : ℕ) (h : ConnHandle)
    → (let ended =
          run_sections after
            (kill_all (run_sections between (set_disabled true (run_sections before c)))).1 in
        (ended.live ≡ []) × ((add_guarded ended id h).0 ≡ false))
unfolding kill_all set_disabled add_guarded
disabled-no_live c before between after id h =
    let stopped = record (run_sections before c) { disabled = true } in
    let middle = run_sections between stopped in
    let e =
      run-Ended after (record middle { live = [] })
        (record { off = run-off between stopped refl; none_left = refl }) in
    (e.none_left, ground (arith, e.off))
