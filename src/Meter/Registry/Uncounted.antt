-- ===== src/Meter/Registry/Uncounted.antt =====
-- meter/meter.go: what ends connections leaves the counters alone, these go back when the connection's
-- own goroutine closes it.
use ntr.Prelude.{
  ℕ, ◌≡◌, refl, arith, true, false, none, some, List, [], ◌∷◌, inl, inr, Bool-cases, Option-cases,
  ◌==◌,
}
use mathlib.Core.Path.{subst}
use ntr.Prelude.Bytes.{Bytes}
use ntr.Prelude.Maps.{nat_Key, lookup, insert}
use ntr.Addr.{Addr}
use ntr.Meter.Counter.{dec}
use ntr.Meter.Cell.{Cell, kill_all, kill_one, kill_ip, set_disabled, remove_live}
use ntr.Meter.Traffic.{Meter, flush, map_cell}
use ntr.Meter.Registry.{Registry, cell_of, modify_cell, release_ip, release_conn, id_for_bill}
use ntr.Meter.Registry.Control.{
  Entry, kills_in, disable, enable, kill_conn, kill_ip_of, end_entries, evict_idle, reap_idle,
  close_conn,
}
use ntr.Meter.Registry.Effects.{
  Moved, Moves, same, Moved-refl, Moved-trans, Moved-other, modify_cell-kept, untouched,
}
use ntr.Meter.Registry.Calls.{release_conn-Moved, release_ip-Moved}

-- The calls that neither open nor close a connection.
pub data Call : Type 0 where
  bills : Bytes → Call
  disables : ℕ → Call
  enables : ℕ → Call
  kills_conn : ℕ → Call
  kills_ip : ℕ → Addr → Call
  evicts : ℕ → Call
  reaps : ℕ → ℕ → Call

abbrev pub run_call : Call → Registry → Registry
run_call (bills b) r = (id_for_bill r b).1
run_call (disables id) r = (disable r id).1
run_call (enables id) r = (enable r id).1
run_call (kills_conn conn) r = (kill_conn r conn).1
run_call (kills_ip id ip) r = (kill_ip_of r id ip).1
run_call (evicts n) r = (evict_idle r n).1
run_call (reaps now idle) r = (reap_idle r now idle).1

-- A cell that is there is put through `g`.
found-Moved :
    (g : Cell → Cell) (r : Registry) (id : ℕ) (c : Cell)
    → lookup id r.cells ≡ some c
    → ((d : Cell) → Moves same g d)
    → Moved same id r (record r { cells = insert id (g c) r.cells })
unfolding modify_cell cell_of
found-Moved g r id c at m =
    let is_c : cell_of r id ≡ c = rw (at, cell_of) refl in
    subst (λ d. Moved same id r (record r { cells = insert id (g d) r.cells })) is_c
      (modify_cell-kept g id r (m (cell_of r id)))

kills_in-Moved :
    (f : Cell → List ℕ × Cell) (r : Registry) (id a : ℕ)
    → ((c : Cell) → Moves same (λ d. (f d).1) c)
    → Moved same a r (kills_in f r id).1
unfolding kills_in
kills_in-Moved f r id a m = Moved-other id a (elim (Option-cases (lookup id r.cells)) [
  | inl gone ↦ rw (gone, kills_in) (Moved-refl id r)
  | inr (c, at) ↦ rw (at, kills_in) (found-Moved (λ d. (f d).1) r id c at m)
])

kill_one-Moves : (conn : ℕ) (c : Cell) → Moves same (λ d. (kill_one d conn).1) c
unfolding kill_one
kill_one-Moves conn c = record { conn = ground arith; most = ground arith; unit = ground arith }

end_entries-Moved : (es : List Entry) (r : Registry) (a : ℕ) → Moved same a r (end_entries es r).1
unfolding end_entries
end_entries-Moved [] r a = Moved-refl a r
end_entries-Moved (e ∷ es) r a =
    Moved-trans same same same a
      (kills_in-Moved (λ c. kill_one c e.id) r e.cell a (kill_one-Moves e.id))
      (end_entries-Moved es (kills_in (λ c. kill_one c e.id) r e.cell).1 a) (λ z. refl)

disable-Moved : (r : Registry) (id a : ℕ) → Moved same a r (disable r id).1
unfolding disable kill_all set_disabled
disable-Moved r id a = Moved-other id a (elim (Option-cases (lookup id r.cells)) [
  | inl gone ↦ rw (gone, disable) (Moved-refl id r)
  | inr (c, at) ↦
      rw (at, disable)
        (found-Moved (λ d. record d { disabled = true; live = [] }) r id c at
          (λ d. record { conn = refl; most = refl; unit = refl }))
])

enable-Moved : (r : Registry) (id a : ℕ) → Moved same a r (enable r id).1
unfolding enable set_disabled
enable-Moved r id a = Moved-other id a (elim (Option-cases (lookup id r.cells)) [
  | inl gone ↦ rw (gone, enable) (Moved-refl id r)
  | inr (c, at) ↦
      rw (at, enable)
        (found-Moved (λ d. record d { disabled = false }) r id c at
          (λ d. record { conn = refl; most = refl; unit = refl }))
])

kill_conn-Moved : (r : Registry) (conn a : ℕ) → Moved same a r (kill_conn r conn).1
unfolding kill_conn
kill_conn-Moved r conn a = elim (Option-cases (lookup conn r.idx)) [
  | inl gone ↦ rw (gone, kill_conn) (Moved-refl a r)
  | inr (id, at) ↦
      rw (at, kill_conn) (kills_in-Moved (λ c. kill_one c conn) r id a (kill_one-Moves conn))
]

id_for_bill-Moved : (r : Registry) (b : Bytes) (a : ℕ) → Moved same a r (id_for_bill r b).1
unfolding id_for_bill
id_for_bill-Moved r b a = untouched a (ground arith) (ground arith)

reap_idle-Moved : (r : Registry) (now idle a : ℕ) → Moved same a r (reap_idle r now idle).1
unfolding reap_idle
reap_idle-Moved r now idle a = elim (Bool-cases (idle == 0)) [
  | inl never ↦ rw (never, reap_idle) (Moved-refl a r)
  | inr some_idle ↦ rw (some_idle, reap_idle) (end_entries-Moved _ r a)
]

pub run_call-Moved : (c : Call) (r : Registry) (a : ℕ) → Moved same a r (run_call c r)
unfolding kill_ip_of evict_idle kill_ip
run_call-Moved (bills b) r a = id_for_bill-Moved r b a
run_call-Moved (disables id) r a = disable-Moved r id a
run_call-Moved (enables id) r a = enable-Moved r id a
run_call-Moved (kills_conn conn) r a = kill_conn-Moved r conn a
run_call-Moved (kills_ip id ip) r a =
    kills_in-Moved (λ c. kill_ip c ip) r id a
      (λ c. record { conn = refl; most = refl; unit = refl })
run_call-Moved (evicts n) r a = end_entries-Moved _ r a
run_call-Moved (reaps now idle) r a = reap_idle-Moved r now idle a

flushed-Moves :
    (m : Meter) (c0 c : Cell)
    → c ≡ c0
    → Moves same (λ d. elim (flush m (some c0)).1 [ none ↦ d | some e ↦ e ]) c
unfolding flush map_cell
flushed-Moves m c0 c e = record {
  conn = ground (arith, e);
  most = ground (arith, e);
  unit = ground (arith, e);
}

module _ (r : Registry) (id : ℕ) (src : Addr) (conn : ℕ) (m : Meter) where
  -- The function that `Open` returns takes its connection off the counters.
  pub close_conn-Moved : Moved dec id r (close_conn r id src conn m)
  unfolding close_conn remove_live
  close_conn-Moved =
      let r1 =
        modify_cell (λ c. elim (flush m (some (cell_of r id))).1 [ none ↦ c | some d ↦ d ]) id r in
      let r2 = release_conn r1 id in
      let r3 = release_ip (cell_of r2 id).ipg src r2 in
      let flushed : Moved same id r r1 =
        modify_cell-kept _ id r (flushed-Moves m (cell_of r id) (cell_of r id) refl) in
      let counted_off : Moved dec id r r2 =
        Moved-trans same dec dec id flushed (release_conn-Moved r1 id) (λ z. refl) in
      let left : Moved dec id r r3 =
        Moved-trans dec same dec id counted_off (release_ip-Moved (cell_of r2 id).ipg src r2 id)
          (λ z. refl) in
      let off_list : Moved dec id r (modify_cell (λ c. remove_live c conn) id r3) =
        Moved-trans dec same dec id left
          (modify_cell-kept (λ c. remove_live c conn) id r3
            (record { conn = refl; most = refl; unit = refl }))
          (λ z. refl) in
      Moved-trans dec same dec id off_list (untouched id refl refl) (λ z. refl)
