-- ===== src/Meter/Registry/Control.antt =====
-- meter/meter.go and meter/limits.go: what ends connections, what sets limits and what reports.
use ntr.Prelude.{
  ℕ, ◌+◌, ◌-◌, Bool, true, false, Option, none, some, List, [], ◌∷◌, ◌++◌, ◌==◌, ltb, leb,
  if◌then◌else◌, take,
}
use ntr.Prelude.Bytes.{Bytes}
use ntr.Prelude.Maps.{nat_Key, lookup, insert, delete}
use ntr.Addr.{Addr}
use ntr.Meter.Counter.{ℤ, pos, negsuc, is_positive}
use ntr.Meter.IpGate.{new_ip_gate}
use ntr.Meter.Cell.{Cell, ConnHandle, add64, remove_live, kill_all, kill_one, kill_ip, set_disabled}
use ntr.Meter.Traffic.{Meter, flush}
use ntr.Meter.Registry.{
  Registry, Limits, bill_of, cell_of, modify_cell, unit_at, gate_at, release_ip, release_conn,
}

-- The function that `Open` returns, for the connection's meter.
unfoldable pub close_conn : Registry → ℕ → Addr → ℕ → Meter → Registry
close_conn r id src conn m =
    let (_, flushed) = flush m (some (cell_of r id)) in
    let r1 = modify_cell (λ c. elim flushed [ none ↦ c | some d ↦ d ]) id r in
    let r2 = release_conn r1 id in
    let r3 = release_ip (cell_of r2 id).ipg src r2 in
    let r4 = modify_cell (λ c. remove_live c conn) id r3 in record r4 { idx = delete conn r4.idx }

unfoldable pub kills_in : (Cell → List ℕ × Cell) → Registry → ℕ → List ℕ × Registry
kills_in f r id = elim (lookup id r.cells) [
  | none ↦ ([], r)
  | some c ↦ ((f c).0, record r { cells = insert id (f c).1 r.cells })
]

-- What is ended is given by its number; the code answers how many they are, and whether there is a cell.
unfoldable pub disable : Registry → ℕ → Option (List ℕ) × Registry
disable r id = elim (lookup id r.cells) [
  | none ↦ (none, r)
  | some c ↦
      let (killed, c') = kill_all (set_disabled true c) in
      (some killed, record r { cells = insert id c' r.cells })
]

unfoldable pub enable : Registry → ℕ → Bool × Registry
enable r id = elim (lookup id r.cells) [
  | none ↦ (false, r)
  | some c ↦ (true, record r { cells = insert id (set_disabled false c) r.cells })
]

unfoldable pub kill_conn : Registry → ℕ → List ℕ × Registry
kill_conn r conn = elim (lookup conn r.idx) [
  | none ↦ ([], r)
  | some id ↦ kills_in (λ c. kill_one c conn) r id
]

unfoldable pub kill_ip_of : Registry → ℕ → Addr → List ℕ × Registry
kill_ip_of r id ip = kills_in (λ c. kill_ip c ip) r id

unfoldable pub natural : ℤ → ℕ
natural (pos n) = n
natural (negsuc n) = 0

-- A new gate where there is a limit of addresses.
unfoldable pub new_gate_ref : ℤ → Registry → Option ℕ × Registry
new_gate_ref most r =
    if is_positive most
    then (
      some r.next_ref,
      record r {
        gates = insert r.next_ref (new_ip_gate (natural most)) r.gates;
        next_ref = r.next_ref + 1;
      },
    )
    else (none, r)

-- A limit of no addresses leaves the gate that is there.
unfoldable pub or_else : Option ℕ → Option ℕ → Option ℕ
or_else none b = b
or_else (some a) b = some a

unfoldable pub set_limits : Registry → ℕ → Limits → Registry
set_limits r id l =
    let (g, r') = new_gate_ref l.max_ips r in
    modify_cell (λ c. record c { max_conns = l.max_conns; ipg = or_else g c.ipg }) id r'

unfoldable pub share : ℕ → Option ℕ → List ℕ → Registry → Registry
share s g [] r = r
share s g (id ∷ ids) r =
    share s g ids (modify_cell (λ c. record c { shared = some s; ipg = g; max_conns = pos 0 }) id r)

unfoldable pub set_limits_shared : Registry → List ℕ → Limits → Registry
set_limits_shared r ids l =
    let (g, r') = new_gate_ref l.max_ips r in
    let s = r'.next_ref in
    share s g ids (record r' {
      units =
          insert s (record { max_conns = l.max_conns; live = pos 0; rejected = 0; ipg = g })
            r'.units;
      next_ref = s + 1;
    })

unfoldable pub gate_rejected : Registry → Option ℕ → ℕ
gate_rejected r none = 0
gate_rejected r (some g) = (gate_at r g).rejected

unfoldable pub cell_rejected : Registry → Cell → ℕ
cell_rejected r c = elim c.shared [
  | none ↦ add64 c.rejected_conns (gate_rejected r c.ipg)
  | some s ↦
      add64 (add64 c.rejected_conns (unit_at r s).rejected) (gate_rejected r (unit_at r s).ipg)
]

-- A connection that is alive, as `evictIdle` and `ReapIdle` collect them.
pub record Entry : Type 0 where
  pub cell : ℕ
  pub id : ℕ
  pub last : ℕ

unfoldable pub entries_of : ℕ → List (ℕ × ConnHandle) → List Entry
entries_of cell [] = []
entries_of cell ((id, h) ∷ more) =
    record { cell = cell; id = id; last = h.last_active } ∷ entries_of cell more

unfoldable pub entries : List (ℕ × Cell) → List Entry
entries [] = []
entries ((id, c) ∷ more) = entries_of id c.live ++ entries more

-- `sort.Slice` by the last activity.
unfoldable pub insert_entry : Entry → List Entry → List Entry
insert_entry e [] = e ∷ []
insert_entry e (f ∷ fs) =
    let rest = insert_entry e fs in if leb e.last f.last then e ∷ f ∷ fs else f ∷ rest

unfoldable pub sort_entries : List Entry → List Entry
sort_entries [] = []
sort_entries (e ∷ es) = insert_entry e (sort_entries es)

-- Takes the connections out that are still there, and gives the numbers of those.
unfoldable pub end_entries : List Entry → Registry → List ℕ × Registry
end_entries [] r = ([], r)
end_entries (e ∷ es) r =
    let (killed, r1) = kills_in (λ c. kill_one c e.id) r e.cell in
    let (more, r2) = end_entries es r1 in (killed ++ more, r2)

-- Nobody takes a connection out between its choice and its end, so that the first `n` are ended.
unfoldable pub evict_idle : Registry → ℕ → List ℕ × Registry
evict_idle r n = end_entries (take n (sort_entries (entries r.cells))) r

unfoldable pub idle_before : ℕ → List Entry → List Entry
idle_before cutoff [] = []
idle_before cutoff (e ∷ es) =
    let rest = idle_before cutoff es in if ltb e.last cutoff then e ∷ rest else rest

-- `now.Add(-idle)` does not go back before 1970.
unfoldable pub reap_idle : Registry → ℕ → ℕ → List ℕ × Registry
reap_idle r now idle =
    if idle == 0 then ([], r) else end_entries (idle_before (now - idle) (entries r.cells)) r

pub record UserStat : Type 0 where
  pub id : ℕ
  pub bill : Bytes
  pub up : ℕ
  pub down : ℕ
  pub conns_total : ℕ
  pub conns_live : ℤ
  pub disabled : Bool
  pub max_conns : ℤ
  pub rejected : ℕ
  pub rejected_ip : ℕ

-- The bound of the connections that a cell reports.
unfoldable pub shown_max : Registry → Cell → ℤ
shown_max r c = elim c.shared [ none ↦ c.max_conns | some s ↦ (unit_at r s).max_conns ]

unfoldable pub shown_gate : Registry → Cell → Option ℕ
shown_gate r c = elim c.shared [ none ↦ c.ipg | some s ↦ or_else (unit_at r s).ipg c.ipg ]

unfoldable pub stat_of : Registry → ℕ → Cell → UserStat
stat_of r id c = record {
  id = id;
  bill = bill_of r id;
  up = c.up;
  down = c.down;
  conns_total = c.conns_total;
  conns_live = c.conns_live;
  disabled = c.disabled;
  max_conns = shown_max r c;
  rejected = c.rejected_conns;
  rejected_ip = gate_rejected r (shown_gate r c);
}

unfoldable pub insert_stat : UserStat → List UserStat → List UserStat
insert_stat u [] = u ∷ []
insert_stat u (v ∷ vs) =
    let rest = insert_stat u vs in if leb u.id v.id then u ∷ v ∷ vs else v ∷ rest

-- Without the rates, which are sampled.
unfoldable pub stats : Registry → List (ℕ × Cell) → List UserStat
stats r [] = []
stats r ((id, c) ∷ more) = insert_stat (stat_of r id c) (stats r more)

unfoldable pub snapshot : Registry → List UserStat
snapshot r = stats r r.cells
