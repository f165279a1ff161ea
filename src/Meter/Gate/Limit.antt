-- ===== src/Meter/Gate/Limit.antt =====
-- meter/limits.go: `Gate` keeps its limit however the calls of several connections interleave.
use ntr.Prelude.{ℕ, suc, ◌≤◌, ◌<◌, ◌≡◌, sym, ap, ◌∙◌, arith, Bool, true, false, some, List, []}
use ntr.Prelude.Maps.{nat_Key, nat_eq_iff, lookup, insert, delete, lookup-insert, lookup-delete}
use ntr.Meter.Counter.{ℤ, pos, negsuc, inc, dec, int_leb, is_zero, int_eq}
use ntr.Meter.Gate.{Gate, new_gate, load_live, compare_and_swap, add_live, release_live}
use ntr.Meter.Gate.World.{
  after_load, after_swap, World, Step, unlimited, refused, loads, swaps, swaps_not, releases, Steps,
  stay, next,
}

-- The counter is the number of holders, which a limit bounds, and who has loaded saw room.
pub record Kept (m : ℕ) (w : World) : Type 0 where
  pub limit : w.gate.max_conns ≡ pos m
  pub counts : w.gate.live ≡ pos w.holders
  pub within : is_zero (pos m) ≡ false → w.holders ≤ m
  pub saw_room : (c : ℕ) (z : ℤ) → lookup c w.loaded ≡ some z → int_leb (pos m) z ≡ false

int_eq-lem : (a b : ℤ) → int_eq a b ≡ true → a ≡ b
unfolding int_eq
int_eq-lem (pos x) (pos y) h = ground arith
int_eq-lem (negsuc x) (negsuc y) h = ground arith
int_eq-lem (pos x) (negsuc y) h = ground arith
int_eq-lem (negsuc x) (pos y) h = ground arith

int_leb-lem : (m n : ℕ) → int_leb (pos m) (pos n) ≡ false → suc n ≤ m
unfolding int_leb
int_leb-lem m n h = ground arith

module _ (m : ℕ) where
  added :
      (w : World)
      → Kept m w
      → (is_zero (pos m) ≡ false → suc w.holders ≤ m)
      → Kept m (record w { gate = add_live w.gate; holders = suc w.holders })
  unfolding add_live inc
  added w k room = record {
    limit = k.limit;
    counts = ground (arith, k.counts);
    within = room;
    saw_room = k.saw_room;
  }

  -- Who swaps found the counter as it was when there was room.
  won-room :
      (w : World) (caller : ℕ) (cur : ℤ)
      → Kept m w
      → lookup caller w.loaded ≡ some cur
      → (compare_and_swap w.gate cur).0 ≡ true
      → suc w.holders ≤ m
  unfolding compare_and_swap
  won-room w caller cur k at won =
      let same : w.gate.live ≡ cur = int_eq-lem w.gate.live cur (ground (arith, won)) in
      int_leb-lem m w.holders
        (ap (int_leb (pos m)) (sym k.counts ∙ same) ∙ k.saw_room caller cur at)

  forgets :
      (loaded : List (ℕ × ℤ)) (caller : ℕ)
      → ((c : ℕ) (z : ℤ) → lookup c loaded ≡ some z → int_leb (pos m) z ≡ false)
      → (c : ℕ) (z : ℤ) → lookup c (delete caller loaded) ≡ some z
      → int_leb (pos m) z ≡ false
  forgets loaded caller k c z h = k c z (ground (arith, h, lookup-delete caller c loaded))

  remembers :
      (loaded : List (ℕ × ℤ)) (caller : ℕ) (cur : ℤ)
      → ((c : ℕ) (z : ℤ) → lookup c loaded ≡ some z → int_leb (pos m) z ≡ false)
      → int_leb (pos m) cur ≡ false
      → (c : ℕ) (z : ℤ) → lookup c (insert caller cur loaded) ≡ some z
      → int_leb (pos m) z ≡ false
  remembers loaded caller cur k room c z h =
      ground (arith, h, room, k c z, lookup-insert caller c cur loaded)

  Step-Kept : {caller : ℕ} {w x : World} → Step caller w x → Kept m w → Kept m x
  unfolding compare_and_swap load_live release_live dec inc
  Step-Kept (unlimited w caller none_set) k =
      added w k (λ some_set. ground (arith, k.limit, none_set, some_set))
  Step-Kept (refused w caller set full) k = record {
    limit = ground (arith, k.limit);
    counts = ground (arith, k.counts);
    within = k.within;
    saw_room = k.saw_room;
  }
  Step-Kept (loads w caller cur set room) k = record {
    limit = ground (arith, k.limit);
    counts = ground (arith, k.counts);
    within = k.within;
    saw_room = remembers w.loaded caller cur k.saw_room (ground (arith, k.limit, room));
  }
  Step-Kept (swaps w caller cur at won) k = record {
    limit = ground (arith, k.limit);
    counts = ground (arith, k.counts, int_eq-lem w.gate.live cur, won);
    within = λ set. won-room w caller cur k at won;
    saw_room = forgets w.loaded caller k.saw_room;
  }
  Step-Kept (swaps_not w caller cur at lost) k = record {
    limit = ground (arith, k.limit);
    counts = ground (arith, k.counts, lost);
    within = k.within;
    saw_room = forgets w.loaded caller k.saw_room;
  }
  Step-Kept (releases w caller n held) k = record {
    limit = k.limit;
    counts = ground (arith, k.counts, held);
    within = λ set. ground (arith, k.within set, held);
    saw_room = k.saw_room;
  }

  Steps-Kept : {w x : World} → Steps w x → Kept m w → Kept m x
  Steps-Kept (stay w) k = k
  Steps-Kept (next s t) k = Step-Kept t (Steps-Kept s k)

abbrev pub fresh : Gate → World
fresh g = record { gate = g; loaded = []; holders = 0 }

fresh-Kept : (m : ℕ) (rate : Bool) (g : Gate) → new_gate (pos m) rate ≡ some g → Kept m (fresh g)
unfolding new_gate lookup
fresh-Kept m rate g made = record {
  limit = ground (arith, made);
  counts = ground (arith, made);
  within = λ set. omega arith;
  saw_room = λ c z h. ground (arith, h);
}

-- For a limit of one or more connections, however their calls interleave, the counter of the gate is
-- the number of connections that hold it, and never more of them hold it than the limit allows.
pub Steps-within :
    (m : ℕ) (rate : Bool) (g : Gate) (w : World)
    → 0 < m
    → new_gate (pos m) rate ≡ some g
    → Steps (fresh g) w
    → (w.gate.live ≡ pos w.holders) × (w.holders ≤ m)
unfolding is_zero
Steps-within m rate g w some_limit made s =
    let k = Steps-Kept m s (fresh-Kept m rate g made) in (k.counts, k.within (ground arith))

room-int_leb : (m n : ℕ) → n < m → int_leb (pos m) (pos n) ≡ false
unfolding int_leb
room-int_leb m n h = ground arith

int_eq_refl : (n : ℕ) → int_eq (pos n) (pos n) ≡ true
unfolding int_eq
int_eq_refl n = ground arith

-- A caller who sees room loads the counter, and then finds it unchanged.
module _ (m : ℕ) (w : World) (caller : ℕ) (k : Kept m w) (room : w.holders < m) where
  sees : (load_live w.gate).0 ≡ some w.gate.live
  unfolding load_live
  sees = ground (arith, k.limit, k.counts, room-int_leb m w.holders room)

  limited : is_zero w.gate.max_conns ≡ false
  unfolding is_zero
  limited = ground (arith, k.limit, room)

  has_loaded : lookup caller (after_load w caller w.gate.live).loaded ≡ some w.gate.live
  has_loaded =
      ground (arith, lookup-insert caller caller w.gate.live w.loaded, nat_eq_iff caller caller)

  unchanged : (compare_and_swap (after_load w caller w.gate.live).gate w.gate.live).0 ≡ true
  unfolding load_live compare_and_swap
  unchanged =
      ground (arith, k.limit, k.counts, room-int_leb m w.holders room, int_eq_refl w.holders)

-- As long as fewer connections hold the gate than the limit allows, every caller can load the counter
-- and then swap it, in two steps of its own, and is then counted as one holder more.
pub Steps-enters :
    (m : ℕ) (rate : Bool) (g : Gate) (w : World) (caller : ℕ)
    → w.holders < m
    → new_gate (pos m) rate ≡ some g
    → Steps (fresh g) w
    → (let loaded = after_load w caller w.gate.live in
        let entered = after_swap loaded caller w.gate.live in
        Step caller w loaded
        × Step caller loaded entered
        × (entered.gate.live ≡ pos (suc w.holders)))
Steps-enters m rate g w caller room made s =
    let k = Steps-Kept m s (fresh-Kept m rate g made) in
    let load = loads w caller w.gate.live (limited m w caller k room) (sees m w caller k room) in
    let swap =
      swaps (after_load w caller w.gate.live) caller w.gate.live (has_loaded m w caller k room)
        (unchanged m w caller k room) in
    (load, swap, (Step-Kept m swap (Step-Kept m load k)).counts)
