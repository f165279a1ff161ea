-- ===== src/Meter/Gate.antt =====
-- meter/limits.go: `Gate`, which limits the connections of the program or of an inbound. A nil gate
-- is `none`. Of the rate limiter only that there is one is kept.
use ntr.Prelude.{ℕ, ◌+◌, ◌%◌, ◌^◌, Bool, true, false, not, ◌&&◌, Option, none, some, if◌then◌else◌}
use ntr.Meter.Counter.{ℤ, pos, inc, dec, int_leb, is_zero, int_eq}
pub mod World
pub mod Limit

pub record Gate : Type 0 where
  pub max_conns : ℤ
  pub live : ℤ
  pub rejected : ℕ
  pub has_rate : Bool

unfoldable pub new_gate : ℤ → Bool → Option Gate
new_gate max_conns has_rate =
    if is_zero max_conns && not has_rate
    then none
    else some (record { max_conns = max_conns; live = pos 0; rejected = 0; has_rate = has_rate })

-- A round of the loop loads the counter, and is refused there if no connection is left,
unfoldable pub load_live : Gate → Option ℤ × Gate
load_live g =
    if int_leb g.max_conns g.live
    then (none, record g { rejected = (g.rejected + 1) % 2 ^ 64 })
    else (some g.live, g)

-- or swaps it for the next number, if it is still what was loaded.
unfoldable pub compare_and_swap : Gate → ℤ → Bool × Gate
compare_and_swap g cur =
    if int_eq g.live cur then (true, record g { live = inc cur }) else (false, g)

-- `live.Add(1)`
unfoldable pub add_live : Gate → Gate
add_live g = record g { live = inc g.live }

-- The call with nobody between the load and the swap.
unfoldable pub try_acquire : Option Gate → Bool × Option Gate
try_acquire none = (true, none)
try_acquire (some g) =
    if is_zero g.max_conns
    then (true, some (add_live g))
    else (let (loaded, g') = load_live g in
        elim loaded [
          | none ↦ (false, some g')
          | some cur ↦ let (won, g'') = compare_and_swap g' cur in (won, some g'')
        ])

unfoldable pub release_live : Gate → Gate
release_live g = record g { live = dec g.live }

unfoldable pub release : Option Gate → Option Gate
release none = none
release (some g) = some (release_live g)
