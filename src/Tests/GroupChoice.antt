-- ===== src/Tests/GroupChoice.antt =====
-- The choice of a group at concrete inputs.
use ntr.Prelude.{ℕ, ◌+◌, ◌*◌, ◌^◌, ◌<◌, ◌≡◌, refl, arith, true, false, some, [], ◌∷◌}
use ntr.Prelude.Bytes.{Bytes}
use ntr.Prelude.Maps.{lookup}
use ntr.Prelude.Strings.{bytes_eq}
use ntr.Outbound.Group.{
  Group, Strategy, url_test, fallback, load_balance, known_alive, reselect, alive_of, name_at,
  pick_hashed,
}
use ntr.Outbound.Group.Balance.{pick_hashed-alive}
use ntr.Outbound.Group.Choice.{Within, First, reselect-url_test, reselect-fallback}

-- The members `a` and `b` answer within 90 and 50 milliseconds, `c` does not answer.
abbrev three : Strategy → Group
three strategy = record {
  opts = record {
    members = (b'c' ∷ []) ∷ (b'a' ∷ []) ∷ (b'b' ∷ []) ∷ [];
    strategy = strategy;
    default_name = [];
    tolerance = 20;
    lb_hash = false;
  };
  picked = b'a' ∷ [];
  rr = 0;
  state =
      (b'a' ∷ [], record { delay = 90000000; alive = true })
      ∷ (b'b' ∷ [], record { delay = 50000000; alive = true })
      ∷ (b'c' ∷ [], record { delay = 0; alive = false })
      ∷ [];
}

three_fast :
    (name : Bytes) (e : ℕ)
    → known_alive (three url_test).state name ≡ some e
    → e + 20 * 1000000 < 2 ^ 62
unfolding known_alive lookup
three_fast name e h = ground (arith, h)

reselect-url_test_example :
    Within (three url_test).state (reselect (three url_test)).picked 70000000
unfolding known_alive lookup reselect bytes_eq
reselect-url_test_example =
    reselect-url_test (three url_test) 50000000 three_fast 2 (b'b' ∷ []) refl refl refl

reselect-fallback_example :
    First (three fallback).state (three fallback).opts.members 2 (reselect (three fallback)).picked
unfolding known_alive lookup reselect bytes_eq
reselect-fallback_example = reselect-fallback (three fallback) 2 50000000 (b'b' ∷ []) refl refl refl

-- The hash 3 leads to the first member, which is not alive, and so to the next.
pick_hashed-alive_example :
    alive_of (three load_balance) (pick_hashed (three load_balance) 3) ≡ true
unfolding alive_of name_at lookup bytes_eq
pick_hashed-alive_example = pick_hashed-alive (three load_balance) 3 2 (omega arith) refl
