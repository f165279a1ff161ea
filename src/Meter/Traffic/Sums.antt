-- ===== src/Meter/Traffic/Sums.antt =====
-- meter/meter.go: what the cell and the meter have together after `AddUp` and `AddDown`.
use ntr.Prelude.{
  ℕ, ◌+◌, ◌%◌, ◌^◌, ◌<◌, ◌≡◌, refl, arith, Option, some, List, [], ◌∷◌, ◌==◌, ltb, Bool-cases, inl,
  inr, ltb→lt,
}
use mathlib.Core.Path.{subst}
use ntr.Meter.Cell.{Cell, add64}
use ntr.Meter.Traffic.{Meter, drain_threshold, touch, map_cell, add_up, add_down}

-- Bytes that went up or down, at a time.
pub data Transfer : Type 0 where
  went_up : ℕ → ℕ → Transfer
  went_down : ℕ → ℕ → Transfer

abbrev pub up_of : Transfer → ℕ
up_of (went_up n now) = n
up_of (went_down n now) = 0

abbrev pub down_of : Transfer → ℕ
down_of (went_up n now) = 0
down_of (went_down n now) = n

-- A Go `int` that is not negative.
abbrev pub IsInt : Transfer → Type 0
IsInt t = (up_of t < 2 ^ 63) × (down_of t < 2 ^ 63)

abbrev pub transfer : Meter × Option Cell → Transfer → Meter × Option Cell
transfer (m, c) (went_up n now) = add_up m c n now
transfer (m, c) (went_down n now) = add_down m c n now

unfoldable pub transfers : Meter × Option Cell → List Transfer → Meter × Option Cell
transfers mc [] = mc
transfers mc (t ∷ ts) = transfers (transfer mc t) ts

unfoldable pub total : (Transfer → ℕ) → List Transfer → ℕ
total f [] = 0
total f (t ∷ ts) = f t + total f ts

-- What the cell has, what the meter keeps back, and what both come to.
pub record Accounts (up down : ℕ) (m : Meter) (c : Cell) : Type 0 where
  pub ups : (c.up + m.local_up) % 2 ^ 64 ≡ up % 2 ^ 64
  pub downs : (c.down + m.local_dn) % 2 ^ 64 ≡ down % 2 ^ 64
  pub up_bound : m.local_up < drain_threshold
  pub down_bound : m.local_dn < drain_threshold
  pub up_word : c.up < 2 ^ 64
  pub down_word : c.down < 2 ^ 64

touch_counts :
    (m : Meter) (c : Cell) (now : ℕ) → ((touch m c now).up ≡ c.up) × ((touch m c now).down ≡ c.down)
unfolding touch
touch_counts m c now = ground arith

pub record Counted (up down : ℕ) (mc : Meter × Option Cell) : Type 0 where
  pub cell : Cell
  pub is_cell : mc.1 ≡ some cell
  pub sums : Accounts up down mc.0 cell

-- One counter, of which `held` is in the cell and `kept` in the meter, and `n` bytes more.
module _ (held kept whole n : ℕ) (b : n < 2 ^ 63) (k : kept < drain_threshold)
    (e : (held + kept) % 2 ^ 64 ≡ whole % 2 ^ 64) where
  no_wrap : add64 kept n ≡ kept + n
  unfolding add64
  no_wrap = omega (arith, b, k)

  kept_more : (held + add64 kept n) % 2 ^ 64 ≡ (whole + n) % 2 ^ 64
  kept_more = rw no_wrap (omega (arith, e))

  held_more : (add64 held (add64 kept n) + 0) % 2 ^ 64 ≡ (whole + n) % 2 ^ 64
  unfolding add64
  held_more = omega (arith, kept_more)

add64-bound : (a b : ℕ) → add64 a b < 2 ^ 64
unfolding add64
add64-bound a b = omega arith

pub recount :
    {up down up' down' : ℕ} (mc : Meter × Option Cell)
    → up ≡ up'
    → down ≡ down'
    → Counted up down mc
    → Counted up' down' mc
recount {up} {down} {up'} {down'} mc u d k =
    subst (λ x. Counted x down' mc) u (subst (λ y. Counted up y mc) d k)

pub add_up-Counted :
    (up down : ℕ) (m : Meter) (c : Cell) (n now : ℕ)
    → n < 2 ^ 63
    → Accounts up down m c
    → Counted (up + n) down (add_up m (some c) n now)
unfolding add_up map_cell
add_up-Counted up down m c n now b a = elim (Bool-cases (n == 0)) [
  | inl zero_bytes ↦ rw zero_bytes (record {
    cell = c;
    is_cell = refl;
    sums = record {
      ups = ground (arith, a.ups, zero_bytes);
      downs = a.downs;
      up_bound = a.up_bound;
      down_bound = a.down_bound;
      up_word = a.up_word;
      down_word = a.down_word;
    };
  })
  | inr some_bytes ↦ rw some_bytes (elim (Bool-cases (ltb (add64 m.local_up n) drain_threshold)) [
    | inl keep ↦ rw keep (record {
      cell = c;
      is_cell = refl;
      sums = record {
        ups = kept_more c.up m.local_up up n b a.up_bound a.ups;
        downs = a.downs;
        up_bound = ltb→lt _ _ keep;
        down_bound = a.down_bound;
        up_word = a.up_word;
        down_word = a.down_word;
      };
    })
    | inr drain ↦ rw drain (record {
      cell = _;
      is_cell = refl;
      sums = record {
        ups = rw (touch_counts m c now).0 (held_more c.up m.local_up up n b a.up_bound a.ups);
        downs = rw (touch_counts m c now).1 a.downs;
        up_bound = ground arith;
        down_bound = a.down_bound;
        up_word = add64-bound (touch m c now).up _;
        down_word = rw (touch_counts m c now).1 a.down_word;
      };
    })
  ])
]

pub add_down-Counted :
    (up down : ℕ) (m : Meter) (c : Cell) (n now : ℕ)
    → n < 2 ^ 63
    → Accounts up down m c
    → Counted up (down + n) (add_down m (some c) n now)
unfolding add_down map_cell
add_down-Counted up down m c n now b a = elim (Bool-cases (n == 0)) [
  | inl zero_bytes ↦ rw zero_bytes (record {
    cell = c;
    is_cell = refl;
    sums = record {
      ups = a.ups;
      downs = ground (arith, a.downs, zero_bytes);
      up_bound = a.up_bound;
      down_bound = a.down_bound;
      up_word = a.up_word;
      down_word = a.down_word;
    };
  })
  | inr some_bytes ↦ rw some_bytes (elim (Bool-cases (ltb (add64 m.local_dn n) drain_threshold)) [
    | inl keep ↦ rw keep (record {
      cell = c;
      is_cell = refl;
      sums = record {
        ups = a.ups;
        downs = kept_more c.down m.local_dn down n b a.down_bound a.downs;
        up_bound = a.up_bound;
        down_bound = ltb→lt _ _ keep;
        up_word = a.up_word;
        down_word = a.down_word;
      };
    })
    | inr drain ↦ rw drain (record {
      cell = _;
      is_cell = refl;
      sums = record {
        ups = rw (touch_counts m c now).0 a.ups;
        downs =
            rw (touch_counts m c now).1 (held_more c.down m.local_dn down n b a.down_bound a.downs);
        up_bound = a.up_bound;
        down_bound = ground arith;
        up_word = rw (touch_counts m c now).0 a.up_word;
        down_word = add64-bound (touch m c now).down _;
      };
    })
  ])
]
