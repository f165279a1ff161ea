-- ===== src/Meter/Gate/World.antt =====
-- meter/limits.go: the atomic steps of the callers of `Gate`.
use ntr.Prelude.{ℕ, suc, ◌≡◌, true, false, none, some, List}
use ntr.Prelude.Maps.{nat_Key, lookup, insert, delete}
use ntr.Meter.Counter.{ℤ, is_zero}
use ntr.Meter.Gate.{Gate, load_live, compare_and_swap, add_live, release_live}

-- The gate, what each caller of `TryAcquire` has loaded, and how many connections hold the gate.
pub record World : Type 0 where
  pub gate : Gate
  pub loaded : List (ℕ × ℤ)
  pub holders : ℕ

-- What a caller has done when it has loaded the counter and saw room,
abbrev pub after_load : World → ℕ → ℤ → World
after_load w caller cur = record w {
  gate = (load_live w.gate).1;
  loaded = insert caller cur w.loaded;
}

-- and when it has swapped it.
abbrev pub after_swap : World → ℕ → ℤ → World
after_swap w caller cur = record w {
  gate = (compare_and_swap w.gate cur).1;
  loaded = delete caller w.loaded;
  holders = suc w.holders;
}

-- The atomic steps, with the number of the caller that takes each.
pub data Step : ℕ → World → World → Type 0 where
  unlimited :
      (w : World) (caller : ℕ)
      → is_zero w.gate.max_conns ≡ true
      → Step caller w (record w { gate = add_live w.gate; holders = suc w.holders })
  refused :
      (w : World) (caller : ℕ)
      → is_zero w.gate.max_conns ≡ false
      → (load_live w.gate).0 ≡ none
      → Step caller w (record w { gate = (load_live w.gate).1 })
  loads :
      (w : World) (caller : ℕ) (cur : ℤ)
      → is_zero w.gate.max_conns ≡ false
      → (load_live w.gate).0 ≡ some cur
      → Step caller w (after_load w caller cur)
  swaps :
      (w : World) (caller : ℕ) (cur : ℤ)
      → lookup caller w.loaded ≡ some cur
      → (compare_and_swap w.gate cur).0 ≡ true
      → Step caller w (after_swap w caller cur)
  swaps_not :
      (w : World) (caller : ℕ) (cur : ℤ)
      → lookup caller w.loaded ≡ some cur
      → (compare_and_swap w.gate cur).0 ≡ false
      → Step caller w
          (record w { gate = (compare_and_swap w.gate cur).1; loaded = delete caller w.loaded })
  releases :
      (w : World) (caller n : ℕ)
      → w.holders ≡ suc n
      → Step caller w (record w { gate = release_live w.gate; holders = n })

pub data Steps : World → World → Type 0 where
  stay : (w : World) → Steps w w
  next : {w x y : World} {caller : ℕ} → Steps w x → Step caller x y → Steps w y
