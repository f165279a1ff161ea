-- ===== src/Prelude/Bytes.antt =====
-- Byte slices and Go's `binary.BigEndian`: a byte is a number below 256, a slice is a list.
use Prim.Native.Nat.{ℕ, zero, suc, ◌+◌, ◌-◌, ◌*◌, ◌/◌, ◌%◌, ◌<◌, bit_and, bit_or}
use mathlib.Core.Path.{◌≡◌, refl, ◌∙◌}
use mathlib.Core.Bool.{Bool, true, false}
use mathlib.Core.List.{List, [], ◌∷◌, ◌++◌}
use native.Mathlib.Omega.{arith}
use native.Mathlib.Nat.{zero-add, suc-add}
use ntr.Prelude.Tests.{◌==◌, ==_iff, ltb, if◌then◌else◌}
use ntr.Prelude.Lists.{get_or, length, take, drop}

abbrev pub Bytes : Type 0
Bytes = List ℕ

abbrev pub IsByte : ℕ → Type 0
IsByte b = b < 256

abbrev pub IsU16 : ℕ → Type 0
IsU16 n = n < 65536

abbrev pub IsU32 : ℕ → Type 0
IsU32 n = n < 4294967296

-- `binary.BigEndian.AppendUint16` and `PutUint16`: the two bytes of `uint16(n)`.
abbrev pub be16 : ℕ → Bytes
be16 n = n / 256 % 256 ∷ n % 256 ∷ []

abbrev pub be32 : ℕ → Bytes
be32 n = n / 16777216 % 256 ∷ n / 65536 % 256 ∷ n / 256 % 256 ∷ n % 256 ∷ []

-- `binary.BigEndian.Uint16(buf[off:])`, at an offset that the code has checked.
abbrev pub u16_at : Bytes → ℕ → ℕ
u16_at buf off = get_or buf off 0 * 256 + get_or buf (off + 1) 0

abbrev pub u32_at : Bytes → ℕ → ℕ
u32_at buf off =
    get_or buf off 0 * 16777216
    + get_or buf (off + 1) 0 * 65536
    + get_or buf (off + 2) 0 * 256
    + get_or buf (off + 3) 0

-- `buf[lo:hi]` for `lo ≤ hi`.
abbrev pub slice : Bytes → ℕ → ℕ → Bytes
slice buf lo hi = take (hi - lo) (drop lo buf)

pub be16_read : (n : ℕ) → IsU16 n → n / 256 % 256 * 256 + n % 256 ≡ n
be16_read n h = omega arith

pub be32_read :
    (n : ℕ)
    → IsU32 n
    → n / 16777216 % 256 * 16777216 + n / 65536 % 256 * 65536 + n / 256 % 256 * 256 + n % 256 ≡ n
be32_read n h = omega arith

pub take-append {ℓ} : {A : Type ℓ} (xs ys : List A) → take (length xs) (xs ++ ys) ≡ xs
take-append [] ys = refl
take-append (x ∷ xs) ys = λ i. x ∷ take-append xs ys i

pub drop-append {ℓ} : {A : Type ℓ} (xs ys : List A) → drop (length xs) (xs ++ ys) ≡ ys
drop-append [] ys = refl
drop-append (x ∷ xs) ys = drop-append xs ys

-- A test of every number below a bound, by evaluation.
unfoldable pub holds_to : (ℕ → Bool) → ℕ → Bool
holds_to test zero = true
holds_to test (suc k) = if test k then holds_to test k else false

pub holds_to_all :
    (test : ℕ → Bool) (bound b : ℕ) → b < bound → holds_to test bound ≡ true → test b ≡ true
unfolding holds_to
holds_to_all test zero b l e = absurd (omega arith)
holds_to_all test (suc k) b l e = ground (arith, holds_to_all test k b)

data_bit_table : holds_to (λ o. bit_and (bit_or o 1) 1 == 1) 256 ≡ true
unfolding holds_to
data_bit_table = refl

-- The lowest bit is set by `o | 1`.
pub bit_and-bit_or_one : (o : ℕ) → IsByte o → bit_and (bit_or o 1) 1 ≡ 1
bit_and-bit_or_one o h = (==_iff _ _).0 (holds_to_all _ 256 o h data_bit_table)

or_byte_table : holds_to (λ o. ltb (bit_or o 1) 256) 256 ≡ true
unfolding holds_to
or_byte_table = refl

pub bit_or_one-IsByte : (o : ℕ) → IsByte o → IsByte (bit_or o 1)
bit_or_one-IsByte o h = lt_of_ltb _ _ (holds_to_all _ 256 o h or_byte_table)
  where
    lt_of_ltb : (a b : ℕ) → ltb a b ≡ true → a < b
    lt_of_ltb a b e = ground arith

module _ {ℓ} {A : Type ℓ} where
  pub get_or-append_add :
      (xs ys : List A) (k : ℕ) (d : A) → get_or (xs ++ ys) (length xs + k) d ≡ get_or ys k d
  get_or-append_add [] ys k d = rw zero-add
  get_or-append_add (x ∷ xs) ys k d = rw suc-add (get_or-append_add xs ys k d)

  pub get_or-append_zero :
      (xs ys : List A) (d : A) → get_or (xs ++ ys) (length xs) d ≡ get_or ys 0 d
  get_or-append_zero [] ys d = refl
  get_or-append_zero (x ∷ xs) ys d = get_or-append_zero xs ys d

  pub drop-append_add : (xs ys : List A) (k : ℕ) → drop (length xs + k) (xs ++ ys) ≡ drop k ys
  drop-append_add [] ys k = rw zero-add
  drop-append_add (x ∷ xs) ys k = rw suc-add (drop-append_add xs ys k)

  pub take-append_eq : (n : ℕ) (xs ys : List A) → length xs ≡ n → take n (xs ++ ys) ≡ xs
  take-append_eq n xs ys h = rw (← h) (take-append xs ys)

  pub drop-append_eq : (n : ℕ) (xs ys : List A) → length xs ≡ n → drop n (xs ++ ys) ≡ ys
  drop-append_eq n xs ys h = rw (← h) (drop-append xs ys)

-- A slice behind a prefix.
pub slice-append :
    (xs ys : Bytes) (k n lo hi : ℕ)
    → lo ≡ length xs + k
    → hi ≡ lo + n
    → slice (xs ++ ys) lo hi ≡ take n (drop k ys)
slice-append xs ys k n lo hi p q =
    let e : hi - lo ≡ n = omega arith in
    (λ i. take (e i) (drop (p i) (xs ++ ys))) ∙ rw (drop-append_add xs ys k)
