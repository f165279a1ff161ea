-- ===== src/Prelude/Strings.antt =====
-- Go strings as byte lists, and the functions of `strings` that the code uses. Letters are ASCII:
-- `to_lower` changes the bytes `A` to `Z`.
use Prim.Native.Nat.{ℕ, ◌+◌}
use mathlib.Core.Path.{◌≡◌, refl}
use mathlib.Core.Logic.{◌↔◌}
use mathlib.Core.Bool.{Bool, true, false, ◌&&◌, ◌||◌}
use mathlib.Core.Option.{Option, none, some}
use mathlib.Core.List.{[], ◌∷◌, map}
use native.Mathlib.Omega.{arith}
use ntr.Prelude.Tests.{◌==◌, leb, if◌then◌else◌}
use ntr.Prelude.Bytes.{Bytes}
use ntr.Prelude.Maps.{Key}

unfoldable pub bytes_eq : Bytes → Bytes → Bool
bytes_eq [] [] = true
bytes_eq (x ∷ xs) (y ∷ ys) = x == y && bytes_eq xs ys
bytes_eq _ _ = false

eq_of_bytes_eq : (xs ys : Bytes) → bytes_eq xs ys ≡ true → xs ≡ ys
unfolding bytes_eq
eq_of_bytes_eq [] [] h = refl
eq_of_bytes_eq (x ∷ xs) (y ∷ ys) h = ground (arith, eq_of_bytes_eq xs ys)
eq_of_bytes_eq [] (y ∷ ys) h = cc
eq_of_bytes_eq (x ∷ xs) [] h = cc

bytes_eq_self : (xs : Bytes) → bytes_eq xs xs ≡ true
unfolding bytes_eq
bytes_eq_self [] = refl
bytes_eq_self (x ∷ xs) = ground (arith, bytes_eq_self xs)

pub bytes_eq_iff : (xs ys : Bytes) → (bytes_eq xs ys ≡ true) ↔ (xs ≡ ys)
bytes_eq_iff xs ys = (eq_of_bytes_eq xs ys, λ p. rw (← p) (bytes_eq_self xs))

instance abbrev pub bytes_Key : Key Bytes
bytes_Key = record { key_eq = bytes_eq; key_eq_iff = bytes_eq_iff }

unfoldable pub has_prefix : Bytes → Bytes → Bool
has_prefix xs [] = true
has_prefix [] (y ∷ ys) = false
has_prefix (x ∷ xs) (y ∷ ys) = x == y && has_prefix xs ys

unfoldable pub has_suffix : Bytes → Bytes → Bool
has_suffix [] t = bytes_eq [] t
has_suffix (c ∷ cs) t = bytes_eq (c ∷ cs) t || has_suffix cs t

-- `strings.Contains`
unfoldable pub contains : Bytes → Bytes → Bool
unfolding has_prefix
contains [] t = has_prefix [] t
contains (c ∷ cs) t = has_prefix (c ∷ cs) t || contains cs t

unfoldable pub to_lower : Bytes → Bytes
to_lower = map (λ c. if leb b'A' c && leb c b'Z' then c + 32 else c)

-- `strings.TrimSuffix(s, ".")` and `strings.TrimPrefix(s, ".")`
unfoldable pub trim_last_dot : Bytes → Bytes
trim_last_dot [] = []
trim_last_dot (c ∷ []) = if c == b'.' then [] else c ∷ []
trim_last_dot (c ∷ d ∷ cs) = c ∷ trim_last_dot (d ∷ cs)

unfoldable pub trim_first_dot : Bytes → Bytes
trim_first_dot [] = []
trim_first_dot (c ∷ cs) = if c == b'.' then cs else c ∷ cs

-- `s[i+1:]` for `i = strings.IndexByte(s, '.')`, and none where there is no dot.
unfoldable pub after_dot : Bytes → Option Bytes
after_dot [] = none
after_dot (c ∷ cs) = if c == b'.' then some cs else after_dot cs

-- `strings.TrimSpace`, with the ASCII spaces.
abbrev is_space : ℕ → Bool
is_space c = c == 32 || (leb 9 c && leb c 13)

trim_left : Bytes → Bytes
trim_left [] = []
trim_left (c ∷ cs) = if is_space c then trim_left cs else c ∷ cs

trim_right : Bytes → Bytes
trim_right [] = []
trim_right (c ∷ cs) =
    let rest = trim_right cs in if is_space c && bytes_eq rest [] then [] else c ∷ rest

unfoldable pub trim_space : Bytes → Bytes
unfolding trim_left trim_right
trim_space cs = trim_right (trim_left cs)
