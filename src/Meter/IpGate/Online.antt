-- ===== src/Meter/IpGate/Online.antt =====
-- meter/limits.go: the abstract view of `ipGate`, the addresses of the connections that are open.
use ntr.Prelude.{
  ℕ, suc, ◌-◌, ◌≡◌, refl, ap, arith, Bool, not, ◌||◌, List, [], ◌∷◌, leb, ◌==◌, if◌then◌else◌, ◌≤◌,
  Bool-cases, inl, inr,
}
use ntr.Addr.{Addr, addr_eq, addr_eq_iff}

unfoldable pub count : Addr → List Addr → ℕ
count ip [] = 0
count ip (a ∷ xs) = let rest = count ip xs in if addr_eq a ip then suc rest else rest

-- How many different addresses.
unfoldable pub distinct : List Addr → ℕ
distinct [] = 0
distinct (a ∷ xs) = let rest = distinct xs in if count a xs == 0 then suc rest else rest

-- One connection of an address less.
unfoldable pub erase : Addr → List Addr → List Addr
erase ip [] = []
erase ip (a ∷ xs) = let rest = erase ip xs in if addr_eq a ip then xs else a ∷ rest

-- The addresses are admitted that are there already, or that a free place is left for.
unfoldable pub may_enter : ℕ → Addr → List Addr → Bool
may_enter cap ip online =
    not (count ip online == 0) || (cap == 0) || not (leb cap (distinct online))

module _ (ip a : Addr) where
  pub count-erase :
      (xs : List Addr)
      → count a (erase ip xs) ≡ (if addr_eq ip a then count a xs - 1 else count a xs)
  unfolding count erase
  count-erase [] = ground arith
  count-erase (b ∷ xs) =
      ground (arith, count-erase xs, addr_eq_iff b ip, addr_eq_iff b a, addr_eq_iff ip a)

distinct_some : (ip : Addr) (xs : List Addr) → (if count ip xs == 0 then 0 else 1) ≤ distinct xs
unfolding count distinct
distinct_some ip [] = omega arith
distinct_some ip (b ∷ xs) = ground (arith, distinct_some ip xs, addr_eq_iff b ip)

distinct_cons :
    (b : Addr) (xs : List Addr)
    → distinct (b ∷ xs) ≡ (if count b xs == 0 then suc (distinct xs) else distinct xs)
unfolding distinct
distinct_cons b xs = refl

pub distinct-erase :
    (ip : Addr) (xs : List Addr)
    → distinct (erase ip xs) ≡ (if count ip xs == 1 then distinct xs - 1 else distinct xs)
unfolding count erase
distinct-erase ip [] = refl
distinct-erase ip (b ∷ xs) = elim (Bool-cases (addr_eq b ip)) [
  | inl same ↦
      rw same (ground (arith, distinct_cons b xs, ap (λ z. count z xs) ((addr_eq_iff b ip).0 same)))
  | inr other ↦ rw other (
      ground (
        arith,
        distinct_cons b (erase ip xs),
        distinct_cons b xs,
        distinct-erase ip xs,
        distinct_some ip xs,
        count-erase ip b xs,
        addr_eq_iff ip b,
        addr_eq_iff b ip,
      ))
]
