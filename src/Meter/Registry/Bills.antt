-- ===== src/Meter/Registry/Bills.antt =====
-- meter/meter.go: the numbers of the bills.
use ntr.Prelude.{
  ℕ, suc, ◌+◌, ◌≤◌, ◌<◌, ◌^◌, ◌≡◌, refl, arith, some, List, [], ◌∷◌, length, Option-cases, inl, inr,
}
use mathlib.Core.Path.{subst}
use ntr.Prelude.Bytes.{Bytes}
use ntr.Prelude.Maps.{nat_Key, nat_eq_iff, lookup, lookup-insert}
use ntr.Prelude.Strings.{bytes_eq_iff, bytes_Key}
use ntr.Meter.Registry.{Registry, new_registry, user_base, id_for_bill, bill_of}

-- The numbers that all the calls give.
unfoldable pub all_bills : Registry → List Bytes → Registry
all_bills r [] = r
all_bills r (b ∷ bs) = all_bills (id_for_bill r b).1 bs

-- The maps are inverse to one another, and the numbers in use are below the next one.
record Billed (calls : ℕ) (r : Registry) : Type 0 where
  there : (b : Bytes) (id : ℕ) → lookup b r.bills ≡ some id → lookup id r.labels ≡ some b
  above : (b : Bytes) (id : ℕ) → lookup b r.bills ≡ some id → user_base < id
  below : (b : Bytes) (id : ℕ) → lookup b r.bills ≡ some id → id < r.next_id
  first : user_base < r.next_id
  bound : r.next_id ≤ user_base + 1 + calls

new_registry-Billed : Billed 0 new_registry
unfolding new_registry lookup
new_registry-Billed = record {
  there = λ b id h. ground (arith, h);
  above = λ b id h. ground (arith, h);
  below = λ b id h. ground (arith, h);
  first = omega arith;
  bound = omega arith;
}

module _ (n : ℕ) (r : Registry) (k : Billed n r) (bill : Bytes) (few : n < 2 ^ 63) where
  id_for_bill-Billed : Billed (suc n) (id_for_bill r bill).1
  unfolding id_for_bill
  id_for_bill-Billed = elim (Option-cases (lookup bill r.bills)) [
    | inl new ↦
        rw (new, id_for_bill)
          (record {
            there = λ b id h. ground (
              arith,
              h,
              k.there b id,
              k.below b id,
              lookup-insert bill b r.next_id r.bills,
              lookup-insert r.next_id id bill r.labels,
              nat_eq_iff r.next_id id,
              bytes_eq_iff bill b,
            );
            above = λ b id h.
                ground (arith, h, k.above b id, k.first, lookup-insert bill b r.next_id r.bills);
            below = λ b id h.
                ground
                  (arith, h, k.below b id, k.bound, few, lookup-insert bill b r.next_id r.bills);
            first = ground (arith, k.first, k.bound, few);
            bound = ground (arith, k.bound, few);
          })
    | inr (id, old) ↦
        rw (old, id_for_bill)
          (record {
            there = k.there;
            above = k.above;
            below = k.below;
            first = k.first;
            bound = ground (arith, k.bound);
          })
  ]

-- A bill that has a number keeps it, and one that is asked for has one then.
module _ (r : Registry) (bill : Bytes) where
  keeps :
      (b : Bytes) (id : ℕ)
      → lookup b r.bills ≡ some id
      → lookup b (id_for_bill r bill).1.bills ≡ some id
  unfolding id_for_bill
  keeps b id h = ground (arith, h, lookup-insert bill b r.next_id r.bills, bytes_eq_iff bill b)

  given : lookup bill (id_for_bill r bill).1.bills ≡ some (id_for_bill r bill).0
  unfolding id_for_bill
  given = ground (arith, lookup-insert bill bill r.next_id r.bills, bytes_eq_iff bill bill)

  again : (id : ℕ) → lookup bill r.bills ≡ some id → id_for_bill r bill ≡ (id, r)
  unfolding id_for_bill
  again id h = rw (h, id_for_bill) refl

all_bills-Billed :
    (n : ℕ) (r : Registry) (bs : List Bytes)
    → n + length bs < 2 ^ 63
    → Billed n r
    → Billed (n + length bs) (all_bills r bs)
unfolding all_bills
all_bills-Billed n r [] few k = subst (λ z. Billed z r) (omega arith) k
all_bills-Billed n r (b ∷ bs) few k =
    subst (λ z. Billed z (all_bills (id_for_bill r b).1 bs)) (omega arith)
      (all_bills-Billed (suc n) (id_for_bill r b).1 bs (omega (arith, few))
        (id_for_bill-Billed n r k b (omega (arith, few))))

all_bills-keeps :
    (r : Registry) (bs : List Bytes) (b : Bytes) (id : ℕ)
    → lookup b r.bills ≡ some id
    → lookup b (all_bills r bs).bills ≡ some id
unfolding all_bills
all_bills-keeps r [] b id h = h
all_bills-keeps r (c ∷ cs) b id h = all_bills-keeps (id_for_bill r c).1 cs b id (keeps r c b id h)

bill_of-lookup :
    (r : Registry) (id : ℕ) (b : Bytes) → lookup id r.labels ≡ some b → bill_of r id ≡ b
unfolding bill_of
bill_of-lookup r id b h = rw (h, bill_of) refl

-- The number that a bill is given is above those that are reserved, the bill is its label, and after
-- whatever other bills it is given again, as long as there are less than 2 ^ 63 calls.
pub id_for_bill-stable :
    (before after : List Bytes) (b : Bytes)
    → suc (length before) + length after < 2 ^ 63
    → (let (id, r) = id_for_bill (all_bills new_registry before) b in
        let r' = all_bills r after in
        (id_for_bill r' b ≡ (id, r')) × (bill_of r' id ≡ b) × (user_base < id))
id_for_bill-stable before after b few =
    let r0 = all_bills new_registry before in
    let k0 = all_bills-Billed 0 new_registry before (omega (arith, few)) new_registry-Billed in
    let k1 = id_for_bill-Billed (0 + length before) r0 k0 b (omega (arith, few)) in
    let r1 = (id_for_bill r0 b).1 in
    let id = (id_for_bill r0 b).0 in
    let k2 = all_bills-Billed (suc (0 + length before)) r1 after (omega (arith, few)) k1 in
    let at = all_bills-keeps r1 after b id (given r0 b) in
    (
      again (all_bills r1 after) b id at,
      bill_of-lookup (all_bills r1 after) id b (k2.there b id at),
      k2.above b id at,
    )
