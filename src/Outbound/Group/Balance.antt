-- ===== src/Outbound/Group/Balance.antt =====
-- outbound/group/group.go: the balancing by the hash of the target.
use ntr.Prelude.{
  ℕ, zero, suc, ◌+◌, ◌-◌, ◌%◌, ◌≤◌, ◌<◌, ◌≡◌, sym, ap, ◌∙◌, arith, true, false, ltb, if◌then◌else◌,
  length, inl, inr, Bool-cases,
}
use native.Mathlib.Nat.{mod-lt, mod-eq_of_lt, add-mod_right}
use ntr.Prelude.Bytes.{Bytes}
use ntr.Outbound.Group.{Group, alive_of, name_at, scan, pick_hashed, or_first}

after_dead :
    (g : Group) (start i j : ℕ)
    → i ≤ j
    → alive_of g (name_at g.opts.members ((start + j) % length g.opts.members)) ≡ true
    → alive_of g (name_at g.opts.members ((start + i) % length g.opts.members)) ≡ false
    → suc i ≤ j
after_dead g start i j low a dead = elim (Bool-cases (ltb i j)) [
  | inl lt ↦ ground (arith, lt)
  | inr ge ↦ absurd (
      let e : i ≡ j = ground (arith, ge, low) in
      let b =
        ap (λ z. alive_of g (name_at g.opts.members ((start + z) % length g.opts.members))) e in
      ground (arith, sym dead ∙ b ∙ a))
]

-- Where one of the members that are looked at is alive, the one found is.
scan-alive :
    (g : Group) (start i k j : ℕ) (kept : Bytes)
    → i ≤ j
    → j < i + k
    → alive_of g (name_at g.opts.members ((start + j) % length g.opts.members)) ≡ true
    → alive_of g (or_first kept (scan g start i k)) ≡ true
unfolding scan or_first
scan-alive g start i zero j kept low high a = absurd (omega (arith, low, high))
scan-alive g start i (suc k) j kept low high a =
    elim (Bool-cases (alive_of g (name_at g.opts.members ((start + i) % length g.opts.members)))) [
      | inl now ↦ rw (now, scan) now
      | inr dead ↦
          let later : suc i ≤ j = after_dead g start i j low a dead in
          rw (dead, scan) (scan-alive g start (suc i) k j kept later (omega (arith, high)) a)
    ]

-- How far behind `start` the member `j` stands, counted around.
ahead : ℕ → ℕ → ℕ → ℕ
ahead n start j = if ltb j start then j + n - start else j - start

ahead-mod : (n start j : ℕ) → start < n → j < n → (start + ahead n start j) % n ≡ j
unfolding ahead
ahead-mod n start j s h = elim (Bool-cases (ltb j start)) [
  | inl before ↦
      rw (before, ahead)
        (let e : start + (j + n - start) ≡ j + n = ground (arith, before, s) in
          ap (λ z. z % n) e ∙ add-mod_right j n ∙ mod-eq_of_lt h)
  | inr behind ↦
      rw (behind, ahead)
        (let e : start + (j - start) ≡ j = ground (arith, behind) in
          ap (λ z. z % n) e ∙ mod-eq_of_lt h)
]

ahead-lt : (n start j : ℕ) → start < n → j < n → ahead n start j < n
unfolding ahead
ahead-lt n start j s h = ground arith

-- Where any member of the group is alive, the one that the hash leads to is alive, for every hash.
pub pick_hashed-alive :
    (g : Group) (h j : ℕ)
    → j < length g.opts.members
    → alive_of g (name_at g.opts.members j) ≡ true
    → alive_of g (pick_hashed g h) ≡ true
unfolding pick_hashed
pick_hashed-alive g h j low a =
    let n = length g.opts.members in
    let start = h % n in
    let s : start < n = mod-lt h (omega (arith, low)) in
    scan-alive g start 0 n (ahead n start j) (name_at g.opts.members start) (omega arith)
      (omega (arith, ahead-lt n start j s low))
      (ap (λ z. alive_of g (name_at g.opts.members z)) (ahead-mod n start j s low) ∙ a)
