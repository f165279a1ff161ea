-- ===== src/Meter/IpGate/Refines.antt =====
-- meter/limits.go: `ipGate` refines the list of the addresses of the open connections.
use ntr.Prelude.{
  ℕ, suc, ◌+◌, ◌≤◌, ◌≡◌, refl, sym, ap, arith, Bool, true, false, not, none, some, List, [], ◌∷◌,
  ◌==◌, if◌then◌else◌, length, Option-cases, Bool-cases, inl, inr, ltb, leb, ◌&&◌, ◌-◌,
}
use ntr.Prelude.Maps.{lookup, insert, delete, lookup-insert, lookup-delete}
use ntr.Addr.{Addr, addr_eq, addr_eq_iff, addr_Key}
use ntr.Meter.IpGate.{IpGate, new_ip_gate, acquire, admit_new, release, count_or_zero}
use ntr.Meter.IpGate.Online.{count, distinct, erase, may_enter, count-erase, distinct-erase}
use ntr.Meter.IpGate.Sizes.{
  occurs, is_some, length-insert, length-delete, occurs-insert, occurs-delete, occurs-lookup,
}

pub record Represents (g : IpGate) (online : List Addr) : Type 0 where
  pub held :
      (ip : Addr)
      → lookup ip g.ips ≡ (if count ip online == 0 then none else some (count ip online))
  pub size : length g.ips ≡ distinct online
  pub once : (ip : Addr) → occurs ip g.ips ≤ 1

-- A connection comes from an address, and may be refused, or one from an address ends.
pub data Event : Type 0 where
  comes : Addr → Event
  ends : Addr → Event

-- What the gate answers, and what it is then.
abbrev pub gate_step : IpGate → Event → Bool × IpGate
gate_step g (comes ip) = acquire g ip
gate_step g (ends ip) = (true, release g ip)

abbrev pub online_step : ℕ → List Addr → Event → Bool × List Addr
online_step most online (comes ip) =
    if may_enter most ip online then (true, ip ∷ online) else (false, online)
online_step most online (ends ip) = (true, erase ip online)

-- The same answer, and states that stand for one another.
pub record Simulates (most : ℕ) (m : Bool × IpGate) (a : Bool × List Addr) : Type 0 where
  pub answer : m.0 ≡ a.0
  pub cap : m.1.cap ≡ most
  pub state : Represents m.1 a.1

pub new_ip_gate-Represents : (cap : ℕ) → Represents (new_ip_gate cap) []
unfolding new_ip_gate lookup count distinct occurs
new_ip_gate-Represents cap = record { held = λ ip. refl; size = refl; once = λ ip. omega arith }

module _ (g : IpGate) (online : List Addr) (r : Represents g online) (ip : Addr) where
  entered :
      (n : ℕ)
      → n ≡ count ip online
      → Represents (record g { ips = insert ip (n + 1) g.ips }) (ip ∷ online)
  unfolding count distinct is_some
  entered n e = record {
    held = λ a. ground (arith, r.held a, lookup-insert ip a (n + 1) g.ips, addr_eq_iff ip a);
    size = ground (arith, r.size, r.held ip, length-insert ip (n + 1) g.ips);
    once = λ a. ground (arith, r.once a, occurs-insert ip a (suc n) g.ips);
  }

  -- A new address takes a place, or is refused and counted as refused.
  admit_new-Simulates :
      lookup ip g.ips ≡ none
      → Simulates g.cap (admit_new g ip) (online_step g.cap online (comes ip))
  unfolding admit_new may_enter
  admit_new-Simulates k = elim (Bool-cases (not (g.cap == 0) && leb g.cap (length g.ips))) [
    | inl full ↦
        let refused : may_enter g.cap ip online ≡ false = ground (arith, r.held ip, r.size) in
        rw full (
          rw refused (record {
            answer = refl;
            cap = refl;
            state = record { held = r.held; size = r.size; once = r.once };
          }))
    | inr room ↦
        let let_in : may_enter g.cap ip online ≡ true = ground (arith, r.held ip, r.size) in
        rw room (
          rw let_in
            (record { answer = refl; cap = refl; state = entered 0 (ground (arith, r.held ip)) }))
  ]

  let_in : (n : ℕ) → lookup ip g.ips ≡ some n → may_enter g.cap ip online ≡ true
  unfolding may_enter
  let_in n k = ground (arith, r.held ip)

  pub acquire-Simulates : Simulates g.cap (acquire g ip) (online_step g.cap online (comes ip))
  unfolding acquire
  acquire-Simulates = elim (Option-cases (lookup ip g.ips)) [
    | inl k ↦ rw (k, acquire) (admit_new-Simulates k)
    | inr (n, k) ↦
        rw (k, acquire)
          (rw (let_in n k)
            (record { answer = refl; cap = refl; state = entered n (ground (arith, r.held ip)) }))
  ]

  module _ (n : ℕ) (e : n ≡ count_or_zero (lookup ip g.ips)) where
    counted : n ≡ count ip online
    unfolding count_or_zero
    counted = ground (arith, r.held ip)

    same : (a : Addr) → addr_eq ip a ≡ true → count a online ≡ count ip online
    same a t = ap (λ z. count z online) (sym ((addr_eq_iff ip a).0 t))

    left :
        ltb 1 n ≡ true → Represents (record g { ips = insert ip (n - 1) g.ips }) (erase ip online)
    unfolding is_some
    left many = record {
      held = λ a. ground (
        arith,
        counted,
        r.held a,
        count-erase ip a online,
        lookup-insert ip a (n - 1) g.ips,
        same a,
      );
      size = ground (
        arith,
        counted,
        r.size,
        r.held ip,
        length-insert ip (n - 1) g.ips,
        distinct-erase ip online,
      );
      once = λ a. ground (arith, counted, r.once a, occurs-insert ip a (n - 1) g.ips);
    }

    gone : ltb 1 n ≡ false → Represents (record g { ips = delete ip g.ips }) (erase ip online)
    unfolding is_some
    gone few = record {
      held = λ a.
          ground
            (arith, counted, r.held a, count-erase ip a online, lookup-delete ip a g.ips, same a);
      size = ground (
        arith,
        counted,
        r.size,
        r.held ip,
        r.once ip,
        length-delete ip g.ips,
        occurs-lookup ip g.ips,
        distinct-erase ip online,
      );
      once = λ a. ground (arith, r.once a, occurs-delete ip a g.ips);
    }

  pub release-Represents : Represents (release g ip) (erase ip online)
  unfolding release
  release-Represents = elim (Bool-cases (ltb 1 (count_or_zero (lookup ip g.ips)))) [
    | inl many ↦ rw many (left (count_or_zero (lookup ip g.ips)) refl many)
    | inr few ↦ rw few (gone (count_or_zero (lookup ip g.ips)) refl few)
  ]

-- What the gate answers to a sequence of connections that come and end, and what the list answers.
unfoldable pub gate_answers : IpGate → List Event → List Bool
gate_answers g [] = []
gate_answers g (e ∷ es) = (gate_step g e).0 ∷ gate_answers (gate_step g e).1 es

unfoldable pub online_answers : ℕ → List Addr → List Event → List Bool
online_answers most online [] = []
online_answers most online (e ∷ es) =
    (online_step most online e).0 ∷ online_answers most (online_step most online e).1 es

release_cap : (g : IpGate) (ip : Addr) → (release g ip).cap ≡ g.cap
unfolding release
release_cap g ip = ground arith

step-Simulates :
    (g : IpGate) (online : List Addr) (e : Event)
    → Represents g online
    → Simulates g.cap (gate_step g e) (online_step g.cap online e)
step-Simulates g online (comes ip) r = acquire-Simulates g online r ip
step-Simulates g online (ends ip) r = record {
  answer = refl;
  cap = release_cap g ip;
  state = release-Represents g online r ip;
}

gate_answers_lem :
    (g : IpGate) (most : ℕ) (online : List Addr) (es : List Event)
    → g.cap ≡ most
    → Represents g online
    → gate_answers g es ≡ online_answers most online es
unfolding gate_answers online_answers
gate_answers_lem g most online [] c r = refl
gate_answers_lem g most online (e ∷ es) c r =
    let s = step-Simulates g online e r in
    rw (sym c) (
      let rest =
        gate_answers_lem (gate_step g e).1 g.cap (online_step g.cap online e).1 es s.cap s.state in
      ground (arith, rest, s.answer))

-- For every sequence of connections that come from an address and end, the gate answers as the list
-- of the addresses online does: who comes is let in where the address is online, there is no limit,
-- or fewer different addresses than the limit are online.
pub gate_answers-online_answers :
    (most : ℕ) (es : List Event) → gate_answers (new_ip_gate most) es ≡ online_answers most [] es
unfolding new_ip_gate
gate_answers-online_answers most es =
    gate_answers_lem (new_ip_gate most) most [] es refl (new_ip_gate-Represents most)
