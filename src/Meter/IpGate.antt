-- ===== src/Meter/IpGate.antt =====
-- meter/limits.go: `ipGate`, which limits how many source addresses a user has at a time. A map to
-- `int` has no count below 1, so that the counts are natural numbers.
use ntr.Prelude.{
  ℕ, ◌+◌, ◌-◌, ◌%◌, ◌^◌, Bool, true, false, not, ◌&&◌, Option, none, some, List, [], ltb, leb, ◌==◌,
  if◌then◌else◌, length,
}
use ntr.Prelude.Maps.{lookup, insert, delete}
use ntr.Addr.{Addr, addr_Key}
pub mod Online
pub mod Sizes
pub mod Refines

pub record IpGate : Type 0 where
  pub ips : List (Addr × ℕ)
  pub cap : ℕ
  pub rejected : ℕ

unfoldable pub new_ip_gate : ℕ → IpGate
new_ip_gate cap = record { ips = []; cap = cap; rejected = 0 }

unfoldable pub admit_new : IpGate → Addr → Bool × IpGate
admit_new g ip =
    if not (g.cap == 0) && leb g.cap (length g.ips)
    then (false, record g { rejected = (g.rejected + 1) % 2 ^ 64 })
    else (true, record g { ips = insert ip 1 g.ips })

unfoldable pub acquire : IpGate → Addr → Bool × IpGate
acquire g ip = elim (lookup ip g.ips) [
  | some n ↦ (true, record g { ips = insert ip (n + 1) g.ips })
  | none ↦ admit_new g ip
]

unfoldable pub count_or_zero : Option ℕ → ℕ
count_or_zero none = 0
count_or_zero (some n) = n

unfoldable pub release : IpGate → Addr → IpGate
release g ip =
    let n = count_or_zero (lookup ip g.ips) in
    if ltb 1 n
    then record g { ips = insert ip (n - 1) g.ips }
    else record g { ips = delete ip g.ips }
