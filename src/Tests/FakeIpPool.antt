-- ===== src/Tests/FakeIpPool.antt =====
-- A pool of the range 198.18.0.0/30, asked for two domains.
use ntr.Prelude.{◌^◌, ◌*◌, ◌+◌, ◌≡◌, refl, arith, true, none, some, [], ◌∷◌, ◌≢◌, inl}
use ntr.Prelude.Bytes.{Bytes}
use ntr.Prelude.Maps.{lookup, insert}
use ntr.Prelude.Strings.{bytes_eq, bytes_Key, trim_last_dot}
use ntr.Addr
use ntr.Addr.{Addr, v4, Prefix}
use ntr.Dns.FakeIp.{
  FakeIpConfig, Pool, alloc, alloc4, take4, evict, drop_old, wrap_next, new_pool, set_inet4,
  set_inet6, empty_pool, domain_of, in_pool, type_a,
}
use ntr.Dns.FakeIp.Answers.{
  Reachable, created, asked, domain_of-alloc, alloc_again, domain_of_others, Reachable-injective,
}
use ntr.Dns.FakeIp.Range.{AllRoomy, in_pool-alloc}

abbrev net : Prefix
net = record { addr = v4 (198 * 2 ^ 24 + 18 * 2 ^ 16); bits = 30 }

abbrev cfg : FakeIpConfig
cfg = record { inet4 = some net; inet6 = none; exclude = [] }

abbrev first : Addr
first = v4 (198 * 2 ^ 24 + 18 * 2 ^ 16 + 1)

abbrev second : Addr
second = v4 (198 * 2 ^ 24 + 18 * 2 ^ 16 + 2)

-- `a.`, as a query has it.
abbrev name_a : Bytes
name_a = b'a' ∷ b'.' ∷ []

abbrev name_b : Bytes
name_b = b'b' ∷ b'.' ∷ []

abbrev asked_a : Pool
asked_a = (alloc (new_pool cfg) name_a type_a).0

reached : Reachable cfg asked_a
reached = asked (new_pool cfg) name_a type_a created

gets_second : (alloc asked_a name_b type_a).1 ≡ some second
unfolding alloc alloc4 take4 evict wrap_next new_pool set_inet4 set_inet6 empty_pool trim_last_dot
    lookup insert bytes_eq Addr.masked Addr.next Addr.contains Addr.is4 Addr.unmap Addr.is_valid
    Addr.addr_eq drop_old
gets_second = refl

domain_of-alloc_example :
    domain_of (alloc asked_a name_b type_a).0 second ≡ some (trim_last_dot name_b)
unfolding Addr.unmap
domain_of-alloc_example = domain_of-alloc asked_a name_b type_a second reached refl gets_second

alloc_again_example :
    alloc (alloc asked_a name_b type_a).0 name_b type_a
    ≡ ((alloc asked_a name_b type_a).0, some second)
alloc_again_example = alloc_again asked_a name_b type_a second gets_second

not_first : (alloc asked_a name_b type_a).1 ≢ some (Addr.unmap first)
unfolding Addr.unmap
not_first e = ground (arith, e, gets_second)

domain_of_others_example : domain_of (alloc asked_a name_b type_a).0 first ≡ domain_of asked_a first
domain_of_others_example = domain_of_others asked_a name_b type_a first reached not_first

held_first : lookup (trim_last_dot name_a) asked_a.d2v4 ≡ some first
unfolding alloc alloc4 take4 evict wrap_next new_pool set_inet4 set_inet6 empty_pool trim_last_dot
    lookup insert bytes_eq Addr.masked Addr.next Addr.contains Addr.is4 Addr.unmap Addr.is_valid
    Addr.addr_eq drop_old
held_first = refl

Reachable-injective_example : trim_last_dot name_a ≡ trim_last_dot name_a
Reachable-injective_example =
    Reachable-injective asked_a (trim_last_dot name_a) (trim_last_dot name_a) first reached
      (inl held_first) (inl held_first)

room : AllRoomy cfg
room = (λ x e. ground (arith, e), λ x e. ground (arith, e))

in_pool-alloc_example : in_pool asked_a second ≡ true
unfolding Addr.unmap
in_pool-alloc_example = in_pool-alloc asked_a name_b type_a second room reached refl gets_second
