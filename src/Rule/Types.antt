-- ===== src/Rule/Types.antt =====
-- rule/engine.go: the rules, the compiled engine and the context of a route.
use ntr.Prelude.{ℕ, ◌^◌, ◌-◌, Bool, Option, List}
use ntr.Prelude.Bytes.{Bytes}
use ntr.Addr.{Addr, Prefix, AddrPort, Socksaddr}

-- `ordNone = ^uint32(0)`
abbrev pub ord_none : ℕ
ord_none = 2 ^ 32 - 1

-- `IPSet`, `DomainSet` and `ProcessFinder`: what the engine is handed by the packages `geo`,
-- `ruleset` and `service`. A finder answers the name and the path of the process.
abbrev pub IpSet : Type 0
IpSet = Addr → Bool

abbrev pub DomainSet : Type 0
DomainSet = Bytes → Bool

abbrev pub ProcessFinder : Type 0
ProcessFinder = Bytes → AddrPort → Option (Bytes × Bytes)

-- The predicates of a leaf of `Rule`.
pub record Dims : Type 0 where
  pub domain : List Bytes
  pub domain_suffix : List Bytes
  pub domain_keyword : List Bytes
  pub ip_cidr : List Bytes
  pub port : List ℕ
  pub network : List Bytes
  pub protocol : List Bytes
  pub geo_ip : List IpSet
  pub geo_site : List DomainSet
  pub process_name : List Bytes
  pub process_path : List Bytes

-- `Rule`: its leaf predicates, `Op`, `Sub`, `Not` and `To`.
mutual
  pub data Rule : Type 0 where
    rule : Dims → Bytes → Rules → Bool → Bytes → Rule

  pub data Rules : Type 0 where
    nil : Rules
    cons : Rule → Rules → Rules

unfoldable pub dims : Rule → Dims
dims (rule d op sub inverted to) = d

unfoldable pub op : Rule → Bytes
op (rule d o sub inverted to) = o

unfoldable pub sub : Rule → Rules
sub (rule d o s inverted to) = s

unfoldable pub target : Rule → Bytes
target (rule d o s inverted to) = to

-- `evalCtx`. The answer of the finder is asked for once a route at most, so within a route it is a
-- function.
pub record Ctx : Type 0 where
  pub dst : Socksaddr
  pub src : AddrPort
  pub ips : List Addr
  pub network : Bytes
  pub proto : Bytes
  pub finder : Option ProcessFinder

-- `Engine`: each index holds keys with the order of the rule that they stand in.
pub record Engine : Type 0 where
  pub targets : List Bytes
  pub fallback : Bytes
  pub exact : List (Bytes × ℕ)
  pub suffix : List (Bytes × ℕ)
  pub keyword : List (Bytes × ℕ)
  pub cidr : List (Prefix × ℕ)
  pub geoip : List (IpSet × ℕ)
  pub geosite : List (DomainSet × ℕ)
  pub ports : List (ℕ × ℕ)
  pub netw : List (Bytes × ℕ)
  pub protocol : List (Bytes × ℕ)
  pub proc_name : List (Bytes × ℕ)
  pub proc_path : List (Bytes × ℕ)
  pub has_proc : Bool
  pub has_ip : Bool
  pub logical : List ((Ctx → Bool) × ℕ)
  pub has_logical : Bool
