-- ===== src/Tests/RuleTable.antt =====
-- A small rule table, compiled and asked.
use ntr.Prelude.{
  ◌^◌, ◌*◌, ◌≡◌, refl, sym, ◌∙◌, ◌+◌, arith, false, Option, none, some, List, [], ◌∷◌,
  if◌then◌else◌, ltb,
}
use ntr.Prelude.Bytes.{Bytes}
use ntr.Prelude.Maps.{lookup, insert}
use ntr.Prelude.Strings.{bytes_eq, has_suffix, to_lower, trim_last_dot, trim_first_dot}
use ntr.Addr
use ntr.Addr.{Addr, v4, v6, no_addr, Prefix, Socksaddr, AddrPort}
use ntr.Rule.Types.{Dims, Rule, rule, nil, cons, Ctx, Engine, dims, op, target}
use ntr.Rule.Match.{any, norm_domain, suffix_key}
use ntr.Rule.Compile.{
  ok, err, op_or, compile, compile_from, empty_engine, add_rule, add_leaf, add_composite, put_all,
  put_min, append_all, put_cidrs, put_networks, dim_count, rule_uses_ip, validate_composite,
  check_composite,
}
use ntr.Rule.Route.{route_conn_ips}
use ntr.Rule.Leaf.{leaf_matches, dims_match, host_matches}
use ntr.Rule.Labels.{below}
use ntr.Rule.AddRule.{rule_matches}
use ntr.Rule.FirstMatch.{first_match, route_conn_ips-first_match}
use ntr.Rule.Resolve.{table_ips, compile-has_ip, route_conn_ips_unresolved}
use ntr.Rule.Agree.{
  IsPlain, no_dims, only_protocol, leaf_table, or_table, Engines, route_ctx,
  route_conn_ips-or_table, route_conn_ips_protocol_case,
}

-- "10/8" is the one text that this parser knows.
abbrev parse : Bytes → Option Prefix
parse text =
    if bytes_eq text (b'1' ∷ b'0' ∷ b'/' ∷ b'8' ∷ [])
    then some (record { addr = v4 (10 * 2 ^ 24); bits = 8 })
    else none

abbrev dot_com : Bytes
dot_com = b'.' ∷ b'C' ∷ b'o' ∷ b'm' ∷ []

abbrev host : Bytes
host = b'a' ∷ b'.' ∷ b'c' ∷ b'O' ∷ b'm' ∷ b'.' ∷ []

-- .Com to `a`; port 443 or TLS to `b`; 10/8 to `c`; all else to `d`.
abbrev table : List Rule
table =
    rule (record no_dims { domain_suffix = dot_com ∷ [] }) [] nil false (b'a' ∷ [])
    ∷ rule no_dims op_or
        (cons (rule (record no_dims { port = 443 ∷ [] }) [] nil false [])
          (cons (rule (only_protocol (b't' ∷ b'l' ∷ b's' ∷ [])) [] nil false []) nil))
        false (b'b' ∷ [])
    ∷ rule (record no_dims { ip_cidr = (b'1' ∷ b'0' ∷ b'/' ∷ b'8' ∷ []) ∷ [] }) [] nil false
        (b'c' ∷ [])
    ∷ []

abbrev by_port : List Rule
by_port = rule (record no_dims { port = 80 ∷ [] }) [] nil false (b'b' ∷ []) ∷ []

abbrev engine_of : List Rule → Engine
engine_of rules = elim (compile parse rules (b'd' ∷ [])) [
  | ok e ↦ e
  | err x ↦ empty_engine parse 0 []
]

compile-table : compile parse table (b'd' ∷ []) ≡ ok (engine_of table)
unfolding compile compile_from empty_engine add_rule add_leaf add_composite put_all put_min
    append_all put_cidrs put_networks dim_count rule_uses_ip validate_composite check_composite
    target op dims bytes_eq lookup insert
compile-table = refl

compile-by_port : compile parse by_port (b'd' ∷ []) ≡ ok (engine_of by_port)
unfolding compile compile_from empty_engine add_rule add_leaf add_composite put_all put_min
    append_all put_cidrs put_networks dim_count rule_uses_ip validate_composite check_composite
    target op dims bytes_eq lookup insert
compile-by_port = refl

abbrev to_host : Socksaddr
to_host = record { addr = no_addr; fqdn = host; port = 443 }

abbrev from : AddrPort
from = record { ip = v4 1; port = 5000 }

abbrev tcp : Bytes
tcp = b't' ∷ b'c' ∷ b'p' ∷ []

abbrev context : Socksaddr → Bytes → Ctx
context dst proto = record {
  dst = dst;
  src = from;
  ips = v4 (10 * 2 ^ 24 + 7) ∷ [];
  network = tcp;
  proto = proto;
  finder = none;
}

route_conn_ips-first_match_example :
    route_conn_ips (engine_of table) to_host (v4 (10 * 2 ^ 24 + 7) ∷ []) from tcp [] none
    ≡ some (first_match parse table (b'd' ∷ []) (context to_host []))
route_conn_ips-first_match_example =
    route_conn_ips-first_match parse table (b'd' ∷ []) (engine_of table) to_host
      (v4 (10 * 2 ^ 24 + 7) ∷ []) from tcp [] none (omega arith) compile-table

-- The domain rule is the first of the three that match.
first_match-table : first_match parse table (b'd' ∷ []) (context to_host []) ≡ b'a' ∷ []
unfolding first_match rule_matches leaf_matches dims_match host_matches below suffix_key norm_domain
    to_lower trim_last_dot trim_first_dot has_suffix bytes_eq op dims target any ntr.Addr.is_fqdn
first_match-table = refl

compile-has_ip_example : (engine_of table).has_ip ≡ ltb 0 (table_ips table)
compile-has_ip_example =
    compile-has_ip parse table (b'd' ∷ []) (engine_of table) (omega arith) compile-table

by_port-has_ip : (engine_of by_port).has_ip ≡ false
unfolding compile compile_from empty_engine add_rule add_leaf add_composite put_all put_min
    append_all put_cidrs put_networks dim_count rule_uses_ip validate_composite check_composite
    target op dims bytes_eq lookup insert
by_port-has_ip = refl

route_conn_ips_unresolved_example :
    route_conn_ips (engine_of by_port) to_host (v4 (10 * 2 ^ 24 + 7) ∷ []) from tcp [] none
    ≡ route_conn_ips (engine_of by_port) to_host [] from tcp [] none
route_conn_ips_unresolved_example =
    route_conn_ips_unresolved parse by_port (b'd' ∷ []) (engine_of by_port) to_host
      (v4 (10 * 2 ^ 24 + 7) ∷ []) from tcp [] none (omega arith) compile-by_port by_port-has_ip

abbrev tls : Bytes
tls = b't' ∷ b'l' ∷ b's' ∷ []

abbrev upper_tls : Bytes
upper_tls = b'T' ∷ b'L' ∷ b'S' ∷ []

abbrev suffix_dims : Dims
suffix_dims = record no_dims { domain_suffix = dot_com ∷ [] }

suffix_dims-IsPlain : IsPlain suffix_dims
unfolding to_lower suffix_key norm_domain trim_last_dot trim_first_dot
suffix_dims-IsPlain = (tt, (λ e. cc, tt))

abbrev with_or : Dims → Engine
with_or d = elim (compile parse (or_table d (b'a' ∷ [])) (b'd' ∷ [])) [
  | ok e ↦ e
  | err x ↦ empty_engine parse 0 []
]

abbrev by_suffix : Engines parse suffix_dims (b'a' ∷ []) (b'd' ∷ [])
unfolding compile compile_from empty_engine add_rule add_leaf add_composite put_all put_min
    append_all put_cidrs put_networks dim_count rule_uses_ip validate_composite check_composite
    target op dims bytes_eq lookup insert
by_suffix = record {
  of_leaf = engine_of (leaf_table suffix_dims (b'a' ∷ []));
  of_or = with_or suffix_dims;
  leaf_compiles = refl;
  or_compiles = refl;
}

route_conn_ips-or_table_example :
    route_ctx by_suffix.of_leaf (context to_host tls)
    ≡ route_ctx by_suffix.of_or (context to_host tls)
route_conn_ips-or_table_example =
    route_conn_ips-or_table parse suffix_dims (b'a' ∷ []) (b'd' ∷ []) by_suffix
      (context to_host tls) suffix_dims-IsPlain

lower_tls : to_lower upper_tls ≡ tls
unfolding to_lower
lower_tls = refl

lower_again : to_lower tls ≡ tls
unfolding to_lower
lower_again = refl

abbrev upper : Engines parse (only_protocol upper_tls) (b'a' ∷ []) (b'd' ∷ [])
unfolding compile compile_from empty_engine add_rule add_leaf add_composite put_all put_min
    append_all put_cidrs put_networks dim_count rule_uses_ip validate_composite check_composite
    target op dims bytes_eq lookup insert
upper = record {
  of_leaf = engine_of (leaf_table (only_protocol upper_tls) (b'a' ∷ []));
  of_or = with_or (only_protocol upper_tls);
  leaf_compiles = refl;
  or_compiles = refl;
}

route_conn_ips_protocol_case_example :
    (route_ctx upper.of_leaf (context to_host tls)
      ≡ some (if bytes_eq (to_lower upper_tls) tls then b'a' ∷ [] else b'd' ∷ []))
    × (route_ctx upper.of_or (context to_host tls) ≡ some (b'd' ∷ []))
route_conn_ips_protocol_case_example =
    route_conn_ips_protocol_case parse upper_tls (b'a' ∷ []) (b'd' ∷ []) upper (context to_host tls)
      (λ e. tls_ne (sym lower_tls ∙ e)) lower_again (λ e. cc)
  where
    tls_ne : tls ≡ upper_tls → ⊥
    tls_ne e = ground arith
