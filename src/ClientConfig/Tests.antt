-- ===== src/ClientConfig/Tests.antt =====
-- internal/clientconfig/clientconfig.go: addresses, a DNS answer and command lines.
use unwedge.Base.{
  ◌≡◌, ◌⊎◌, refl, Bytes, codes, true, false, Option, some, List, [], ◌∷◌, ◌++◌, eqb, to_lower, elem,
  has_prefix, trim_left, arith,
}
use unwedge.Base.Decimal.{decimal}
use unwedge.Power.Address.{index_byte, last_index_byte}
use unwedge.Net.{
  split_address, split_at, split_plain, split_bracketed, split_inside, join_host_port,
}
use unwedge.Net.Laws.{IsClean, IsPort}
use unwedge.ClientConfig.{
  Srv, Endpoint, ensure_port, default_port, trim_dot, of_record, of_answer, resolve_endpoint,
  pre_scan_config, cut_equals, expand_user, bool_pref, parse_bool,
}
use unwedge.ClientConfig.Endpoints.{resolve_endpoint_lem, AllClean}
use unwedge.ClientConfig.Flags.{dashed, pre_scan_config_lem}

abbrev host : Bytes
host = codes "dut.lab"

host-IsClean : IsClean host
host-IsClean = record { no_open = omega arith; no_close = omega arith }

default_port-IsPort : IsPort default_port
default_port-IsPort = record {
  clean = record { no_open = omega arith; no_close = omega arith };
  no_colon = omega arith;
}

with_literal : ensure_port (codes "::1") default_port ≡ codes "[::1]:7777"
unfolding ensure_port split_address split_at split_plain join_host_port last_index_byte elem
with_literal = refl

doubled_brackets : ensure_port (codes "[::1]") default_port ≡ codes "[[::1]]:7777"
unfolding ensure_port split_address split_at split_bracketed split_inside join_host_port
    last_index_byte index_byte elem
doubled_brackets = refl

home_dir : expand_user (some (codes "/root")) (codes "~/ca.crt") ≡ codes "/root/ca.crt"
unfolding expand_user has_prefix eqb
home_dir = refl

-- A command that is given a -config of its own is read as this one.
scans_commands :
    pre_scan_config (codes "ssh" ∷ codes "uci" ∷ codes "-config" ∷ codes "x" ∷ []) ≡ codes "x"
unfolding pre_scan_config cut_equals trim_left eqb
scans_commands = refl

bad_bool : bool_pref (codes "maybe") (some true) false ≡ true
unfolding bool_pref parse_bool eqb
bad_bool = refl

abbrev answer : Bytes → Option (List Srv)
answer name = some (record { target = codes "gw.lab."; port = 7701 } ∷ [])

abbrev found : Endpoint
found = record { target = codes "gw.lab:7701"; server_name = host }

answer-AllClean : AllClean (answer host)
unfolding trim_dot
answer-AllClean = (record { no_open = omega arith; no_close = omega arith }, tt)

resolve_endpoint_lem_example :
    (found.server_name ≡ host)
    ⊎ ((hp : Bytes × Bytes) × (split_address found.target ≡ some hp)
        × (found.server_name ≡ [])
        × (to_lower hp.0 ≡ to_lower host))
unfolding resolve_endpoint of_answer of_record trim_dot split_address split_at split_plain
    join_host_port last_index_byte elem eqb to_lower decimal
resolve_endpoint_lem_example =
    resolve_endpoint_lem (λ s. false) answer true host found host-IsClean answer-AllClean refl refl

pre_scan_config_lem_example :
    (pre_scan_config (codes "-addr" ∷ codes "h" ∷ dashed 1 (codes "config=" ++ codes "f") ∷ [])
      ≡ codes "f")
    × (pre_scan_config (codes "-addr" ∷ codes "h" ∷ dashed 1 (codes "config") ∷ codes "f" ∷ [])
        ≡ codes "f")
    × (pre_scan_config (codes "-addr" ∷ codes "h" ∷ codes "--" ∷ []) ≡ [])
unfolding cut_equals trim_left eqb
pre_scan_config_lem_example =
    pre_scan_config_lem (codes "-addr" ∷ codes "h" ∷ []) 1 (codes "f") []
      ((refl, refl), ((refl, refl), tt))
