-- ===== src/ClientConfig.antt =====
-- internal/clientconfig/clientconfig.go: the defaults of the client's flags, and the endpoint that an
-- address stands for. The environment, the home directory, the YAML reader and the DNS resolver are
-- arguments.
pub mod Endpoints
pub mod Flags
mod Tests
use unwedge.Base.{
  ℕ, ◌+◌, Bytes, codes, Bool, true, false, ◌&&◌, ◌||◌, not, Option, none, some, List, [], ◌∷◌, ◌++◌,
  drop, ◌==◌, if◌then◌else◌, eqb, has_prefix, trim_left, to_lower,
}
use unwedge.Base.Decimal.{decimal}
use unwedge.Net.{split_address, join_host_port}

abbrev pub default_port : Bytes
default_port = codes "7777"

-- A record of the DNS answer.
pub record Srv : Type 0 where
  pub target : Bytes
  pub port : ℕ

pub record Endpoint : Type 0 where
  pub target : Bytes
  pub server_name : Bytes

unfoldable pub ensure_port : Bytes → Bytes → Bytes
ensure_port [] port = []
ensure_port (c ∷ addr) port = elim (split_address (c ∷ addr)) [
  | some hp ↦ c ∷ addr
  | none ↦ join_host_port (c ∷ addr) port
]

-- strings.TrimSuffix(s, ".")
unfoldable pub trim_dot : Bytes → Bytes
trim_dot [] = []
trim_dot (c ∷ []) = if c == b'.' then [] else c ∷ []
trim_dot (c ∷ d ∷ s) = c ∷ trim_dot (d ∷ s)

-- The endpoint of the first record. EqualFold is equality in lower case on ASCII text.
unfoldable pub of_record : Bytes → Srv → Endpoint
of_record host rec =
    let tgt = trim_dot rec.target in
    record {
      target = join_host_port tgt (decimal rec.port);
      server_name = if eqb (to_lower tgt) (to_lower host) then [] else host;
    }

-- The answer of the lookup is none for an error.
unfoldable pub of_answer : Bytes → Option (List Srv) → Endpoint
of_answer host none = record { target = ensure_port host default_port; server_name = [] }
of_answer host (some []) = record { target = ensure_port host default_port; server_name = [] }
of_answer host (some (rec ∷ more)) = of_record host rec

-- ResolveEndpoint; none for the empty address. `is_ip` says whether net.ParseIP takes the text.
unfoldable pub resolve_endpoint :
    (Bytes → Bool) → (Bytes → Option (List Srv)) → Bool → Bytes → Option Endpoint
resolve_endpoint is_ip lookup allow_srv [] = none
resolve_endpoint is_ip lookup allow_srv (c ∷ host) = elim (split_address (c ∷ host)) [
  | some hp ↦ some (record { target = c ∷ host; server_name = [] })
  | none ↦
      if not allow_srv || is_ip (c ∷ host)
      then some (record { target = ensure_port (c ∷ host) default_port; server_name = [] })
      else some (of_answer (c ∷ host) (lookup (c ∷ host)))
]

unfoldable pub first_non_empty : List Bytes → Bytes
first_non_empty [] = []
first_non_empty ([] ∷ vals) = first_non_empty vals
first_non_empty ((c ∷ v) ∷ vals) = c ∷ v

abbrev pub mentions_text : Bytes → List Bytes → Bool
mentions_text s [] = false
mentions_text s (k ∷ ks) = eqb s k || mentions_text s ks

-- strconv.ParseBool
unfoldable pub parse_bool : Bytes → Option Bool
parse_bool s =
    if mentions_text s
      (codes "1" ∷ codes "t" ∷ codes "T" ∷ codes "true" ∷ codes "TRUE" ∷ codes "True" ∷ [])
    then some true
    else if mentions_text s
        (codes "0" ∷ codes "f" ∷ codes "F" ∷ codes "false" ∷ codes "FALSE" ∷ codes "False" ∷ [])
    then some false
    else none

unfoldable pub file_pref : Option Bool → Bool → Bool
file_pref none default = default
file_pref (some b) default = b

-- `ParseBool` refuses the empty text, as the code's own test does.
unfoldable pub bool_pref : Bytes → Option Bool → Bool → Bool
unfolding file_pref
bool_pref [] file default = file_pref file default
bool_pref (c ∷ env) file default = elim (parse_bool (c ∷ env)) [
  | some b ↦ b
  | none ↦ file_pref file default
]

-- strings.Cut(s, "="): the name, and the value if there is an equals sign.
unfoldable pub cut_equals : Bytes → Bytes × Option Bytes
cut_equals [] = ([], none)
cut_equals (c ∷ s) =
    let rest = cut_equals s in if c == b'=' then ([], some s) else (c ∷ rest.0, rest.1)

abbrev pub is_dash : ℕ → Bool
is_dash c = c == b'-'

-- PreScanConfig
unfoldable pub pre_scan_config : List Bytes → Bytes
pre_scan_config [] = []
pre_scan_config (a ∷ args) =
    let rest = pre_scan_config args in
    let cut = cut_equals (trim_left is_dash a) in
    if eqb a (codes "--")
    then []
    else if not (eqb cut.0 (codes "config"))
    then rest
    else elim cut.1 [ some val ↦ val | none ↦ elim args [ [] ↦ [] | next ∷ more ↦ next ] ]

abbrev pub dollar_home : Bytes
dollar_home = codes "$HOME"

-- The switch of expandUser.
unfoldable pub tilde : Bytes → Bytes
tilde p =
    if eqb p (codes "~")
    then dollar_home
    else if has_prefix p (codes "~/")
    then dollar_home ++ drop 1 p
    else p

-- expandUser; `home` is none if the home directory is unknown or empty.
unfoldable pub expand_user : Option Bytes → Bytes → Bytes
unfolding tilde
expand_user home [] = []
expand_user home (c ∷ p) =
    if has_prefix (tilde (c ∷ p)) dollar_home
    then elim home [ none ↦ tilde (c ∷ p) | some h ↦ h ++ drop 5 (tilde (c ∷ p)) ]
    else tilde (c ∷ p)

pub record File : Type 0 where
  pub addr : Bytes
  pub ca : Bytes
  pub cert : Bytes
  pub key : Bytes
  pub server_name : Bytes
  pub no_tls : Option Bool
  pub insecure : Option Bool
  pub no_srv : Option Bool

pub record Resolved : Type 0 where
  pub addr : Bytes
  pub ca : Bytes
  pub cert : Bytes
  pub key : Bytes
  pub server_name : Bytes
  pub no_tls : Bool
  pub insecure : Bool
  pub no_srv : Bool
  pub path : Bytes

-- The variables of the environment; an unset one is empty.
pub record Environment : Type 0 where
  pub var : Bytes → Bytes
  pub home : Option Bytes

abbrev pub empty_file : File
empty_file = record {
  addr = [];
  ca = [];
  cert = [];
  key = [];
  server_name = [];
  no_tls = none;
  insecure = none;
  no_srv = none;
}

-- DefaultPath, for a home and an XDG directory that filepath.Join takes as they are.
unfoldable pub default_path : Environment → Bytes
default_path env = elim (env.var (codes "XDG_CONFIG_HOME")) [
  | c ∷ x ↦ (c ∷ x) ++ codes "/unwedge/config.yaml"
  | [] ↦ elim env.home [ none ↦ [] | some h ↦ h ++ codes "/.config/unwedge/config.yaml" ]
]

-- The path that Resolve reads, and whether it was named.
unfoldable pub config_path : Environment → Bytes → Bytes × Bool
config_path env (c ∷ flag) = (c ∷ flag, true)
config_path env [] = elim (env.var (codes "UNWEDGE_CONFIG")) [
  | c ∷ path ↦ (c ∷ path, true)
  | [] ↦ (default_path env, false)
]

-- What reading and parsing the file yields.
pub data ReadOutcome : Type 0 where
  parsed : File → ReadOutcome
  bad_yaml not_exist unreadable : ReadOutcome

pub data ResolveError : Type 0 where
  parse_failed read_failed : ResolveError

unfoldable pub merged : Environment → File → Bytes → Resolved
merged env f used = record {
  addr = first_non_empty (env.var (codes "UNWEDGE_ADDR") ∷ f.addr ∷ codes "localhost:7777" ∷ []);
  ca = expand_user env.home (first_non_empty (env.var (codes "UNWEDGE_CA") ∷ f.ca ∷ []));
  cert = expand_user env.home (first_non_empty (env.var (codes "UNWEDGE_CERT") ∷ f.cert ∷ []));
  key = expand_user env.home (first_non_empty (env.var (codes "UNWEDGE_KEY") ∷ f.key ∷ []));
  server_name = first_non_empty (env.var (codes "UNWEDGE_SERVER_NAME") ∷ f.server_name ∷ []);
  no_tls = bool_pref (env.var (codes "UNWEDGE_NO_TLS")) f.no_tls false;
  insecure = bool_pref (env.var (codes "UNWEDGE_INSECURE")) f.insecure false;
  no_srv = bool_pref (env.var (codes "UNWEDGE_NO_SRV")) f.no_srv false;
  path = used;
}

pub data Resolution : Type 0 where
  resolved : Resolved → Resolution
  failed : ResolveError → Resolution

unfoldable pub after_read : Environment → Bytes → Bool → ReadOutcome → Resolution
after_read env path explicit (parsed f) = resolved (merged env f path)
after_read env path explicit bad_yaml = failed parse_failed
after_read env path explicit unreadable = failed read_failed
after_read env path explicit not_exist =
    if explicit then failed read_failed else resolved (merged env empty_file [])

-- Resolve
unfoldable pub resolve : Environment → (Bytes → ReadOutcome) → Bytes → Resolution
resolve env read config_flag =
    let (path, explicit) = config_path env config_flag in
    elim path [
      | [] ↦ resolved (merged env empty_file [])
      | c ∷ p ↦ after_read env (c ∷ p) explicit (read (expand_user env.home (c ∷ p)))
    ]
