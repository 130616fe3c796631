-- ===== src/Daemon.antt =====
-- internal/config/config.go and cmd/unwedged/main.go: the configuration of the daemon and what is
-- built from it. The YAML reader is an argument.
pub mod Instances
pub mod Startup
mod Tests
use unwedge.Base.{
  ℕ, ◌+◌, ◌*◌, ◌/◌, ◌^◌, Bytes, codes, Bool, true, false, ◌&&◌, ◌||◌, not, Option, none, some, List,
  [], ◌∷◌, ◌++◌, leb, ltb, ◌==◌, take, drop, if◌then◌else◌, eqb, contains_sub, ◌⊎◌, inl, inr,
}
use unwedge.Base.Int.{ℤ, pos, negsuc, is_positive}
use unwedge.Power.Address.{last_index_byte}
use unwedge.Power.Apc.{ApcConfig}
use unwedge.Images.{Store, base, namespaced, new_store}
use unwedge.Session.{Manager, new_manager}
use unwedge.Uboot

abbrev second : ℕ
second = 1_000_000_000

abbrev pub minute : ℕ
minute = 60 * second

abbrev pub hour : ℕ
hour = 60 * minute

pub record SessionConfig : Type 0 where
  pub enabled : Option Bool
  pub ttl : ℤ

pub record SerialConfig : Type 0 where
  pub device : Bytes
  pub baud : ℤ
  pub buffer_bytes : ℤ

pub record PowerConfig : Type 0 where
  pub address : Bytes
  pub community : Bytes
  pub outlet : ℤ
  pub version : Bytes
  pub off_duration : ℤ
  pub timeout : ℕ
  pub retries : ℤ
  pub command_oid_base : Bytes
  pub state_oid_base : Bytes

pub record TftpConfig : Type 0 where
  pub dir : Bytes
  pub address : Bytes
  pub enabled : Option Bool
  pub max_age : ℤ

pub record SshConfig : Type 0 where
  pub host : Bytes
  pub user : Bytes
  pub password : Bytes
  pub private_key_path : Bytes
  pub known_hosts_path : Bytes
  pub dial_timeout : ℤ

pub record TlsConfig : Type 0 where
  pub enabled : Option Bool
  pub cert_file : Bytes
  pub key_file : Bytes
  pub client_ca_file : Bytes

pub record GrpcConfig : Type 0 where
  pub address : Bytes
  pub tls : TlsConfig

pub record Config : Type 0 where
  pub name : Bytes
  pub serial : SerialConfig
  pub power : PowerConfig
  pub uboot : Uboot.Config
  pub tftp : TftpConfig
  pub ssh : SshConfig
  pub grpc : GrpcConfig
  pub session : SessionConfig

unfoldable pub default : Config
default = record {
  name = [];
  serial = record {
    device = codes "/dev/serial/by-id/usb-FTDI_FT232R_USB_UART_ST163104-if00-port0";
    baud = pos 115200;
    buffer_bytes = pos (2 ^ 20);
  };
  power = record {
    address = [];
    community = codes "private";
    outlet = pos 3;
    version = codes "v1";
    off_duration = pos (5 * second);
    timeout = 3 * second;
    retries = pos 1;
    command_oid_base = [];
    state_oid_base = [];
  };
  uboot = record {
    prompt_pattern = [];
    interrupt_pattern = [];
    interrupt_key = [];
    eth_act = codes "octmgmt0";
    load_addr = codes "0x20000000";
    core_mask = codes "f";
    server_ip = [];
    command_timeout = pos (30 * second);
    kernel_banner = [];
  };
  tftp = record {
    dir = codes "/var/lib/unwedge/images";
    address = codes ":69";
    enabled = some true;
    max_age = pos (6 * hour);
  };
  ssh = record {
    host = [];
    user = codes "root";
    password = [];
    private_key_path = [];
    known_hosts_path = [];
    dial_timeout = pos (10 * second);
  };
  grpc = record {
    address = codes ":7777";
    tls = record { enabled = some true; cert_file = []; key_file = []; client_ca_file = [] };
  };
  session = record { enabled = some true; ttl = pos (5 * minute) };
}

-- SessionEnabled, TFTPEnabled and TLSEnabled: on unless set to false.
unfoldable pub is_enabled : Option Bool → Bool
is_enabled none = true
is_enabled (some b) = b

-- What filepath.Ext cuts off: from the last dot on.
unfoldable pub without_ext : Bytes → Bytes
without_ext b = elim (last_index_byte b b'.') [ none ↦ b | some i ↦ take i b ]

unfoldable pub default_instance_name : Bytes → Bytes
unfolding without_ext
default_instance_name path =
    let name = without_ext (base path) in if eqb name (codes "config") then [] else name

unfoldable pub is_alnum : ℕ → Bool
is_alnum c = (leb b'A' c && leb c b'Z') || (leb b'a' c && leb c b'z') || (leb b'0' c && leb c b'9')

unfoldable pub is_name_byte : ℕ → Bool
unfolding is_alnum
is_name_byte c = is_alnum c || c == b'.' || c == b'_' || c == b'-'

abbrev pub all_bytes : (ℕ → Bool) → Bytes → Bool
all_bytes p [] = true
all_bytes p (c ∷ s) = p c && all_bytes p s

-- instanceNameRe
unfoldable pub matches_instance_name : Bytes → Bool
unfolding is_alnum is_name_byte
matches_instance_name [] = false
matches_instance_name (c ∷ s) = is_alnum c && all_bytes is_name_byte s

pub data ConfigError : Type 0 where
  invalid_name device_required baud_not_positive address_required : ConfigError
  cert_and_key_required dir_required outlet_required : ConfigError
  unreadable bad_yaml : ConfigError

unfoldable pub is_invalid_name : Bytes → Bool
unfolding matches_instance_name
is_invalid_name name =
    not (eqb name []) && (not (matches_instance_name name) || contains_sub name (codes "--"))

unfoldable pub validate : Config → Option ConfigError
unfolding is_invalid_name is_enabled
validate c =
    if is_invalid_name c.name
    then some invalid_name
    else if eqb c.serial.device []
    then some device_required
    else if not (is_positive c.serial.baud)
    then some baud_not_positive
    else if eqb c.grpc.address []
    then some address_required
    else if is_enabled c.grpc.tls.enabled
        && (eqb c.grpc.tls.cert_file [] || eqb c.grpc.tls.key_file [])
    then some cert_and_key_required
    else if is_enabled c.tftp.enabled && eqb c.tftp.dir []
    then some dir_required
    else if not (eqb c.power.address []) && not (is_positive c.power.outlet)
    then some outlet_required
    else none

unfoldable pub named : Bytes → Config → Config
unfolding default_instance_name
named path c = if eqb c.name [] then record c { name = default_instance_name path } else c

unfoldable pub validated : Config → ConfigError ⊎ Config
validated c = elim (validate c) [ none ↦ inr c | some e ↦ inl e ]

-- Load: `read` yields the bytes of the file, `overlay` what yaml.Unmarshal makes of the defaults.
unfoldable pub load :
    (Bytes → Option Bytes) → (Bytes → Config → Option Config) → Bytes → ConfigError ⊎ Config
unfolding validated named
load read overlay path = elim (read path) [
  | none ↦ inl unreadable
  | some b ↦ elim (overlay b default) [ none ↦ inl bad_yaml | some c ↦ validated (named path c) ]
]

-- What run hands to power.NewAPC.
unfoldable pub apc_config : Config → ApcConfig
apc_config c = record {
  address = c.power.address;
  community = c.power.community;
  outlet = c.power.outlet;
  version = c.power.version;
  timeout = c.power.timeout;
  retries = c.power.retries;
  command_oid_base = c.power.command_oid_base;
  state_oid_base = c.power.state_oid_base;
  off_duration = c.power.off_duration;
}

-- The store that the gRPC service is given; none without a directory.
unfoldable pub store_in : Bytes → Bytes → Option Store
store_in dir name = elim (new_store dir) [ none ↦ none | some raw ↦ some (namespaced name raw) ]

unfoldable pub service_store : Config → Option Store
service_store c = store_in c.tftp.dir c.name

-- The lock, none when locking is disabled.
unfoldable pub sessions : Config → Option Manager
unfolding is_enabled
sessions c = if is_enabled c.session.enabled then some (new_manager c.session.ttl) else none

-- The time between two sweeps of startImageReaper.
unfoldable pub reaper_interval : ℕ → ℕ
reaper_interval max_age =
    let sixth = max_age / 6 in
    let raised = if ltb sixth minute then minute else sixth in
    if ltb hour raised then hour else raised
