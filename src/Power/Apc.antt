-- ===== src/Power/Apc.antt =====
-- internal/power/apc.go: the APC PDU over SNMP. The SNMP library (gosnmp) is a parameter.
use unwedge.Base.{
  ℕ, ◌*◌, Bytes, codes, Bool, Option, none, some, List, [], ◌∷◌, ◌++◌, if◌then◌else◌, ltb, eqb,
  ◌||◌, ◌⊎◌, inl, inr,
}
use unwedge.Base.Decimal.{decimal}
use unwedge.Base.Int.{ℤ, pos, negsuc, is_positive, to_ℕ}
use unwedge.Grpc.{int64}
use unwedge.Power.{
  State, unknown, on, off, PowerError, device, Context, Controller, or_default, cycle,
  nanosecond_second,
}
use unwedge.Power.Address.{split_host_port}

abbrev pub oid_outlet_command : Bytes
oid_outlet_command = codes "1.3.6.1.4.1.318.1.1.12.3.3.1.1.4"

abbrev pub oid_outlet_state : Bytes
oid_outlet_state = codes "1.3.6.1.4.1.318.1.1.12.3.5.1.1.4"

abbrev pub cmd_immediate_on : ℕ
cmd_immediate_on = 1

abbrev pub cmd_immediate_off : ℕ
cmd_immediate_off = 2

pub record ApcConfig : Type 0 where
  pub address : Bytes
  pub community : Bytes
  pub outlet : ℤ
  pub version : Bytes
  pub timeout : ℕ
  pub retries : ℤ
  pub command_oid_base : Bytes
  pub state_oid_base : Bytes
  pub off_duration : ℤ

pub record Apc : Type 0 where
  pub cfg : ApcConfig
  pub cmd_oid : Bytes
  pub st_oid : Bytes

pub data ApcError : Type 0 where
  address_required outlet_invalid : ApcError

-- `base` or the default, a dot and the outlet.
unfoldable pub oid_of : Bytes → Bytes → ℕ → Bytes
oid_of base default outlet = (if eqb base [] then default else base) ++ b'.' ∷ decimal outlet

unfoldable pub new_apc : ApcConfig → ApcError ⊎ Apc
unfolding oid_of
new_apc cfg =
    if eqb cfg.address []
    then inl address_required
    else if is_positive cfg.outlet
    then inr (record {
      cfg = cfg;
      cmd_oid = oid_of cfg.command_oid_base oid_outlet_command (to_ℕ cfg.outlet);
      st_oid = oid_of cfg.state_oid_base oid_outlet_state (to_ℕ cfg.outlet);
    })
    else inl outlet_invalid

-- The connection that defaultDial describes; `is_v2c` for the SNMP version.
pub record Target : Type 0 where
  pub host : Bytes
  pub port : ℕ
  pub community : Bytes
  pub is_v2c : Bool
  pub timeout : ℕ
  pub retries : ℤ

unfoldable pub default_dial : Apc → Target
default_dial a =
    let (host, port) = split_host_port a.cfg.address 161 in
    record {
      host = host;
      port = port;
      community = if eqb a.cfg.community [] then codes "private" else a.cfg.community;
      is_v2c =
          eqb a.cfg.version (codes "2c")
          || eqb a.cfg.version (codes "v2c")
          || eqb a.cfg.version (codes "2");
      timeout = if ltb 0 a.cfg.timeout then a.cfg.timeout else 3 * nanosecond_second;
      retries = a.cfg.retries;
    }

-- The dynamic types of an SNMP value that the program tells apart, each in its own range.
pub data SnmpValue : Type 0 where
  int int64_value : ℤ → SnmpValue
  uint uint64 uint32 : ℕ → SnmpValue
  other_value : SnmpValue

unfoldable pub as_int : SnmpValue → Option ℤ
as_int (int n) = some n
as_int (int64_value n) = some n
as_int (uint n) = some (int64 n)
as_int (uint64 n) = some (int64 n)
as_int (uint32 n) = some (pos n)
as_int other_value = none

-- The answer to a Set: none without a packet, or its error status, 0 for NoError.
pub data SetAnswer : Type 0 where
  set_failed : ℕ → SetAnswer
  set_done : Option ℕ → SetAnswer

pub data GetAnswer : Type 0 where
  get_failed : ℕ → GetAnswer
  variables : List SnmpValue → GetAnswer

-- What the program uses of an SNMP connection to the target; an error is a number.
pub record Snmp (W : Type 0) : Type 0 where
  pub connect : W → W × Option ℕ
  pub set : Bytes → ℕ → W → W × SetAnswer
  pub get : Bytes → W → W × GetAnswer
  pub close : W → W

unfoldable pub set_error : SetAnswer → Option PowerError
set_error (set_failed e) = some (device e)
set_error (set_done none) = none
set_error (set_done (some status)) = if ltb 0 status then some (device status) else none

unfoldable pub outlet_state : ℤ → State
outlet_state (pos n) = elim n [
  | ℕ.zero ↦ unknown
  | ℕ.suc k ↦ elim k [ ℕ.zero ↦ on | ℕ.suc j ↦ elim j [ ℕ.zero ↦ off | ℕ.suc i ↦ unknown ] ]
]
outlet_state (negsuc n) = unknown

unfoldable pub value_state : Option ℤ → State × Option PowerError
unfolding outlet_state
value_state none = (unknown, some (device 0))
value_state (some n) = (outlet_state n, none)

-- The first variable of the answer.
unfoldable pub get_state : GetAnswer → State × Option PowerError
unfolding value_state as_int
get_state (get_failed e) = (unknown, some (device e))
get_state (variables []) = (unknown, some (device 0))
get_state (variables (v ∷ vs)) = value_state (as_int v)

module _ {W : Type 0} (snmp : Snmp W) (a : Apc) where
  -- `do` around a Set: connect, run, close.
  unfoldable pub set_command : ℕ → W → W × Option PowerError
  unfolding set_error
  set_command cmd w =
      let (w1, refused) = snmp.connect w in
      let (w2, answer) = snmp.set a.cmd_oid cmd w1 in
      elim refused [ some e ↦ (w1, some (device e)) | none ↦ (snmp.close w2, set_error answer) ]

  unfoldable pub apc_on : W → W × Option PowerError
  unfolding set_command
  apc_on = set_command cmd_immediate_on

  unfoldable pub apc_off : W → W × Option PowerError
  unfolding set_command
  apc_off = set_command cmd_immediate_off

  unfoldable pub apc_status : W → W × (State × Option PowerError)
  unfolding get_state
  apc_status w =
      let (w1, refused) = snmp.connect w in
      let (w2, answer) = snmp.get a.st_oid w1 in
      elim refused [
        | some e ↦ (w1, (unknown, some (device e)))
        | none ↦ (snmp.close w2, get_state answer)
      ]

  -- The controller with the cycle still to come; the helper calls only Off and On of it.
  unfoldable pub apc_switch : Controller W
  unfolding apc_on apc_off apc_status
  apc_switch = record {
    get_status = apc_status;
    turn_on = apc_on;
    turn_off = apc_off;
    power_cycle = λ ctx off_for w. (w, none);
  }

  unfoldable pub apc_cycle : Context → ℤ → W → W × Option PowerError
  unfolding apc_switch
  apc_cycle ctx off_for = cycle ctx apc_switch (or_default off_for a.cfg.off_duration) none

  unfoldable pub apc : Controller W
  unfolding apc_switch apc_cycle
  apc = record apc_switch { power_cycle = apc_cycle }
