-- ===== src/Cli.antt =====
-- cmd/unwedge/main.go: the command line client, up to the calls that a command makes. Parsing of flags
-- is the library's; what a command prints is left out.
pub mod Locking
mod Tests
use unwedge.Base.{
  ℕ, Bytes, codes, Bool, true, false, ◌&&◌, not, Option, none, some, List, [], ◌∷◌, ◌++◌, ◌==◌,
  if◌then◌else◌, eqb, has_prefix, drop, ◌⊎◌, inl, inr,
}
use unwedge.Service.{PowerAction}
use unwedge.Gate.{is_exempt}
use unwedge.Bridge.{power_action_named}

pub data Command : Type 0 where
  status console log write power interrupt uboot netboot image ssh scp smoke : Command

abbrev pub commands : List (Bytes × Command)
commands =
    (codes "status", status)
    ∷ (codes "console", console)
    ∷ (codes "log", log)
    ∷ (codes "write", write)
    ∷ (codes "power", power)
    ∷ (codes "interrupt", interrupt)
    ∷ (codes "uboot", uboot)
    ∷ (codes "netboot", netboot)
    ∷ (codes "image", image)
    ∷ (codes "ssh", ssh)
    ∷ (codes "scp", scp)
    ∷ (codes "smoke", smoke)
    ∷ []

unfoldable pub command_in : Bytes → List (Bytes × Command) → Option Command
command_in name [] = none
command_in name (c ∷ cs) = if eqb name c.0 then some c.1 else command_in name cs

-- The switch of dispatch.
unfoldable pub command_named : Bytes → Option Command
command_named name = command_in name commands

-- lockFreeCommands
unfoldable pub is_lock_free : Command → Bool
is_lock_free status = true
is_lock_free console = true
is_lock_free log = true
is_lock_free c = false

-- Whether realMain acquires the lock first.
unfoldable pub takes_lock : Bool → Bytes → Bool
unfolding is_lock_free
takes_lock no_session name =
    not no_session && elim (command_named name) [ none ↦ true | some c ↦ not (is_lock_free c) ]

-- cmdOpts
pub record CmdOpts : Type 0 where
  pub keys : Bytes
  pub kernel_args : Bytes
  pub verify : Bool
  pub power_cycle : Bool
  pub timeout_ms : ℕ
  pub proxy : Bool
  pub ssh_command : Bytes

-- What a command asks of the client library.
pub data Request : Type 0 where
  get_status list_images tunnel : Request
  stream_console read_console_log : ℕ → Request
  write_console : Bytes → List Bytes → Request
  power_control : PowerAction → Request
  interrupt_boot : Bool → ℕ → Request
  run_uboot_command : Bytes → ℕ → Request
  netboot_image : Bytes → CmdOpts → Request
  upload_image : Bytes → Bool → Request
  delete_image : Bytes → Request
  ssh_exec : Bytes → ℕ → Request
  scp_download scp_upload : Bytes → Bytes → ℕ → Request
  smoke_run : Bytes → CmdOpts → Request

pub data CliError : Type 0 where
  usage unknown_command invalid_action unknown_subcommand : CliError

abbrev pub Plan : Type 0
Plan = CliError ⊎ List Request

-- strings.Join(args, " ")
unfoldable pub joined : List Bytes → Bytes
joined [] = []
joined (a ∷ []) = a
joined (a ∷ b ∷ more) = a ++ b' ' ∷ joined (b ∷ more)

unfoldable pub with_first : Bytes → List Bytes → List Bytes
with_first c [] = c ∷ []
with_first c (w ∷ ws) = (c ++ w) ∷ ws

-- strings.Split(s, ",")
unfoldable pub split_commas : Bytes → List Bytes
unfolding with_first
split_commas [] = [] ∷ []
split_commas (c ∷ s) =
    let rest = split_commas s in if c == b',' then [] ∷ rest else with_first (c ∷ []) rest

unfoldable pub keys_of : Bytes → List Bytes
unfolding split_commas
keys_of [] = []
keys_of (c ∷ s) = split_commas (c ∷ s)

unfoldable pub cmd_power : List Bytes → Plan
cmd_power [] = inl usage
cmd_power (a ∷ args) = elim (power_action_named a) [
  | none ↦ inl invalid_action
  | some p ↦ inr (power_control p ∷ [])
]

unfoldable pub cmd_uboot : List Bytes → CmdOpts → Plan
unfolding joined
cmd_uboot [] o = inl usage
cmd_uboot (a ∷ args) o =
    let command = run_uboot_command (joined (a ∷ args)) o.timeout_ms in
    inr (if o.power_cycle then interrupt_boot true o.timeout_ms ∷ command ∷ [] else command ∷ [])

unfoldable pub image_file : (Bytes → Request) → List Bytes → Plan
image_file request [] = inl usage
image_file request (a ∷ args) = inr (request a ∷ [])

unfoldable pub cmd_image : List Bytes → Plan
unfolding image_file
cmd_image [] = inl usage
cmd_image (a ∷ args) =
    if eqb a (codes "ls")
    then inr (list_images ∷ [])
    else if eqb a (codes "upload")
    then image_file (λ f. upload_image f true) args
    else if eqb a (codes "rm")
    then image_file delete_image args
    else inl unknown_subcommand

unfoldable pub cmd_ssh : List Bytes → CmdOpts → Plan
unfolding joined
cmd_ssh args o = if o.proxy then inr (tunnel ∷ []) else elim args [
  | [] ↦ inl usage
  | a ∷ more ↦ inr (ssh_exec (joined (a ∷ more)) o.timeout_ms ∷ [])
]

unfoldable pub copied : Bytes → Bytes → CmdOpts → Plan
copied src dst o =
    let src_remote = has_prefix src (codes ":") in
    let dst_remote = has_prefix dst (codes ":") in
    if src_remote && not dst_remote
    then inr (scp_download (drop 1 src) dst o.timeout_ms ∷ [])
    else if dst_remote && not src_remote
    then inr (scp_upload src (drop 1 dst) o.timeout_ms ∷ [])
    else inl usage

unfoldable pub cmd_scp : List Bytes → CmdOpts → Plan
unfolding copied
cmd_scp [] o = inl usage
cmd_scp (src ∷ []) o = inl usage
cmd_scp (src ∷ dst ∷ []) o = copied src dst o
cmd_scp (src ∷ dst ∷ more ∷ args) o = inl usage

-- The first argument, which the command needs.
unfoldable pub with_argument : (Bytes → Request) → List Bytes → Plan
with_argument request [] = inl usage
with_argument request (a ∷ args) = inr (request a ∷ [])

-- The argument of log is read by `fmt.Sscanf`, which leaves zero for what is no number.
unfoldable pub max_bytes : (Bytes → ℕ) → List Bytes → ℕ
max_bytes scanned [] = 0
max_bytes scanned (a ∷ args) = scanned a

-- dispatch of a command: its requests in order, each made if the one before succeeded.
unfoldable pub requests : (Bytes → ℕ) → Command → List Bytes → CmdOpts → Plan
unfolding cmd_power cmd_uboot cmd_image cmd_ssh cmd_scp with_argument max_bytes keys_of joined
requests scanned status args o = inr (get_status ∷ [])
requests scanned console args o = inr (stream_console 8192 ∷ [])
requests scanned log args o = inr (read_console_log (max_bytes scanned args) ∷ [])
requests scanned write args o = inr (write_console (joined args) (keys_of o.keys) ∷ [])
requests scanned power args o = cmd_power args
requests scanned interrupt args o = inr (interrupt_boot o.power_cycle o.timeout_ms ∷ [])
requests scanned uboot args o = cmd_uboot args o
requests scanned netboot args o = with_argument (λ a. netboot_image a o) args
requests scanned image args o = cmd_image args
requests scanned ssh args o = cmd_ssh args o
requests scanned scp args o = cmd_scp args o
requests scanned smoke args o = with_argument (λ a. smoke_run a o) args
