-- ===== src/Uboot.antt =====
-- internal/uboot/uboot.go: the orchestration of U-Boot over the console. The console, the power
-- control and the receiver of events are a device on a world `W`; a compiled pattern is its test.
pub mod Output
pub mod Netboot
pub mod Sent
pub mod Order
pub mod Checks
mod Tests
use unwedge.Base.{
  ℕ, zero, suc, ◌+◌, ◌-◌, ◌*◌, ◌^◌, Bytes, codes, Bool, true, false, ◌&&◌, ◌||◌, not, Option, some,
  none, List, [], ◌∷◌, ◌++◌, length, drop, ltb, if◌then◌else◌, eqb,
}
use unwedge.Base.Int.{ℤ, pos, is_positive, to_ℕ}
use unwedge.Power.{Controller}

pub record Config : Type 0 where
  pub prompt_pattern : Bytes
  pub interrupt_pattern : Bytes
  pub interrupt_key : Bytes
  pub eth_act : Bytes
  pub load_addr : Bytes
  pub core_mask : Bytes
  pub server_ip : Bytes
  pub command_timeout : ℤ
  pub kernel_banner : Bytes

-- `if c.X == "" { c.X = … }`
unfoldable pub or_text : Bytes → Bytes → Bytes
or_text [] default = default
or_text (c ∷ s) default = c ∷ s

unfoldable pub or_timeout : ℤ → ℤ → ℤ
or_timeout (pos zero) default = default
or_timeout (pos (suc n)) default = pos (suc n)
or_timeout (ℤ.negsuc n) default = ℤ.negsuc n

abbrev pub second : ℕ
second = 1_000_000_000

unfoldable pub with_defaults : Config → Config
unfolding or_text or_timeout
with_defaults c = record c {
  prompt_pattern = or_text c.prompt_pattern (codes "=> ?$");
  interrupt_pattern = or_text c.interrupt_pattern (codes "Hit ctrl-x to stop booting");
  interrupt_key = or_text c.interrupt_key (codes "ctrl-x");
  eth_act = or_text c.eth_act (codes "octmgmt0");
  load_addr = or_text c.load_addr (codes "0x20000000");
  core_mask = or_text c.core_mask (codes "f");
  command_timeout = or_timeout c.command_timeout (pos (30 * second));
  kernel_banner =
      or_text c.kernel_banner
        (codes "(Linux version|Loading big-endian Linux kernel|Starting cores)");
}

pub data EventKind : Type 0 where
  event_info event_console event_stage event_success event_error : EventKind

pub record Event : Type 0 where
  pub kind : EventKind
  pub stage : Bytes
  pub message : Bytes
  pub console : Bytes

pub data UbootError : Type 0 where
  no_power cycle_failed no_autoboot send_failed no_prompt : UbootError
  image_required server_ip_required write_failed console_closed : UbootError
  context_error : UbootError
  marker_found : Bytes → UbootError
  boot_failed : UbootError → UbootError

-- What the select of sendAndExpect takes next: a chunk, the end of the channel, or of the context.
pub data Arrival : Type 0 where
  chunk : Bytes → Arrival
  ended context_done : Arrival

-- The console and the receiver of events, as the orchestrator uses them. `subscribed` yields what a
-- new subscription and the context bring until one of them ends.
pub record Device (W : Type 0) : Type 0 where
  pub write : Bytes → W → W × Bool
  pub subscribed : W → W × List Arrival
  pub wait_for_pattern : (Bytes → Bool) → ℕ → W → W × Bool
  pub context_ended : W → W × Bool
  pub cycle : Option (W → W × Bool)
  pub emit : Event → W → W

pub record Orchestrator (W : Type 0) : Type 0 where
  pub device : Device W
  pub cfg : Config
  pub prompt_re : Bytes → Bool
  pub interrupt_re : Bytes → Bool
  pub banner_re : Bytes → Bool
  pub interrupt_kb : Bytes

-- New: every pattern compiles and the key has bytes, or there is no orchestrator.
unfoldable pub new_orchestrator :
    {W : Type 0}
    → (Bytes → Option (Bytes → Bool))
    → (Bytes → Option Bytes)
    → Device W
    → Config
    → Option (Orchestrator W)
unfolding with_defaults
new_orchestrator compile key_bytes device config =
    let cfg = with_defaults config in
    elim (compile cfg.prompt_pattern) [
      | none ↦ none
      | some prompt ↦ elim (compile cfg.interrupt_pattern) [
        | none ↦ none
        | some interrupt ↦ elim (compile cfg.kernel_banner) [
          | none ↦ none
          | some banner ↦ elim (key_bytes cfg.interrupt_key) [
            | none ↦ none
            | some kb ↦ some (record {
              device = device;
              cfg = cfg;
              prompt_re = prompt;
              interrupt_re = interrupt;
              banner_re = banner;
              interrupt_kb = kb;
            })
          ]
        ]
      ]
    ]

-- The output that sendAndExpect returns, with its error; without one the pattern has matched.
pub record Expected : Type 0 where
  pub output : Bytes
  pub err : Option UbootError

-- `if len(acc) > 1<<20`
unfoldable pub bounded : Bytes → Bytes
bounded acc = if ltb (2 ^ 20) (length acc) then drop (length acc - 2 ^ 19) acc else acc

module _ {W : Type 0} where
  unfoldable pub info : Device W → Bytes → Bytes → W → W
  info d stage message =
      d.emit (record { kind = event_info; stage = stage; message = message; console = [] })

  unfoldable pub emit_stage : Device W → Bytes → Bytes → W → W
  emit_stage d stage message =
      d.emit (record { kind = event_stage; stage = stage; message = message; console = [] })

  unfoldable pub emit_console : Device W → Bytes → Bytes → W → W
  emit_console d stage [] w = w
  emit_console d stage (c ∷ s) w =
      d.emit (record { kind = event_console; stage = stage; message = []; console = c ∷ s }) w

  -- A chunk that is passed on, or, where the receiver is nil, is not.
  unfoldable pub emit_chunk : Device W → Option Bytes → Bytes → W → W
  emit_chunk d none p w = w
  emit_chunk d (some stage) p w = emit_console d stage p w

  -- The loop of sendAndExpect. The stage is none where the receiver of events is nil.
  unfoldable pub expect :
      Device W → (Bytes → Bool) → Option Bytes → List Arrival → Bytes → W → W × Expected
  expect d re stage [] acc w = (w, record { output = acc; err = some context_error })
  expect d re stage (context_done ∷ as') acc w =
      (w, record { output = acc; err = some context_error })
  expect d re stage (ended ∷ as') acc w = (w, record { output = acc; err = some console_closed })
  expect d re stage (chunk p ∷ as') acc w =
      let w' = emit_chunk d stage p w in
      let rest = expect d re stage as' (bounded (acc ++ p)) w' in
      if re (acc ++ p) then (w', record { output = acc ++ p; err = none }) else rest

  -- sendAndExpect with something to send: the subscription stands before the write.
  unfoldable pub send_and_expect :
      Device W → Bytes → (Bytes → Bool) → Option Bytes → W → W × Expected
  send_and_expect d to_send re stage w =
      let (w1, arrivals) = d.subscribed w in
      let (w2, sent) = d.write to_send w1 in
      if sent
      then expect d re stage arrivals [] w2
      else (w2, record { output = []; err = some write_failed })
