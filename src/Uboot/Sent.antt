-- ===== src/Uboot/Sent.antt =====
-- internal/uboot/uboot.go: what the operations write to the console.
use unwedge.Base.{
  ◌≡◌, refl, ap, ◌∙◌, Bytes, codes, Bool, Option, some, none, List, [], ◌∷◌, ◌++◌, Bool-cases, inl,
  inr,
}
use unwedge.Uboot.{
  Device, Orchestrator, Expected, Event, UbootError, Arrival, chunk, ended, context_done, info,
  emit_stage, emit_console, emit_chunk, expect, send_and_expect,
}
use unwedge.Uboot.Output.{run_command, run_checked, checked}
use unwedge.Uboot.Netboot.{NetbootParams, announce, booted, boot_kernel, boot_command}

-- The world keeps a log of what is written to the console, and nothing else touches it.
pub record Logs {W : Type 0} (d : Device W) (log : W → List Bytes) : Type 0 where
  pub writes : (b : Bytes) (w : W) → log (d.write b w).0 ≡ log w ++ b ∷ []
  pub subscribes : (w : W) → log (d.subscribed w).0 ≡ log w
  pub emits : (e : Event) (w : W) → log (d.emit e w) ≡ log w

-- A command as it is sent.
abbrev pub line : Bytes → Bytes
line command = command ++ 13 ∷ []

module _ {W : Type 0} (o : Orchestrator W) (log : W → List Bytes) (logs : Logs o.device log) where
  emit_chunk-log :
      (stage : Option Bytes) (p : Bytes) (w : W) → log (emit_chunk o.device stage p w) ≡ log w
  unfolding emit_chunk emit_console
  emit_chunk-log none p w = refl
  emit_chunk-log (some stage) [] w = refl
  emit_chunk-log (some stage) (c ∷ p) w = logs.emits _ w

  expect-log :
      (re : Bytes → Bool) (stage : Option Bytes) (as' : List Arrival) (acc : Bytes) (w : W)
      → log (expect o.device re stage as' acc w).0 ≡ log w
  unfolding expect
  expect-log re stage [] acc w = refl
  expect-log re stage (context_done ∷ as') acc w = refl
  expect-log re stage (ended ∷ as') acc w = refl
  expect-log re stage (chunk p ∷ as') acc w = elim (Bool-cases (re (acc ++ p))) [
    | inl h ↦ simp h (emit_chunk-log stage p w)
    | inr h ↦
        simp h
          (expect-log re stage as' _ (emit_chunk o.device stage p w) ∙ emit_chunk-log stage p w)
  ]

  send_and_expect-log :
      (b : Bytes) (re : Bytes → Bool) (stage : Option Bytes) (w : W)
      → log (send_and_expect o.device b re stage w).0 ≡ log w ++ b ∷ []
  unfolding send_and_expect
  send_and_expect-log b re stage w =
      let w1 : W = (o.device.subscribed w).0 in
      let sent : log (o.device.write b w1).0 ≡ log w ++ b ∷ [] =
        logs.writes b w1 ∙ ap (λ l. l ++ b ∷ []) (logs.subscribes w) in
      elim (Bool-cases (o.device.write b w1).1) [
        | inl h ↦
            simp h (expect-log re stage (o.device.subscribed w).1 [] (o.device.write b w1).0 ∙ sent)
        | inr h ↦ simp h sent
      ]

  run_command-log :
      (command : Bytes) (w : W) → log (run_command o command w).0 ≡ log w ++ line command ∷ []
  unfolding run_command
  run_command-log command w = send_and_expect-log (line command) o.prompt_re none w

  checked-log : (e : Option UbootError) (k : Option Bytes) (w : W) → log (checked e k w).0 ≡ log w
  unfolding checked
  checked-log (some e) k w = refl
  checked-log none none w = refl
  checked-log none (some k) w = refl

  info-log : (stage message : Bytes) (w : W) → log (info o.device stage message w) ≡ log w
  unfolding info
  info-log stage message w = logs.emits _ w

  emit_stage-log :
      (stage message : Bytes) (w : W) → log (emit_stage o.device stage message w) ≡ log w
  unfolding emit_stage
  emit_stage-log stage message w = logs.emits _ w

  pub announce-log : (stage message : Bytes) (w : W) → log (announce o stage message w) ≡ log w
  unfolding announce
  announce-log stage [] w = refl
  announce-log stage (c ∷ s) w = emit_stage-log stage (c ∷ s) w

  pub run_checked-log :
      (stage command : Bytes) (markers : List Bytes) (w : W)
      → log (run_checked o stage command markers w).0 ≡ log w ++ line command ∷ []
  unfolding run_checked emit_chunk
  run_checked-log stage command markers w =
      let w0 : W = info o.device stage (codes "uboot> " ++ command) w in
      let ran : W × Expected = run_command o command w0 in
      checked-log _ _ (emit_console o.device stage ran.1.output ran.0)
      ∙ emit_chunk-log (some stage) ran.1.output ran.0
      ∙ run_command-log command w0
      ∙ ap (λ l. l ++ line command ∷ []) (info-log stage (codes "uboot> " ++ command) w)

  booted-log : (e : Option UbootError) (w : W) → log (booted o e w).0 ≡ log w
  unfolding booted
  booted-log (some e) w = refl
  booted-log none w = emit_stage-log (codes "boot") (codes "kernel is booting") w

  pub boot_kernel-log :
      (p : NetbootParams) (w : W)
      → log (boot_kernel o p w).0 ≡ log w ++ line (boot_command o.cfg p) ∷ []
  unfolding boot_kernel
  boot_kernel-log p w =
      let command : Bytes = boot_command o.cfg p in
      let w0 : W = emit_stage o.device (codes "boot") (codes "booting kernel: " ++ command) w in
      let ran : W × Expected =
        send_and_expect o.device (line command) o.banner_re (some (codes "boot")) w0 in
      let sent : log ran.0 ≡ log w ++ line command ∷ [] =
        send_and_expect-log (line command) o.banner_re (some (codes "boot")) w0
        ∙ ap (λ l. l ++ line command ∷ [])
            (emit_stage-log (codes "boot") (codes "booting kernel: " ++ command) w) in
      booted-log ran.1.err ran.0 ∙ sent
