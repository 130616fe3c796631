-- ===== src/Uboot/Netboot.antt =====
-- internal/uboot/uboot.go: InterruptBoot and Netboot.
use unwedge.Base.{
  ℕ, zero, suc, Bytes, codes, Bool, true, Option, some, none, List, [], ◌∷◌, ◌++◌, if◌then◌else◌,
  trim_space,
}
use unwedge.Uboot.{
  Config, Orchestrator, UbootError, no_power, cycle_failed, no_autoboot, send_failed, no_prompt,
  image_required, server_ip_required, boot_failed, context_error, info, emit_stage, send_and_expect,
  or_text,
}
use unwedge.Uboot.Output.{run_checked}
use unwedge.Base.Decimal.{hexadecimal, hex8}

-- NetbootParams
pub record NetbootParams : Type 0 where
  pub image : Bytes
  pub power_cycle : Bool
  pub server_ip : Bytes
  pub kernel_args : Bytes
  pub verify_crc32 : Bool
  pub image_len : ℕ
  pub image_crc32 : ℕ

-- `%q` of a printable key.
unfoldable pub key_message : Bytes → Bytes
key_message key =
    codes "autoboot prompt seen; sending interrupt key " ++ (34 ∷ []) ++ key ++ (34 ∷ [])

module _ {W : Type 0} where
  -- `if err != nil { return err }` before the rest.
  unfoldable pub then_run :
      W × Option UbootError → (W → W × Option UbootError) → W × Option UbootError
  then_run (w, none) k = k w
  then_run (w, some e) k = (w, some e)

  -- The loop that sends the interrupt key; the number counts the attempts that are left.
  unfoldable pub attempts : Orchestrator W → ℕ → W → W × Option UbootError
  attempts o zero w = (w, some no_prompt)
  attempts o (suc n) w =
      let (w1, sent) = o.device.write o.interrupt_kb w in
      let (w2, seen) = o.device.wait_for_pattern o.prompt_re 256 w1 in
      let (w3, over) = o.device.context_ended w2 in
      let rest = attempts o n w3 in
      if sent
      then (if seen
          then (emit_stage o.device (codes "prompt") (codes "reached U-Boot prompt") w2, none)
          else if over
          then (w3, some context_error)
          else rest)
      else (w1, some send_failed)

  unfoldable pub await_autoboot : Orchestrator W → W → W × Option UbootError
  await_autoboot o w =
      let stage = codes "await_interrupt" in
      let (w1, seen) =
        o.device.wait_for_pattern o.interrupt_re 0
          (emit_stage o.device stage (codes "waiting for U-Boot autoboot prompt") w) in
      if seen
      then attempts o 8 (info o.device stage (key_message o.cfg.interrupt_key) w1)
      else (w1, some no_autoboot)

  unfoldable pub power_cycled : Orchestrator W → W → W × Option UbootError
  power_cycled o w = elim o.device.cycle [
    | none ↦ (w, some no_power)
    | some cycle ↦
        let (w', done) =
          cycle (emit_stage o.device (codes "power_cycle") (codes "power-cycling target") w) in
        if done then (w', none) else (w', some cycle_failed)
  ]

  unfoldable pub interrupt_boot : Orchestrator W → Bool → W → W × Option UbootError
  interrupt_boot o power_cycle w =
      then_run (if power_cycle then power_cycled o w else (w, none)) (await_autoboot o)

-- A checked command: the stage that is announced before it, its own stage, and its error markers.
pub record Step : Type 0 where
  pub announced : Bytes
  pub stage : Bytes
  pub command : Bytes
  pub markers : List Bytes

abbrev pub net_step : Bytes → List Bytes → Step
net_step command markers = record {
  announced = [];
  stage = codes "net";
  command = command;
  markers = markers;
}

unfoldable pub crc_steps : Config → NetbootParams → List Step
crc_steps cfg p =
    if p.verify_crc32
    then record {
      announced = codes "verifying CRC32 of loaded image";
      stage = codes "verify";
      command =
          codes "crc32 -v "
          ++ cfg.load_addr
          ++ codes " 0x"
          ++ hexadecimal p.image_len
          ++ codes " "
          ++ hex8 p.image_crc32;
      markers = codes "bad" ∷ codes "!=" ∷ codes "error" ∷ [];
    }
      ∷ []
    else []

-- The commands before the boot, in the order of the code.
unfoldable pub netboot_steps : Config → NetbootParams → Bytes → List Step
netboot_steps cfg p server_ip =
    net_step (codes "setenv ethact " ++ cfg.eth_act) (codes "Unknown command" ∷ [])
    ∷ net_step (codes "dhcp") (codes "TIMEOUT" ∷ codes "not set" ∷ codes "failed" ∷ [])
    ∷ net_step (codes "setenv serverip " ++ server_ip) []
    ∷ net_step (codes "setenv loadaddr " ++ cfg.load_addr) []
    ∷ record {
      announced = codes "fetching image over TFTP";
      stage = codes "tftp";
      command = codes "tftpboot $loadaddr $serverip:/" ++ p.image;
      markers =
          codes "TFTP error" ∷ codes "Retry count exceeded" ∷ codes "not set" ∷ codes "abort" ∷ [];
    }
    ∷ crc_steps cfg p

unfoldable pub kernel_args : Bytes → Bytes
kernel_args args = elim (trim_space args) [ [] ↦ [] | c ∷ s ↦ codes " " ++ (c ∷ s) ]

unfoldable pub boot_command : Config → NetbootParams → Bytes
boot_command cfg p =
    codes "bootoctlinux $loadaddr coremask="
    ++ cfg.core_mask
    ++ codes " endbootargs panic=0"
    ++ kernel_args p.kernel_args

module _ {W : Type 0} where
  unfoldable pub announce : Orchestrator W → Bytes → Bytes → W → W
  announce o stage [] w = w
  announce o stage (c ∷ s) w = emit_stage o.device stage (c ∷ s) w

  unfoldable pub run_steps : Orchestrator W → List Step → W → W × Option UbootError
  run_steps o [] w = (w, none)
  run_steps o (s ∷ ss) w =
      then_run (run_checked o s.stage s.command s.markers (announce o s.stage s.announced w))
        (run_steps o ss)

  -- After the wait for the banner of the kernel.
  unfoldable pub booted : Orchestrator W → Option UbootError → W → W × Option UbootError
  booted o (some e) w = (w, some (boot_failed e))
  booted o none w = (emit_stage o.device (codes "boot") (codes "kernel is booting") w, none)

  unfoldable pub boot_kernel : Orchestrator W → NetbootParams → W → W × Option UbootError
  boot_kernel o p w =
      let command = boot_command o.cfg p in
      let (w', seen) =
        send_and_expect o.device (command ++ 13 ∷ []) o.banner_re (some (codes "boot"))
          (emit_stage o.device (codes "boot") (codes "booting kernel: " ++ command) w) in
      booted o seen.err w'

  -- Netboot past its checks of the parameters.
  unfoldable pub netboot_to : Orchestrator W → NetbootParams → Bytes → W → W × Option UbootError
  netboot_to o p server_ip w =
      then_run (if p.power_cycle then interrupt_boot o true w else (w, none))
        λ w1. then_run (run_steps o (netboot_steps o.cfg p server_ip) w1) (boot_kernel o p)

  -- Netboot; its timeout is the context's.
  unfoldable pub netboot : Orchestrator W → NetbootParams → W → W × Option UbootError
  netboot o p w = elim p.image [
    | [] ↦ (w, some image_required)
    | c ∷ s ↦ elim (or_text p.server_ip o.cfg.server_ip) [
      | [] ↦ (w, some server_ip_required)
      | d ∷ t ↦ netboot_to o p (d ∷ t) w
    ]
  ]
