-- ===== src/Uboot/Order.antt =====
-- internal/uboot/uboot.go: the course of a Netboot, and what it writes to the console in which order.
use unwedge.Base.{
  ◌≡◌, refl, sym, ap, subst, ◌∙◌, Bytes, codes, false, Option, some, none, List, [], ◌∷◌, ◌++◌,
  append_assoc, append-nil, map, ◌⊎◌, if◌then◌else◌, Bool-cases, inl, inr,
}
use mathlib.Core.List.{map-append}
use unwedge.Base.Decimal.{hexadecimal, hex8}
use unwedge.Uboot.{Config, Orchestrator, UbootError}
use unwedge.Uboot.Output.{run_checked}
use unwedge.Uboot.Netboot.{
  NetbootParams, Step, then_run, announce, run_steps, boot_kernel, netboot_to, netboot_steps,
  boot_command, crc_steps, kernel_args,
}
use unwedge.Uboot.Sent.{Logs, line, announce-log, run_checked-log, boot_kernel-log}

-- What is sent to the console for a netboot: the network, the image, its check if it is asked for,
-- and the boot.
abbrev pub recipe : Config → NetbootParams → Bytes → List Bytes
recipe cfg p server_ip =
    line (codes "setenv ethact " ++ cfg.eth_act)
      ∷ line (codes "dhcp")
      ∷ line (codes "setenv serverip " ++ server_ip)
      ∷ line (codes "setenv loadaddr " ++ cfg.load_addr)
      ∷ line (codes "tftpboot $loadaddr $serverip:/" ++ p.image)
      ∷ (if p.verify_crc32
          then line (
              codes "crc32 -v "
              ++ cfg.load_addr
              ++ codes " 0x"
              ++ hexadecimal p.image_len
              ++ codes " "
              ++ hex8 p.image_crc32)
            ∷ []
          else [])
    ++ line (
        codes "bootoctlinux $loadaddr coremask="
        ++ cfg.core_mask
        ++ codes " endbootargs panic=0"
        ++ kernel_args p.kernel_args)
      ∷ []

recipe-netboot_steps :
    (cfg : Config) (p : NetbootParams) (server_ip : Bytes)
    → map (λ s. line s.command) (netboot_steps cfg p server_ip) ++ line (boot_command cfg p) ∷ []
      ≡ recipe cfg p server_ip
unfolding netboot_steps crc_steps boot_command
recipe-netboot_steps cfg p server_ip = elim (Bool-cases p.verify_crc32) [
  | inl h ↦ rw h refl
  | inr h ↦ rw h refl
]

module _ {W : Type 0} (o : Orchestrator W) (log : W → List Bytes) (logs : Logs o.device log) where
  -- What the check of a step makes of the world that it meets.
  abbrev pub checked_step : Step → W → W × Option UbootError
  checked_step s w = run_checked o s.stage s.command s.markers (announce o s.stage s.announced w)

  -- Steps that were run one after the other, each of which has passed its check.
  pub data Passed : List Step → W → W → Type 0 where
    nothing : {w : W} → Passed [] w w
    further :
        {s : Step} {ss : List Step} {w w1 w2 : W}
        → checked_step s w ≡ (w1, none)
        → Passed ss w1 w2
        → Passed (s ∷ ss) w w2

  -- `r` is what the first step made that did not pass.
  pub record Stopped (ss : List Step) (w : W) (r : W × Option UbootError) : Type 0 where
    pub before : List Step
    pub step : Step
    pub unsent : List Step
    pub reached : W
    pub error : UbootError
    pub split : ss ≡ before ++ step ∷ unsent
    pub passed : Passed before w reached
    pub failed : checked_step step reached ≡ r
    pub is_error : r.1 ≡ some error

  Course : List Step → W → W × Option UbootError → Type 0
  Course ss w r = ((w1 : W) × Passed ss w w1 × (r ≡ (w1, none))) ⊎ Stopped ss w r

  then_run-Course :
      (s : Step) (ss : List Step) (w : W) (r : W × Option UbootError)
      → checked_step s w ≡ r
      → ((w1 : W) → Course ss w1 (run_steps o ss w1))
      → Course (s ∷ ss) w (then_run r (run_steps o ss))
  unfolding Course then_run
  then_run-Course s ss w (w1, some e) h later = inr (record {
    before = [];
    step = s;
    unsent = ss;
    reached = w;
    error = e;
    split = refl;
    passed = nothing;
    failed = h;
    is_error = refl;
  })
  then_run-Course s ss w (w1, none) h later = elim (later w1) [
    | inl (w2, passed, done) ↦ inl (w2, further h passed, done)
    | inr stop ↦ inr (record {
      before = s ∷ stop.before;
      step = stop.step;
      unsent = stop.unsent;
      reached = stop.reached;
      error = stop.error;
      split = ap (λ l. s ∷ l) stop.split;
      passed = further h stop.passed;
      failed = stop.failed;
      is_error = stop.is_error;
    })
  ]

  run_steps-Course : (ss : List Step) (w : W) → Course ss w (run_steps o ss w)
  unfolding Course run_steps
  run_steps-Course [] w = inl (w, nothing, refl)
  run_steps-Course (s ∷ ss) w = then_run-Course s ss w (checked_step s w) refl (run_steps-Course ss)

  checked_step-log : (s : Step) (w : W) → log (checked_step s w).0 ≡ log w ++ line s.command ∷ []
  checked_step-log s w =
      run_checked-log o log logs s.stage s.command s.markers (announce o s.stage s.announced w)
      ∙ ap (λ l. l ++ line s.command ∷ []) (announce-log o log logs s.stage s.announced w)

  Passed-log :
      (ss : List Step) (w w' : W) → Passed ss w w' → log w' ≡ log w ++ map (λ s. line s.command) ss
  Passed-log [] w w' nothing = rw append-nil refl
  Passed-log (s ∷ ss) w w' (further {w1 = w1} h later) =
      Passed-log ss w1 w' later
      ∙ ap (λ l. l ++ map (λ x. line x.command) ss)
          (sym (ap (λ r. log r.0) h) ∙ checked_step-log s w)
      ∙ append_assoc (log w) (line s.command ∷ []) (map (λ x. line x.command) ss)

  -- How a Netboot without a power cycle can go: all checks have passed and the boot command is sent,
  -- or it has stopped at the first check that did not pass, with its error.
  pub data Netbooted (p : NetbootParams) (server_ip : Bytes) (w : W) (r : W × Option UbootError)
      : Type 0 where
    boots :
        (w1 : W)
        → Passed (netboot_steps o.cfg p server_ip) w w1
        → r ≡ boot_kernel o p w1
        → log r.0 ≡ log w ++ recipe o.cfg p server_ip
        → Netbooted p server_ip w r
    stops :
        (stop : Stopped (netboot_steps o.cfg p server_ip) w r) (sent unsent : List Bytes)
        → sent ≡ map (λ s. line s.command) (stop.before ++ stop.step ∷ [])
        → log r.0 ≡ log w ++ sent
        → sent ++ unsent ≡ recipe o.cfg p server_ip
        → Netbooted p server_ip w r

  then_run_error :
      (r : W × Option UbootError) (k : W → W × Option UbootError) (e : UbootError)
      → r.1 ≡ some e
      → then_run r k ≡ r
  unfolding then_run
  then_run_error (w, some e') k e h = refl
  then_run_error (w, none) k e h = cc

  Stopped-Netbooted :
      (p : NetbootParams) (server_ip : Bytes) (w : W) (r : W × Option UbootError)
      → Stopped (netboot_steps o.cfg p server_ip) w r
      → Netbooted p server_ip w r
  Stopped-Netbooted p server_ip w r stop =
      let lines : List Step → List Bytes = λ ss. map (λ s. line s.command) ss in
      let last : List Bytes = line (boot_command o.cfg p) ∷ [] in
      let one : List Step = stop.step ∷ [] in
      let logged : log r.0 ≡ log w ++ lines (stop.before ++ one) =
        ap (λ x. log x.0) (sym stop.failed)
        ∙ checked_step-log stop.step stop.reached
        ∙ ap (λ l. l ++ lines one) (Passed-log stop.before w stop.reached stop.passed)
        ∙ append_assoc (log w) (lines stop.before) (lines one)
        ∙ ap (λ l. log w ++ l) (sym (map-append (λ s. line s.command) stop.before one)) in
      let whole : lines (stop.before ++ one) ++ (lines stop.unsent ++ last)
          ≡ recipe o.cfg p server_ip =
        sym (append_assoc (lines (stop.before ++ one)) (lines stop.unsent) last)
        ∙ ap (λ l. l ++ last)
            (sym (map-append (λ s. line s.command) (stop.before ++ one) stop.unsent))
        ∙ ap (λ l. lines l ++ last) (append_assoc stop.before one stop.unsent ∙ sym stop.split)
        ∙ recipe-netboot_steps o.cfg p server_ip in
      stops stop (lines (stop.before ++ one)) (lines stop.unsent ++ last) refl logged whole

  Passed-Netbooted :
      (p : NetbootParams) (server_ip : Bytes) (w w1 : W)
      → Passed (netboot_steps o.cfg p server_ip) w w1
      → Netbooted p server_ip w (boot_kernel o p w1)
  Passed-Netbooted p server_ip w w1 passed =
      let last : List Bytes = line (boot_command o.cfg p) ∷ [] in
      let steps : List Step = netboot_steps o.cfg p server_ip in
      boots w1 passed refl (
        boot_kernel-log o log logs p w1
        ∙ ap (λ l. l ++ last) (Passed-log steps w w1 passed)
        ∙ append_assoc (log w) (map (λ s. line s.command) steps) last
        ∙ ap (λ l. log w ++ l) (recipe-netboot_steps o.cfg p server_ip))

  Course-Netbooted :
      (p : NetbootParams) (server_ip : Bytes) (w : W) (r : W × Option UbootError)
      → Course (netboot_steps o.cfg p server_ip) w r
      → Netbooted p server_ip w (then_run r (boot_kernel o p))
  unfolding Course then_run
  Course-Netbooted p server_ip w r (inl (w1, passed, done)) =
      subst (λ x. Netbooted p server_ip w (then_run x (boot_kernel o p))) (sym done)
        (Passed-Netbooted p server_ip w w1 passed)
  Course-Netbooted p server_ip w r (inr stop) =
      subst (Netbooted p server_ip w)
        (sym (then_run_error r (boot_kernel o p) stop.error stop.is_error))
        (Stopped-Netbooted p server_ip w r stop)

  -- On a device whose log has exactly what is written: without a power cycle, a Netboot past its checks
  -- of the parameters sends the commands of the recipe in their order, each only after the check of
  -- all those before it has passed, up to the boot command; when a check does not pass, its command is
  -- the last one sent, and its error is the result.
  pub netboot-order :
      (p : NetbootParams) (server_ip : Bytes) (w : W)
      → p.power_cycle ≡ false
      → Netbooted p server_ip w (netboot_to o p server_ip w)
  unfolding netboot_to
  netboot-order p server_ip w h =
      let steps : List Step = netboot_steps o.cfg p server_ip in
      unfold then_run in
      simp h (Course-Netbooted p server_ip w (run_steps o steps w) (run_steps-Course steps w))
