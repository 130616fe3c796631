-- ===== src/Smoke.antt =====
-- internal/smoke/smoke.go: the smoke test of a release. The client, the compiler of patterns, the
-- clock and what the console captures are arguments; a loop runs over the list of its turns.
pub mod Markers
pub mod Verdict
mod Tests
use unwedge.Base.{
  ℕ, ◌+◌, ◌*◌, Bytes, codes, Bool, true, false, ◌&&◌, ◌||◌, not, Option, none, some, List, [], ◌∷◌,
  ◌++◌, ltb, ◌==◌, if◌then◌else◌, ◌⊎◌, inl, inr,
}
use unwedge.Base.Int.{ℤ, pos, negsuc}

abbrev second : ℕ
second = 1_000_000_000

abbrev pub default_success_pattern : Bytes
default_success_pattern =
    codes "Please press Enter to activate this console|BusyBox v[0-9]|procd: - init -"

abbrev pub default_failure_pattern : Bytes
default_failure_pattern =
    codes
      "Kernel panic|Unable to handle kernel|not syncing|Rebooting in \\d+ seconds|Synchronous Exception|CPU \\d+ Unable to handle"

pub record Config : Type 0 where
  pub image_path : Bytes
  pub image_name : Bytes
  pub success_pattern : Bytes
  pub failure_pattern : Bytes
  pub boot_timeout : ℕ
  pub netboot_timeout : ℕ
  pub ssh_command : Bytes
  pub ssh_expect : Bytes
  pub ssh_timeout : ℕ

unfoldable pub or_default : Bytes → Bytes → Bytes
or_default [] def = def
or_default (c ∷ v) def = c ∷ v

unfoldable pub or_duration : ℕ → ℕ → ℕ
or_duration d def = if d == 0 then def else d

-- The text that a pattern matches first, if any.
abbrev pub Pattern : Type 0
Pattern = Bytes → Option Bytes

pub data Reason : Type 0 where
  boot_failure healthy : Bytes → Reason
  healthy_ssh : Reason → Reason
  timed_out cancelled netboot_failed ssh_failed bad_expect no_match : Reason

-- A turn of the polling loop: the captured bytes, the clock, and whether the context ends before the
-- next tick.
pub record Poll : Type 0 where
  pub buf : Bytes
  pub now : ℕ
  pub done : Bool

-- A turn: what the two patterns find, the deadline, the context, and the turns behind it.
unfoldable pub poll_turn :
    Option Bytes → Option Bytes → Bool → Bool → Option (Bool × Reason) → Option (Bool × Reason)
poll_turn (some m) success late done later = some (false, boot_failure m)
poll_turn none (some m) late done later = some (true, healthy m)
poll_turn none none true done later = some (false, timed_out)
poll_turn none none false true later = some (false, cancelled)
poll_turn none none false false later = later

-- waitForMarker; none while it still waits.
unfoldable pub wait_for_marker : Pattern → Pattern → ℕ → List Poll → Option (Bool × Reason)
unfolding poll_turn
wait_for_marker success failure deadline [] = none
wait_for_marker success failure deadline (p ∷ ps) =
    poll_turn (failure p.buf) (success p.buf) (ltb deadline p.now) p.done
      (wait_for_marker success failure deadline ps)

pub record SshResponse : Type 0 where
  pub timed_out : Bool
  pub exit_code : ℤ
  pub stdout : Bytes

pub data SshError : Type 0 where
  call_failed command_timed_out context_done : SshError
  exited : ℤ → SshError

-- A turn of trySSH: what SSHExec returns, the clock behind it, and the end of the context.
pub record Attempt : Type 0 where
  pub answer : Option SshResponse
  pub now : ℕ
  pub done : Bool

unfoldable pub is_zero : ℤ → Bool
is_zero (pos n) = n == 0
is_zero (negsuc n) = false

-- The error of an attempt; none if the command has succeeded.
unfoldable pub attempt_error : Option SshResponse → Option SshError
unfolding is_zero
attempt_error none = some call_failed
attempt_error (some r) =
    if r.timed_out
    then some command_timed_out
    else if is_zero r.exit_code
    then none
    else some (exited r.exit_code)

unfoldable pub output_of : Option SshResponse → Bytes
output_of none = []
output_of (some r) = r.stdout

unfoldable pub attempt_turn :
    Option SshError → Bytes → Bool → Bool → Option (SshError ⊎ Bytes) → Option (SshError ⊎ Bytes)
attempt_turn none out late done later = some (inr out)
attempt_turn (some e) out true done later = some (inl e)
attempt_turn (some e) out false true later = some (inl context_done)
attempt_turn (some e) out false false later = later

-- trySSH: the output of the command; none while it still tries.
unfoldable pub try_ssh : ℕ → List Attempt → Option (SshError ⊎ Bytes)
unfolding attempt_turn attempt_error output_of
try_ssh deadline [] = none
try_ssh deadline (a ∷ more) =
    attempt_turn (attempt_error a.answer) (output_of a.answer) (ltb deadline a.now) a.done
      (try_ssh deadline more)

-- What checkSSH makes of the output.
unfoldable pub judged : (Bytes → Option Pattern) → Bytes → Reason → Bytes → Bool × Reason
judged compile [] reason out = (true, healthy_ssh reason)
judged compile (c ∷ expect) reason out = elim (compile (c ∷ expect)) [
  | none ↦ (false, bad_expect)
  | some re ↦ elim (re out) [ none ↦ (false, no_match) | some m ↦ (true, healthy_ssh reason) ]
]

-- The section that checkSSH appends to the log.
unfoldable pub ssh_section : Bytes → Bytes → Bytes
ssh_section command out = codes "\n===== ssh: " ++ command ++ codes " =====\n" ++ out ++ codes "\n"

pub record Result : Type 0 where
  pub success : Bool
  pub reason : Reason
  pub boot_log : Bytes
  pub ssh_output : Bytes

pub data RunError : Type 0 where
  image_required bad_success_pattern bad_failure_pattern upload_failed : RunError

pub data Outcome : Type 0 where
  failed : RunError → Outcome
  finished : Result → Outcome
  running : Outcome

-- What the run meets: the upload with the name it yields, the netboot of an image, the polls, the
-- attempts, and what the console captures up to the check over SSH and behind it.
pub record World : Type 0 where
  pub compile : Bytes → Option Pattern
  pub upload : Bytes → Option Bytes
  pub netboot : Bytes → Bool
  pub started : ℕ
  pub polls : List Poll
  pub ssh_started : ℕ
  pub attempts : List Attempt
  pub before : Bytes
  pub after : Bytes

unfoldable pub finish : World → Bytes → Bool → Reason → Bytes → Outcome
finish w section ok reason out = finished (record {
  success = ok;
  reason = reason;
  boot_log = w.before ++ section ++ w.after;
  ssh_output = out;
})

-- checkSSH, and the end of the run.
unfoldable pub check_ssh : World → Config → Reason → Outcome
unfolding judged finish
check_ssh w c reason =
    elim (try_ssh (w.ssh_started + or_duration c.ssh_timeout (90 * second)) w.attempts) [
      | none ↦ running
      | some (inl e) ↦ finish w [] false ssh_failed []
      | some (inr out) ↦
          let verdict = judged w.compile c.ssh_expect reason out in
          finish w (ssh_section c.ssh_command out) verdict.0 verdict.1 out
    ]

unfoldable pub after_marker : World → Config → Option (Bool × Reason) → Outcome
unfolding check_ssh finish
after_marker w c none = running
after_marker w c (some (false, reason)) = finish w [] false reason []
after_marker w c (some (true, reason)) = elim c.ssh_command [
  | [] ↦ finish w [] true reason []
  | b ∷ command ↦ check_ssh w c reason
]

-- From the upload on.
unfoldable pub run_with : World → Config → Pattern → Pattern → Outcome
unfolding after_marker finish
run_with w c success failure = elim (w.upload c.image_path) [
  | none ↦ failed upload_failed
  | some name ↦
      if w.netboot (or_default c.image_name name)
      then after_marker w c (
          wait_for_marker success failure (w.started + or_duration c.boot_timeout (240 * second))
            w.polls)
      else finish w [] false netboot_failed []
]

-- Run
unfoldable pub run : World → Config → Outcome
unfolding run_with
run w c = elim c.image_path [
  | [] ↦ failed image_required
  | b ∷ path ↦ elim (w.compile (or_default c.success_pattern default_success_pattern)) [
    | none ↦ failed bad_success_pattern
    | some success ↦ elim (w.compile (or_default c.failure_pattern default_failure_pattern)) [
      | none ↦ failed bad_failure_pattern
      | some failure ↦ run_with w c success failure
    ]
  ]
]
