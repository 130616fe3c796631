-- ===== src/Smoke/Tests.antt =====
-- internal/smoke/smoke.go: one run that passes.
use unwedge.Base.{
  ◌≡◌, refl, Bytes, codes, Bool, true, false, Option, none, some, List, [], ◌∷◌, ◌++◌, has_prefix,
  ◌⊎◌, if◌then◌else◌,
}
use unwedge.Base.Int.{pos}
use unwedge.Smoke.{
  Config, Pattern, Reason, healthy, healthy_ssh, Poll, poll_turn, wait_for_marker, Attempt,
  SshError, attempt_turn, attempt_error, output_of, is_zero, try_ssh, judged, ssh_section, World,
  Result, finish, check_ssh, after_marker, run_with, run, or_default, or_duration,
}
use unwedge.Smoke.Markers.{wait_for_marker_ends}
use unwedge.Smoke.Verdict.{IsPass, run-IsPass}

-- Any text that starts like the pattern's own.
abbrev literal : Bytes → Option Pattern
literal p = some (λ b. if has_prefix b p then some p else none)

abbrev config : Config
config = record {
  image_path = codes "/tmp/k";
  image_name = [];
  success_pattern = codes "up";
  failure_pattern = codes "Kernel panic";
  boot_timeout = 10;
  netboot_timeout = 10;
  ssh_command = codes "true";
  ssh_expect = codes "ok";
  ssh_timeout = 10;
}

abbrev polls : List Poll
polls =
    record { buf = codes "boot"; now = 1; done = false }
    ∷ record { buf = codes "up"; now = 2; done = false }
    ∷ []

abbrev attempts : List Attempt
attempts =
    record { answer = none; now = 3; done = false }
    ∷ record {
      answer = some (record { timed_out = false; exit_code = pos 0; stdout = codes "ok" });
      now = 4;
      done = false;
    }
    ∷ []

abbrev world : World
world = record {
  compile = literal;
  upload = λ p. some (codes "k");
  netboot = λ n. true;
  started = 0;
  polls = polls;
  ssh_started = 2;
  attempts = attempts;
  before = codes "up";
  after = [];
}

abbrev passed : Result
passed = record {
  success = true;
  reason = healthy_ssh (healthy (codes "up"));
  boot_log = codes "up\n===== ssh: true =====\nok\n";
  ssh_output = codes "ok";
}

run-IsPass_example : IsPass world config
unfolding run run_with after_marker check_ssh wait_for_marker poll_turn try_ssh attempt_turn
    attempt_error output_of is_zero judged ssh_section finish or_default or_duration has_prefix
run-IsPass_example = run-IsPass world config passed refl refl

wait_for_marker_ends_example :
    ((r : Bool × Reason) × (wait_for_marker
          (λ b. none)
          (λ b. none)
          1
          (polls ++ record { buf = []; now = 3; done = false } ∷ [])
        ≡ some r))
    × ((r : SshError ⊎ Bytes) × (try_ssh 1
            ([] ++ record { answer = none; now = 3; done = false } ∷ [])
          ≡ some r))
wait_for_marker_ends_example =
    wait_for_marker_ends (λ b. none) (λ b. none) 1 (record { buf = []; now = 3; done = false })
      polls [] (record { answer = none; now = 3; done = false }) [] [] refl refl
