-- ===== src/Smoke/Verdict.antt =====
-- internal/smoke/smoke.go: what a run that passes has seen.
use unwedge.Base.{
  ℕ, ◌+◌, ◌*◌, ◌≡◌, refl, sym, subst, ap, ◌∙◌, Bytes, Bool, true, false, Option, none, some, [],
  ◌∷◌, List, ltb, arith, Bool-cases, Option-cases, ◌⊎◌, inl, inr,
}
use mathlib.Core.List.{Memᴰ}
use mathlib.Core.List.Memᴰ.{head, tail}
use unwedge.Base.Int.{ℤ, pos, negsuc}
use unwedge.Smoke.{
  Attempt, SshResponse, attempt_turn, attempt_error, output_of, is_zero, call_failed,
  command_timed_out, exited, Config, Pattern, Reason, World, Result, Outcome, failed, finished,
  running, SshError, default_success_pattern, default_failure_pattern, or_default, or_duration,
  wait_for_marker, try_ssh, judged, finish, check_ssh, after_marker, run_with, run, second,
}
use unwedge.Smoke.Markers.{Reached, wait_for_marker-Reached}

-- What the command over SSH has to answer: a text that the expected pattern, if there is one, finds.
abbrev pub Matches : World → Config → Bytes → Type 0
Matches w c out =
    (c.ssh_expect ≡ [])
    ⊎ ((re : Pattern) × (m : Bytes) × (w.compile c.ssh_expect ≡ some re) × (re out ≡ some m))

-- One of the attempts has been answered in time, with exit status 0 and this output.
pub record Answered (as' : List Attempt) (out : Bytes) : Type 0 where
  pub last : Attempt
  pub response : SshResponse
  pub tried : Memᴰ last as'
  pub response_eq : last.answer ≡ some response
  pub in_time : response.timed_out ≡ false
  pub exit_zero : response.exit_code ≡ pos 0
  pub said : response.stdout ≡ out

pub record SshPassed (w : World) (c : Config) : Type 0 where
  pub out : Bytes
  pub succeeded : Answered w.attempts out
  pub matched : Matches w c out

pub record IsPass (w : World) (c : Config) : Type 0 where
  pub success : Pattern
  pub failure : Pattern
  pub name : Bytes
  pub reason : Reason
  pub success_compiled :
      w.compile (or_default c.success_pattern default_success_pattern) ≡ some success
  pub failure_compiled :
      w.compile (or_default c.failure_pattern default_failure_pattern) ≡ some failure
  pub uploaded : w.upload c.image_path ≡ some name
  pub netbooted : w.netboot (or_default c.image_name name) ≡ true
  pub reached : Reached success failure w.polls reason
  pub ssh : (c.ssh_command ≡ []) ⊎ SshPassed w c

abbrev Passes : Outcome → Type 0
Passes (finished r) = r.success ≡ true
Passes (failed e) = ⊥
Passes running = ⊥

Bytes-cases : (s : Bytes) → (s ≡ []) ⊎ ((b : ℕ) × (t : Bytes) × (s ≡ b ∷ t))
Bytes-cases [] = inl refl
Bytes-cases (b ∷ t) = inr (b, t, refl)

said_out : (x y : Bytes) → attempt_turn none x false false none ≡ some (inr y) → x ≡ y
unfolding attempt_turn
said_out x y e = cc

failed_turn :
    (e : SshError) (said : Bytes) (late done : Bool) (later : Option (SshError ⊎ Bytes))
    (out : Bytes)
    → attempt_turn (some e) said late done later ≡ some (inr out)
    → later ≡ some (inr out)
unfolding attempt_turn
failed_turn e said true done later out h = cc
failed_turn e said false true later out h = cc
failed_turn e said false false later out h = h

is_zero-pos : (n : ℤ) → is_zero n ≡ true → n ≡ pos 0
unfolding is_zero
is_zero-pos (pos n) h = ap pos (ground arith)
is_zero-pos (negsuc n) h = cc

-- The attempt that ends the tries with an output.
first_Answered :
    (a : Attempt) (more : List Attempt) (x : Option SshResponse) (late : Bool)
    (later : Option (SshError ⊎ Bytes)) (out : Bytes)
    → a.answer ≡ x
    → attempt_turn (attempt_error x) (output_of x) late a.done later ≡ some (inr out)
    → (later ≡ some (inr out)) ⊎ Answered (a ∷ more) out
unfolding attempt_turn attempt_error output_of
first_Answered a more none late later out e h =
    inl (failed_turn call_failed [] late a.done later out h)
first_Answered a more (some r) late later out e h = elim (Bool-cases r.timed_out) [
  | inl t ↦ inl (failed_turn command_timed_out r.stdout late a.done later out (rw t at h))
  | inr t ↦ elim (Bool-cases (is_zero r.exit_code)) [
    | inl z ↦ inr (record {
      last = a;
      response = r;
      tried = head refl;
      response_eq = e;
      in_time = t;
      exit_zero = is_zero-pos r.exit_code z;
      said = said_out r.stdout out (rw (t, z) at h);
    })
    | inr z ↦ inl (failed_turn (exited r.exit_code) r.stdout late a.done later out (rw (t, z) at h))
  ]
]

try_ssh-Answered :
    (deadline : ℕ) (as' : List Attempt) (out : Bytes)
    → try_ssh deadline as' ≡ some (inr out)
    → Answered as' out
unfolding try_ssh
try_ssh-Answered deadline [] out h = cc
try_ssh-Answered deadline (a ∷ more) out h =
    elim (first_Answered a more a.answer (ltb deadline a.now) (try_ssh deadline more) out refl h) [
      | inl later ↦
          let r : Answered more out = try_ssh-Answered deadline more out later in
          record {
            last = r.last;
            response = r.response;
            tried = tail r.tried;
            response_eq = r.response_eq;
            in_time = r.in_time;
            exit_zero = r.exit_zero;
            said = r.said;
          }
      | inr found ↦ found
    ]

judged-Matches :
    (w : World) (c : Config) (reason : Reason) (out : Bytes)
    → (judged w.compile c.ssh_expect reason out).0 ≡ true
    → Matches w c out
unfolding judged
judged-Matches w c reason out h = elim (Bytes-cases c.ssh_expect) [
  | inl e ↦ inl e
  | inr (b, t, e) ↦ elim (Option-cases (w.compile (b ∷ t))) [
    | inl n ↦ absurd (cc (rw (judged, e, n) at h))
    | inr (re, s) ↦ elim (Option-cases (re out)) [
      | inl n ↦ absurd (cc (rw (judged, e, s, n) at h))
      | inr (m, f) ↦ inr (re, m, ap w.compile e ∙ s, f)
    ]
  ]
]

check_ssh-SshPassed :
    (w : World) (c : Config) (reason : Reason) → Passes (check_ssh w c reason) → SshPassed w c
unfolding check_ssh finish
check_ssh-SshPassed w c reason h =
    let tried = try_ssh (w.ssh_started + or_duration c.ssh_timeout (90 * second)) w.attempts in
    elim (Option-cases tried) [
      | inl n ↦ absurd (rw (check_ssh, n) at h)
      | inr (r, e) ↦ of_answer r e
    ]
  where
    of_answer :
        (r : SshError ⊎ Bytes)
        → try_ssh (w.ssh_started + or_duration c.ssh_timeout (90 * second)) w.attempts ≡ some r
        → SshPassed w c
    of_answer (inl x) e = absurd (cc (rw (check_ssh, e) at h))
    of_answer (inr out) e = record {
      out = out;
      succeeded = try_ssh-Answered _ w.attempts out e;
      matched = judged-Matches w c reason out (rw (check_ssh, e) at h);
    }

after_marker-Passes :
    (w : World) (c : Config) (o : Option (Bool × Reason))
    → Passes (after_marker w c o)
    → (r : Reason) × (o ≡ some (true, r)) × ((c.ssh_command ≡ []) ⊎ SshPassed w c)
unfolding after_marker finish
after_marker-Passes w c none h = absurd h
after_marker-Passes w c (some (false, r)) h = absurd (cc h)
after_marker-Passes w c (some (true, r)) h = elim (Bytes-cases c.ssh_command) [
  | inl e ↦ (r, refl, inl e)
  | inr (b, t, e) ↦ (r, refl, inr (check_ssh-SshPassed w c r (rw (after_marker, e) at h)))
]

run_with-IsPass :
    (w : World) (c : Config) (success failure : Pattern)
    → w.compile (or_default c.success_pattern default_success_pattern) ≡ some success
    → w.compile (or_default c.failure_pattern default_failure_pattern) ≡ some failure
    → Passes (run_with w c success failure)
    → IsPass w c
unfolding run_with finish
run_with-IsPass w c success failure cs cf h = elim (Option-cases (w.upload c.image_path)) [
  | inl n ↦ absurd (rw (run_with, n) at h)
  | inr (name, u) ↦ elim (Bool-cases (w.netboot (or_default c.image_name name))) [
    | inr not_booted ↦ absurd (cc (rw (run_with, u, not_booted) at h))
    | inl booted ↦
        let waited =
          wait_for_marker success failure (w.started + or_duration c.boot_timeout (240 * second))
            w.polls in
        let (r, e, ssh) = after_marker-Passes w c waited (rw (run_with, u, booted) at h) in
        record {
          success = success;
          failure = failure;
          name = name;
          reason = r;
          success_compiled = cs;
          failure_compiled = cf;
          uploaded = u;
          netbooted = booted;
          reached = wait_for_marker-Reached success failure _ w.polls r e;
          ssh = ssh;
        }
  ]
]

run-Passes : (w : World) (c : Config) → Passes (run w c) → IsPass w c
unfolding run
run-Passes w c h = elim (Bytes-cases c.image_path) [
  | inl e ↦ absurd (rw (run, e) at h)
  | inr (b, t, e) ↦
      elim (Option-cases (w.compile (or_default c.success_pattern default_success_pattern))) [
        | inl n ↦ absurd (rw (run, e, n) at h)
        | inr (success, cs) ↦
            elim (Option-cases (w.compile (or_default c.failure_pattern default_failure_pattern))) [
              | inl n ↦ absurd (rw (run, e, cs, n) at h)
              | inr (failure, cf) ↦
                  run_with-IsPass w c success failure cs cf (rw (run, e, cs, cf) at h)
            ]
      ]
]

-- A run that passes has uploaded its image, has netbooted the image of that name, or of the configured
-- name if there is one, has seen a marker of success before any marker of failure, and, if it has a
-- command, has an answer to it over SSH, in time and with exit status 0, with an output that the
-- expected pattern, if any, finds.
pub run-IsPass :
    (w : World) (c : Config) (r : Result) → run w c ≡ finished r → r.success ≡ true → IsPass w c
run-IsPass w c r e ok = run-Passes w c (subst Passes (sym e) ok)
