-- ===== src/Ssh/Status.antt =====
-- internal/sshexec/sshexec.go: what a result of Exec says of the command.
use unwedge.Base.{
  ◌≡◌, ◌≢◌, refl, Bool, Bytes, codes, inl, inr, List, [], ◌∷◌, eqb, eqb_iff, arith, if◌then◌else◌,
  ◌⊎◌, true, false, Option, none, some,
}
use unwedge.Base.Int.{ℤ, pos}
use unwedge.Ssh.{
  ExecConfig, ExecResult, ExecError, ContextState, RunFailure, exit_error, exit_missing,
  other_failure, live, deadline_exceeded, canceled, CommandRun, Libraries, ssh_dial, exec,
  exec_result, run_result, deadline_of, in_session, Handshake, HostKeys, AuthMethod, any_key, known,
  ssh_address, host_key_callback, auth_methods, some_method, connected, all_methods, with_password,
  login_with, dial_as, no_host, key_methods,
}

-- What a run came to, as a result tells it: the command ended by itself, with status 0 or with
-- another one, or its context was over and the result says so.
pub data IsVerdict (r : CommandRun) (e : ExecResult) : Type 0 where
  exits_zero : r.failure ≡ none → e.exit_code ≡ pos 0 → e.timed_out ≡ false → IsVerdict r e
  exits_with : r.failure ≡ some (exit_error e.exit_code) → e.timed_out ≡ false → IsVerdict r e
  is_over : r.context ≢ live → e.exit_code ≡ pos 0 → e.timed_out ≡ true → IsVerdict r e

run_result-IsVerdict :
    (f : Option RunFailure) (x : ContextState) (r : CommandRun)
    → r.failure ≡ f
    → r.context ≡ x
    → (run_result f x r).1 ≡ none
    → IsVerdict r (run_result f x r).0
unfolding run_result exec_result
run_result-IsVerdict f deadline_exceeded r e x n = is_over (λ l. cc (x, l)) refl refl
run_result-IsVerdict none live r e x n = exits_zero e refl refl
run_result-IsVerdict none canceled r e x n = exits_zero e refl refl
run_result-IsVerdict (some (exit_error c)) live r e x n = exits_with e refl
run_result-IsVerdict (some (exit_error c)) canceled r e x n = exits_with e refl
run_result-IsVerdict (some exit_missing) canceled r e x n = is_over (λ l. cc (x, l)) refl refl
run_result-IsVerdict (some exit_missing) live r e x n = cc
run_result-IsVerdict (some other_failure) live r e x n = cc
run_result-IsVerdict (some other_failure) canceled r e x n = cc

-- What a result of Exec says.
pub record IsAnswer (r : CommandRun) (e : ExecResult) : Type 0 where
  pub output : e.stdout ≡ r.stdout
  pub errors : e.stderr ≡ r.stderr
  pub verdict : IsVerdict r e

run_result-output :
    (f : Option RunFailure) (x : ContextState) (r : CommandRun)
    → ((run_result f x r).0.stdout ≡ r.stdout) × ((run_result f x r).0.stderr ≡ r.stderr)
unfolding run_result exec_result
run_result-output f deadline_exceeded r = (refl, refl)
run_result-output none live r = (refl, refl)
run_result-output none canceled r = (refl, refl)
run_result-output (some (exit_error c)) live r = (refl, refl)
run_result-output (some (exit_error c)) canceled r = (refl, refl)
run_result-output (some exit_missing) canceled r = (refl, refl)
run_result-output (some exit_missing) live r = (refl, refl)
run_result-output (some other_failure) live r = (refl, refl)
run_result-output (some other_failure) canceled r = (refl, refl)

in_session-IsAnswer :
    (dialled : Option ExecError) (opens : Bool) (r : CommandRun)
    → (in_session dialled opens r).1 ≡ none
    → (dialled ≡ none) × (opens ≡ true) × IsAnswer r (in_session dialled opens r).0
unfolding in_session
in_session-IsAnswer (some e) opens r n = cc
in_session-IsAnswer none false r n = cc
in_session-IsAnswer none true r n =
    let (output, errors) = run_result-output r.failure r.context r in
    (
      refl,
      refl,
      record {
        output = output;
        errors = errors;
        verdict = run_result-IsVerdict r.failure r.context r refl refl n;
      },
    )

-- When Exec answers without an error, the target was reached and a session opened, the output is
-- that of the command, and the exit code is never made up: the command ended by itself with it, or
-- the result is marked as timed out, with the code 0, and the context was over.
pub exec-IsAnswer :
    {S H : Type 0} (k : Libraries S H) (c : ExecConfig) (command : Bytes) (timeout : ℤ)
    → let result = exec k c command timeout in
      let deadline = deadline_of timeout in
      result.1 ≡ none
      → (ssh_dial k deadline c ≡ none)
        × (k.open_session deadline ≡ true)
        × IsAnswer (k.run deadline command) result.0
unfolding exec
exec-IsAnswer k c command timeout n =
    let deadline = deadline_of timeout in
    in_session-IsAnswer (ssh_dial k deadline c) (k.open_session deadline) (k.run deadline command) n

-- The host keys that a configuration leads to.
pub Fits : {S H : Type 0} → Libraries S H → ExecConfig → HostKeys H → Type 0
Fits k c any_key = c.known_hosts_path ≡ []
Fits k c (known x) = k.known_hosts c.known_hosts_path ≡ some x

-- A handshake that a configuration stands for: its user, some way to log in, and host keys that
-- are checked against the known hosts when the configuration names a file of them.
pub record IsLogin {S H : Type 0} (k : Libraries S H) (c : ExecConfig) (h : Handshake S H)
    : Type 0 where
  pub same_user : h.user ≡ c.user
  pub has_auth : h.auth ≢ []
  pub fits : Fits k c h.host_keys
  pub accepted : k.handshake (ssh_address c.host (codes "22")) h ≡ true

host_key_callback-Fits :
    {S H : Type 0} (k : Libraries S H) (c : ExecConfig) (keys : HostKeys H)
    → host_key_callback k c ≡ inr keys
    → Fits k c keys
unfolding host_key_callback Fits
host_key_callback-Fits k c any_key e = ground (arith, eqb_iff c.known_hosts_path [])
host_key_callback-Fits k c (known x) e = ground (arith, eqb_iff c.known_hosts_path [])

some_method-some :
    {S H : Type 0} (k : Libraries S H) (found methods : List (AuthMethod S))
    → some_method k found ≡ inr methods
    → methods ≢ []
unfolding some_method
some_method-some k [] methods e = cc
some_method-some k (m ∷ found) methods e = λ n. cc

all_methods-some :
    {S H : Type 0} (k : Libraries S H) (c : ExecConfig) (r : ExecError ⊎ List (AuthMethod S))
    (methods : List (AuthMethod S))
    → all_methods k c r ≡ inr methods
    → methods ≢ []
unfolding all_methods
all_methods-some k c (inl x) methods e = cc
all_methods-some k c (inr found) methods e = some_method-some k (with_password k c found) methods e

connected-accepted :
    {S H : Type 0} (k : Libraries S H) (deadline : Option ℤ) (c : ExecConfig) (h : Handshake S H)
    → connected k deadline c h ≡ none
    → k.handshake (ssh_address c.host (codes "22")) h ≡ true
unfolding connected
connected-accepted k deadline c h e = ground arith

dial_as-IsLogin :
    {S H : Type 0} (k : Libraries S H) (deadline : Option ℤ) (c : ExecConfig)
    (r : ExecError ⊎ List (AuthMethod S)) (s : ExecError ⊎ HostKeys H)
    → auth_methods k c ≡ r
    → host_key_callback k c ≡ s
    → dial_as k deadline c r s ≡ none
    → (h : Handshake S H) × IsLogin k c h
unfolding dial_as auth_methods login_with
dial_as-IsLogin k deadline c (inl x) s a b e = cc
dial_as-IsLogin k deadline c (inr methods) (inl x) a b e = cc
dial_as-IsLogin k deadline c (inr methods) (inr keys) a b e = (
  login_with k c methods keys,
  record {
    same_user = refl;
    has_auth = all_methods-some k c (key_methods k c) methods a;
    fits = host_key_callback-Fits k c keys b;
    accepted = connected-accepted k deadline c (login_with k c methods keys) e;
  },
)

past_check : (b : Bool) (o : Option ExecError) → (if b then some no_host else o) ≡ none → o ≡ none
past_check true o e = cc
past_check false o e = e

-- A connection to the target comes of a handshake that the target accepts, under the user of the
-- configuration, with some way to log in, and with the host keys checked against the known hosts
-- unless the configuration names no file of them.
pub ssh_dial-IsLogin :
    {S H : Type 0} (k : Libraries S H) (deadline : Option ℤ) (c : ExecConfig)
    → ssh_dial k deadline c ≡ none
    → (h : Handshake S H) × IsLogin k c h
unfolding ssh_dial
ssh_dial-IsLogin k deadline c e =
    dial_as-IsLogin k deadline c (auth_methods k c) (host_key_callback k c) refl refl (
      past_check (eqb c.host []) (dial_as k deadline c (auth_methods k c) (host_key_callback k c))
        e)
