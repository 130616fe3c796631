-- ===== src/Ssh.antt =====
-- internal/sshexec/sshexec.go and knownhosts.go: commands on the target over SSH. The SSH library,
-- the network and the files are the record Libraries; what a session's run leaves is a CommandRun.
pub mod Status
mod Tests
use unwedge.Base.{
  ℕ, zero, ◌+◌, Bytes, codes, Bool, true, false, ◌&&◌, not, Option, none, some, List, [], ◌∷◌, ◌++◌,
  if◌then◌else◌, ◌⊎◌, inl, inr, eqb,
}
use unwedge.Base.Int.{ℤ, pos, negsuc, is_positive}
use unwedge.Net.{split_address, join_host_port}

pub record ExecConfig : Type 0 where
  pub host : Bytes
  pub user : Bytes
  pub password : Bytes
  pub private_key_path : Bytes
  pub private_key_pem : Bytes
  pub known_hosts_path : Bytes
  pub dial_timeout : ℤ

pub record ExecResult : Type 0 where
  pub exit_code : ℤ
  pub stdout : Bytes
  pub stderr : Bytes
  pub timed_out : Bool

pub data ExecError : Type 0 where
  user_required read_key parse_key no_auth load_known_hosts no_host : ExecError
  dial_failed handshake_failed session_failed run_failed : ExecError

-- ssh.AuthMethod
pub data AuthMethod (S : Type 0) : Type 0 where
  public_keys : S → AuthMethod S
  password_of : Bytes → AuthMethod S

-- ssh.HostKeyCallback
pub data HostKeys (H : Type 0) : Type 0 where
  any_key : HostKeys H
  known : H → HostKeys H

-- ssh.ClientConfig
pub record Handshake (S H : Type 0) : Type 0 where
  pub user : Bytes
  pub auth : List (AuthMethod S)
  pub host_keys : HostKeys H
  pub timeout : ℤ

-- The errors of session.Run, and ctx.Err() after it.
pub data RunFailure : Type 0 where
  exit_error : ℤ → RunFailure
  exit_missing other_failure : RunFailure

pub data ContextState : Type 0 where
  live deadline_exceeded canceled : ContextState

pub record CommandRun : Type 0 where
  pub stdout : Bytes
  pub stderr : Bytes
  pub failure : Option RunFailure
  pub context : ContextState

-- The first argument of the network's operations is the deadline that Exec adds to the context.
pub record Libraries (S H : Type 0) : Type 0 where
  pub read_file : Bytes → Option Bytes
  pub parse_private_key : Bytes → Option S
  pub known_hosts : Bytes → Option H
  pub dial_context : Option ℤ → Bytes → ℤ → Bool
  pub handshake : Bytes → Handshake S H → Bool
  pub open_session : Option ℤ → Bool
  pub run : Option ℤ → Bytes → CommandRun

unfoldable pub new_exec : ExecConfig → ExecError ⊎ ExecConfig
new_exec c = if eqb c.user [] then inl user_required else inr c

unfoldable pub ssh_address : Bytes → Bytes → Bytes
ssh_address host port = elim (split_address host) [
  | some parts ↦ host
  | none ↦ join_host_port host port
]

unfoldable pub or_ten_seconds : ℤ → ℤ
or_ten_seconds (pos zero) = pos 10_000_000_000
or_ten_seconds t = t

unfoldable pub effective_timeout : ExecConfig → ℤ
unfolding or_ten_seconds
effective_timeout c = or_ten_seconds c.dial_timeout

-- The private key in the configuration goes before the file that holds one.
unfoldable pub pem_of : (Bytes → Option Bytes) → ExecConfig → Option Bytes
pem_of read_file c =
    if eqb c.private_key_pem [] then read_file c.private_key_path else some c.private_key_pem

module _ {S H : Type 0} (k : Libraries S H) where
  unfoldable pub signer : ExecConfig → ExecError ⊎ S
  unfolding pem_of
  signer c = elim (pem_of k.read_file c) [
    | none ↦ inl read_key
    | some pem ↦ elim (k.parse_private_key pem) [ none ↦ inl parse_key | some s ↦ inr s ]
  ]

  unfoldable pub key_methods : ExecConfig → ExecError ⊎ List (AuthMethod S)
  unfolding signer
  key_methods c =
      if eqb c.private_key_pem [] && eqb c.private_key_path []
      then inr []
      else elim (signer c) [ inl e ↦ inl e | inr s ↦ inr (public_keys s ∷ []) ]

  unfoldable pub with_password : ExecConfig → List (AuthMethod S) → List (AuthMethod S)
  with_password c methods =
      if eqb c.password [] then methods else methods ++ password_of c.password ∷ []

  unfoldable pub some_method : List (AuthMethod S) → ExecError ⊎ List (AuthMethod S)
  some_method [] = inl no_auth
  some_method (m ∷ methods) = inr (m ∷ methods)

  unfoldable pub all_methods :
      ExecConfig → ExecError ⊎ List (AuthMethod S) → ExecError ⊎ List (AuthMethod S)
  unfolding with_password some_method
  all_methods c (inl e) = inl e
  all_methods c (inr methods) = some_method (with_password c methods)

  unfoldable pub auth_methods : ExecConfig → ExecError ⊎ List (AuthMethod S)
  unfolding key_methods all_methods
  auth_methods c = all_methods c (key_methods c)

  unfoldable pub host_key_callback : ExecConfig → ExecError ⊎ HostKeys H
  host_key_callback c =
      if eqb c.known_hosts_path [] then inr any_key else elim (k.known_hosts c.known_hosts_path) [
        | none ↦ inl load_known_hosts
        | some h ↦ inr (known h)
      ]

  unfoldable pub connected : Option ℤ → ExecConfig → Handshake S H → Option ExecError
  unfolding ssh_address
  connected deadline c h =
      if not (k.dial_context deadline (ssh_address c.host (codes "22")) h.timeout)
      then some dial_failed
      else if k.handshake (ssh_address c.host (codes "22")) h
      then none
      else some handshake_failed

  unfoldable pub login_with : ExecConfig → List (AuthMethod S) → HostKeys H → Handshake S H
  unfolding effective_timeout
  login_with c methods keys = record {
    user = c.user;
    auth = methods;
    host_keys = keys;
    timeout = effective_timeout c;
  }

  unfoldable pub dial_as :
      Option ℤ
      → ExecConfig
      → ExecError ⊎ List (AuthMethod S)
      → ExecError ⊎ HostKeys H
      → Option ExecError
  unfolding connected login_with
  dial_as deadline c (inl e) keys = some e
  dial_as deadline c (inr methods) (inl e) = some e
  dial_as deadline c (inr methods) (inr keys) = connected deadline c (login_with c methods keys)

  -- The error of dial, none for a connection.
  unfoldable pub ssh_dial : Option ℤ → ExecConfig → Option ExecError
  unfolding auth_methods host_key_callback dial_as
  ssh_dial deadline c =
      if eqb c.host []
      then some no_host
      else dial_as deadline c (auth_methods c) (host_key_callback c)

-- The error of DialTCP, none for a connection.
unfoldable pub dial_tcp : (Bytes → ℤ → Bool) → ExecConfig → Option ExecError
unfolding ssh_address effective_timeout
dial_tcp dial c =
    if eqb c.host []
    then some no_host
    else if dial (ssh_address c.host (codes "22")) (effective_timeout c)
    then none
    else some dial_failed

unfoldable pub exec_result : ℤ → Bool → CommandRun → ExecResult
exec_result code timed_out r = record {
  exit_code = code;
  stdout = r.stdout;
  stderr = r.stderr;
  timed_out = timed_out;
}

-- The result and the error, from session.Run's error and the context's.
unfoldable pub run_result :
    Option RunFailure → ContextState → CommandRun → ExecResult × Option ExecError
unfolding exec_result
run_result failure deadline_exceeded r = (exec_result (pos 0) true r, none)
run_result none live r = (exec_result (pos 0) false r, none)
run_result none canceled r = (exec_result (pos 0) false r, none)
run_result (some (exit_error n)) live r = (exec_result n false r, none)
run_result (some (exit_error n)) canceled r = (exec_result n false r, none)
run_result (some exit_missing) canceled r = (exec_result (pos 0) true r, none)
run_result (some exit_missing) live r = (exec_result (pos 0) false r, some run_failed)
run_result (some other_failure) live r = (exec_result (pos 0) false r, some run_failed)
run_result (some other_failure) canceled r = (exec_result (pos 0) false r, some run_failed)

unfoldable pub no_result : ExecResult
no_result = record { exit_code = pos 0; stdout = []; stderr = []; timed_out = false }

unfoldable pub deadline_of : ℤ → Option ℤ
deadline_of timeout = if is_positive timeout then some timeout else none

-- Exec from the connection on: the error of dial, whether a session opens, and its run.
unfoldable pub in_session : Option ExecError → Bool → CommandRun → ExecResult × Option ExecError
unfolding run_result no_result
in_session (some e) opens ran = (no_result, some e)
in_session none false ran = (no_result, some session_failed)
in_session none true ran = run_result ran.failure ran.context ran

unfoldable pub exec :
    {S H : Type 0} → Libraries S H → ExecConfig → Bytes → ℤ → ExecResult × Option ExecError
unfolding ssh_dial deadline_of in_session
exec k c command timeout =
    let deadline = deadline_of timeout in
    in_session (ssh_dial k deadline c) (k.open_session deadline) (k.run deadline command)
