-- ===== src/Ssh/Tests.antt =====
-- internal/sshexec/sshexec.go: a target that answers.
use unwedge.Base.{
  ◌≡◌, refl, Bytes, codes, Bool, true, false, Option, none, some, [], inl, eqb, elem,
}
use unwedge.Base.Int.{ℤ, pos, is_positive}
use unwedge.Power.Address.{last_index_byte}
use unwedge.Net.{split_address, split_at, split_plain, join_host_port}
use unwedge.Ssh.{
  ExecConfig, ExecResult, Handshake, CommandRun, Libraries, live, exit_error, parse_key, no_auth,
  no_host, ssh_dial, connected, exec, deadline_of, in_session, run_result, auth_methods,
  key_methods, with_password, some_method, signer, pem_of, all_methods, dial_as, login_with,
  host_key_callback, ssh_address, effective_timeout, or_ten_seconds, exec_result, dial_tcp,
}
use unwedge.Ssh.Status.{IsAnswer, exec-IsAnswer, IsLogin, ssh_dial-IsLogin}

abbrev reads : Bytes → Option Bytes
reads path = some path

abbrev parses : Bytes → Option Bytes
parses pem = none

abbrev dials : Option ℤ → Bytes → ℤ → Bool
dials deadline addr timeout = eqb addr (codes "10.0.0.9:22")

abbrev shakes : Bytes → Handshake Bytes Bytes → Bool
shakes addr h = true

abbrev opens : Option ℤ → Bool
opens deadline = true

abbrev exits : Option ℤ → Bytes → CommandRun
exits deadline command = record {
  stdout = command;
  stderr = [];
  failure = some (exit_error (pos 3));
  context = live;
}

abbrev target : Libraries Bytes Bytes
target = record {
  read_file = reads;
  parse_private_key = parses;
  known_hosts = reads;
  dial_context = dials;
  handshake = shakes;
  open_session = opens;
  run = exits;
}

abbrev login : ExecConfig
login = record {
  host = codes "10.0.0.9";
  user = codes "root";
  password = codes "p";
  private_key_path = [];
  private_key_pem = [];
  known_hosts_path = [];
  dial_timeout = pos 0;
}

abbrev answer : ExecResult
answer = record { exit_code = pos 3; stdout = codes "ls"; stderr = []; timed_out = false }

exits_three : exec target login (codes "ls") (pos 5) ≡ (answer, none)
unfolding exec in_session run_result exec_result deadline_of is_positive ssh_dial auth_methods
    all_methods key_methods with_password some_method dial_as login_with host_key_callback connected
    effective_timeout or_ten_seconds ssh_address split_address split_at split_plain last_index_byte
    join_host_port eqb elem
exits_three = refl

-- Without a host there is no connection, whatever else is set.
no_target : dial_tcp (λ addr t. true) (record login { host = [] }) ≡ some no_host
unfolding dial_tcp eqb
no_target = refl

-- The password is not tried when the key cannot be parsed.
bad_key : auth_methods target (record login { private_key_pem = codes "x" }) ≡ inl parse_key
unfolding auth_methods all_methods key_methods signer pem_of eqb
bad_key = refl

no_way_in : auth_methods target (record login { password = [] }) ≡ inl no_auth
unfolding auth_methods all_methods key_methods with_password some_method eqb
no_way_in = refl

exec-IsAnswer_example :
    let result = exec target login (codes "ls") (pos 5) in
    (ssh_dial target (some (pos 5)) login ≡ none)
    × (opens (some (pos 5)) ≡ true)
    × IsAnswer (exits (some (pos 5)) (codes "ls")) result.0
unfolding exec in_session run_result exec_result deadline_of is_positive ssh_dial auth_methods
    all_methods key_methods with_password some_method dial_as login_with host_key_callback connected
    effective_timeout or_ten_seconds ssh_address split_address split_at split_plain last_index_byte
    join_host_port eqb elem
exec-IsAnswer_example = exec-IsAnswer target login (codes "ls") (pos 5) refl

ssh_dial-IsLogin_example : (h : Handshake Bytes Bytes) × IsLogin target login h
unfolding deadline_of is_positive ssh_dial auth_methods all_methods key_methods with_password
    some_method dial_as login_with host_key_callback connected effective_timeout or_ten_seconds
    ssh_address split_address split_at split_plain last_index_byte join_host_port eqb elem
ssh_dial-IsLogin_example = ssh_dial-IsLogin target (some (pos 5)) login refl
