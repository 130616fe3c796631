-- ===== src/Gate/Tests.antt =====
-- Calls on a held lock, and instances of the theorems.
use unwedge.Base.{
  ◌+◌, ◌-◌, ◌*◌, ◌^◌, ◌<◌, ◌≤◌, ◌≡◌, inr, refl, Bytes, codes, true, false, Option, some, List, [],
  ◌∷◌, arith, eqb,
}
use unwedge.Base.Int.{pos, negsuc}
use unwedge.Grpc.{reply, status, failed_precondition, millisecond, milliseconds}
use unwedge.Session.{Manager, expires_at_locked, expire_if_idle}
use unwedge.Session.Step.{Op, acquire_op, reap_op, run}
use unwedge.Gate.{is_exempt, session_id_from, interceptor, ended}
use unwedge.Gate.Calls.{during, interceptor-during, milliseconds_lem}
use unwedge.Gate.Lock.{Holds, begun, interceptor_lem}

abbrev held : Manager
held = record {
  ttl = 100;
  id = codes "a1";
  owner = codes "ci";
  started_at = 1;
  last_activity = 2;
  active_calls = 0;
  released = some 0;
  made = 1;
  closed = [];
  stopped = false;
}

abbrev ssh_exec : Bytes
ssh_exec = codes "/unwedge.v1.Unwedge/SSHExec"

abbrev with_id : Option (List Bytes)
with_id = some (codes "a1" ∷ [])

ssh_exec-operational : is_exempt ssh_exec ≡ false
unfolding is_exempt eqb
ssh_exec-operational = refl

status_exempt : is_exempt (codes "/unwedge.v1.Unwedge/GetStatus") ≡ true
unfolding is_exempt eqb
status_exempt = refl

held-Holds : Holds (session_id_from with_id) 50 held
unfolding session_id_from
held-Holds = (refl, cc, inr (omega arith))

interceptor_lem_example :
    let id = session_id_from with_id in
    let result = interceptor {0} ssh_exec with_id 50 51 60 (during [] tt) (some held) in
    let run = during [] tt (some (begun 51 held)) in
    (Holds id 50 held → result ≡ (ended id 60 run.0, run.1))
    × (¬ Holds id 50 held → result ≡ (some (expire_if_idle 50 held), status failed_precondition))
interceptor_lem_example =
    interceptor_lem {0} ssh_exec with_id 50 51 60 (during [] tt) held ssh_exec-operational

abbrev busy_hour : List Op
busy_hour = acquire_op (codes "dev") (codes "b2") 9999 9999 9999 ∷ reap_op 99999 ∷ []

interceptor-during_example :
    let last = run busy_hour (begun 51 held) in
    let result = interceptor {0} ssh_exec with_id 50 51 60 (during busy_hour tt) (some held) in
    (n : Manager) × (result ≡ (some n, reply tt))
    × (n.id ≡ session_id_from with_id)
    × (n.active_calls + 1 ≡ last.active_calls)
    × (expires_at_locked n ≡ 60 + last.ttl)
interceptor-during_example =
    interceptor-during ssh_exec with_id 50 51 60 busy_hour held ssh_exec-operational held-Holds
      (refl, (refl, tt)) (omega arith)

milliseconds_lem_example :
    (9223372036855 ≤ 9223372036854
      → milliseconds (pos 9223372036855) ≡ pos (9223372036855 * millisecond))
    × (9223372036854 < 9223372036855
        → 9223372036855 ≤ 18446744073709
        → milliseconds (pos 9223372036855) ≡ negsuc (2 ^ 64 - 1 - 9223372036855 * millisecond))
milliseconds_lem_example = milliseconds_lem 9223372036855
