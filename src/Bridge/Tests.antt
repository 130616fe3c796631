-- ===== src/Bridge/Tests.antt =====
-- cmd/unwedge-mcp/main.go: a tool whose session was lost.
use unwedge.Base.{
  ℕ, ◌≡◌, refl, Bytes, codes, List, [], ◌∷◌, eqb, contains_sub, find_sub, has_prefix, to_lower,
  lower, ◌⊎◌, inl, if◌then◌else◌,
}
use unwedge.Base.Int.{ℤ, pos}
use unwedge.Grpc.{failed_precondition}
use unwedge.Client.{Client, has_session, clear_session}
use unwedge.Bridge.{
  Failure, Return, text, failure, session_lost, is_failed_precondition, started, ensure_session,
  then_call, retried, call_with_session, acquire_lock, BootEvent, Kind,
}
use unwedge.Bridge.Retry.{counted, kept, Fair, call_with_session_runs}
use unwedge.Bridge.Collector.{IsSummary, collect_all, all_written, collect_all-IsSummary}

-- The daemon gives out this id.
abbrev grant : Bytes → ℤ → ℕ → ℕ × (Bytes ⊎ Failure)
grant owner ms v = (v, inl (codes "b2"))

-- A tool that the daemon refuses under any other id.
abbrev tool : Client → ℕ → ℕ × Return
tool c v = (
  v,
  if eqb c.session_id (codes "b2")
      then text (codes "done")
      else failure (failed_precondition, codes "no active Session"),
)

abbrev stale : Client
stale = record { session_id = codes "a1" }

recovered :
    call_with_session grant (codes "mcp") (pos 0) tool stale 0
    ≡ ((record { session_id = codes "b2" }, 0), text (codes "done"))
unfolding call_with_session ensure_session then_call retried started session_lost
    is_failed_precondition has_session clear_session contains_sub find_sub has_prefix to_lower lower
    eqb
recovered = refl

-- The client of a session that the daemon has given up still says that it holds the lock.
says_held :
    acquire_lock grant (codes "mcp") (pos 0) stale 0
    ≡ ((stale, 0), text (codes "already holding the hardware lock"))
unfolding acquire_lock has_session
says_held = refl

call_with_session_runs_example :
    let out =
      call_with_session
        (kept grant (codes "mcp") (pos 0) tool)
        (codes "mcp")
        (pos 0)
        (counted grant (codes "mcp") (pos 0) tool)
        stale
        (0, 0) in
    let ready =
      ensure_session (kept grant (codes "mcp") (pos 0) tool) (codes "mcp") (pos 0) stale (0, 0) in
    Fair grant (codes "mcp") (pos 0) tool 0 out.0.1.0 (tool ready.0.0 ready.0.1.1).1 out.1
call_with_session_runs_example = call_with_session_runs grant (codes "mcp") (pos 0) tool stale 0 0

abbrev events : List BootEvent
events =
    record { kind = Kind.stage; stage = codes "dhcp"; message = codes "up"; console = [] }
    ∷ record { kind = Kind.console; stage = []; message = []; console = codes "login:" }
    ∷ []

collect_all-IsSummary_example : IsSummary (all_written events) (collect_all [] events)
collect_all-IsSummary_example = collect_all-IsSummary events
