-- ===== src/Bridge.antt =====
-- cmd/unwedge-mcp/main.go: the bridge from tools to the daemon. A daemon acts on a world.
pub mod Retry
pub mod Collector
mod Tests
use unwedge.Base.{
  ℕ, ◌+◌, ◌-◌, ◌*◌, Bytes, codes, Bool, true, false, ◌&&◌, ◌||◌, not, Option, none, some, List, [],
  ◌∷◌, ◌++◌, length, drop, ltb, ◌==◌, if◌then◌else◌, eqb, contains_sub, to_lower, ◌⊎◌, inl, inr,
}
use unwedge.Base.Int.{ℤ, pos, is_positive}
use unwedge.Grpc.{Code, failed_precondition, unimplemented, milliseconds}
use unwedge.Client.{Client, has_session, clear_session, wait_ms}
use unwedge.Service.{PowerAction, action_on, action_off, action_cycle, action_status}

-- A status with its text.
abbrev pub Failure : Type 0
Failure = Code × Bytes

-- What a tool returns.
pub data Return : Type 0 where
  text : Bytes → Return
  failure : Failure → Return

unfoldable pub is_failed_precondition : Code → Bool
is_failed_precondition failed_precondition = true
is_failed_precondition c = false

unfoldable pub is_unimplemented : Code → Bool
is_unimplemented unimplemented = true
is_unimplemented c = false

unfoldable pub session_lost : Failure → Bool
unfolding is_failed_precondition
session_lost e = is_failed_precondition e.0 && contains_sub (to_lower e.1) (codes "session")

module _ {W : Type 0} (start_session : Bytes → ℤ → W → W × (Bytes ⊎ Failure)) (owner : Bytes)
    (wait : ℤ) where
  unfoldable pub started : Client → W × (Bytes ⊎ Failure) → (Client × W) × Option Failure
  unfolding is_unimplemented
  started c (w, inl id) = ((record { session_id = id }, w), none)
  started c (w, inr e) = ((c, w), if is_unimplemented e.0 then none else some e)

  unfoldable pub ensure_session : Client → W → (Client × W) × Option Failure
  unfolding started
  ensure_session c w =
      if has_session c then ((c, w), none) else started c (start_session owner (wait_ms wait) w)

  -- The tool, which is given the client whose session its calls carry.
  unfoldable pub then_call :
      (Client → W → W × Return) → (Client × W) × Option Failure → (Client × W) × Return
  then_call fn ((c, w), some e) = ((c, w), failure e)
  then_call fn ((c, w), none) = let done = fn c w in ((c, done.0), done.1)

  unfoldable pub retried : (Client → W → W × Return) → (Client × W) × Return → (Client × W) × Return
  unfolding then_call ensure_session
  retried fn ((c, w), text t) = ((c, w), text t)
  retried fn ((c, w), failure e) =
      if session_lost e
      then then_call fn (ensure_session (clear_session c) w)
      else ((c, w), failure e)

  -- callWithSession
  unfoldable pub call_with_session : (Client → W → W × Return) → Client → W → (Client × W) × Return
  unfolding retried
  call_with_session fn c w =
      let ensured = ensure_session c w in
      elim ensured.1 [ some e ↦ (ensured.0, failure e) | none ↦ retried fn (then_call fn ensured) ]

  -- The tool acquire_lock.
  unfoldable pub acquire_lock : Client → W → (Client × W) × Return
  acquire_lock c w =
      if has_session c
      then ((c, w), text (codes "already holding the hardware lock"))
      else elim (start_session owner (wait_ms wait) w).1 [
        | inl id ↦ (
          (record { session_id = id }, (start_session owner (wait_ms wait) w).0),
          text (codes "acquired hardware lock"),
        )
        | inr e ↦ ((c, (start_session owner (wait_ms wait) w).0), failure e)
      ]

-- lockExempt
unfoldable pub is_lock_exempt : Bytes → Bool
is_lock_exempt name =
    eqb name (codes "get_status")
    || eqb name (codes "read_console_log")
    || eqb name (codes "acquire_lock")
    || eqb name (codes "release_lock")

-- The action of the tool power; none for any other text.
unfoldable pub power_action_named : Bytes → Option PowerAction
power_action_named a =
    if eqb a (codes "on")
    then some action_on
    else if eqb a (codes "off")
    then some action_off
    else if eqb a (codes "cycle")
    then some action_cycle
    else if eqb a (codes "status")
    then some action_status
    else none

pub data Kind : Type 0 where
  unspecified info console stage success error : Kind

pub record BootEvent : Type 0 where
  pub kind : Kind
  pub stage : Bytes
  pub message : Bytes
  pub console : Bytes

-- What the collector writes for an event.
unfoldable pub written : BootEvent → Bytes
written ev = elim ev.kind [
  | console ↦ ev.console
  | stage ↦ codes "\n== " ++ ev.stage ++ codes ": " ++ ev.message ++ codes "\n"
  | error ↦ codes "\n!! " ++ ev.message ++ codes "\n"
  | info ↦ codes "\n-- " ++ ev.message ++ codes "\n"
  | success ↦ []
  | unspecified ↦ []
]

unfoldable pub bounded : Bytes → Bytes
bounded s = if ltb 200_000 (length s) then drop (length s - 100_000) s else s

-- bootEventCollector on the text so far.
unfoldable pub collect : Bytes → BootEvent → Bytes
unfolding bounded
collect sb ev = bounded (sb ++ written ev)

unfoldable pub scp_timeout : ℤ → ℤ
scp_timeout ms = if is_positive ms then milliseconds ms else pos (300 * 1_000_000_000)

-- The host name is none if it is unknown or empty.
unfoldable pub owner_label : Bytes → Option Bytes → Bytes
owner_label (c ∷ override) host = c ∷ override
owner_label [] none = codes "unwedge-mcp"
owner_label [] (some h) = codes "unwedge-mcp@" ++ h

unfoldable pub out_note : Bytes → Bytes
out_note [] = []
out_note (c ∷ p) = codes ", written to " ++ c ∷ p
