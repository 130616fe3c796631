-- ===== src/Gate.antt =====
-- internal/server/session.go: the session RPCs and the interceptors that hold operational calls to
-- the lock. The lock is an optional Manager, none when locking is disabled.
pub mod Lock
pub mod Calls
mod Tests
use unwedge.Base.{
  ℕ, ◌/◌, Bytes, codes, Bool, true, false, Option, none, some, List, [], ◌∷◌, if◌then◌else◌, eqb,
  ◌||◌,
}
use unwedge.Base.Int.{ℤ, pos, negsuc}
use unwedge.Grpc.{
  Reply, reply, status, pending, unimplemented, failed_precondition, deadline_exceeded, canceled,
  millisecond, milliseconds,
}
use unwedge.Session.{
  Manager, SessionError, Info, BusyError, finish, refresh, call_start, call_end, info,
}
use unwedge.Session.Acquire
use unwedge.Session.Acquire.{Round, Outcome, acquired, busy, cancelled, waiting, acquire}

-- Any text of the list.
unfoldable pub mentions : Bytes → List Bytes → Bool
mentions m [] = false
mentions m (k ∷ ks) = eqb m k || mentions m ks

-- sessionExemptMethods, by the full method names of gen/unwedge/v1/unwedge_grpc.pb.go.
abbrev pub session_exempt_methods : List Bytes
session_exempt_methods =
    codes "/unwedge.v1.Unwedge/GetStatus"
    ∷ codes "/unwedge.v1.Unwedge/StreamConsole"
    ∷ codes "/unwedge.v1.Unwedge/ReadConsoleLog"
    ∷ codes "/unwedge.v1.Unwedge/StartSession"
    ∷ codes "/unwedge.v1.Unwedge/FinishSession"
    ∷ codes "/unwedge.v1.Unwedge/Ping"
    ∷ []

unfoldable pub is_exempt : Bytes → Bool
unfolding mentions
is_exempt method = mentions method session_exempt_methods

-- The values of the session key in the incoming metadata; none if there is no metadata.
unfoldable pub session_id_from : Option (List Bytes) → Bytes
session_id_from none = []
session_id_from (some []) = []
session_id_from (some (v ∷ vs)) = v

pub record StartResponse : Type 0 where
  pub session_id : Bytes
  pub expires_at_ms : ℕ
  pub ttl_ms : ℕ

unfoldable pub start_reply : ℕ → Outcome → Reply StartResponse
start_reply ttl (acquired i) = reply (record {
  session_id = i.id;
  expires_at_ms = i.expires_at / millisecond;
  ttl_ms = ttl / millisecond;
})
start_reply ttl (busy b) = status failed_precondition
start_reply ttl (cancelled Acquire.deadline_exceeded) = status deadline_exceeded
start_reply ttl (cancelled Acquire.canceled) = status canceled
start_reply ttl waiting = pending

unfoldable pub start_session :
    Bytes → ℤ → List Round → Option Manager → Option Manager × Reply StartResponse
start_session owner wait_timeout_ms rounds none = (none, status unimplemented)
start_session owner wait_timeout_ms rounds (some m) =
    let result = acquire owner (milliseconds wait_timeout_ms) rounds m in
    (some result.0, start_reply result.0.ttl result.1)

-- An error of the lock becomes FailedPrecondition.
unfoldable pub checked {ℓ} : {A : Type ℓ} → Option SessionError → A → Reply A
checked none a = reply a
checked (some e) a = status failed_precondition

unfoldable pub finish_session : Bytes → Option Manager → Option Manager × Reply (Unit {0})
finish_session id none = (none, reply tt)
finish_session id (some m) = let result = finish id m in (some result.0, checked result.1 tt)

-- UnixMilli of an Info's ExpiresAt, which is Go's zero time when there is no session.
unfoldable pub expires_at_ms : Info → ℤ
expires_at_ms i = if i.active then pos (i.expires_at / millisecond) else negsuc 62_135_596_799_999

-- The reading `t2` is that of `Info`. Without locking the reply is the empty response.
unfoldable pub ping : Bytes → ℕ → ℕ → ℕ → Option Manager → Option Manager × Reply ℤ
unfolding expires_at_ms
ping id t0 t1 t2 none = (none, reply (pos 0))
ping id t0 t1 t2 (some m) =
    let result = refresh id t0 t1 m in
    let seen = info t2 result.0 in
    elim result.1 [
      | none ↦ (some seen.0, reply (expires_at_ms seen.1))
      | some e ↦ (some result.0, status failed_precondition)
    ]

-- The deferred CallEnd.
unfoldable pub ended : Bytes → ℕ → Option Manager → Option Manager
ended id t none = none
ended id t (some m) = some (call_end id t m)

-- UnaryInterceptor and StreamInterceptor. The handler is everything that happens to the lock while
-- it runs, its own doings and those of the other goroutines, with its reply. A stream's handler is
-- given the refreshing stream, whose messages are `stream_message`.
module _ {ℓ} {R : Type ℓ} where
  unfoldable pub admitted :
      Bytes
      → ℕ
      → Option SessionError
      → Manager
      → (Option Manager → Option Manager × Reply R)
      → Option Manager × Reply R
  unfolding ended
  admitted id t none m handler = let result = handler (some m) in (ended id t result.0, result.1)
  admitted id t (some e) m handler = (some m, status failed_precondition)

  unfoldable pub interceptor :
      Bytes
      → Option (List Bytes)
      → ℕ
      → ℕ
      → ℕ
      → (Option Manager → Option Manager × Reply R)
      → Option Manager
      → Option Manager × Reply R
  unfolding admitted
  interceptor method metadata t0 t1 t2 handler none = handler none
  interceptor method metadata t0 t1 t2 handler (some m) =
      let id = session_id_from metadata in
      let started = call_start id t0 t1 m in
      if is_exempt method then handler (some m) else admitted id t2 started.1 started.0 handler

-- SendMsg and RecvMsg of the refreshing stream: the error of Refresh is dropped.
unfoldable pub stream_message : Bytes → ℕ → ℕ → Manager → Manager
stream_message id t0 t1 m = (refresh id t0 t1 m).0
