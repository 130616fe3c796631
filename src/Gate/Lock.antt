-- ===== src/Gate/Lock.antt =====
-- internal/server/session.go: who is admitted to an operational call.
use unwedge.Base.{
  ℕ, ◌+◌, ◌<◌, ◌≤◌, ◌≡◌, ◌≢◌, ◌⊎◌, inl, inr, Bytes, false, Option, none, some, List, [], Bool-cases,
  eqb_iff, eqb_refl, arith,
}
use unwedge.Grpc.{Reply, status, failed_precondition}
use unwedge.Session.{
  Manager, is_free, is_not_holder, expires_at_locked, expire_if_idle, call_start, refresh,
  no_active_session,
}
use unwedge.Gate.{is_exempt, session_id_from, ended, interceptor, stream_message}

-- `id` holds the lock at the reading `t`: it is the holder's, and the session is not idle past its
-- TTL.
abbrev pub Holds : Bytes → ℕ → Manager → Type 0
Holds id t m = (m.id ≡ id) × (id ≢ []) × ((0 < m.active_calls) ⊎ (t ≤ expires_at_locked m))

unfoldable pub begun : ℕ → Manager → Manager
begun t m = record m { last_activity = t; active_calls = m.active_calls + 1 }

call_start-Holds :
    (id : Bytes) (t0 t1 : ℕ) (m : Manager)
    → Holds id t0 m
    → call_start id t0 t1 m ≡ (begun t1 m, none)
unfolding call_start expire_if_idle is_not_holder is_free begun
call_start-Holds id t0 t1 m h = ground (arith, eqb_iff m.id id, eqb_iff m.id [])

Holds-of_holder :
    (id : Bytes) (t : ℕ) (m : Manager)
    → is_not_holder id (expire_if_idle t m) ≡ false
    → Holds id t m
unfolding expire_if_idle is_not_holder is_free
Holds-of_holder id t m h =
    ground (arith, eqb_iff m.id id, eqb_iff m.id [], eqb_iff [] id, eqb_refl [])

call_start-not-Holds :
    (id : Bytes) (t0 t1 : ℕ) (m : Manager)
    → ¬ Holds id t0 m
    → call_start id t0 t1 m ≡ (expire_if_idle t0 m, some (no_active_session id))
unfolding call_start
call_start-not-Holds id t0 t1 m h = elim (Bool-cases (is_not_holder id (expire_if_idle t0 m))) [
  | inl other ↦ rw other
  | inr mine ↦ absurd (h (Holds-of_holder id t0 m mine))
]

module _ {ℓ} {R : Type ℓ} where
  -- An operational call is run exactly when its metadata carry the id of the session that holds
  -- the lock: then its handler finds itself counted and the TTL fresh, and it is counted off at
  -- its end. Any other call is refused, and leaves the lock as an idle check leaves it.
  pub interceptor_lem :
      (method : Bytes) (metadata : Option (List Bytes)) (t0 t1 t2 : ℕ)
      (handler : Option Manager → Option Manager × Reply R) (m : Manager)
      → is_exempt method ≡ false
      → let id = session_id_from metadata in
        let result = interceptor method metadata t0 t1 t2 handler (some m) in
        let run = handler (some (begun t1 m)) in
        (Holds id t0 m → result ≡ (ended id t2 run.0, run.1))
        × (¬ Holds id t0 m → result ≡ (some (expire_if_idle t0 m), status failed_precondition))
  unfolding interceptor
  interceptor_lem method metadata t0 t1 t2 handler m operational =
      let id : Bytes = session_id_from metadata in
      (
        λ h. rw (operational, call_start-Holds id t0 t1 m h),
        λ h. rw (operational, call_start-not-Holds id t0 t1 m h),
      )

-- A message on an operational stream renews the session: if `id` holds the lock, it expires a full
-- TTL after the message.
pub stream_message_renews :
    (id : Bytes) (t0 t1 : ℕ) (m : Manager)
    → Holds id t0 m
    → let m' = stream_message id t0 t1 m in
      (m'.id ≡ id) × (expires_at_locked m' ≡ t1 + m.ttl) × (m'.active_calls ≡ m.active_calls)
unfolding stream_message refresh expire_if_idle is_not_holder is_free
stream_message_renews id t0 t1 m h = ground (arith, eqb_iff m.id id, eqb_iff m.id [])
