-- ===== src/Gate/Calls.antt =====
-- internal/server/session.go: the lock through a whole call, and the session RPCs.
use unwedge.Base.{
  ℕ, suc, ◌+◌, ◌-◌, ◌*◌, ◌^◌, ◌<◌, ◌≤◌, ◌≡◌, ◌≢◌, refl, ◌∙◌, Bytes, false, Option, none, some, List,
  [], eqb_iff, arith,
}
use unwedge.Base.Int.{pos, negsuc}
use unwedge.Grpc.{Reply, reply, status, failed_precondition, millisecond, milliseconds}
use unwedge.Session.{Manager, is_free, expires_at_locked, call_end, finish, clear_locked}
use unwedge.Session.InFlight.{InFlight, NoFinish, all_ends, run-InFlight}
use unwedge.Session.Step.{Op, run}
use unwedge.Gate.{is_exempt, session_id_from, ended, interceptor, finish_session, checked}
use unwedge.Gate.Lock.{Holds, begun, interceptor_lem}

-- A handler under which the goroutines take the steps `os`.
abbrev pub during {ℓ} : {R : Type ℓ} → List Op → R → Option Manager → Option Manager × Reply R
during os r none = (none, reply r)
during os r (some m) = (some (run os m), reply r)

begun-InFlight :
    (id : Bytes) (t t0 : ℕ) (n : ℕ) (m : Manager)
    → Holds id t0 m
    → n ≤ m.active_calls
    → InFlight id (n + 1) (begun t m)
unfolding begun is_free
begun-InFlight id t t0 n m h le = record {
  holder = h.0;
  held = ground (arith, eqb_iff m.id []);
  calls = omega arith;
}

call_end-InFlight :
    (id : Bytes) (t n : ℕ) (m : Manager)
    → InFlight id (suc n) m
    → let m' = call_end id t m in
      (m'.id ≡ id) × (m'.active_calls + 1 ≡ m.active_calls) × (expires_at_locked m' ≡ t + m.ttl)
unfolding call_end
call_end-InFlight id t n m i = ground (arith, i, eqb_iff m.id id)

-- The unit belongs to the caller from the start of an operational call to its end. Whatever the
-- other goroutines do meanwhile and however long it takes, if they do not finish the session and
-- end no more of its calls than were in flight before: at the end the session still holds the lock,
-- is one call down and has a full TTL.
pub interceptor-during :
    (method : Bytes) (metadata : Option (List Bytes)) (t0 t1 t2 : ℕ) (os : List Op) (m : Manager)
    → is_exempt method ≡ false
    → Holds (session_id_from metadata) t0 m
    → NoFinish (session_id_from metadata) os
    → all_ends (session_id_from metadata) os ≤ m.active_calls
    → let last = run os (begun t1 m) in
      let result = interceptor {0} method metadata t0 t1 t2 (during os tt) (some m) in
      (n : Manager) × (result ≡ (some n, reply tt))
      × (n.id ≡ session_id_from metadata)
      × (n.active_calls + 1 ≡ last.active_calls)
      × (expires_at_locked n ≡ t2 + last.ttl)
interceptor-during method metadata t0 t1 t2 os m operational h no_finish few =
    let id : Bytes = session_id_from metadata in
    let last : Manager = run os (begun t1 m) in
    let whole : InFlight id 1 last =
      run-InFlight os id 0 (begun t1 m) no_finish
        (begun-InFlight id t1 t0 (all_ends id os) m h few) in
    let after = call_end-InFlight id t2 0 last whole in
    (
      call_end id t2 last,
      (interceptor_lem method metadata t0 t1 t2 (during os tt) m operational).0 h
          ∙ (unfold ended in refl),
      after.0,
      after.1,
      after.2,
    )

-- FinishSession frees the lock for the holder, does nothing on a free lock, and is refused to any
-- other id, without a change.
pub finish_session_lem :
    (id : Bytes) (m : Manager)
    → id ≢ []
    → let result = finish_session id (some m) in
      (m.id ≡ id → result ≡ (some (clear_locked m), reply tt))
      × (m.id ≡ [] → result ≡ (some m, reply tt))
      × (m.id ≢ id → m.id ≢ [] → result ≡ (some m, status failed_precondition))
unfolding finish_session finish checked is_free
finish_session_lem id m h = (
  λ mine. ground (arith, eqb_iff m.id id, eqb_iff m.id []),
  λ free. ground (arith, eqb_iff m.id id, eqb_iff m.id []),
  λ other held. ground (arith, eqb_iff m.id id, eqb_iff m.id []),
)

-- A wait in milliseconds keeps its meaning up to 9223372036854 of them, and from there to twice
-- that it turns into a negative wait.
pub milliseconds_lem :
    (ms : ℕ)
    → (ms ≤ 9223372036854 → milliseconds (pos ms) ≡ pos (ms * millisecond))
      × (9223372036854 < ms
          → ms ≤ 18446744073709
          → milliseconds (pos ms) ≡ negsuc (2 ^ 64 - 1 - ms * millisecond))
unfolding milliseconds
milliseconds_lem ms = ((λ small. ground arith), (λ big most. ground arith))
