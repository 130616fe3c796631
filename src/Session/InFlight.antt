-- ===== src/Session/InFlight.antt =====
-- internal/session/session.go: a session with a call in flight is not taken away.
use unwedge.Base.{
  ℕ, suc, ◌+◌, ◌≤◌, ◌<◌, ◌≡◌, Bytes, Bool, false, List, [], ◌∷◌, eqb, if◌then◌else◌, arith,
}
use unwedge.Session.{
  Manager, is_free, is_not_holder, expire_if_idle, reap, close, finish, refresh, call_start,
  call_end, info,
}
use unwedge.Session.Acquire.{attempt}
use unwedge.Session.Step.{
  Op, acquire_op, finish_op, refresh_op, start_op, end_op, info_op, reap_op, close_op, step, run,
}

-- The calls of `id` that a step ends, and whether it finishes the session `id`.
abbrev pub ends : Bytes → Op → ℕ
ends id (end_op id' t) = if eqb id id' then 1 else 0
ends id _ = 0

abbrev pub finishes : Bytes → Op → Bool
finishes id (finish_op id') = eqb id id'
finishes id _ = false

abbrev pub all_ends : Bytes → List Op → ℕ
all_ends id [] = 0
all_ends id (o ∷ os) = ends id o + all_ends id os

abbrev pub NoFinish : Bytes → List Op → Type 0
NoFinish id [] = Unit
NoFinish id (o ∷ os) = (finishes id o ≡ false) × NoFinish id os

expire_if_idle_busy : (t : ℕ) (m : Manager) → 0 < m.active_calls → expire_if_idle t m ≡ m
unfolding expire_if_idle
expire_if_idle_busy t m h = ground arith

-- The session `id` holds the lock with at least `n` calls in flight.
pub record InFlight (id : Bytes) (n : ℕ) (m : Manager) : Type 0 where
  pub holder : m.id ≡ id
  pub held : is_free m ≡ false
  pub calls : n ≤ m.active_calls

module _ (m : Manager) (busy : 0 < m.active_calls) where
  attempt_busy :
      (owner fresh : Bytes) (t0 t1 t2 : ℕ)
      → is_free m ≡ false
      → (attempt owner fresh t0 t1 t2 m).0 ≡ m
  unfolding attempt
  attempt_busy owner fresh t0 t1 t2 held = rw (expire_if_idle_busy t0 m busy, held)

  refresh_busy :
      (id : Bytes) (t0 t1 : ℕ)
      → (refresh id t0 t1 m).0 ≡ (if is_not_holder id m then m else record m { last_activity = t1 })
  unfolding refresh
  refresh_busy id t0 t1 = rw (expire_if_idle_busy t0 m busy) (ground arith)

  call_start_busy :
      (id : Bytes) (t0 t1 : ℕ)
      → (call_start id t0 t1 m).0 ≡ (
          if is_not_holder id m
          then m
          else record m { last_activity = t1; active_calls = m.active_calls + 1 })
  unfolding call_start
  call_start_busy id t0 t1 = rw (expire_if_idle_busy t0 m busy) (ground arith)

step-InFlight :
    (o : Op) (id : Bytes) (n : ℕ) (m : Manager)
    → 0 < m.active_calls
    → finishes id o ≡ false
    → InFlight id (ends id o + n) m
    → InFlight id n (step o m)
unfolding step is_free
step-InFlight (acquire_op owner fresh t0 t1 t2) id n m h f i =
    rw (attempt_busy m h owner fresh t0 t1 t2 i.held) (ground arith)
step-InFlight (finish_op id') id n m h f i = unfold finish in ground (arith, i)
step-InFlight (refresh_op id' t0 t1) id n m h f i = rw (refresh_busy m h id' t0 t1) (ground arith)
step-InFlight (start_op id' t0 t1) id n m h f i = rw (call_start_busy m h id' t0 t1) (ground arith)
step-InFlight (end_op id' t) id n m h f i = unfold call_end in ground (arith, i)
step-InFlight (info_op t) id n m h f i =
    unfold info in rw (expire_if_idle_busy t m h) (ground arith)
step-InFlight (reap_op t) id n m h f i = unfold reap in ground (arith, expire_if_idle_busy t m h)
step-InFlight close_op id n m h f i = unfold close in ground arith

-- While some call of the session is not ended and the session is not finished, nobody takes the
-- lock away, however late it is and whatever the other goroutines do; and every call that was
-- started and not ended is still counted.
pub run-InFlight :
    (os : List Op) (id : Bytes) (n : ℕ) (m : Manager)
    → NoFinish id os
    → InFlight id (all_ends id os + suc n) m
    → InFlight id (suc n) (run os m)
run-InFlight [] id n m f i = record {
  holder = i.holder;
  held = i.held;
  calls = omega (arith, i.calls);
}
run-InFlight (o ∷ os) id n m f i = run-InFlight os id n (step o m) f.1 (
    step-InFlight o id (all_ends id os + suc n) m (omega (arith, i.calls)) f.0
      (record { holder = i.holder; held = i.held; calls = omega (arith, i.calls) }))
