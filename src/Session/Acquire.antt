-- ===== src/Session/Acquire.antt =====
-- internal/session/session.go: Acquire, round by round.
use unwedge.Base.{ℕ, ◌+◌, Bytes, Option, none, some, List, [], ◌∷◌, if◌then◌else◌}
use unwedge.Base.Int.{ℤ, is_positive, is_negative}
use unwedge.Session.{
  Manager, Info, BusyError, expire_if_idle, is_free, info_locked, expires_at_locked,
}

-- What one round finds out under the lock: the new session, or the channel to wait on.
pub data Attempt : Type 0 where
  got : Info → Attempt
  held : Option ℕ → BusyError → Attempt

-- The fresh session. `fresh` is the result of `gen`.
unfoldable pub take_lock : Bytes → Bytes → ℕ → ℕ → Manager → Manager
take_lock owner fresh t1 t2 m = record m {
  id = fresh;
  owner = owner;
  started_at = t1;
  last_activity = t2;
  active_calls = 0;
  released = some m.made;
  made = m.made + 1;
}

unfoldable pub attempt : Bytes → Bytes → ℕ → ℕ → ℕ → Manager → Manager × Attempt
unfolding take_lock
attempt owner fresh t0 t1 t2 m =
    let m' = expire_if_idle t0 m in
    let m'' = take_lock owner fresh t1 t2 m' in
    if is_free m'
    then (m'', got (info_locked m''))
    else (m', held m'.released (record { owner = m'.owner; expires_at = expires_at_locked m' }))

pub data ContextError : Type 0 where
  deadline_exceeded canceled : ContextError

-- What becomes ready first while the caller waits.
pub data Signal : Type 0 where
  freed : Signal
  context_done : ContextError → Signal
  timed_out : Signal

pub data Outcome : Type 0 where
  acquired : Info → Outcome
  busy : BusyError → Outcome
  cancelled : ContextError → Outcome
  waiting : Outcome

-- One round of the loop: what the other goroutines do before it, its clock readings and fresh id, and,
-- while it waits, what the others do and the signals that come.
pub record Round : Type 0 where
  pub others : Manager → Manager
  pub meanwhile : Manager → Manager
  pub fresh : Bytes
  pub t0 : ℕ
  pub t1 : ℕ
  pub t2 : ℕ
  pub signals : List Signal

-- The `select`. Without a positive `wait` its third channel is nil and is never ready. `none` says
-- that the lock was freed and the loop goes on.
unfoldable pub select : ℤ → BusyError → List Signal → Option Outcome
select wait b [] = some waiting
select wait b (freed ∷ ss) = none
select wait b (context_done e ∷ ss) = some (cancelled e)
select wait b (timed_out ∷ ss) =
    let rest = select wait b ss in if is_positive wait then some (busy b) else rest

unfoldable pub after_attempt : ℤ → Attempt → List Signal → Option Outcome
unfolding select
after_attempt wait (got i) ss = some (acquired i)
after_attempt wait (held rel b) ss = if is_negative wait then some (busy b) else select wait b ss

-- The lock when a round ends: a caller that has it, or that does not wait, returns at once.
unfoldable pub left_at : ℤ → Attempt → (Manager → Manager) → Manager → Manager
left_at wait (got i) meanwhile m = m
left_at wait (held rel b) meanwhile m = if is_negative wait then m else meanwhile m

-- The loop, over the rounds that are scheduled; `waiting` if they end before it returns.
unfoldable pub acquire : Bytes → ℤ → List Round → Manager → Manager × Outcome
unfolding left_at
acquire owner wait [] m = (m, waiting)
acquire owner wait (r ∷ rs) m =
    let tried = attempt owner r.fresh r.t0 r.t1 r.t2 (r.others m) in
    let left = left_at wait tried.1 r.meanwhile tried.0 in
    elim (after_attempt wait tried.1 r.signals) [
      | none ↦ acquire owner wait rs left
      | some o ↦ (left, o)
    ]
