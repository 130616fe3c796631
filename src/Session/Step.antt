-- ===== src/Session/Step.antt =====
-- internal/session/session.go: one step of any goroutine on the lock, and runs of steps.
use unwedge.Base.{ℕ, Bytes, ◌≢◌, List, [], ◌∷◌}
use unwedge.Session.{Manager, reap, close, finish, refresh, call_start, call_end, info}
use unwedge.Session.Acquire.{attempt}

-- The atomic sections of the methods and of the reaper, with their clock readings.
pub data Op : Type 0 where
  acquire_op : Bytes → (fresh : Bytes) → ℕ → ℕ → ℕ → Op
  finish_op : Bytes → Op
  refresh_op : Bytes → ℕ → ℕ → Op
  start_op : Bytes → ℕ → ℕ → Op
  end_op : Bytes → ℕ → Op
  info_op : ℕ → Op
  reap_op : ℕ → Op
  close_op : Op

unfoldable pub step : Op → Manager → Manager
step (acquire_op owner fresh t0 t1 t2) m = (attempt owner fresh t0 t1 t2 m).0
step (finish_op id) m = (finish id m).0
step (refresh_op id t0 t1) m = (refresh id t0 t1 m).0
step (start_op id t0 t1) m = (call_start id t0 t1 m).0
step (end_op id t) m = call_end id t m
step (info_op t) m = (info t m).0
step (reap_op t) m = reap t m
step close_op m = close m

abbrev pub run : List Op → Manager → Manager
run [] m = m
run (o ∷ os) m = run os (step o m)

-- What the id generator guarantees: an id is not empty.
abbrev pub IsFresh : Op → Type 0
IsFresh (acquire_op owner fresh t0 t1 t2) = fresh ≢ []
IsFresh _ = Unit

abbrev pub AllFresh : List Op → Type 0
AllFresh [] = Unit
AllFresh (o ∷ os) = IsFresh o × AllFresh os
