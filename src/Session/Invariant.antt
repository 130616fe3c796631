-- ===== src/Session/Invariant.antt =====
-- internal/session/session.go: the well-formedness of the lock, kept by every step.
use unwedge.Base.{
  ℕ, zero, suc, ◌+◌, ◌-◌, ◌<◌, ◌≡◌, ◌≢◌, Bytes, true, false, some, none, List, [], ◌∷◌, eqb,
  eqb_iff, Bool-cases, inl, inr, arith,
}
use unwedge.Base.Int.{ℤ}
use unwedge.Session.{
  Manager, new_manager, is_free, clear_locked, expire_if_idle, is_not_holder, reap, close, finish,
  refresh, call_start, call_end, info,
}
use unwedge.Session.Acquire.{take_lock, attempt}
use unwedge.Session.Step.{
  Op, acquire_op, finish_op, refresh_op, start_op, end_op, info_op, reap_op, close_op, step, run,
  IsFresh, AllFresh,
}

-- The channels below `n`, the last first.
abbrev pub down : ℕ → List ℕ
down zero = []
down (suc n) = n ∷ down n

-- A free lock has no call in flight and no channel, and every channel made is closed, once. A held
-- lock has the last channel made, and exactly the others are closed.
pub record IsWell (m : Manager) : Type 0 where
  pub free_idle : is_free m ≡ true → m.active_calls ≡ 0
  pub free_none : is_free m ≡ true → m.released ≡ none
  pub free_closed : is_free m ≡ true → m.closed ≡ down m.made
  pub held_made : is_free m ≡ false → 0 < m.made
  pub held_some : is_free m ≡ false → m.released ≡ some (m.made - 1)
  pub held_closed : is_free m ≡ false → m.closed ≡ down (m.made - 1)

pub new_manager-IsWell : (ttl : ℤ) → IsWell (new_manager ttl)
unfolding new_manager is_free eqb
new_manager-IsWell ttl = ground arith

down-made : (n : ℕ) → 0 < n → (n - 1) ∷ down (n - 1) ≡ down n
down-made zero h = elim h [ ]
down-made (suc n) h = let e : suc n - 1 ≡ n = omega arith in rw e

pub clear_locked-IsWell : (m : Manager) → IsWell m → IsWell (clear_locked m)
unfolding clear_locked is_free eqb
clear_locked-IsWell m w = ground (arith, down-made m.made)

pub expire_if_idle-IsWell : (now : ℕ) (m : Manager) → IsWell m → IsWell (expire_if_idle now m)
unfolding expire_if_idle
expire_if_idle-IsWell now m w = ground (arith, clear_locked-IsWell m)

pub is_free-take_lock :
    (owner fresh : Bytes) (t1 t2 : ℕ) (m : Manager)
    → fresh ≢ []
    → is_free (take_lock owner fresh t1 t2 m) ≡ false
unfolding take_lock is_free
is_free-take_lock owner fresh t1 t2 m h = ground (arith, eqb_iff fresh [])

take_lock-IsWell :
    (owner fresh : Bytes) (t1 t2 : ℕ) (m : Manager)
    → fresh ≢ []
    → is_free m ≡ true
    → IsWell m
    → IsWell (take_lock owner fresh t1 t2 m)
take_lock-IsWell owner fresh t1 t2 m h free w =
    let held : is_free (take_lock owner fresh t1 t2 m) ≡ false =
      is_free-take_lock owner fresh t1 t2 m h in
    let back : m.made + 1 - 1 ≡ m.made = omega arith in
    record {
      free_idle = λ f. absurd (cc (held, f));
      free_none = λ f. absurd (cc (held, f));
      free_closed = λ f. absurd (cc (held, f));
      held_made = λ _. unfold take_lock in omega arith;
      held_some = λ _. unfold take_lock in rw back;
      held_closed = λ _. unfold take_lock in rw back (w.free_closed free);
    }

attempt-IsWell :
    (owner fresh : Bytes) (t0 t1 t2 : ℕ) (m : Manager)
    → fresh ≢ []
    → IsWell m
    → IsWell (attempt owner fresh t0 t1 t2 m).0
unfolding attempt
attempt-IsWell owner fresh t0 t1 t2 m h w =
    let w' : IsWell (expire_if_idle t0 m) = expire_if_idle-IsWell t0 m w in
    elim (Bool-cases (is_free (expire_if_idle t0 m))) [
      | inl free ↦ rw free (take_lock-IsWell owner fresh t1 t2 _ h free w')
      | inr held ↦ rw held w'
    ]

-- A held lock stays well whatever its times and its count.
held-IsWell :
    (m : Manager) (last calls : ℕ)
    → is_free m ≡ false
    → IsWell m
    → IsWell (record m { last_activity = last; active_calls = calls })
unfolding is_free
held-IsWell m last calls held w = ground arith

finish-IsWell : (id : Bytes) (m : Manager) → IsWell m → IsWell (finish id m).0
unfolding finish
finish-IsWell id m w = ground (arith, clear_locked-IsWell m w)

refresh-IsWell : (id : Bytes) (t0 t1 : ℕ) (m : Manager) → IsWell m → IsWell (refresh id t0 t1 m).0
unfolding refresh is_not_holder
refresh-IsWell id t0 t1 m w =
    let m' : Manager = expire_if_idle t0 m in
    let w' : IsWell m' = expire_if_idle-IsWell t0 m w in
    ground (arith, held-IsWell m' t1 m'.active_calls)

call_start-IsWell :
    (id : Bytes) (t0 t1 : ℕ) (m : Manager) → IsWell m → IsWell (call_start id t0 t1 m).0
unfolding call_start is_not_holder
call_start-IsWell id t0 t1 m w =
    let m' : Manager = expire_if_idle t0 m in
    let w' : IsWell m' = expire_if_idle-IsWell t0 m w in
    ground (arith, held-IsWell m' t1 (m'.active_calls + 1))

call_end-IsWell : (id : Bytes) (t : ℕ) (m : Manager) → IsWell m → IsWell (call_end id t m)
unfolding call_end
call_end-IsWell id t m w = elim (Bool-cases (is_free m)) [
  | inl free ↦ ground (arith, w)
  | inr held ↦ ground (arith, held-IsWell m t (m.active_calls - 1) held w)
]

reap-IsWell : (t : ℕ) (m : Manager) → IsWell m → IsWell (reap t m)
unfolding reap
reap-IsWell t m w = ground (arith, expire_if_idle-IsWell t m w)

close-IsWell : (m : Manager) → IsWell m → IsWell (close m)
unfolding close is_free
close-IsWell m w = ground arith

-- Every step of every goroutine keeps the lock well.
pub step-IsWell : (o : Op) (m : Manager) → IsFresh o → IsWell m → IsWell (step o m)
unfolding step
step-IsWell (acquire_op owner fresh t0 t1 t2) m h w = attempt-IsWell owner fresh t0 t1 t2 m h w
step-IsWell (finish_op id) m h w = finish-IsWell id m w
step-IsWell (refresh_op id t0 t1) m h w = refresh-IsWell id t0 t1 m w
step-IsWell (start_op id t0 t1) m h w = call_start-IsWell id t0 t1 m w
step-IsWell (end_op id t) m h w = call_end-IsWell id t m w
step-IsWell (info_op t) m h w = unfold info in expire_if_idle-IsWell t m w
step-IsWell (reap_op t) m h w = reap-IsWell t m w
step-IsWell close_op m h w = close-IsWell m w

pub run-IsWell : (os : List Op) (m : Manager) → AllFresh os → IsWell m → IsWell (run os m)
run-IsWell [] m h w = w
run-IsWell (o ∷ os) m h w = run-IsWell os (step o m) h.1 (step-IsWell o m h.0 w)

-- Whatever the goroutines do, in whatever order, if the generated ids are not empty: no channel is
-- ever closed twice, a free lock has no call in flight and no open channel, and a held one has one.
pub run-new_manager-IsWell :
    (ttl : ℤ) (os : List Op) → AllFresh os → IsWell (run os (new_manager ttl))
run-new_manager-IsWell ttl os h = run-IsWell os (new_manager ttl) h (new_manager-IsWell ttl)
