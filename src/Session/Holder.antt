-- ===== src/Session/Holder.antt =====
-- internal/session/session.go: who holds the lock, and what may end a session.
use unwedge.Base.{
  ℕ, ◌+◌, ◌<◌, ◌≡◌, ◌≢◌, ◌⊎◌, inl, inr, refl, ap, sym, Bytes, true, false, some, none, Option, [],
  eqb, eqb_iff, Bool-cases, arith,
}
use unwedge.Session.{
  Manager, Info, BusyError, is_free, expires_at_locked, expire_if_idle, info_locked, reap, close,
  finish, refresh, call_start, call_end, info,
}
use unwedge.Session.Acquire.{take_lock, attempt, got, held}
use unwedge.Session.Step.{
  Op, acquire_op, finish_op, refresh_op, start_op, end_op, info_op, reap_op, close_op, step,
}
use unwedge.Session.Invariant.{is_free-take_lock}

-- The clock reading by which a step may find the session idle; the other steps read none.
abbrev pub idle_test : Op → Option ℕ
idle_test (acquire_op owner fresh t0 t1 t2) = some t0
idle_test (finish_op id) = none
idle_test (refresh_op id t0 t1) = some t0
idle_test (start_op id t0 t1) = some t0
idle_test (end_op id t) = none
idle_test (info_op t) = some t
idle_test (reap_op t) = some t
idle_test close_op = none

-- The session is idle past its TTL when the step looks.
abbrev pub Expired : Op → Manager → Type 0
Expired o m = (m.active_calls ≡ 0) × ((t : ℕ) × (idle_test o ≡ some t) × (expires_at_locked m < t))

expire_if_idle_cases :
    (t : ℕ) (m : Manager)
    → (expire_if_idle t m ≡ m) ⊎ ((m.active_calls ≡ 0) × (expires_at_locked m < t))
unfolding expire_if_idle
expire_if_idle_cases t m = ground arith

attempt-id :
    (owner fresh : Bytes) (t0 t1 t2 : ℕ) (m : Manager)
    → expire_if_idle t0 m ≡ m
    → is_free m ≡ false
    → (attempt owner fresh t0 t1 t2 m).0.id ≡ m.id
unfolding attempt
attempt-id owner fresh t0 t1 t2 m same h = rw (same, h)

refresh-id :
    (id : Bytes) (t0 t1 : ℕ) (m : Manager)
    → expire_if_idle t0 m ≡ m
    → (refresh id t0 t1 m).0.id ≡ m.id
unfolding refresh
refresh-id id t0 t1 m same = rw same (ground arith)

call_start-id :
    (id : Bytes) (t0 t1 : ℕ) (m : Manager)
    → expire_if_idle t0 m ≡ m
    → (call_start id t0 t1 m).0.id ≡ m.id
unfolding call_start
call_start-id id t0 t1 m same = rw same (ground arith)

finish-id :
    (id : Bytes) (m : Manager) → is_free m ≡ false → ((finish id m).0.id ≡ m.id) ⊎ (m.id ≡ id)
unfolding finish
finish-id id m h = ground (arith, eqb_iff m.id id)

-- A session ends only by its own `Finish`, or when it is idle past its TTL with no call in flight.
pub step_ends_session :
    (o : Op) (m : Manager)
    → is_free m ≡ false
    → ((step o m).id ≡ m.id) ⊎ (o ≡ finish_op m.id) ⊎ Expired o m
unfolding step
step_ends_session (acquire_op owner fresh t0 t1 t2) m h = elim (expire_if_idle_cases t0 m) [
  | inl same ↦ inl (attempt-id owner fresh t0 t1 t2 m same h)
  | inr e ↦ inr (inr (e.0, (t0, refl, e.1)))
]
step_ends_session (finish_op id) m h = elim (finish-id id m h) [
  | inl same ↦ inl same
  | inr e ↦ inr (inl (ap finish_op (sym e)))
]
step_ends_session (refresh_op id t0 t1) m h = elim (expire_if_idle_cases t0 m) [
  | inl same ↦ inl (refresh-id id t0 t1 m same)
  | inr e ↦ inr (inr (e.0, (t0, refl, e.1)))
]
step_ends_session (start_op id t0 t1) m h = elim (expire_if_idle_cases t0 m) [
  | inl same ↦ inl (call_start-id id t0 t1 m same)
  | inr e ↦ inr (inr (e.0, (t0, refl, e.1)))
]
step_ends_session (end_op id t) m h = inl (unfold call_end in ground arith)
step_ends_session (info_op t) m h = elim (expire_if_idle_cases t m) [
  | inl same ↦ inl (unfold info in ap (λ n. n.id) same)
  | inr e ↦ inr (inr (e.0, (t, refl, e.1)))
]
step_ends_session (reap_op t) m h = elim (expire_if_idle_cases t m) [
  | inl same ↦ inl (unfold reap in ground (arith, same))
  | inr e ↦ inr (inr (e.0, (t, refl, e.1)))
]
step_ends_session close_op m h = inl (unfold close in refl)

-- When an attempt that reads `t` may take the lock.
abbrev pub CanTake : ℕ → Manager → Type 0
CanTake t m = (is_free m ≡ true) ⊎ ((m.active_calls ≡ 0) × (expires_at_locked m < t))

expire_if_idle-frees : (t : ℕ) (m : Manager) → CanTake t m → is_free (expire_if_idle t m) ≡ true
unfolding expire_if_idle is_free eqb
expire_if_idle-frees t m h = ground arith

expire_if_idle-keeps : (t : ℕ) (m : Manager) → ¬ CanTake t m → expire_if_idle t m ≡ m
unfolding expire_if_idle
expire_if_idle-keeps t m h = elim (expire_if_idle_cases t m) [
  | inl same ↦ same
  | inr e ↦ absurd (h (inr e))
]

expire_if_idle-ttl : (t : ℕ) (m : Manager) → (expire_if_idle t m).ttl ≡ m.ttl
unfolding expire_if_idle
expire_if_idle-ttl t m = ground arith

not-CanTake-held : (t : ℕ) (m : Manager) → ¬ CanTake t m → is_free m ≡ false
not-CanTake-held t m h = elim (Bool-cases (is_free m)) [
  | inl free ↦ absurd (h (inl free))
  | inr busy ↦ busy
]

-- The snapshot of a session that was just taken.
info_locked-take_lock :
    (owner fresh : Bytes) (t1 t2 ttl : ℕ) (m : Manager)
    → fresh ≢ []
    → m.ttl ≡ ttl
    → info_locked (take_lock owner fresh t1 t2 m)
      ≡ record { active = true; id = fresh; owner = owner; started_at = t1; expires_at = t2 + ttl }
unfolding info_locked take_lock
info_locked-take_lock owner fresh t1 t2 ttl m h e =
    ground (arith, is_free-take_lock owner fresh t1 t2 m h)

-- An attempt gets the lock exactly when it is free or its session is idle past the TTL; the new
-- session has no call in flight and a full TTL. Otherwise nothing changes, and the attempt is told
-- the holder, its expiry and the channel to wait on.
pub attempt_lem :
    (owner fresh : Bytes) (t0 t1 t2 : ℕ) (m : Manager)
    → fresh ≢ []
    → let new : Info = record {
      active = true;
      id = fresh;
      owner = owner;
      started_at = t1;
      expires_at = t2 + m.ttl;
    } in
      let busy : BusyError = record { owner = m.owner; expires_at = expires_at_locked m } in
      let result = attempt owner fresh t0 t1 t2 m in
      (CanTake t0 m → (result.1 ≡ got new) × (result.0.id ≡ fresh) × (result.0.active_calls ≡ 0))
      × (¬ CanTake t0 m → result ≡ (m, held m.released busy))
unfolding attempt
attempt_lem owner fresh t0 t1 t2 m h = (
  λ can. rw (expire_if_idle-frees t0 m can) (
    ap got (
        info_locked-take_lock owner fresh t1 t2 m.ttl (expire_if_idle t0 m) h
          (expire_if_idle-ttl t0 m)),
    refl,
    refl,
  ),
  λ cannot. rw (expire_if_idle-keeps t0 m cannot, not-CanTake-held t0 m cannot),
)
