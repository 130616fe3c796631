-- ===== src/Session/Waiters.antt =====
-- internal/session/session.go: an Acquire that waits on a channel is woken when the session that
-- it waits for has ended.
use unwedge.Base.{
  ℕ, zero, suc, ◌+◌, ◌-◌, ◌<◌, ◌≡◌, ◌⊎◌, inl, inr, refl, ap, ◌∙◌, Bytes, true, false, some, List,
  [], ◌∷◌, eqb, elem, Bool-cases, arith,
}
use unwedge.Session.{
  Manager, is_free, is_not_holder, expire_if_idle, reap, close, finish, refresh, call_start,
  call_end, info,
}
use unwedge.Session.Acquire.{attempt}
use unwedge.Session.Step.{
  Op, acquire_op, finish_op, refresh_op, start_op, end_op, info_op, reap_op, close_op, step, run,
  AllFresh,
}
use unwedge.Session.Invariant.{IsWell, run-IsWell, down}

-- The session with the channel `ch` goes on.
pub record Same (id : Bytes) (ch : ℕ) (m : Manager) : Type 0 where
  pub holder : m.id ≡ id
  pub last : m.made ≡ suc ch
  pub held : is_free m ≡ false

-- It has ended: the lock is free since, or another session has begun.
abbrev pub Past : ℕ → Manager → Type 0
Past ch m = (suc ch < m.made) ⊎ ((is_free m ≡ true) × (ch < m.made))

elem-down : (n ch : ℕ) → ch < n → elem ch (down n) ≡ true
unfolding elem
elem-down zero ch h = elim h [ ]
elem-down (suc n) ch h = ground (arith, elem-down n ch)

-- What a step does to the channels: nothing, or it frees the lock, or it makes one more.
data Change (m n : Manager) : Type 0 where
  same : n.id ≡ m.id → n.made ≡ m.made → Change m n
  freed : is_free n ≡ true → n.made ≡ m.made → Change m n
  renewed : n.made ≡ m.made + 1 → Change m n

expire_if_idle-Change : (t : ℕ) (m : Manager) → Change m (expire_if_idle t m)
unfolding expire_if_idle is_free eqb
expire_if_idle-Change t m = grind (arith, same, freed)

expire_if_idle-made : (t : ℕ) (m : Manager) → (expire_if_idle t m).made ≡ m.made
unfolding expire_if_idle
expire_if_idle-made t m = ground arith

-- New times and counts change no channel.
touch-Change :
    {m n : Manager} (last calls : ℕ)
    → Change m n
    → Change m (record n { last_activity = last; active_calls = calls })
touch-Change last calls (same e f) = same e f
touch-Change last calls (freed e f) = freed (unfold is_free in e) f
touch-Change last calls (renewed e) = renewed e

attempt-Change :
    (owner fresh : Bytes) (t0 t1 t2 : ℕ) (m : Manager) → Change m (attempt owner fresh t0 t1 t2 m).0
unfolding attempt
attempt-Change owner fresh t0 t1 t2 m = elim (Bool-cases (is_free (expire_if_idle t0 m))) [
  | inl free ↦ rw free (renewed (ap (λ n. n + 1) (expire_if_idle-made t0 m)))
  | inr held ↦ rw held (expire_if_idle-Change t0 m)
]

refresh-Change : (id : Bytes) (t0 t1 : ℕ) (m : Manager) → Change m (refresh id t0 t1 m).0
unfolding refresh
refresh-Change id t0 t1 m = elim (Bool-cases (is_not_holder id (expire_if_idle t0 m))) [
  | inl other ↦ rw other (expire_if_idle-Change t0 m)
  | inr mine ↦ rw mine (touch-Change t1 _ (expire_if_idle-Change t0 m))
]

call_start-Change : (id : Bytes) (t0 t1 : ℕ) (m : Manager) → Change m (call_start id t0 t1 m).0
unfolding call_start
call_start-Change id t0 t1 m = elim (Bool-cases (is_not_holder id (expire_if_idle t0 m))) [
  | inl other ↦ rw other (expire_if_idle-Change t0 m)
  | inr mine ↦ rw mine (touch-Change t1 _ (expire_if_idle-Change t0 m))
]

finish-Change : (id : Bytes) (m : Manager) → Change m (finish id m).0
unfolding finish is_free eqb
finish-Change id m = grind (arith, same, freed)

call_end-Change : (id : Bytes) (t : ℕ) (m : Manager) → Change m (call_end id t m)
unfolding call_end
call_end-Change id t m = grind (arith, same)

reap-Change : (t : ℕ) (m : Manager) → Change m (reap t m)
unfolding reap
reap-Change t m = elim (Bool-cases m.stopped) [
  | inl off ↦ simp off (same refl refl)
  | inr on ↦ simp on (expire_if_idle-Change t m)
]

step-Change : (o : Op) (m : Manager) → Change m (step o m)
unfolding step
step-Change (acquire_op owner fresh t0 t1 t2) m = attempt-Change owner fresh t0 t1 t2 m
step-Change (finish_op id) m = finish-Change id m
step-Change (refresh_op id t0 t1) m = refresh-Change id t0 t1 m
step-Change (start_op id t0 t1) m = call_start-Change id t0 t1 m
step-Change (end_op id t) m = call_end-Change id t m
step-Change (info_op t) m = unfold info in expire_if_idle-Change t m
step-Change (reap_op t) m = reap-Change t m
step-Change close_op m = unfold close in same refl refl

Change-Past : {m n : Manager} (ch : ℕ) → Change m n → Past ch m → Past ch n
unfolding is_free
Change-Past ch (same e f) p = ground arith
Change-Past ch (freed e f) p = ground arith
Change-Past ch (renewed f) p = ground arith

Change-Same :
    {m n : Manager} (id : Bytes) (ch : ℕ) → Change m n → Same id ch m → Same id ch n ⊎ Past ch n
unfolding is_free
Change-Same id ch (same e f) s = ground arith
Change-Same id ch (freed e f) s = ground arith
Change-Same id ch (renewed f) s = ground arith

run-Past : (os : List Op) (ch : ℕ) (m : Manager) → Past ch m → Past ch (run os m)
run-Past [] ch m p = p
run-Past (o ∷ os) ch m p = run-Past os ch (step o m) (Change-Past ch (step-Change o m) p)

run-Same :
    (os : List Op) (id : Bytes) (ch : ℕ) (m : Manager)
    → Same id ch m
    → Same id ch (run os m) ⊎ Past ch (run os m)
run-Same [] id ch m s = inl s
run-Same (o ∷ os) id ch m s = elim (Change-Same id ch (step-Change o m) s) [
  | inl s' ↦ run-Same os id ch (step o m) s'
  | inr p ↦ inr (run-Past os ch (step o m) p)
]

-- A past session's channel is closed.
Past-closed : (ch : ℕ) (m : Manager) → IsWell m → Past ch m → elem ch m.closed ≡ true
Past-closed ch m w p = elim (Bool-cases (is_free m)) [
  | inl free ↦ rw (w.free_closed free) (elem-down m.made ch (ground arith))
  | inr held ↦ rw (w.held_closed held) (elem-down (m.made - 1) ch (ground arith))
]

-- No wake-up is lost. After any further steps of the other goroutines, a caller that saw the lock
-- held by `m.id` and waits on the channel it was given either finds that same session still there,
-- or its channel is closed; so it is closed whenever the lock is free.
pub waiter_wakes :
    (os : List Op) (m : Manager)
    → AllFresh os
    → IsWell m
    → is_free m ≡ false
    → let ch = m.made - 1 in
      let n = run os m in
      (m.released ≡ some ch)
      × (((n.id ≡ m.id) × (n.released ≡ some ch)) ⊎ (elem ch n.closed ≡ true))
      × (is_free n ≡ true → elem ch n.closed ≡ true)
waiter_wakes os m fresh w held =
    let ch : ℕ = m.made - 1 in
    let n : Manager = run os m in
    let well : IsWell n = run-IsWell os m fresh w in
    let start : Same m.id ch m = record {
      holder = refl;
      last = omega (arith, w.held_made held);
      held = held;
    } in
    let ended : Same m.id ch n ⊎ Past ch n = run-Same os m.id ch m start in
    (
      w.held_some held,
      elim ended [
        | inl s ↦ inl (s.holder, well.held_some s.held ∙ ap some (back ch n.made s.last))
        | inr p ↦ inr (Past-closed ch n well p)
      ],
      λ free. elim ended [ inl s ↦ absurd (cc (s.held, free)) | inr p ↦ Past-closed ch n well p ],
    )
  where
    back : (ch made : ℕ) → made ≡ suc ch → made - 1 ≡ ch
    back ch made e = omega arith
