-- ===== src/Session/Loop.antt =====
-- internal/session/session.go: how Acquire ends.
use mathlib.Core.List.{Memᴰ}
use mathlib.Core.List.Memᴰ.{head, tail}
use unwedge.Base.{
  ℕ, ◌≡◌, ◌≢◌, ◌⊎◌, inl, inr, refl, sym, subst, ap, ◌∙◌, Bytes, true, false, Option, some, none,
  List, [], ◌∷◌, Bool-cases, Option-cases,
}
use unwedge.Base.Int.{ℤ, is_positive, is_negative}
use unwedge.Session.{Manager, BusyError, expire_if_idle, is_free, info_locked, expires_at_locked}
use unwedge.Session.Acquire.{
  Attempt, got, held, attempt, take_lock, Signal, freed, context_done, timed_out, Outcome, acquired,
  busy, cancelled, waiting, Round, select, after_attempt, left_at, acquire,
}
use unwedge.Session.Invariant.{is_free-take_lock}

-- `Found rs m r n`: the round `r` meets the lock as `n`. A round before it has changed nothing but what
-- the idle check does, and has left the rest to the other goroutines.
pub data Found : List Round → Manager → Round → Manager → Type 0 where
  now : {r : Round} {rs : List Round} {m : Manager} → Found (r ∷ rs) m r (r.others m)
  later :
      {r r' : Round} {rs : List Round} {m n : Manager}
      → Found rs (r.meanwhile (expire_if_idle r.t0 (r.others m))) r' n
      → Found (r ∷ rs) m r' n

-- The last round of an Acquire: `seen` is the lock behind its idle check.
pub record LastRound (rs : List Round) (m : Manager) : Type 0 where
  pub round : Round
  pub met : Manager
  pub seen : Manager
  pub found : Found rs m round met
  pub checked : seen ≡ expire_if_idle round.t0 met

-- What each result says of the lock that the last round saw, and of the lock `m'` at the end.
abbrev pub Promise : Bytes → ℤ → List Round → Manager → Manager → Outcome → Type 0
Promise owner wait rs m m' (acquired i) =
    (i ≡ info_locked m')
    × (m'.owner ≡ owner)
    × (m'.active_calls ≡ 0)
    × (is_free m' ≡ false)
    × ((l : LastRound rs m) × (is_free l.seen ≡ true) × (m'.id ≡ l.round.fresh))
Promise owner wait rs m m' (busy b) =
    (l : LastRound rs m) × (is_free l.seen ≡ false)
    × (b.owner ≡ l.seen.owner)
    × (b.expires_at ≡ expires_at_locked l.seen)
    × (((is_negative wait ≡ true) × (m' ≡ l.seen))
        ⊎ ((is_positive wait ≡ true) × (m' ≡ l.round.meanwhile l.seen)))
Promise owner wait rs m m' (cancelled e) =
    (l : LastRound rs m) × (is_free l.seen ≡ false)
    × (is_negative wait ≡ false)
    × (m' ≡ l.round.meanwhile l.seen)
    × Memᴰ (context_done e) l.round.signals
Promise owner wait rs m m' waiting = (rs ≡ []) ⊎ (is_negative wait ≡ false)

abbrev pub AllGen : List Round → Type 0
AllGen [] = Unit
AllGen (r ∷ rs) = (r.fresh ≢ []) × AllGen rs

select_cases :
    (wait : ℤ) (b : BusyError) (ss : List Signal) (o : Outcome)
    → select wait b ss ≡ some o
    → (o ≡ waiting)
      ⊎ ((e : _) × (o ≡ cancelled e) × Memᴰ (context_done e) ss)
      ⊎ ((o ≡ busy b) × (is_positive wait ≡ true))
unfolding select
select_cases wait b [] o h = inl (cc)
select_cases wait b (freed ∷ ss) o h = cc
select_cases wait b (context_done e ∷ ss) o h = inr (inl (e, cc, head refl))
select_cases wait b (timed_out ∷ ss) o h = elim (Bool-cases (is_positive wait)) [
  | inl p ↦ inr (inr (cc (rw p at h), p))
  | inr n ↦ elim (select_cases wait b ss o (rw n at h)) [
    | inl w ↦ inl w
    | inr (inl (e, same, m)) ↦ inr (inl (e, same, tail m))
    | inr (inr timed) ↦ inr (inr timed)
  ]
]

module _ (owner : Bytes) (wait : ℤ) (r : Round) (rs : List Round) (m : Manager) where
  abbrev seen : Manager
  seen = expire_if_idle r.t0 (r.others m)

  this_round : LastRound (r ∷ rs) m
  this_round = record { round = r; met = r.others m; seen = seen; found = now; checked = refl }

  -- The end of a round that found the lock held.
  held-Promise :
      (rel : Option ℕ) (b : BusyError) (o : Outcome)
      → is_free seen ≡ false
      → b.owner ≡ seen.owner
      → b.expires_at ≡ expires_at_locked seen
      → after_attempt wait (held rel b) r.signals ≡ some o
      → Promise owner wait (r ∷ rs) m (left_at wait (held rel b) r.meanwhile seen) o
  unfolding after_attempt left_at this_round
  held-Promise rel b o f named until e = elim (Bool-cases (is_negative wait)) [
    | inl neg ↦
        let eq : busy b ≡ o = cc (rw neg at e) in
        rw neg (
          subst (Promise owner wait (r ∷ rs) m seen) eq
            (this_round, f, named, until, inl (neg, refl)))
    | inr not_neg ↦
        let P : Outcome → Type 0 = Promise owner wait (r ∷ rs) m (r.meanwhile seen) in
        rw not_neg elim (select_cases wait b r.signals o (rw not_neg at e)) [
          | inl eq ↦ subst P (sym eq) (inr not_neg)
          | inr (inl (c, eq, signal)) ↦ subst P (sym eq) (this_round, f, not_neg, refl, signal)
          | inr (inr (eq, p)) ↦ subst P (sym eq) (this_round, f, named, until, inr (p, refl))
        ]
  ]

  later_round : LastRound rs (r.meanwhile seen) → LastRound (r ∷ rs) m
  later_round l = record {
    round = l.round;
    met = l.met;
    seen = l.seen;
    found = later l.found;
    checked = l.checked;
  }

  later-Promise :
      (m' : Manager) (o : Outcome)
      → is_negative wait ≡ false
      → Promise owner wait rs (r.meanwhile seen) m' o
      → Promise owner wait (r ∷ rs) m m' o
  unfolding later_round
  later-Promise m' (acquired i) n (described, mine, calls, taken, (l, free, fresh)) =
      (described, mine, calls, taken, (later_round l, free, fresh))
  later-Promise m' (busy b) n (l, taken, named, until, ends) =
      (later_round l, taken, named, until, ends)
  later-Promise m' (cancelled e) n (l, taken, waits, same, signal) =
      (later_round l, taken, waits, same, signal)
  later-Promise m' waiting n p = inr n

  abbrev tried : Manager × Attempt
  tried = attempt owner r.fresh r.t0 r.t1 r.t2 (r.others m)

  abbrev left : Manager
  left = left_at wait tried.1 r.meanwhile tried.0

  abbrev refusal : BusyError
  refusal = record { owner = seen.owner; expires_at = expires_at_locked seen }

  taken_by : Manager
  taken_by = take_lock owner r.fresh r.t1 r.t2 seen

  tried_free : is_free seen ≡ true → tried ≡ (taken_by, got (info_locked taken_by))
  unfolding attempt take_lock taken_by
  tried_free free = rw free refl

  tried_held : is_free seen ≡ false → tried ≡ (seen, held seen.released refusal)
  unfolding attempt
  tried_held taken = rw taken refl

  -- A round that returns.
  round-Promise :
      (o : Outcome)
      → r.fresh ≢ []
      → after_attempt wait tried.1 r.signals ≡ some o
      → Promise owner wait (r ∷ rs) m left o
  unfolding this_round
  round-Promise o h e = elim (Bool-cases (is_free seen)) [
    | inl free ↦
        let eq : acquired (info_locked taken_by) ≡ o =
          unfold after_attempt in cc (tried_free free, e) in
        rw (tried_free free) (
          unfold left_at in
          subst (Promise owner wait (r ∷ rs) m taken_by) eq (
            refl,
            unfold taken_by take_lock in refl,
            unfold taken_by take_lock in refl,
            unfold taken_by in is_free-take_lock owner r.fresh r.t1 r.t2 seen h,
            (this_round, free, unfold taken_by take_lock in refl),
          ))
    | inr taken ↦
        rw (tried_held taken)
          (held-Promise seen.released refusal o taken refl refl (rw (tried_held taken) at e))
  ]

  -- A round that goes on was allowed to wait, and has left the lock to the others.
  round_on :
      after_attempt wait tried.1 r.signals ≡ none
      → (is_negative wait ≡ false) × (left ≡ r.meanwhile seen)
  unfolding after_attempt left_at
  round_on e = elim (Bool-cases (is_free seen)) [
    | inl free ↦ absurd (cc (rw (tried_free free) at e))
    | inr taken ↦ elim (Bool-cases (is_negative wait)) [
      | inl neg ↦ absurd (cc (rw (tried_held taken, neg) at e))
      | inr no_neg ↦ (no_neg, rw (tried_held taken, no_neg) refl)
    ]
  ]

  acquire_next :
      after_attempt wait tried.1 r.signals ≡ none
      → acquire owner wait (r ∷ rs) m ≡ acquire owner wait rs left
  unfolding acquire
  acquire_next e = rw (e, acquire)

  acquire_end :
      (o : Outcome)
      → after_attempt wait tried.1 r.signals ≡ some o
      → acquire owner wait (r ∷ rs) m ≡ (left, o)
  unfolding acquire
  acquire_end o e = rw (e, acquire)

abbrev Kept : Bytes → ℤ → List Round → Manager → Manager × Outcome → Type 0
Kept owner wait rs m result = Promise owner wait rs m result.0 result.1

-- Under any schedule of the other goroutines, while Acquire waits too, and of the signals: Acquire
-- takes the lock only if its last round has seen it free behind the idle check, and then a session
-- with the fresh id and the caller as owner has it, no call in flight, and is described; a busy error
-- names the owner and the expiry of the session that the last round saw, comes only with a budget
-- (`wait` below or above zero), and leaves the lock to the others; a cancelled call has a context that
-- has ended, and leaves the lock to the others; and a call with a negative budget never waits. No
-- generated id is empty.
pub acquire-Promise :
    (owner : Bytes) (wait : ℤ) (rs : List Round) (m : Manager)
    → AllGen rs
    → let result = acquire owner wait rs m in Promise owner wait rs m result.0 result.1
acquire-Promise owner wait [] m g = unfold acquire in inl refl
acquire-Promise owner wait (r ∷ rs) m g =
    elim (Option-cases (after_attempt wait (tried owner wait r rs m).1 r.signals)) [
      | inl go_on ↦
          let (no_neg, same) = round_on owner wait r rs m go_on in
          let next : Manager = r.meanwhile (seen owner wait r rs m) in
          let result : Manager × Outcome = acquire owner wait rs next in
          subst (Kept owner wait (r ∷ rs) m)
            (sym (acquire_next owner wait r rs m go_on ∙ ap (acquire owner wait rs) same))
            (later-Promise owner wait r rs m result.0 result.1 no_neg
              (acquire-Promise owner wait rs next g.1))
      | inr (o, e) ↦
          subst (Kept owner wait (r ∷ rs) m) (sym (acquire_end owner wait r rs m o e))
            (round-Promise owner wait r rs m o g.0 e)
    ]
