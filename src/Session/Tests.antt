-- ===== src/Session/Tests.antt =====
-- Runs of the lock, and instances of the theorems.
use unwedge.Base.{
  ◌-◌, ◌≡◌, ◌⊎◌, refl, Bytes, codes, true, false, some, List, [], ◌∷◌, elem, replicate, arith, eqb,
}
use unwedge.Base.Int.{pos, is_positive, is_negative, to_ℕ}
use unwedge.Session.{
  Manager, new_manager, is_free, call_start, expire_if_idle, finish, is_not_holder, reap,
}
use unwedge.Session.Acquire.{attempt, acquire, Round, freed, after_attempt, left_at}
use unwedge.Session.Holder.{Expired, step_ends_session}
use unwedge.Session.InFlight.{InFlight, run-InFlight}
use unwedge.Session.Invariant.{IsWell, run-new_manager-IsWell}
use unwedge.Session.Loop.{Promise, acquire-Promise}
use unwedge.Session.Step.{Op, acquire_op, finish_op, start_op, end_op, reap_op, step, run, AllFresh}
use unwedge.Session.Waiters.{waiter_wakes}

abbrev start : Manager
start = new_manager (pos 100)

abbrev first_take : List Op
first_take = acquire_op (codes "ci") (codes "a1") 0 1 2 ∷ []

abbrev taken : Manager
taken = run first_take start

ci_holds : (taken.id ≡ codes "a1") × (taken.owner ≡ codes "ci") × (is_free taken ≡ false)
unfolding step attempt new_manager expire_if_idle is_free eqb
ci_holds = (refl, refl, refl)

-- The TTL of 100 runs out at 102; a tick at 103 frees the lock, and one at 102 does not.
expiry : (is_free (step (reap_op 102) taken) ≡ false) × (is_free (step (reap_op 103) taken) ≡ true)
unfolding step attempt new_manager reap expire_if_idle is_free eqb is_positive to_ℕ
expiry = (refl, refl)

first_take-fresh : AllFresh first_take
first_take-fresh = (cc, tt)

run-new_manager-IsWell_example : IsWell taken
run-new_manager-IsWell_example = run-new_manager-IsWell (pos 100) first_take first_take-fresh

step_ends_session_example :
    ((step (reap_op 103) taken).id ≡ taken.id)
    ⊎ (reap_op 103 ≡ finish_op taken.id)
    ⊎ Expired (reap_op 103) taken
step_ends_session_example = step_ends_session (reap_op 103) taken ci_holds.2

abbrev calling : Manager
calling = run (start_op (codes "a1") 3 4 ∷ start_op (codes "a1") 5 6 ∷ []) taken

calling-InFlight : InFlight (codes "a1") 2 calling
unfolding step attempt call_start is_not_holder new_manager expire_if_idle is_free eqb is_positive
    to_ℕ
calling-InFlight = record { holder = refl; held = refl; calls = omega arith }

run-InFlight_example :
    InFlight
      (codes "a1")
      1
      (run (acquire_op (codes "dev") (codes "b2") 999 999 999 ∷ end_op (codes "a1") 9 ∷ []) calling)
unfolding eqb
run-InFlight_example =
    run-InFlight (acquire_op (codes "dev") (codes "b2") 999 999 999 ∷ end_op (codes "a1") 9 ∷ [])
      (codes "a1") 0 calling (refl, (refl, tt)) calling-InFlight

waiter_wakes_example :
    let n = run (finish_op (codes "a1") ∷ []) taken in
    (taken.released ≡ some (taken.made - 1))
    × (((n.id ≡ taken.id) × (n.released ≡ some (taken.made - 1)))
        ⊎ (elem (taken.made - 1) n.closed ≡ true))
    × (is_free n ≡ true → elem (taken.made - 1) n.closed ≡ true)
waiter_wakes_example =
    waiter_wakes (finish_op (codes "a1") ∷ []) taken (tt, tt) run-new_manager-IsWell_example
      ci_holds.2

abbrev sevens : Bytes
sevens = replicate 16 7

abbrev eights : Bytes
eights = replicate 16 8

abbrev two_rounds : List Round
two_rounds =
    record {
      others = λ m. m;
      meanwhile = λ m. (finish (codes "a1") m).0;
      fresh = codes "b2";
      t0 = 10;
      t1 = 11;
      t2 = 12;
      signals = freed ∷ [];
    }
    ∷ record {
      others = λ m. m;
      meanwhile = λ m. m;
      fresh = codes "c3";
      t0 = 20;
      t1 = 21;
      t2 = 22;
      signals = [];
    }
    ∷ []

acquire-Promise_example :
    let result = acquire (codes "dev") (pos 0) two_rounds taken in
    Promise (codes "dev") (pos 0) two_rounds taken result.0 result.1
acquire-Promise_example = acquire-Promise (codes "dev") (pos 0) two_rounds taken (cc, (cc, tt))

second_round : (acquire (codes "dev") (pos 0) two_rounds taken).0.id ≡ codes "c3"
unfolding acquire left_at after_attempt step attempt finish new_manager expire_if_idle is_free eqb
    is_negative is_positive to_ℕ
second_round = refl
