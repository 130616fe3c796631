-- ===== src/Smoke/Markers.antt =====
-- internal/smoke/smoke.go: the two loops that wait for the board.
use unwedge.Base.{
  ℕ, ◌≡◌, refl, ap, Bytes, Bool, true, false, Option, none, some, List, [], ◌∷◌, ◌++◌, All, ltb,
  ◌⊎◌, inl, inr,
}
use unwedge.Smoke.{
  Pattern, Reason, healthy, Poll, poll_turn, wait_for_marker, Attempt, SshError, attempt_turn,
  attempt_error, output_of, try_ssh,
}

abbrev Ends {ℓ} : {A : Type ℓ} → Option A → Type ℓ
Ends o = (a : _) × (o ≡ some a)

poll_turn_late :
    (f s : Option Bytes) (done : Bool) (later : Option (Bool × Reason))
    → Ends (poll_turn f s true done later)
unfolding poll_turn
poll_turn_late (some m) s done later = (_, refl)
poll_turn_late none (some m) done later = (_, refl)
poll_turn_late none none done later = (_, refl)

poll_turn-Ends :
    (f s : Option Bytes) (late done : Bool) (later : Option (Bool × Reason))
    → Ends later
    → Ends (poll_turn f s late done later)
unfolding poll_turn
poll_turn-Ends (some m) s late done later h = (_, refl)
poll_turn-Ends none (some m) late done later h = (_, refl)
poll_turn-Ends none none true done later h = (_, refl)
poll_turn-Ends none none false true later h = (_, refl)
poll_turn-Ends none none false false later h = h

attempt_turn_late :
    (e : Option SshError) (out : Bytes) (done : Bool) (later : Option (SshError ⊎ Bytes))
    → Ends (attempt_turn e out true done later)
unfolding attempt_turn
attempt_turn_late none out done later = (_, refl)
attempt_turn_late (some e) out done later = (_, refl)

attempt_turn-Ends :
    (e : Option SshError) (out : Bytes) (late done : Bool) (later : Option (SshError ⊎ Bytes))
    → Ends later
    → Ends (attempt_turn e out late done later)
unfolding attempt_turn
attempt_turn-Ends none out late done later h = (_, refl)
attempt_turn-Ends (some e) out true done later h = (_, refl)
attempt_turn-Ends (some e) out false true later h = (_, refl)
attempt_turn-Ends (some e) out false false later h = h

wait_late :
    (success failure : Pattern) (deadline : ℕ) (before : List Poll) (p : Poll) (after : List Poll)
    → ltb deadline p.now ≡ true
    → Ends (wait_for_marker success failure deadline (before ++ p ∷ after))
unfolding wait_for_marker
wait_late success failure deadline [] p after late = rw late (
    poll_turn_late (failure p.buf) (success p.buf) p.done
      (wait_for_marker success failure deadline after))
wait_late success failure deadline (q ∷ before) p after late =
    poll_turn-Ends (failure q.buf) (success q.buf) (ltb deadline q.now) q.done _
      (wait_late success failure deadline before p after late)

try_late :
    (deadline : ℕ) (front : List Attempt) (a : Attempt) (more : List Attempt)
    → ltb deadline a.now ≡ true
    → Ends (try_ssh deadline (front ++ a ∷ more))
unfolding try_ssh
try_late deadline [] a more late =
    rw late (
      attempt_turn_late (attempt_error a.answer) (output_of a.answer) a.done
        (try_ssh deadline more))
try_late deadline (b ∷ front) a more late =
    attempt_turn-Ends (attempt_error b.answer) (output_of b.answer) (ltb deadline b.now) b.done _
      (try_late deadline front a more late)

-- Waiting for a marker ends with a verdict once a clock reading is past the deadline, and so does
-- trying a command over SSH, whatever came before it.
pub wait_for_marker_ends :
    (success failure : Pattern) (deadline : ℕ) (p : Poll) (before after : List Poll) (a : Attempt)
    (tried more : List Attempt)
    → ltb deadline p.now ≡ true
    → ltb deadline a.now ≡ true
    → ((r : Bool × Reason) × (wait_for_marker success failure deadline (before ++ p ∷ after)
          ≡ some r))
      × ((r : SshError ⊎ Bytes) × (try_ssh deadline (tried ++ a ∷ more) ≡ some r))
wait_for_marker_ends success failure deadline p before after a tried more late late' =
    (wait_late success failure deadline before p after late, try_late deadline tried a more late')

abbrev pub Unfailed : Pattern → Poll → Type 0
Unfailed failure p = failure p.buf ≡ none

-- A marker of success, and no marker of failure up to then.
pub record Reached (success failure : Pattern) (polls : List Poll) (r : Reason) : Type 0 where
  pub before : List Poll
  pub last : Poll
  pub after : List Poll
  pub text : Bytes
  pub splits : polls ≡ before ++ last ∷ after
  pub found : success last.buf ≡ some text
  pub says : r ≡ healthy text
  pub unfailed : All (Unfailed failure) (before ++ last ∷ [])

poll_turn-true :
    (f s : Option Bytes) (late done : Bool) (later : Option (Bool × Reason)) (r : Reason)
    → poll_turn f s late done later ≡ some (true, r)
    → (f ≡ none) × (((m : Bytes) × (s ≡ some m) × (r ≡ healthy m)) ⊎ (later ≡ some (true, r)))
unfolding poll_turn
poll_turn-true (some m) s late done later r e = absurd (cc e)
poll_turn-true none (some m) late done later r e = (refl, inl (m, refl, cc e))
poll_turn-true none none true done later r e = absurd (cc e)
poll_turn-true none none false true later r e = absurd (cc e)
poll_turn-true none none false false later r e = (refl, inr e)

-- Waiting succeeds only at a poll whose output has the marker of success, when neither it nor an
-- earlier one has a marker of failure; the reason quotes the marker.
pub wait_for_marker-Reached :
    (success failure : Pattern) (deadline : ℕ) (polls : List Poll) (r : Reason)
    → wait_for_marker success failure deadline polls ≡ some (true, r)
    → Reached success failure polls r
unfolding wait_for_marker
wait_for_marker-Reached success failure deadline [] r e = absurd (cc e)
wait_for_marker-Reached success failure deadline (p ∷ ps) r e =
    let (quiet, rest) =
      poll_turn-true (failure p.buf) (success p.buf) (ltb deadline p.now) p.done
        (wait_for_marker success failure deadline ps) r e in
    elim rest [
      | inl (m, found, says) ↦ record {
        before = [];
        last = p;
        after = ps;
        text = m;
        splits = refl;
        found = found;
        says = says;
        unfailed = (quiet, tt);
      }
      | inr later ↦
          let h = wait_for_marker-Reached success failure deadline ps r later in
          record {
            before = p ∷ h.before;
            last = h.last;
            after = h.after;
            text = h.text;
            splits = ap (λ l. p ∷ l) h.splits;
            found = h.found;
            says = h.says;
            unfailed = (quiet, h.unfailed);
          }
    ]
