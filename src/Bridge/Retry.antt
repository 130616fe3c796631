-- ===== src/Bridge/Retry.antt =====
-- cmd/unwedge-mcp/main.go: how often a tool runs.
use unwedge.Base.{
  ℕ, suc, ◌+◌, ◌≤◌, ◌<◌, ◌≡◌, refl, sym, ap, ◌∙◌, subst, Bytes, true, Option, none, some,
  Bool-cases, Option-cases, ◌⊎◌, inl, inr, arith,
}
use unwedge.Base.Int.{ℤ}
use unwedge.Client.{Client, has_session, clear_session, wait_ms}
use unwedge.Bridge.{
  Failure, Return, text, failure, session_lost, started, ensure_session, then_call, retried,
  call_with_session,
}

module _ {V : Type 0} (start_session : Bytes → ℤ → V → V × (Bytes ⊎ Failure)) (owner : Bytes)
    (wait : ℤ) (fn : Client → V → V × Return) where
  -- A world that counts the runs of the tool.
  abbrev pub counted : Client → ℕ × V → (ℕ × V) × Return
  counted c w = ((suc w.0, (fn c w.1).0), (fn c w.1).1)

  abbrev pub kept : Bytes → ℤ → ℕ × V → (ℕ × V) × (Bytes ⊎ Failure)
  kept o ms w = ((w.0, (start_session o ms w.1).0), (start_session o ms w.1).1)

  abbrev State : Type 0
  State = Client × (ℕ × V)

  abbrev ensured : Client → ℕ × V → State × Option Failure
  ensured = ensure_session kept owner wait

  started_count :
      (c : Client) (x : (ℕ × V) × (Bytes ⊎ Failure)) → (started kept owner wait c x).0.1.0 ≡ x.0.0
  unfolding started
  started_count c (w, inl id) = refl
  started_count c (w, inr e) = refl

  ensured_count : (c : Client) (w : ℕ × V) → (ensured c w).0.1.0 ≡ w.0
  unfolding ensure_session
  ensured_count c w = elim (Bool-cases (has_session c)) [
    | inl h ↦ rw h refl
    | inr h ↦ rw h (started_count c (kept owner (wait_ms wait) w))
  ]

  -- A call behind an attempt to get a session: no run and the error of the attempt, or one run.
  then_call_count :
      (x : State × Option Failure)
      → let out = then_call kept owner wait counted x in
        ((out.0.1.0 ≡ x.0.1.0) × ((e : Failure) × (out.1 ≡ failure e))) ⊎ (out.0.1.0 ≡ suc x.0.1.0)
  unfolding then_call
  then_call_count ((c, w), some e) = inl (refl, (e, refl))
  then_call_count ((c, w), none) = inr refl

  abbrev once : State → State × Return
  once s = ((s.0, (counted s.0 s.1).0), (counted s.0 s.1).1)

  then_call-once :
      (x : State × Option Failure) → x.1 ≡ none → then_call kept owner wait counted x ≡ once x.0
  unfolding then_call
  then_call-once ((c, w), some e) h = absurd (cc h)
  then_call-once ((c, w), none) h = refl

  -- What holds of a result after `runs` runs in all, the first with the result `first`.
  abbrev pub Fair : ℕ → ℕ → Return → Return → Type 0
  Fair n runs first r =
      (runs ≤ n + 2)
      × ((t : Bytes) → r ≡ text t → n < runs)
      × (n + 1 < runs → (e : Failure) × (first ≡ failure e) × (session_lost e ≡ true))

  retried-Fair :
      (n : ℕ) (x : State × Return)
      → x.0.1.0 ≡ suc n
      → let out = retried kept owner wait counted x in Fair n out.0.1.0 x.1 out.1
  unfolding retried
  retried-Fair n ((c, w), text t) h =
      (omega (arith, h), (λ u e. omega (arith, h)), (λ two. absurd (omega (arith, h, two))))
  retried-Fair n ((c, w), failure e) h = elim (Bool-cases (session_lost e)) [
    | inr fine ↦
        rw fine
          (omega (arith, h), (λ u q. omega (arith, h)), (λ two. absurd (omega (arith, h, two))))
    | inl lost ↦
        let again : State × Option Failure = ensured (clear_session c) w in
        let count : again.0.1.0 ≡ suc n = ensured_count (clear_session c) w ∙ h in
        rw lost elim (then_call_count again) [
          | inl (same, refusal) ↦ (
            omega (arith, same, count),
            (λ u q. omega (arith, same, count)),
            (λ two. (e, refl, lost)),
          )
          | inr more ↦ (
            omega (arith, more, count),
            (λ u q. omega (arith, more, count)),
            (λ two. (e, refl, lost)),
          )
        ]
  ]

  -- A guarded tool runs at most twice; it has run if its call comes back with a text; and it has run
  -- a second time only if its first run failed with a lost session.
  pub call_with_session_runs :
      (c : Client) (n : ℕ) (v : V)
      → let out = call_with_session kept owner wait counted c (n, v) in
        let ready = ensure_session kept owner wait c (n, v) in
        Fair n out.0.1.0 (fn ready.0.0 ready.0.1.1).1 out.1
  unfolding call_with_session
  call_with_session_runs c n v =
      let count : (ensured c (n, v)).0.1.0 ≡ n = ensured_count c (n, v) in
      elim (Option-cases (ensured c (n, v)).1) [
        | inr (e, h) ↦
            rw (call_with_session, h)
              (
                omega (arith, count),
                (λ t q. absurd (cc q)),
                (λ two. absurd (omega (arith, count, two))),
              )
        | inl h ↦
            rw (call_with_session, h)
              (subst
                (λ y.
                  Fair n (retried kept owner wait counted y).0.1.0
                    (fn (ensured c (n, v)).0.0 (ensured c (n, v)).0.1.1).1
                    (retried kept owner wait counted y).1)
                (sym (then_call-once (ensured c (n, v)) h))
                (retried-Fair n (once (ensured c (n, v)).0) (ap suc count)))
      ]
