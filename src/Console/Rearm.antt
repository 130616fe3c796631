-- ===== src/Console/Rearm.antt =====
-- internal/serialconsole/console.go: what WaitForPattern sees again after its feed was detached.
use unwedge.Base.{
  ℕ, zero, suc, drop-append_le, drop-all, Bool-cases, inl, inr, ◌+◌, ◌-◌, ◌≤◌, ◌<◌, ◌≡◌, refl, ap,
  ◌∙◌, min, Bytes, false, List, [], ◌∷◌, ◌++◌, length, last_n, ltb, not, if◌then◌else◌,
  length-append, length-drop, drop-drop, append_assoc, sym, arith, drop, le→ltb_false,
}
use unwedge.Base.Int.{pos, is_positive, is_negative, to_ℕ}
use unwedge.Ring.{Ring, reset, snapshot, limits}
use unwedge.Ring.Contents.{contents}
use unwedge.Ring.Snapshot.{snapshot_lem}
use unwedge.Ring.History.{
  Holds, joined, write_all, write_all-Holds, reset-Holds, length-buf-write_all,
}
use unwedge.Console.{Console, max_pattern_window, missed, rearm_replay, total_written, subscribe}

last_n-last_n : (n m : ℕ) (xs : Bytes) → n ≤ m → last_n n (last_n m xs) ≡ last_n n xs
unfolding last_n
last_n-last_n n m xs h =
    let e : length xs - m + (length (drop (length xs - m) xs) - n) ≡ length xs - n =
      omega (arith, length-drop (length xs - m) xs) in
    drop-drop (length (drop (length xs - m) xs) - n) (length xs - m) xs ∙ ap (λ k. drop k xs) e

-- The newest `length xs` bytes of two texts, the first of which stands behind others.
last_n-middle :
    (older xs ys : Bytes) → last_n (length xs) ((older ++ xs) ++ ys) ≡ drop (length ys) (xs ++ ys)
unfolding last_n
last_n-middle older xs ys =
    let e : length (older ++ (xs ++ ys)) - length xs ≡ length older + length ys =
      omega (arith, length-append older (xs ++ ys), length-append xs ys) in
    ap (λ l. drop (length l - length xs) l) (append_assoc older xs ys)
    ∙ ap (λ k. drop k (older ++ (xs ++ ys))) e
    ∙ sym (drop-drop (length ys) (length older) (older ++ (xs ++ ys)))
    ∙ ap (drop (length ys)) (
        drop-append_le (length older) older (xs ++ ys) (omega arith)
        ∙ ap (λ b. b ++ (xs ++ ys)) (drop-all (length older) older (omega arith)))

limits_count :
    (n size : ℕ)
    → n ≤ size
    → (if limits (pos n) size then n else size) ≡ (if ltb 0 n then n else size)
unfolding limits is_positive to_ℕ
limits_count zero size h = refl
limits_count (suc n) size h = ground arith

rearm_replay-within :
    (arm_total n : ℕ) (c : Console)
    → c.ring.total_in ≡ arm_total + n
    → n ≤ max_pattern_window
    → rearm_replay arm_total c ≡ pos n
unfolding rearm_replay missed total_written is_negative to_ℕ
rearm_replay-within arm_total n c e h =
    let same : arm_total + n - arm_total ≡ n = omega arith in
    rw
      (
        e,
        le→ltb_false (arm_total + n) arm_total (omega arith),
        same,
        le→ltb_false max_pattern_window n h,
      )
      refl

-- The wait counts at `c` what was published since it was armed, and subscribes at `c'`, when the
-- reader has published more. While the ring is not reset and if something was counted that fits into
-- the ring and the window, it replays what was published since it was armed less its first bytes, as
-- many as have been published in between: exactly all of it if nothing has.
pub rearm_replay-published :
    (r : Ring) (sent : Bytes) (ps qs : List Bytes) (c c' : Console)
    → Holds r sent
    → c.ring ≡ write_all r ps
    → c'.ring ≡ write_all c.ring qs
    → 0 < length (joined ps)
    → length (joined ps) ≤ min (length r.buf) max_pattern_window
    → (snapshot c'.ring (rearm_replay r.total_in c)).0
      ≡ drop (length (joined qs)) (joined ps ++ joined qs)
unfolding to_ℕ
rearm_replay-published r sent ps qs c c' h same same' some_sent fits =
    let n : ℕ = length (joined ps) in
    let r1 : Ring = write_all r ps in
    let r2 : Ring = write_all r1 qs in
    let h1 : Holds r1 (sent ++ joined ps) = write_all-Holds ps r sent h in
    let h2 : Holds r2 ((sent ++ joined ps) ++ joined qs) =
      write_all-Holds qs r1 (sent ++ joined ps) h1 in
    let cap_same : length r2.buf ≡ length r.buf =
      length-buf-write_all qs r1 h1.valid ∙ length-buf-write_all ps r h.valid in
    let total : c.ring.total_in ≡ r.total_in + n =
      ap (λ x. x.total_in) same
      ∙ omega (arith, h1.counted, h.counted, length-append sent (joined ps)) in
    let longer : length ((sent ++ joined ps) ++ joined qs) ≡ length sent + n + length (joined qs) =
      omega
        (arith, length-append (sent ++ joined ps) (joined qs), length-append sent (joined ps)) in
    let room : n ≤ r2.size = omega (arith, h2.size_eq, longer) in
    let count : (if limits (pos n) r2.size then n else r2.size) ≡ n =
      limits_count n r2.size room ∙ ground arith in
    ap (λ m. (snapshot c'.ring m).0) (rearm_replay-within r.total_in n c total (omega arith))
    ∙ ap (λ x. (snapshot x (pos n)).0) (same' ∙ ap (λ x. write_all x qs) same)
    ∙ ap (λ s. s.0) (snapshot_lem r2 (pos n) h2.valid)
    ∙ ap (λ m. last_n m (contents r2)) count
    ∙ ap (last_n n) h2.newest
    ∙ last_n-last_n n (length r2.buf) ((sent ++ joined ps) ++ joined qs) (omega arith)
    ∙ last_n-middle sent (joined ps) (joined qs)

not_rearmed :
    (arm_total : ℕ) (c : Console)
    → c.ring.total_in ≤ arm_total
    → is_positive (rearm_replay arm_total c) ≡ false
unfolding rearm_replay missed total_written is_negative to_ℕ is_positive
not_rearmed arm_total c h =
    let none_more : c.ring.total_in - arm_total ≡ 0 = omega arith in
    elim (Bool-cases (ltb c.ring.total_in arm_total)) [
      | inl less ↦ simp less refl
      | inr same ↦ simp (same, none_more) refl
    ]

-- After a reset in between, the wait replays nothing of what was published since, until that is
-- more than all that had been published when it was armed.
pub rearm_replay-reset :
    (r : Ring) (sent : Bytes) (ps : List Bytes) (c : Console) (arm_total : ℕ)
    → Holds r sent
    → c.ring ≡ write_all (reset r) ps
    → length (joined ps) ≤ arm_total
    → (subscribe (rearm_replay arm_total c) c).0.feeds
      ≡ c.feeds
        ++ record { sent = []; taken = 0; closed = c.closed; registered = not c.closed } ∷ []
unfolding subscribe
rearm_replay-reset r sent ps c arm_total h same le =
    let h' : Holds (write_all (reset r) ps) (joined ps) =
      write_all-Holds ps (reset r) [] (reset-Holds r sent h) in
    let total : c.ring.total_in ≤ arm_total =
      omega (arith, ap (λ x. x.total_in) same, h'.counted) in
    simp (not_rearmed arm_total c total) refl
