-- ===== src/Ring/History.antt =====
-- internal/serialconsole/ring.go: a ring against everything that was ever written to it.
use unwedge.Base.{
  ℕ, ◌-◌, ◌≤◌, ◌<◌, ◌+◌, ◌≡◌, refl, sym, ap, ap₂, ◌∙◌, inl, inr, min, Bytes, Bool, true, false,
  List, [], ◌∷◌, ◌++◌, append_assoc, append-nil, length, replicate, last_n, ltb, leb, Bool-cases,
  arith, length-append, last_n-append, length-replicate, drop-all, last_n_all, ltb→lt,
  if◌then◌else◌, ◌||◌,
}
use unwedge.Base.Int.{pos, is_positive}
use unwedge.Ring.{Ring, new_ring, write, reset, snapshot, limits}
use unwedge.Ring.Contents.{IsValid, contents, length-contents}
use unwedge.Ring.Snapshot.{snapshot_lem}
use unwedge.Ring.Write.{write-IsValid, contents-write, length-buf-write, size-write}

-- The chunks that the reader publishes, one after the other.
abbrev pub write_all : Ring → List Bytes → Ring
write_all r [] = r
write_all r (p ∷ ps) = write_all (write r p) ps

abbrev pub joined : List Bytes → Bytes
joined [] = []
joined (p ∷ ps) = p ++ joined ps

-- `r` stands for the bytes `sent`.
pub record Holds (r : Ring) (sent : Bytes) : Type 0 where
  pub valid : IsValid r
  pub newest : contents r ≡ last_n (length r.buf) sent
  pub counted : r.total_in ≡ length sent
  pub size_eq : r.size ≡ min (length r.buf) (length sent)
  pub marked : length r.buf < length sent → r.truncated ≡ true

pub write-Holds : (r : Ring) (sent p : Bytes) → Holds r sent → Holds (write r p) (sent ++ p)
write-Holds r sent p h =
    let cap : length (write r p).buf ≡ length r.buf = length-buf-write r p h.valid in
    let v : IsValid r = h.valid in
    record {
      valid = write-IsValid r p h.valid;
      newest =
          contents-write r p h.valid
          ∙ ap (λ b. last_n (length r.buf) (b ++ p)) h.newest
          ∙ last_n-append (length r.buf) sent p
          ∙ ap (λ n. last_n n (sent ++ p)) (sym cap);
      counted = unfold write in ground (arith, h, length-append sent p);
      size_eq = omega (arith, cap, size-write r p v, h.size_eq, length-append sent p);
      marked = λ over. marked_lem (rw cap at over);
    }
  where
    marked_lem : length r.buf < length (sent ++ p) → (write r p).truncated ≡ true
    marked_lem over = unfold write in ground (arith, h, h.valid, length-append sent p)

pub write_all-Holds :
    (ps : List Bytes) (r : Ring) (sent : Bytes)
    → Holds r sent
    → Holds (write_all r ps) (sent ++ joined ps)
write_all-Holds [] r sent h = rw append-nil h
write_all-Holds (p ∷ ps) r sent h =
    rw (← append_assoc) (write_all-Holds ps (write r p) (sent ++ p) (write-Holds r sent p h))

empty-Holds :
    (b : Bytes)
    → 0 < length b
    → Holds (record { buf = b; size = 0; start = 0; total_in = 0; truncated = false }) []
unfolding last_n
empty-Holds b room = record {
  valid = omega arith;
  newest = sym (drop-all (0 - length b) [] (omega arith));
  counted = refl;
  size_eq = omega arith;
  marked = λ over. absurd (omega arith);
}

-- `newRing` raises a capacity below 1 to 1.
abbrev pub cap_of : ℕ → ℕ
cap_of capacity = if ltb capacity 1 then 1 else capacity

pub length-new_ring : (capacity : ℕ) → length (new_ring capacity).buf ≡ cap_of capacity
unfolding new_ring
length-new_ring capacity = length-replicate {A = ℕ} (cap_of capacity) 0

pub new_ring-Holds : (capacity : ℕ) → Holds (new_ring capacity) []
unfolding new_ring
new_ring-Holds capacity =
    empty-Holds (replicate (cap_of capacity) 0)
      (rw (length-replicate {A = ℕ} (cap_of capacity) 0) (ground arith))

-- A reset ring stands for nothing, as a new one does.
pub reset-Holds : (r : Ring) (sent : Bytes) → Holds r sent → Holds (reset r) []
unfolding reset
reset-Holds r sent h = empty-Holds r.buf h.valid.room

pub length-buf-write_all :
    (ps : List Bytes) (r : Ring) → IsValid r → length (write_all r ps).buf ≡ length r.buf
length-buf-write_all [] r v = refl
length-buf-write_all (p ∷ ps) r v =
    length-buf-write_all ps (write r p) (write-IsValid r p v) ∙ length-buf-write r p v

-- A whole snapshot of a ring that stands for `sent`.
snapshot-Holds :
    (r : Ring) (sent : Bytes)
    → Holds r sent
    → snapshot r (pos 0) ≡ (last_n (length r.buf) sent, r.truncated)
snapshot-Holds r sent h =
    snapshot_lem r (pos 0) h.valid
    ∙ (unfold limits is_positive in λ i. (whole i, or_false r.truncated i))
  where
    whole : last_n r.size (contents r) ≡ last_n (length r.buf) sent
    whole = last_n_all r.size (contents r) (omega (arith, length-contents r h.valid)) ∙ h.newest

    or_false : (b : Bool) → (b || false) ≡ b
    or_false b = ground arith

-- Some chunk is as long as the ring.
unfoldable pub has_full_chunk : ℕ → List Bytes → Bool
has_full_chunk cap [] = false
has_full_chunk cap (p ∷ ps) = leb cap (length p) || has_full_chunk cap ps

truncated-write :
    (r : Ring) (sent p : Bytes)
    → Holds r sent
    → (write r p).truncated ≡ (
        r.truncated || leb (length r.buf) (length p) || ltb (length r.buf) (length sent + length p))
unfolding write
truncated-write r sent p h = ground (arith, h, h.valid)

-- The mark of a ring after more chunks.
truncated-write_all :
    (ps : List Bytes) (r : Ring) (sent : Bytes)
    → Holds r sent
    → (write_all r ps).truncated ≡ (
        r.truncated
        || has_full_chunk (length r.buf) ps
        || ltb (length r.buf) (length sent + length (joined ps)))
unfolding has_full_chunk
truncated-write_all [] r sent h = ground (arith, h)
truncated-write_all (p ∷ ps) r sent h =
    let r' : Ring = write r p in
    let later = truncated-write_all ps r' (sent ++ p) (write-Holds r sent p h) in
    ground (
      arith,
      later,
      truncated-write r sent p h,
      length-buf-write r p h.valid,
      length-append sent p,
      length-append p (joined ps),
    )

-- Whatever was written before a `reset` and in whatever chunks: a whole snapshot after it is the
-- last `cap` bytes written since, the counter counts those written since, a snapshot that is not
-- marked truncated is all of them, and the mark is set exactly if more than `cap` were written or
-- one chunk had `cap` bytes or more.
pub snapshot-write_all :
    (capacity : ℕ) (before after : List Bytes)
    → let r = write_all (reset (write_all (new_ring capacity) before)) after in
      let (log, truncated) = snapshot r (pos 0) in
      (log ≡ last_n (cap_of capacity) (joined after))
      × (r.total_in ≡ length (joined after))
      × (truncated ≡ false → log ≡ joined after)
      × (truncated ≡ (
          has_full_chunk (cap_of capacity) after || ltb (cap_of capacity) (length (joined after))))
snapshot-write_all capacity before after =
    let old : Ring = write_all (new_ring capacity) before in
    let old_holds : Holds old (joined before) =
      write_all-Holds before (new_ring capacity) [] (new_ring-Holds capacity) in
    let clean : Holds (reset old) [] = reset-Holds old (joined before) old_holds in
    let r : Ring = write_all (reset old) after in
    let h : Holds r (joined after) = write_all-Holds after (reset old) [] clean in
    let cap : length r.buf ≡ cap_of capacity =
      length-buf-write_all after (reset old) clean.valid
      ∙ same-buf old
      ∙ length-buf-write_all before (new_ring capacity) (new_ring-Holds capacity).valid
      ∙ length-new_ring capacity in
    let nothing_before : 0 + length (joined after) ≡ length (joined after) = omega arith in
    let same_cap : length r.buf ≡ length (reset old).buf =
      length-buf-write_all after (reset old) clean.valid in
    let shot : snapshot r (pos 0) ≡ (last_n (length r.buf) (joined after), r.truncated) =
      snapshot-Holds r (joined after) h in
    (
      ap (λ s. s.0) shot ∙ ap (λ n. last_n n (joined after)) cap,
      h.counted,
      λ not_marked.
          ap (λ s. s.0) shot
          ∙ last_n_all _ (joined after)
              (fits r (joined after) h (sym (ap (λ s. s.1) shot) ∙ not_marked)),
      ap (λ s. s.1) shot
          ∙ truncated-write_all after (reset old) [] clean
          ∙ ap
              (λ n.
                (reset old).truncated
                || has_full_chunk (length (reset old).buf) after
                || ltb (length (reset old).buf) n)
              nothing_before
          ∙ ap₂ (λ t n. t || has_full_chunk n after || ltb n (length (joined after)))
              (unmarked-reset old) (sym same_cap ∙ cap),
    )
  where
    unmarked-reset : (r : Ring) → (reset r).truncated ≡ false
    unmarked-reset r = unfold reset in refl

    same-buf : (r : Ring) → length (reset r).buf ≡ length r.buf
    same-buf r = unfold reset in refl

    fits :
        (r : Ring) (sent : Bytes) → Holds r sent → r.truncated ≡ false → length sent ≤ length r.buf
    fits r sent h e = elim (Bool-cases (ltb (length r.buf) (length sent))) [
      | inl over ↦ absurd (cc (h.marked (ltb→lt _ _ over), e))
      | inr inside ↦ ground arith
    ]

-- A first chunk that fills the ring exactly is kept whole, and yet the ring is marked truncated.
pub snapshot_exact_fill :
    (capacity : ℕ) (p : Bytes)
    → 0 < capacity
    → length p ≡ capacity
    → snapshot (write (new_ring capacity) p) (pos 0) ≡ (p, true)
snapshot_exact_fill capacity p some_room exact =
    let r : Ring = write (new_ring capacity) p in
    let h : Holds r p = write-Holds (new_ring capacity) [] p (new_ring-Holds capacity) in
    let cap : length (new_ring capacity).buf ≡ capacity =
      length-new_ring capacity ∙ (ground arith) in
    let cap' : length r.buf ≡ capacity =
      length-buf-write (new_ring capacity) p (new_ring-Holds capacity).valid ∙ cap in
    snapshot-Holds r p h
    ∙ ap₂ (λ b t. (b, t)) (last_n_all (length r.buf) p (omega (arith, cap', exact))) (marked cap)
  where
    marked :
        length (new_ring capacity).buf ≡ capacity → (write (new_ring capacity) p).truncated ≡ true
    marked cap = unfold write in ground (arith, exact)
