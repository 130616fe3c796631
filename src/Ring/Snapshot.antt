-- ===== src/Ring/Snapshot.antt =====
-- internal/serialconsole/ring.go: `snapshot` reads the newest bytes in order.
use native.Mathlib.Nat.{mod-lt, mod-eq_of_lt, mod-add-mod, zero-add, add_assoc}
use unwedge.Base.{
  ℕ, ◌+◌, ◌-◌, ◌%◌, ◌≤◌, ◌<◌, ◌≡◌, sym, ap, ◌∙◌, inl, inr, min, Bytes, true, ◌||◌, length, drop,
  replicate, get_elem?, last_n, ltb, ltb→lt, if◌then◌else◌, Bool-cases, arith, length-drop,
  length-replicate, get_elem?_ext, get_elem?-none, get_elem?-drop, length-last_n,
}
use unwedge.Base.Int.{ℤ, to_ℕ}
use unwedge.Ring.{Ring, copy_at, limits, snapshot}
use unwedge.Ring.Contents.{
  IsValid, contents, length-contents, get_elem?-contents, mod_wrap, length-copy_at,
  get_elem?-copy_at_before, get_elem?-copy_at_within,
}

-- The bytes that the two copies of `snapshot` put into a buffer of `n` bytes.
module _ (r : Ring) (n : ℕ) where
  abbrev begin : ℕ
  begin = (r.start + (r.size - n)) % length r.buf

  abbrev first : ℕ
  first = min n (length r.buf - begin)

  abbrev out : Bytes
  out = copy_at (replicate n 0) 0 (drop begin r.buf)

  abbrev gathered : Bytes
  gathered = if ltb first n then copy_at out first r.buf else out

module _ (r : Ring) (n : ℕ) (v : IsValid r) (n_le : n ≤ r.size) where
  begin_lt : begin r n < length r.buf
  begin_lt = mod-lt (r.start + (r.size - n)) v.room

  length-out : length (out r n) ≡ n
  length-out =
      length-copy_at (replicate n 0) 0 (drop (begin r n) r.buf) (omega arith) ∙ length-replicate n 0

  length-gathered : length (gathered r n) ≡ n
  length-gathered = elim (Bool-cases (ltb (first r n) n)) [
    | inl more ↦
        rw more
          (length-copy_at (out r n) (first r n) r.buf (omega (arith, length-out)) ∙ length-out)
    | inr all ↦ rw all length-out
  ]

  get_elem?-out : (i : ℕ) → i < first r n → get_elem? (out r n) i ≡ get_elem? r.buf (begin r n + i)
  get_elem?-out i h =
      ap (get_elem? (out r n)) (sym (zero-add i))
      ∙ get_elem?-copy_at_within (replicate n 0) 0 (drop (begin r n) r.buf) i
          (omega (arith, length-drop (begin r n) r.buf))
          (omega (arith, length-replicate {A = ℕ} n 0))
      ∙ get_elem?-drop (begin r n) r.buf i

  get_elem?-gathered :
      (i : ℕ)
      → i < n
      → get_elem? (gathered r n) i ≡ get_elem? r.buf ((begin r n + i) % length r.buf)
  get_elem?-gathered i h = elim (Bool-cases (ltb i (first r n))) [
    | inl low ↦
        let low_lt : i < first r n = ltb→lt _ _ low in
        let place : get_elem? r.buf (begin r n + i)
            ≡ get_elem? r.buf ((begin r n + i) % length r.buf) =
          ap (get_elem? r.buf) (sym (mod-eq_of_lt (omega arith))) in
        elim (Bool-cases (ltb (first r n) n)) [
          | inl more ↦ rw more (
              get_elem?-copy_at_before (out r n) (first r n) r.buf i (omega (arith, length-out))
                low_lt
              ∙ get_elem?-out i low_lt
              ∙ place)
          | inr all ↦ rw all (get_elem?-out i low_lt ∙ place)
        ]
    | inr high ↦
        let first_le : first r n ≤ i = ground arith in
        let more : ltb (first r n) n ≡ true = ground arith in
        let cut : first r n ≡ length r.buf - begin r n = omega arith in
        let j : ℕ = i - first r n in
        let at : first r n + j ≡ i = omega arith in
        let round : begin r n + i ≡ j + length r.buf = omega (arith, begin_lt) in
        rw more (
          ap (get_elem? (copy_at (out r n) (first r n) r.buf)) (sym at)
          ∙ get_elem?-copy_at_within (out r n) (first r n) r.buf j (omega (arith, v, begin_lt))
              (omega (arith, length-out))
          ∙ ap (get_elem? r.buf) (
              sym (
                mod_wrap (begin r n + i) (length r.buf) (omega arith) (omega (arith, v, begin_lt))
                ∙ place_high j round)))
  ]
    where
      place_high : (j : ℕ) → begin r n + i ≡ j + length r.buf → begin r n + i - length r.buf ≡ j
      place_high j e = omega arith

  gathered_lem : gathered r n ≡ last_n n (contents r)
  gathered_lem = get_elem?_ext (gathered r n) (last_n n (contents r)) λ i.
      elim (Bool-cases (ltb i n)) [
        | inl inside ↦
            get_elem?-gathered i (ltb→lt i n inside)
            ∙ ap (get_elem? r.buf) (mod-add-mod (r.start + (r.size - n)) (length r.buf) i)
            ∙ ap (λ m. get_elem? r.buf (m % length r.buf)) (add_assoc r.start (r.size - n) i)
            ∙ sym (get_elem?-contents r (r.size - n + i) v (omega (arith, ltb→lt i n inside)))
            ∙ ap (get_elem? (contents r)) (shift i)
            ∙ sym (unfold last_n in get_elem?-drop (length (contents r) - n) (contents r) i)
        | inr outside ↦
            get_elem?-none (gathered r n) i (ground (arith, length-gathered))
            ∙ sym (
                get_elem?-none (last_n n (contents r)) i
                  (ground (arith, length-last_n n (contents r))))
      ]
    where
      shift : (i : ℕ) → r.size - n + i ≡ length (contents r) - n + i
      shift i = omega (arith, length-contents r v)

-- A snapshot is the newest bytes of the ring, in order: all of them, or the last `max_bytes` when
-- that is positive and smaller. It says that it is partial if it is cut or the ring has lost bytes.
pub snapshot_lem :
    (r : Ring) (max_bytes : ℤ)
    → IsValid r
    → snapshot r max_bytes ≡ (
      last_n (if limits max_bytes r.size then to_ℕ max_bytes else r.size) (contents r),
      r.truncated || limits max_bytes r.size,
    )
unfolding snapshot
snapshot_lem r max_bytes v =
    let n : ℕ = if limits max_bytes r.size then to_ℕ max_bytes else r.size in
    ap (λ b. (b, r.truncated || limits max_bytes r.size)) (gathered_lem r n v (fits v))
  where
    fits : IsValid r → (if limits max_bytes r.size then to_ℕ max_bytes else r.size) ≤ r.size
    fits v = unfold limits in ground arith
