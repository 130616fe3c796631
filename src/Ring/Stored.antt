-- ===== src/Ring/Stored.antt =====
-- internal/serialconsole/ring.go: where the two copies of `write` put the new bytes.
use native.Mathlib.Nat.{mod-lt, mod-eq_of_lt, mod-add-mod, add-mod_right, zero-add}
use unwedge.Base.{
  ℕ, ◌+◌, ◌-◌, ◌%◌, ◌≤◌, ◌<◌, ◌≡◌, sym, ap, ◌∙◌, inl, inr, min, Bytes, true, false, ◌++◌, length,
  drop, get_elem?, ltb, ltb→lt, Bool-cases, arith, length-drop, get_elem?-append_left,
  get_elem?-append_right, get_elem?-drop,
}
use unwedge.Ring.{Ring, copy_at, stored}
use unwedge.Ring.Contents.{
  IsValid, contents, length-contents, get_elem?-contents, mod_wrap, length-copy_at,
  get_elem?-copy_at_before, get_elem?-copy_at_within, get_elem?-copy_at_after,
}

module _ (r : Ring) (p : Bytes) (v : IsValid r) (short : length p < length r.buf) where
  end : ℕ
  end = (r.start + r.size) % length r.buf

  end_lt : end < length r.buf
  unfolding end
  end_lt = mod-lt (r.start + r.size) v.room

  front : ℕ
  unfolding end
  front = min (length r.buf - end) (length p)

  once : Bytes
  unfolding end
  once = copy_at r.buf end p

  length-once : length once ≡ length r.buf
  unfolding once
  length-once = length-copy_at r.buf end p (omega (arith, end_lt))

  -- Where the second copy is not made, and where it is.
  unwrapped_stored : ltb front (length p) ≡ false → stored r p ≡ once
  unfolding stored once front
  unwrapped_stored h = rw h

  wrapped_stored : ltb front (length p) ≡ true → stored r p ≡ copy_at once 0 (drop front p)
  unfolding stored once front
  wrapped_stored h = rw h

  pub length-stored_lem : length (stored r p) ≡ length r.buf
  length-stored_lem = elim (Bool-cases (ltb front (length p))) [
    | inl more ↦
        ap length (wrapped_stored more)
        ∙ length-copy_at once 0 (drop front p) (omega arith)
        ∙ length-once
    | inr all ↦ ap length (unwrapped_stored all) ∙ length-once
  ]

  -- The new bytes stand from `end` on, round the end of the buffer.
  stored_new_low :
      (k : ℕ)
      → k < length p
      → end + k < length r.buf
      → get_elem? (stored r p) (end + k) ≡ get_elem? p k
  stored_new_low k h low =
      let first : get_elem? once (end + k) ≡ get_elem? p k =
        unfold once in get_elem?-copy_at_within r.buf end p k h low in
      elim (Bool-cases (ltb front (length p))) [
        | inl more ↦
            ap (λ b. get_elem? b (end + k)) (wrapped_stored more)
            ∙ get_elem?-copy_at_after once 0 (drop front p) (end + k)
                (unfold front in ground (arith, length-drop front p, short))
                (omega (arith, length-once))
            ∙ first
        | inr all ↦ ap (λ b. get_elem? b (end + k)) (unwrapped_stored all) ∙ first
      ]

  stored_new_high :
      (k : ℕ)
      → k < length p
      → length r.buf ≤ end + k
      → get_elem? (stored r p) (end + k - length r.buf) ≡ get_elem? p k
  unfolding front
  stored_new_high k h high =
      let front_eq : front ≡ length r.buf - end = omega arith in
      let more : ltb front (length p) ≡ true = ground arith in
      let i : ℕ = end + k - length r.buf in
      let back : front + i ≡ k = omega (arith, end_lt) in
      ap (λ b. get_elem? b i) (wrapped_stored more)
      ∙ ap (get_elem? (copy_at once 0 (drop front p))) (sym (zero-add i))
      ∙ get_elem?-copy_at_within once 0 (drop front p) i
          (omega (arith, length-drop front p, end_lt)) (omega (arith, length-once, end_lt, short))
      ∙ get_elem?-drop front p i
      ∙ ap (get_elem? p) back

  -- The other bytes stay.
  stored_old_low :
      (k : ℕ)
      → length p ≤ k
      → end + k < length r.buf
      → get_elem? (stored r p) (end + k) ≡ get_elem? r.buf (end + k)
  unfolding front once
  stored_old_low k h low =
      ap (λ b. get_elem? b (end + k)) (unwrapped_stored (ground arith))
      ∙ get_elem?-copy_at_after r.buf end p (end + k) (omega arith) low

  stored_old_high :
      (k : ℕ)
      → length p ≤ k
      → k < length r.buf
      → length r.buf ≤ end + k
      → get_elem? (stored r p) (end + k - length r.buf) ≡ get_elem? r.buf (end + k - length r.buf)
  unfolding front
  stored_old_high k h k_lt high =
      let i : ℕ = end + k - length r.buf in
      let first : get_elem? once i ≡ get_elem? r.buf i =
        unfold once in
        get_elem?-copy_at_before r.buf end p i (omega (arith, end_lt)) (omega (arith, end_lt)) in
      elim (Bool-cases (ltb front (length p))) [
        | inl more ↦
            ap (λ b. get_elem? b i) (wrapped_stored more)
            ∙ get_elem?-copy_at_after once 0 (drop front p) i
                (omega (arith, length-drop front p, end_lt)) (omega (arith, length-once, end_lt))
            ∙ first
        | inr all ↦ ap (λ b. get_elem? b i) (unwrapped_stored all) ∙ first
      ]

  end-add : (k : ℕ) → (end + k) % length r.buf ≡ (r.start + (r.size + k)) % length r.buf
  unfolding end
  end-add k =
      mod-add-mod (r.start + r.size) (length r.buf) k ∙ ap (λ n. n % length r.buf) (omega arith)

  stored_new :
      (k : ℕ)
      → k < length p
      → get_elem? (stored r p) ((r.start + (r.size + k)) % length r.buf) ≡ get_elem? p k
  stored_new k h =
      ap (get_elem? (stored r p)) (sym (end-add k))
      ∙ elim (Bool-cases (ltb (end + k) (length r.buf))) [
        | inl low ↦
            ap (get_elem? (stored r p)) (mod-eq_of_lt (ltb→lt _ _ low))
            ∙ stored_new_low k h (ltb→lt _ _ low)
        | inr high ↦
            ap (get_elem? (stored r p))
              (mod_wrap (end + k) (length r.buf) (ground arith) (omega (arith, end_lt, short)))
            ∙ stored_new_high k h (ground arith)
      ]

  stored_old :
      (k : ℕ)
      → length p ≤ k
      → k < length r.buf
      → get_elem? (stored r p) ((r.start + (r.size + k)) % length r.buf)
        ≡ get_elem? r.buf ((r.start + (r.size + k)) % length r.buf)
  stored_old k h k_lt =
      ap (get_elem? (stored r p)) (sym (end-add k))
      ∙ elim (Bool-cases (ltb (end + k) (length r.buf))) [
        | inl low ↦
            ap (get_elem? (stored r p)) (mod-eq_of_lt (ltb→lt _ _ low))
            ∙ stored_old_low k h (ltb→lt _ _ low)
            ∙ ap (get_elem? r.buf) (sym (mod-eq_of_lt (ltb→lt _ _ low)))
        | inr high ↦
            let wrap : (end + k) % length r.buf ≡ end + k - length r.buf =
              mod_wrap (end + k) (length r.buf) (ground arith) (omega (arith, end_lt, k_lt)) in
            ap (get_elem? (stored r p)) wrap
            ∙ stored_old_high k h k_lt (ground arith)
            ∙ ap (get_elem? r.buf) (sym wrap)
      ]
      ∙ ap (get_elem? r.buf) (end-add k)

  -- Entry `m` of the old contents followed by `p`, where it is one of the last `cap`.
  pub stored_entry :
      (m : ℕ)
      → m < r.size + length p
      → r.size + length p ≤ m + length r.buf
      → get_elem? (stored r p) ((r.start + m) % length r.buf) ≡ get_elem? (contents r ++ p) m
  stored_entry m upper lower = elim (Bool-cases (ltb m r.size)) [
    | inl old ↦
        let k : ℕ = m + length r.buf - r.size in
        let m_lt : m < r.size = ltb→lt m r.size old in
        let turn : (r.start + (r.size + k)) % length r.buf ≡ (r.start + m) % length r.buf =
          ap (λ n. n % length r.buf) (omega (arith, v))
          ∙ add-mod_right (r.start + m) (length r.buf) in
        ap (get_elem? (stored r p)) (sym turn)
        ∙ stored_old k (omega arith) (omega (arith, v))
        ∙ ap (get_elem? r.buf) turn
        ∙ sym (get_elem?-contents r m v m_lt)
        ∙ sym (get_elem?-append_left (contents r) p m (omega (arith, length-contents r v)))
    | inr new ↦
        let k : ℕ = m - r.size in
        let size_le : r.size ≤ m = ground arith in
        let at : r.size + k ≡ m = omega arith in
        ap (λ n. get_elem? (stored r p) ((r.start + n) % length r.buf)) (sym at)
        ∙ stored_new k (omega arith)
        ∙ ap (get_elem? p) (omega (arith, length-contents r v))
        ∙ sym (get_elem?-append_right (contents r) p m (omega (arith, length-contents r v)))
  ]
