-- ===== src/Ring/Write.antt =====
-- internal/serialconsole/ring.go: `write` keeps the ring valid and implements the sequence of all
-- bytes cut to the capacity.
use native.Mathlib.Nat.{mod-lt, mod-eq_of_lt, mod-add-mod}
use unwedge.Base.{
  ℕ, ◌+◌, ◌-◌, ◌%◌, ◌≤◌, ◌<◌, ◌≡◌, sym, ap, ◌∙◌, inl, inr, min, Bytes, ◌++◌, length, drop,
  get_elem?, last_n, ltb, leb, Bool-cases, arith, length-append, length-drop,
  get_elem?-append_right, get_elem?-drop, length-last_n,
}
use unwedge.Ring.{Ring, copy_at, stored, write}
use unwedge.Ring.Contents.{
  IsValid, contents, length-contents, contents_eq, length-copy_at, get_elem?-copy_at_within,
}
use unwedge.Ring.Stored.{length-stored_lem, stored_entry}

-- `write` keeps the ring valid, and leaves the capacity as it is.
pub length-buf-write : (r : Ring) (p : Bytes) → IsValid r → length (write r p).buf ≡ length r.buf
unfolding write
length-buf-write r p v = elim (Bool-cases (leb (length r.buf) (length p))) [
  | inl long ↦ rw long (length-copy_at r.buf 0 (drop (length p - length r.buf) p) (omega arith))
  | inr short ↦
      let same : length (stored r p) ≡ length r.buf = length-stored_lem r p v (ground arith) in
      elim (Bool-cases (ltb (length r.buf - r.size) (length p))) [
        | inl full ↦ rw (short, full) same
        | inr room ↦ rw (short, room) same
      ]
]

pub write-IsValid : (r : Ring) (p : Bytes) → IsValid r → IsValid (write r p)
write-IsValid r p v =
    let cap : length (write r p).buf ≡ length r.buf = length-buf-write r p v in
    record {
      room = omega (arith, cap, v);
      size_le = rw cap (unfold write in ground (arith, v));
      start_lt = rw cap (
          unfold write in
          ground (arith, v, mod-lt (r.start + (length p - (length r.buf - r.size))) v.room));
    }

-- The buffered size grows up to the capacity.
pub size-write :
    (r : Ring) (p : Bytes) → IsValid r → (write r p).size ≡ min (length r.buf) (r.size + length p)
unfolding write
size-write r p v = ground (arith, v)

module _ (r : Ring) (p : Bytes) (v : IsValid r) where
  -- How many of the old bytes and the new are lost.
  lost : ℕ
  lost = r.size + length p - length r.buf

  length-kept : length (last_n (length r.buf) (contents r ++ p)) ≡ (write r p).size
  length-kept = omega (
    arith,
    length-last_n (length r.buf) (contents r ++ p),
    length-append (contents r) p,
    length-contents r v,
    size-write r p v,
  )

  get_elem?-kept :
      (i : ℕ)
      → get_elem? (last_n (length r.buf) (contents r ++ p)) i
        ≡ get_elem? (contents r ++ p) (lost + i)
  unfolding lost last_n
  get_elem?-kept i =
      get_elem?-drop (length (contents r ++ p) - length r.buf) (contents r ++ p) i
      ∙ ap (get_elem? (contents r ++ p))
          (omega (arith, length-append (contents r) p, length-contents r v))

  write-buf_short : length p < length r.buf → (write r p).buf ≡ stored r p
  unfolding write
  write-buf_short short = ground arith

  write-start_short :
      (i : ℕ)
      → length p < length r.buf
      → ((write r p).start + i) % length r.buf ≡ (r.start + (lost + i)) % length r.buf
  unfolding write lost
  write-start_short i short =
      ground
        (arith, v, mod-add-mod (r.start + (length p - (length r.buf - r.size))) (length r.buf) i)

  contents-write_short :
      length p < length r.buf → contents (write r p) ≡ last_n (length r.buf) (contents r ++ p)
  contents-write_short short = contents_eq (write r p) _ (write-IsValid r p v) length-kept λ i h.
      ap (λ n. get_elem? (write r p).buf (((write r p).start + i) % n)) (length-buf-write r p v)
      ∙ ap (get_elem? (write r p).buf) (write-start_short i short)
      ∙ ap (λ b. get_elem? b ((r.start + (lost + i)) % length r.buf)) (write-buf_short short)
      ∙ stored_entry r p v short (lost + i) (unfold lost in omega (arith, size-write r p v, v))
          (unfold lost in omega arith)
      ∙ sym (get_elem?-kept i)

  write-buf_long :
      length r.buf ≤ length p → (write r p).buf ≡ copy_at r.buf 0 (drop (length p - length r.buf) p)
  unfolding write
  write-buf_long long = ground arith

  offset_long :
      (i : ℕ)
      → length r.buf ≤ length p
      → length p - length r.buf + i ≡ lost + i - length (contents r)
  unfolding lost
  offset_long i long = omega (arith, length-contents r v)

  contents-write_long :
      length r.buf ≤ length p → contents (write r p) ≡ last_n (length r.buf) (contents r ++ p)
  contents-write_long long =
      let tail : Bytes = drop (length p - length r.buf) p in
      contents_eq (write r p) _ (write-IsValid r p v) length-kept λ i h.
        let i_lt : i < length r.buf = omega (arith, size-write r p v) in
        let start : (write r p).start ≡ 0 = unfold write in ground arith in
        ap (λ n. get_elem? (write r p).buf (((write r p).start + i) % n)) (length-buf-write r p v)
        ∙ ap (λ n. get_elem? (write r p).buf ((n + i) % length r.buf)) start
        ∙ ap (get_elem? (write r p).buf) (mod-eq_of_lt (omega arith))
        ∙ ap (λ b. get_elem? b (0 + i)) (write-buf_long long)
        ∙ get_elem?-copy_at_within r.buf 0 tail i
            (omega (arith, length-drop (length p - length r.buf) p)) (omega arith)
        ∙ get_elem?-drop (length p - length r.buf) p i
        ∙ ap (get_elem? p) (offset_long i long)
        ∙ sym (
            get_elem?-append_right (contents r) p (lost + i)
              (unfold lost in omega (arith, length-contents r v, v)))
        ∙ sym (get_elem?-kept i)

-- After a write the ring holds the last `cap` bytes of what it held followed by the chunk.
pub contents-write :
    (r : Ring) (p : Bytes)
    → IsValid r
    → contents (write r p) ≡ last_n (length r.buf) (contents r ++ p)
contents-write r p v = elim (Bool-cases (ltb (length p) (length r.buf))) [
  | inl short ↦ contents-write_short r p v (ground arith)
  | inr long ↦ contents-write_long r p v (ground arith)
]
