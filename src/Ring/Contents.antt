-- ===== src/Ring/Contents.antt =====
-- internal/serialconsole/ring.go: what a ring holds, and reading it back by `snapshot`.
use native.Mathlib.Nat.{mod-eq_of_lt, mod-eq-sub-mod}
use unwedge.Base.{
  ℕ, ◌+◌, ◌-◌, ◌%◌, ◌≤◌, ◌<◌, ◌≡◌, sym, ap, ◌∙◌, inl, inr, Bytes, ◌++◌, length, take, drop,
  get_elem?, ltb, ltb→lt, Bool-cases, arith, length-append, length-take, length-drop,
  get_elem?-append_left, get_elem?-append_right, get_elem?-drop, get_elem?-take, get_elem?-none,
  get_elem?_ext,
}
use unwedge.Ring.{Ring, copy_at}

pub record IsValid (r : Ring) : Type 0 where
  pub room : 0 < length r.buf
  pub size_le : r.size ≤ length r.buf
  pub start_lt : r.start < length r.buf

-- The buffered bytes, oldest first.
abbrev pub contents : Ring → Bytes
contents r = take r.size (drop r.start r.buf ++ take r.start r.buf)

pub length-contents : (r : Ring) → IsValid r → length (contents r) ≡ r.size
length-contents r v = omega (
  arith,
  length-take r.size (drop r.start r.buf ++ take r.start r.buf),
  length-append (drop r.start r.buf) (take r.start r.buf),
  length-drop r.start r.buf,
  length-take r.start r.buf,
)

pub mod_wrap : (a c : ℕ) → c ≤ a → a < c + c → a % c ≡ a - c
mod_wrap a c h k = mod-eq-sub-mod h ∙ mod-eq_of_lt (omega arith)

-- Entry `i` stands at `(start + i) % cap`.
pub get_elem?-contents :
    (r : Ring) (i : ℕ)
    → IsValid r
    → i < r.size
    → get_elem? (contents r) i ≡ get_elem? r.buf ((r.start + i) % length r.buf)
get_elem?-contents r i v h =
    get_elem?-take r.size _ i h ∙ elim (Bool-cases (ltb (r.start + i) (length r.buf))) [
      | inl inside ↦
          get_elem?-append_left (drop r.start r.buf) (take r.start r.buf) i
            (ground (arith, length-drop r.start r.buf))
          ∙ get_elem?-drop r.start r.buf i
          ∙ ap (get_elem? r.buf) (sym (mod-eq_of_lt (ground arith)))
      | inr wraps ↦
          get_elem?-append_right (drop r.start r.buf) (take r.start r.buf) i
            (ground (arith, length-drop r.start r.buf))
          ∙ get_elem?-take r.start r.buf (i - length (drop r.start r.buf))
              (ground (arith, length-drop r.start r.buf))
          ∙ ap (get_elem? r.buf)
              (ground (arith, length-drop r.start r.buf, mod_wrap (r.start + i) (length r.buf)))
    ]

pub length-copy_at :
    (dst : Bytes) (off : ℕ) (src : Bytes)
    → off ≤ length dst
    → length (copy_at dst off src) ≡ length dst
unfolding copy_at
length-copy_at dst off src h = omega (
  arith,
  length-append (take off dst) (take (length dst - off) src ++ drop (off + length src) dst),
  length-append (take (length dst - off) src) (drop (off + length src) dst),
  length-take off dst,
  length-take (length dst - off) src,
  length-drop (off + length src) dst,
)

pub get_elem?-copy_at_before :
    (dst : Bytes) (off : ℕ) (src : Bytes) (i : ℕ)
    → off ≤ length dst
    → i < off
    → get_elem? (copy_at dst off src) i ≡ get_elem? dst i
unfolding copy_at
get_elem?-copy_at_before dst off src i h k =
    get_elem?-append_left (take off dst) _ i (omega (arith, length-take off dst))
    ∙ get_elem?-take off dst i k

pub get_elem?-copy_at_within :
    (dst : Bytes) (off : ℕ) (src : Bytes) (i : ℕ)
    → i < length src
    → off + i < length dst
    → get_elem? (copy_at dst off src) (off + i) ≡ get_elem? src i
unfolding copy_at
get_elem?-copy_at_within dst off src i h k =
    let e : off + i - length (take off dst) ≡ i = omega (arith, length-take off dst) in
    get_elem?-append_right (take off dst) _ (off + i) (omega (arith, length-take off dst))
    ∙ ap (get_elem? (take (length dst - off) src ++ drop (off + length src) dst)) e
    ∙ get_elem?-append_left (take (length dst - off) src) _ i
        (omega (arith, length-take (length dst - off) src))
    ∙ get_elem?-take (length dst - off) src i (omega arith)

pub get_elem?-copy_at_after :
    (dst : Bytes) (off : ℕ) (src : Bytes) (i : ℕ)
    → off + length src ≤ i
    → i < length dst
    → get_elem? (copy_at dst off src) i ≡ get_elem? dst i
unfolding copy_at
get_elem?-copy_at_after dst off src i h k =
    let n : ℕ = length dst - off in
    let e : i - length (take off dst) - length (take n src) ≡ i - (off + length src) =
      omega (arith, length-take off dst, length-take n src) in
    get_elem?-append_right (take off dst) _ i (omega (arith, length-take off dst))
    ∙ get_elem?-append_right (take n src) _ (i - length (take off dst))
        (omega (arith, length-take off dst, length-take n src))
    ∙ ap (get_elem? (drop (off + length src) dst)) e
    ∙ get_elem?-drop (off + length src) dst (i - (off + length src))
    ∙ ap (get_elem? dst) (omega arith)

-- To know the contents it is enough to know the entries round the buffer.
pub contents_eq :
    (r : Ring) (xs : Bytes)
    → IsValid r
    → length xs ≡ r.size
    → ((i : ℕ) → i < r.size → get_elem? r.buf ((r.start + i) % length r.buf) ≡ get_elem? xs i)
    → contents r ≡ xs
contents_eq r xs v len same = get_elem?_ext (contents r) xs λ i. elim (Bool-cases (ltb i r.size)) [
  | inl inside ↦ get_elem?-contents r i v (ltb→lt i r.size inside) ∙ same i (ltb→lt i r.size inside)
  | inr outside ↦
      get_elem?-none (contents r) i (ground (arith, length-contents r v))
      ∙ sym (get_elem?-none xs i (ground arith))
]
