-- ===== src/Keys/Laws.antt =====
-- internal/serialconsole/keys.go: which names are keys, and what a list of keys sends.
use unwedge.Base.{
  ℕ, ◌-◌, ◌≤◌, ◌≡◌, refl, sym, ap, ◌∙◌, subst, ◌⊎◌, ◌↔◌, inl, inr, Bytes, codes, some, List, [],
  ◌∷◌, ◌++◌, append_assoc, append-nil, length, All, Option-cases, to_lower, trim_space, trim_left,
  trim_right, is_space, lower, arith, eqb, has_prefix,
}
use unwedge.Keys.{ctrl_key, named_key, key_bytes, keys_from, keys_bytes, one_of}

-- The names translate one by one to the parts, in order.
pub data Translates : List Bytes → Bytes → Type 0 where
  done : Translates [] []
  key :
      {name b : Bytes} {names : List Bytes} {out : Bytes}
      → key_bytes name ≡ some b
      → Translates names out
      → Translates (name ∷ names) (b ++ out)

keys_from_complete :
    {names : List Bytes} {b : Bytes} (out : Bytes)
    → Translates names b
    → keys_from out names ≡ some (out ++ b)
unfolding keys_from
keys_from_complete out done = rw append-nil
keys_from_complete out (key {name} {b} {names} {out = rest} e t) =
    rw (e, keys_from) (keys_from_complete (out ++ b) t ∙ ap some (append_assoc out b rest))

keys_from_sound :
    (names : List Bytes) (out : Bytes) {r : Bytes}
    → keys_from out names ≡ some r
    → (b : Bytes) × Translates names b × (r ≡ out ++ b)
unfolding keys_from
keys_from_sound [] out h = ([], done, cc (append-nil out))
keys_from_sound (name ∷ names) out {r} h = elim (Option-cases (key_bytes name)) [
  | inl e ↦ absurd (cc (rw (e, keys_from) at h))
  | inr (b, e) ↦
      let (rest, t, eq) = keys_from_sound names (out ++ b) {r = r} (rw (e, keys_from) at h) in
      (b ++ rest, key e t, eq ∙ append_assoc out b rest)
]

-- A list of key names is accepted exactly when every name is a key, and it sends the bytes of the
-- names in order; one unknown name refuses the whole list.
pub keys_bytes_iff :
    (names : List Bytes) (b : Bytes) → (keys_bytes names ≡ some b) ↔ Translates names b
unfolding keys_bytes
keys_bytes_iff names b = (
  λ h. let (c, t, e) = keys_from_sound names [] {r = b} h in subst (Translates names) (sym e) t,
  λ t. keys_from_complete [] t,
)

lower_idem : (c : ℕ) → lower (lower c) ≡ lower c
unfolding lower
lower_idem c = ground arith

to_lower_idem : (s : Bytes) → to_lower (to_lower s) ≡ to_lower s
unfolding to_lower
to_lower_idem [] = refl
to_lower_idem (c ∷ s) = cc (lower_idem c, to_lower_idem s)

is_space-lower : (c : ℕ) → is_space (lower c) ≡ is_space c
unfolding lower is_space
is_space-lower c = ground arith

trim_left-to_lower : (s : Bytes) → trim_left is_space (to_lower s) ≡ to_lower (trim_left is_space s)
unfolding trim_left to_lower
trim_left-to_lower [] = refl
trim_left-to_lower (c ∷ s) = ground (arith, is_space-lower c, trim_left-to_lower s)

trim_right-to_lower :
    (s : Bytes) → trim_right is_space (to_lower s) ≡ to_lower (trim_right is_space s)
unfolding trim_right to_lower
trim_right-to_lower [] = refl
trim_right-to_lower (c ∷ s) = ground (arith, is_space-lower c, trim_right-to_lower s)

-- Names are read without regard to case.
pub key_bytes-to_lower : (name : Bytes) → key_bytes (to_lower name) ≡ key_bytes name
unfolding key_bytes
key_bytes-to_lower name =
    let trimmed : trim_space (to_lower name) ≡ to_lower (trim_space name) =
      ap (trim_right is_space) (trim_left-to_lower name)
      ∙ trim_right-to_lower (trim_left is_space name) in
    ap (λ n. named_key (to_lower n)) trimmed ∙ ap named_key (to_lower_idem (trim_space name))

-- What a key may send: one byte or two, each a control byte, a space or `del`.
abbrev pub IsKeyByte : ℕ → Type 0
IsKeyByte c = (c ≤ 32) ⊎ (c ≡ 127)

ctrl_key-sends :
    (n : Bytes) {b : Bytes}
    → ctrl_key n ≡ some b
    → All IsKeyByte b × (1 ≤ length b) × (length b ≤ 2)
unfolding ctrl_key
ctrl_key-sends n h = ground arith

named_key-sends :
    (n : Bytes) {b : Bytes}
    → named_key n ≡ some b
    → All IsKeyByte b × (1 ≤ length b) × (length b ≤ 2)
unfolding named_key
named_key-sends n {b} h = ground (arith, ctrl_key-sends n {b = b})

-- No key sends a printable character other than the space, and each sends one byte or two.
pub key_bytes-sends :
    (name : Bytes) {b : Bytes}
    → key_bytes name ≡ some b
    → All IsKeyByte b × (1 ≤ length b) × (length b ≤ 2)
unfolding key_bytes
key_bytes-sends name h = named_key-sends (to_lower (trim_space name)) h

-- The control key of a letter sends its position in the alphabet.
pub key_bytes-ctrl :
    (c : ℕ) → b'a' ≤ c → c ≤ b'z' → key_bytes (codes "ctrl-" ++ c ∷ []) ≡ some ((c - 96) ∷ [])
unfolding key_bytes named_key one_of ctrl_key has_prefix eqb
key_bytes-ctrl c lo hi = ground arith
