-- ===== src/Keys.antt =====
-- internal/serialconsole/keys.go: named keys and the bytes that they send. Names are ASCII.
pub mod Laws
mod Tests
use unwedge.Base.{
  ℕ, ◌+◌, ◌-◌, Bytes, codes, Bool, true, false, ◌&&◌, ◌||◌, Option, none, some, List, [], ◌∷◌, ◌++◌,
  length, get_elem?, leb, ◌==◌, if◌then◌else◌, eqb, has_prefix, to_lower, trim_space,
}

-- A `case` with several texts.
unfoldable pub one_of : Bytes → List Bytes → Bool
one_of n [] = false
one_of n (k ∷ ks) = eqb n k || one_of n ks

-- The last part: `ctrl-` and one letter.
unfoldable pub ctrl_key : Bytes → Option Bytes
unfolding has_prefix
ctrl_key n =
    if has_prefix n (codes "ctrl-") && length n == 6
    then elim (get_elem? n 5) [
      | none ↦ none
      | some ch ↦ if leb b'a' ch && leb ch b'z' then some ((ch - b'a' + 1) ∷ []) else none
    ]
    else none

-- The switch on the normalised name.
unfoldable pub named_key : Bytes → Option Bytes
named_key n =
    if one_of n (codes "enter" ∷ codes "return" ∷ codes "cr" ∷ [])
    then some (13 ∷ [])
    else if one_of n (codes "lf" ∷ codes "newline" ∷ [])
    then some (10 ∷ [])
    else if one_of n (codes "crlf" ∷ [])
    then some (13 ∷ 10 ∷ [])
    else if one_of n (codes "esc" ∷ codes "escape" ∷ [])
    then some (0x1b ∷ [])
    else if one_of n (codes "space" ∷ [])
    then some (32 ∷ [])
    else if one_of n (codes "tab" ∷ [])
    then some (9 ∷ [])
    else if one_of n (codes "backspace" ∷ codes "bs" ∷ [])
    then some (8 ∷ [])
    else if one_of n (codes "del" ∷ codes "delete" ∷ [])
    then some (0x7f ∷ [])
    else ctrl_key n

-- `none` is the error "unknown key".
unfoldable pub key_bytes : Bytes → Option Bytes
unfolding to_lower trim_space
key_bytes name = named_key (to_lower (trim_space name))

-- The loop of `KeysBytes` over the names left, `out` the bytes so far.
unfoldable pub keys_from : Bytes → List Bytes → Option Bytes
keys_from out [] = some out
keys_from out (name ∷ names) = elim (key_bytes name) [
  | none ↦ none
  | some b ↦ keys_from (out ++ b) names
]

unfoldable pub keys_bytes : List Bytes → Option Bytes
unfolding keys_from
keys_bytes names = keys_from [] names
