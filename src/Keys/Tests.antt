-- ===== src/Keys/Tests.antt =====
-- Keys by name, and instances of the theorems.
use unwedge.Base.{◌≡◌, refl, codes, some, none, [], ◌∷◌, arith, eqb}
use unwedge.Keys.{key_bytes, keys_bytes, named_key, one_of, ctrl_key}
use unwedge.Keys.Laws.{key_bytes-ctrl}

interrupt : key_bytes (codes " Ctrl-X") ≡ some (0x18 ∷ [])
unfolding key_bytes named_key one_of ctrl_key eqb
interrupt = refl

unknown : keys_bytes (codes "esc" ∷ codes "ctrl-1" ∷ []) ≡ none
unfolding keys_bytes key_bytes named_key one_of ctrl_key eqb
unknown = refl

key_bytes-ctrl_example : key_bytes (codes "ctrl-x") ≡ some (24 ∷ [])
key_bytes-ctrl_example = key_bytes-ctrl b'x' (omega arith) (omega arith)
