-- ===== src/Net.antt =====
-- Addresses as Go's package net takes them apart and joins them: SplitHostPort and JoinHostPort.
-- `index_byte` and `last_index_byte` are strings.IndexByte and strings.LastIndexByte.
pub mod Laws
use unwedge.Base.{
  ℕ, ◌+◌, ◌-◌, Bytes, Bool, ◌||◌, Option, none, some, [], ◌∷◌, ◌++◌, take, drop, ◌==◌,
  if◌then◌else◌, elem,
}
use unwedge.Power.Address.{index_byte, last_index_byte}

unfoldable pub split_plain : ℕ → Bytes → Option (Bytes × Bytes)
split_plain i s =
    if elem b':' (take i s) || elem b'[' s || elem b']' s
    then none
    else some (take i s, drop (i + 1) s)

-- `e` is the place of the closing bracket.
unfoldable pub split_inside : ℕ → ℕ → Bytes → Option (Bytes × Bytes)
split_inside i e s =
    if elem b'[' (drop 1 s) || elem b']' (drop (e + 1) s)
    then none
    else some (take (e - 1) (drop 1 s), drop (i + 1) s)

unfoldable pub split_bracketed : ℕ → Bytes → Option (Bytes × Bytes)
split_bracketed i s = elim (index_byte s b']') [
  | none ↦ none
  | some e ↦ if e + 1 == i then split_inside i e s else none
]

-- `i` is the place of the last colon.
unfoldable pub split_at : ℕ → Bytes → Option (Bytes × Bytes)
split_at i [] = none
split_at i (c ∷ s) = if c == b'[' then split_bracketed i (c ∷ s) else split_plain i (c ∷ s)

-- SplitHostPort; none for an error.
unfoldable pub split_address : Bytes → Option (Bytes × Bytes)
split_address s = elim (last_index_byte s b':') [ none ↦ none | some i ↦ split_at i s ]

-- JoinHostPort
unfoldable pub join_host_port : Bytes → Bytes → Bytes
join_host_port host port =
    if elem b':' host then b'[' ∷ host ++ b']' ∷ b':' ∷ port else host ++ b':' ∷ port
