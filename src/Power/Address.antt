-- ===== src/Power/Address.antt =====
-- internal/power/apc.go: splitHostPort and its helpers. A port is a uint16.
use unwedge.Base.{
  ℕ, suc, ◌+◌, ◌-◌, ◌*◌, Bytes, ◌||◌, Option, none, some, [], ◌∷◌, take, drop, ltb, ◌==◌,
  if◌then◌else◌,
}

-- The position, or none for -1.
unfoldable pub index_byte : Bytes → ℕ → Option ℕ
index_byte [] b = none
index_byte (c ∷ s) b =
    let rest = elim (index_byte s b) as (λ o. Option ℕ) [ none ↦ none | some i ↦ some (suc i) ] in
    if c == b then some 0 else rest

unfoldable pub last_index_byte : Bytes → ℕ → Option ℕ
last_index_byte [] b = none
last_index_byte (c ∷ s) b = elim (last_index_byte s b) [
  | none ↦ if c == b then some 0 else none
  | some i ↦ some (suc i)
]

-- The loop of parsePort; `n` never passes 65535, so the int arithmetic is exact.
unfoldable pub port_from : ℕ → Bytes → Option ℕ
port_from n [] = some n
port_from n (c ∷ s) =
    let next = n * 10 + (c - b'0') in
    let rest = port_from next s in
    if ltb c b'0' || ltb b'9' c then none else if ltb 65535 next then none else rest

unfoldable pub parse_port : Bytes → Option ℕ
unfolding port_from
parse_port [] = none
parse_port (c ∷ s) = port_from 0 (c ∷ s)

-- A host with the port that the text spells, or else the given result.
unfoldable pub with_port : Bytes → Bytes → Bytes × ℕ → Bytes × ℕ
with_port host port otherwise = elim (parse_port port) [ none ↦ otherwise | some p ↦ (host, p) ]

-- After a bracketed host: `rest` is what follows the bracket.
unfoldable pub bracketed : Bytes → Bytes → ℕ → Bytes × ℕ
bracketed host [] def_port = (host, def_port)
bracketed host (c ∷ []) def_port = (host, def_port)
bracketed host (c ∷ d ∷ port) def_port =
    if c == b':' then with_port host (d ∷ port) (host, def_port) else (host, def_port)

-- Without brackets: a port after the only colon.
unfoldable pub plain : Bytes → ℕ → Bytes × ℕ
plain addr def_port = elim (last_index_byte addr b':') [
  | none ↦ (addr, def_port)
  | some i ↦ elim (index_byte addr b':') [
    | none ↦ (addr, def_port)
    | some j ↦
        if j == i
        then with_port (take i addr) (drop (i + 1) addr) (addr, def_port)
        else (addr, def_port)
  ]
]

unfoldable pub split_host_port : Bytes → ℕ → Bytes × ℕ
split_host_port [] def_port = ([], def_port)
split_host_port (c ∷ s) def_port =
    if c == b'['
    then elim (index_byte (c ∷ s) b']') [
      | none ↦ plain (c ∷ s) def_port
      | some i ↦ bracketed (drop 1 (take i (c ∷ s))) (drop (i + 1) (c ∷ s)) def_port
    ]
    else plain (c ∷ s) def_port
