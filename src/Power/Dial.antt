-- ===== src/Power/Dial.antt =====
-- internal/power/apc.go: which addresses splitHostPort takes apart, and how.
use unwedge.Base.{
  ℕ, suc, ◌+◌, ◌-◌, ◌*◌, ◌≤◌, ◌<◌, ◌≡◌, ◌≢◌, ◌↔◌, refl, ap₂, ◌∙◌, Bytes, none, some, [], ◌∷◌, ◌++◌,
  take, drop, length, arith, All, take-append_le, take-all, ==_refl,
}
use unwedge.Base.Decimal.{decimal, value, IsDigit, value-decimal, decimal-IsDigit, decimal-ne-nil}
use unwedge.Power.Address.{
  index_byte, last_index_byte, port_from, parse_port, with_port, bracketed, plain, split_host_port,
}

-- Reading a digit more never makes the number smaller.
value-grows : (start : ℕ) (digits : Bytes) → start ≤ value start digits
value-grows start [] = omega arith
value-grows start (d ∷ ds) = omega (arith, value-grows (start * 10 + (d - b'0')) ds)

port_from_iff :
    (start : ℕ) (digits : Bytes) (p : ℕ)
    → start ≤ 65535
    → (port_from start digits ≡ some p)
      ↔ (All IsDigit digits × (value start digits ≡ p) × (p ≤ 65535))
unfolding port_from
port_from_iff start [] p fits = ((λ h. ground arith), (λ h. ground arith))
port_from_iff start (d ∷ ds) p fits =
    let next : ℕ = start * 10 + (d - b'0') in
    ground (arith, port_from_iff next ds p, value-grows next ds)

-- A port is accepted exactly when it is one digit or more that spell a number up to 65535, and it
-- is that number.
pub parse_port_iff :
    (s : Bytes) (p : ℕ)
    → (parse_port s ≡ some p) ↔ ((s ≢ []) × All IsDigit s × (value 0 s ≡ p) × (p ≤ 65535))
unfolding parse_port
parse_port_iff [] p = ((λ h. cc), (λ h. absurd (h.0 refl)))
parse_port_iff (c ∷ s) p =
    let (read, accepted) = port_from_iff 0 (c ∷ s) p (omega arith) in
    (
      (λ h. let (digits, spelled, fits) = read h in (cc, digits, spelled, fits)),
      (λ h. let (nonempty, digits, spelled, fits) = h in accepted (digits, spelled, fits)),
    )

-- A text without the byte `b`.
abbrev pub Lacks : ℕ → Bytes → Type 0
Lacks b = All (λ c. c ≢ b)

pub index_byte-append :
    (b : ℕ) (s t : Bytes) → Lacks b s → index_byte (s ++ b ∷ t) b ≡ some (length s)
unfolding index_byte
index_byte-append b [] t h = rw (==_refl b)
index_byte-append b (c ∷ s) t h = ground (arith, index_byte-append b s t h.1)

pub index_byte-none : (b : ℕ) (s : Bytes) → Lacks b s → index_byte s b ≡ none
unfolding index_byte
index_byte-none b [] h = refl
index_byte-none b (c ∷ s) h = ground (arith, index_byte-none b s h.1)

pub last_index_byte-none : (b : ℕ) (s : Bytes) → Lacks b s → last_index_byte s b ≡ none
unfolding last_index_byte
last_index_byte-none b [] h = refl
last_index_byte-none b (c ∷ s) h = ground (arith, last_index_byte-none b s h.1)

pub last_index_byte-append :
    (b : ℕ) (s t : Bytes) → Lacks b t → last_index_byte (s ++ b ∷ t) b ≡ some (length s)
unfolding last_index_byte
last_index_byte-append b [] t h = rw (last_index_byte-none b t h, ==_refl b)
last_index_byte-append b (c ∷ s) t h = rw (last_index_byte-append b s t h)

pub Digits-Lacks : (s : Bytes) (b : ℕ) → b'9' < b → All IsDigit s → Lacks b s
Digits-Lacks [] b h d = tt
Digits-Lacks (c ∷ s) b h (d, ds) = ((λ e. omega arith), Digits-Lacks s b h ds)

pub take-prefix : (s t : Bytes) → take (length s) (s ++ t) ≡ s
take-prefix s t = take-append_le (length s) s t (omega arith) ∙ take-all (length s) s (omega arith)

pub drop-prefix : (s t : Bytes) (c : ℕ) → drop (length s + 1) (s ++ c ∷ t) ≡ t
drop-prefix [] t c = refl
drop-prefix (d ∷ s) t c =
    let e : suc (length s) + 1 ≡ suc (length s + 1) = omega arith in rw e (drop-prefix s t c)

-- A host that does not open a bracket.
abbrev pub NoBracket : Bytes → Type 0
NoBracket [] = Unit
NoBracket (c ∷ s) = c ≢ b'['

parse_port-decimal : (p : ℕ) → p ≤ 65535 → parse_port (decimal p) ≡ some p
parse_port-decimal p h =
    (parse_port_iff (decimal p) p).1 (decimal-ne-nil p, decimal-IsDigit p, value-decimal p, h)

split_host_port_unbracketed :
    (addr : Bytes) (def_port : ℕ)
    → NoBracket addr
    → addr ≢ []
    → split_host_port addr def_port ≡ plain addr def_port
unfolding split_host_port
split_host_port_unbracketed [] def_port h ne = absurd (ne refl)
split_host_port_unbracketed (c ∷ s) def_port h ne = ground arith

with_port-decimal :
    (host : Bytes) (p : ℕ) (otherwise : Bytes × ℕ)
    → p ≤ 65535
    → with_port host (decimal p) otherwise ≡ (host, p)
unfolding with_port
with_port-decimal host p otherwise h = rw (parse_port-decimal p h, with_port)

plain_one_colon :
    (addr : Bytes) (i def_port : ℕ)
    → last_index_byte addr b':' ≡ some i
    → index_byte addr b':' ≡ some i
    → plain addr def_port ≡ with_port (take i addr) (drop (i + 1) addr) (addr, def_port)
unfolding plain
plain_one_colon addr i def_port last first = ground (arith, last, first)

plain-decimal :
    (host : Bytes) (p def_port : ℕ)
    → Lacks b':' host
    → p ≤ 65535
    → plain (host ++ b':' ∷ decimal p) def_port ≡ (host, p)
plain-decimal host p def_port h le =
    let no_colon : Lacks b':' (decimal p) =
      Digits-Lacks (decimal p) b':' (omega arith) (decimal-IsDigit p) in
    let addr : Bytes = host ++ b':' ∷ decimal p in
    plain_one_colon addr (length host) def_port
      (last_index_byte-append b':' host (decimal p) no_colon)
      (index_byte-append b':' host (decimal p) h)
    ∙ ap₂ (λ t d. with_port t d (addr, def_port)) (take-prefix host (b':' ∷ decimal p))
        (drop-prefix host (decimal p) b':')
    ∙ with_port-decimal host p (addr, def_port) le

NoBracket-append : (host s : Bytes) → NoBracket host → NoBracket (host ++ b':' ∷ s)
NoBracket-append [] s h = omega arith
NoBracket-append (c ∷ host) s h = h

pub append-ne-nil : (s t : Bytes) (c : ℕ) → s ++ c ∷ t ≢ []
append-ne-nil [] t c = λ e. cc
append-ne-nil (d ∷ s) t c = λ e. cc

bracketed-decimal :
    (host : Bytes) (p def_port : ℕ)
    → p ≤ 65535
    → bracketed host (b':' ∷ decimal p) def_port ≡ (host, p)
bracketed-decimal host p def_port le = go (decimal p) refl
  where
    go : (ds : Bytes) → decimal p ≡ ds → bracketed host (b':' ∷ ds) def_port ≡ (host, p)
    go [] e = absurd (decimal-ne-nil p e)
    go (d ∷ ds) e = unfold bracketed in rw (← e) (with_port-decimal host p (host, def_port) le)

bracketed_at :
    (s : Bytes) (i def_port : ℕ)
    → index_byte (b'[' ∷ s) b']' ≡ some i
    → split_host_port (b'[' ∷ s) def_port
      ≡ bracketed (drop 1 (take i (b'[' ∷ s))) (drop (i + 1) (b'[' ∷ s)) def_port
unfolding split_host_port
bracketed_at s i def_port e = rw (e, split_host_port)

-- What is between the brackets and behind them.
split_host_port-bracketed :
    (host rest : Bytes) (def_port : ℕ)
    → Lacks b']' host
    → split_host_port (b'[' ∷ (host ++ b']' ∷ rest)) def_port ≡ bracketed host rest def_port
split_host_port-bracketed host rest def_port h =
    let open_host : Bytes = b'[' ∷ host in
    let at : index_byte (open_host ++ b']' ∷ rest) b']' ≡ some (length open_host) =
      index_byte-append b']' open_host rest ((λ e. omega arith), h) in
    bracketed_at (host ++ b']' ∷ rest) (length open_host) def_port at
    ∙ ap₂ (λ h r. bracketed h r def_port) (take-prefix host (b']' ∷ rest))
        (drop-prefix open_host rest b']')

-- `host:port` is taken apart into the host and the port, for every host without a colon that opens
-- no bracket, and every port up to 65535 in decimal; `[host]:port` too, for every host without a
-- closing bracket.
pub split_host_port_port :
    (host : Bytes) (p def_port : ℕ)
    → p ≤ 65535
    → (Lacks b':' host
        → NoBracket host
        → split_host_port (host ++ b':' ∷ decimal p) def_port ≡ (host, p))
      × (Lacks b']' host
          → split_host_port (b'[' ∷ (host ++ b']' ∷ b':' ∷ decimal p)) def_port ≡ (host, p))
split_host_port_port host p def_port le = (
  λ h nb.
      split_host_port_unbracketed _ def_port (NoBracket-append host (decimal p) nb)
        (append-ne-nil host (decimal p) b':')
      ∙ plain-decimal host p def_port h le,
  λ h.
      split_host_port-bracketed host (b':' ∷ decimal p) def_port h
      ∙ bracketed-decimal host p def_port le,
)
