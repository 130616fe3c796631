-- ===== src/Net/Laws.antt =====
-- Package net: what is joined is taken apart again.
use unwedge.Base.{
  ℕ, suc, ◌+◌, ◌-◌, ◌≡◌, ◌≢◌, refl, sym, ap, ap₂, ◌∙◌, Bytes, true, false, ◌||◌, some, [], ◌∷◌,
  ◌++◌, drop, length, ◌==◌, elem, Bool-cases, inl, inr, append_assoc, length-append, arith,
}
use unwedge.Power.Address.{index_byte}
use unwedge.Power.Dial.{Lacks, index_byte-append, last_index_byte-append, take-prefix, drop-prefix}
use unwedge.Net.{
  split_plain, split_inside, split_bracketed, split_at, split_address, join_host_port,
}

pub elem-Lacks : (b : ℕ) (s : Bytes) → Lacks b s → elem b s ≡ false
unfolding elem
elem-Lacks b [] h = refl
elem-Lacks b (c ∷ s) h = ground (arith, elem-Lacks b s h.1, h.0)

pub Lacks-elem : (b : ℕ) (s : Bytes) → elem b s ≡ false → Lacks b s
unfolding elem
Lacks-elem b [] h = tt
Lacks-elem b (c ∷ s) h = ground (arith, Lacks-elem b s)

pub elem-append : (b : ℕ) (s t : Bytes) → elem b (s ++ t) ≡ (elem b s || elem b t)
unfolding elem
elem-append b [] t = refl
elem-append b (c ∷ s) t = ground (arith, elem-append b s t)

-- A text that a bracket-free address is made of.
pub record IsClean (s : Bytes) : Type 0 where
  pub no_open : Lacks b'[' s
  pub no_close : Lacks b']' s

-- A port that JoinHostPort can be given.
pub record IsPort (s : Bytes) : Type 0 where
  pub clean : IsClean s
  pub no_colon : Lacks b':' s

split_address_last :
    (s t : Bytes)
    → Lacks b':' t
    → split_address (s ++ b':' ∷ t) ≡ split_at (length s) (s ++ b':' ∷ t)
unfolding split_address
split_address_last s t h = rw (split_address, last_index_byte-append b':' s t h) refl

elem-joined :
    (b : ℕ) (host port : Bytes) (c : ℕ)
    → b ≢ c
    → Lacks b host
    → Lacks b port
    → elem b (host ++ c ∷ port) ≡ false
elem-joined b host port c ne h p =
    elem-append b host (c ∷ port)
    ∙ ap₂ (λ x y. x || y) (elem-Lacks b host h) (elem-Lacks b (c ∷ port) ((λ e. ne (sym e)), p))

split_plain-join :
    (host port : Bytes)
    → Lacks b':' host
    → IsClean host
    → IsPort port
    → split_plain (length host) (host ++ b':' ∷ port) ≡ some (host, port)
unfolding split_plain
split_plain-join host port nc ch p =
    rw
      (
        split_plain,
        take-prefix host (b':' ∷ port),
        drop-prefix host port b':',
        elem-Lacks b':' host nc,
        elem-joined b'[' host port b':' (λ e. omega arith) ch.no_open p.clean.no_open,
        elem-joined b']' host port b':' (λ e. omega arith) ch.no_close p.clean.no_close,
      )
      refl

split_address-plain :
    (host port : Bytes)
    → Lacks b':' host
    → IsClean host
    → IsPort port
    → split_address (host ++ b':' ∷ port) ≡ some (host, port)
unfolding split_at
split_address-plain [] port nc ch p =
    split_address_last [] port p.no_colon ∙ split_plain-join [] port nc ch p
split_address-plain (c ∷ host) port nc ch p =
    split_address_last (c ∷ host) port p.no_colon
    ∙ ground (arith, ch.no_open.0, split_plain-join (c ∷ host) port nc ch p)

-- A bracketed host, up to its last colon.
abbrev pub front : Bytes → Bytes
front host = b'[' ∷ host ++ b']' ∷ []

pub front-append :
    (host port : Bytes) → front host ++ b':' ∷ port ≡ b'[' ∷ host ++ b']' ∷ b':' ∷ port
front-append host port = append_assoc (b'[' ∷ host) (b']' ∷ []) (b':' ∷ port)

pub length-front : (host : Bytes) → length (front host) ≡ suc (length host + 1)
length-front host = omega (arith, length-append host (b']' ∷ []))

split_inside-join :
    (host port : Bytes)
    → IsClean host
    → IsPort port
    → let s = b'[' ∷ host ++ b']' ∷ b':' ∷ port in
      split_inside (suc (length host + 1)) (suc (length host)) s ≡ some (host, port)
unfolding split_inside
split_inside-join host port ch p =
    let s : Bytes = b'[' ∷ host ++ b']' ∷ b':' ∷ port in
    let opens : elem b'[' (host ++ b']' ∷ b':' ∷ port) ≡ false =
      elem-joined b'[' host (b':' ∷ port) b']' (λ e. omega arith) ch.no_open
        ((λ e. omega arith), p.clean.no_open) in
    let behind : drop (suc (length host) + 1) s ≡ b':' ∷ port =
      drop-prefix (b'[' ∷ host) (b':' ∷ port) b']' in
    let closes : elem b']' (drop (suc (length host) + 1) s) ≡ false =
      ap (elem b']') behind
      ∙ elem-Lacks b']' (b':' ∷ port) ((λ e. omega arith), p.clean.no_close) in
    let one : suc (length host) - 1 ≡ length host = omega arith in
    let rest : drop (suc (length host + 1) + 1) s ≡ port =
      ap₂ (λ n x. drop (n + 1) x) (sym (length-front host)) (sym (front-append host port))
      ∙ drop-prefix (front host) port b':' in
    rw (split_inside, opens, closes, one, take-prefix host (b']' ∷ b':' ∷ port), rest) refl

split_address-bracketed :
    (host port : Bytes)
    → IsClean host
    → IsPort port
    → split_address (b'[' ∷ host ++ b']' ∷ b':' ∷ port) ≡ some (host, port)
unfolding split_at split_bracketed index_byte
split_address-bracketed host port ch p =
    let s : Bytes = b'[' ∷ host ++ b']' ∷ b':' ∷ port in
    let place : index_byte s b']' ≡ some (suc (length host)) =
      index_byte-append b']' (b'[' ∷ host) (b':' ∷ port) ((λ e. omega arith), ch.no_close) in
    let equal : (suc (length host) + 1 == suc (length host + 1)) ≡ true = ground arith in
    ap split_address (sym (front-append host port))
    ∙ split_address_last (front host) port p.no_colon
    ∙ ap₂ split_at (length-front host) (front-append host port)
    ∙ rw (place, equal) (split_inside-join host port ch p)

-- An address that is joined from a host and a port is taken apart into them.
pub split_address-join_host_port :
    (host port : Bytes)
    → IsClean host
    → IsPort port
    → split_address (join_host_port host port) ≡ some (host, port)
unfolding join_host_port
split_address-join_host_port host port ch p = elim (Bool-cases (elem b':' host)) [
  | inl h ↦ simp h (split_address-bracketed host port ch p)
  | inr h ↦ simp h (split_address-plain host port (Lacks-elem b':' host h) ch p)
]
