-- ===== src/ClientConfig/Endpoints.antt =====
-- internal/clientconfig/clientconfig.go: which addresses become endpoints that can be dialled.
use unwedge.Base.{
  ℕ, ◌+◌, ◌<◌, ◌==◌, ◌≡◌, ◌≢◌, ◌⊎◌, List, length, length-append, All, not, Bool-cases, eqb_iff,
  refl, sym, subst, ap, ◌∙◌, Bytes, Bool, true, false, Option, none, some, [], ◌∷◌, ◌++◌,
  append_assoc, eqb, to_lower, elem, Option-cases, inl, inr, ◌||◌, if◌then◌else◌, arith,
}
use unwedge.Power.Address.{index_byte, last_index_byte}
use unwedge.Power.Dial.{Lacks, Digits-Lacks, index_byte-append, last_index_byte-append}
use unwedge.Net.{split_bracketed, split_at, split_address, join_host_port}
use unwedge.Net.Laws.{
  IsClean, IsPort, split_address-join_host_port, elem-append, front, front-append, length-front,
}
use unwedge.ClientConfig.{
  Srv, Endpoint, ensure_port, default_port, trim_dot, of_record, of_answer, resolve_endpoint,
}
use unwedge.Base.Decimal.{decimal, IsDigit, decimal-IsDigit}

-- An address without brackets, with a port or without, gets one that can be taken off again: the
-- address that was there is kept, else the whole of it is the host.
pub split_address-ensure_port :
    (addr port : Bytes)
    → addr ≢ []
    → IsClean addr
    → IsPort port
    → ((hp : Bytes × Bytes) × (split_address addr ≡ some hp)
        × (split_address (ensure_port addr port) ≡ some hp))
      ⊎ ((split_address addr ≡ none) × (split_address (ensure_port addr port) ≡ some (addr, port)))
unfolding ensure_port
split_address-ensure_port [] port ne ca p = absurd (ne refl)
split_address-ensure_port (c ∷ addr) port ne ca p = elim (Option-cases (split_address (c ∷ addr))) [
  | inl h ↦ inr (h, rw (ensure_port, h) (split_address-join_host_port (c ∷ addr) port ca p))
  | inr (hp, h) ↦ inl (hp, h, rw (ensure_port, h) h)
]

last_index_byte-lt : (s : Bytes) (b i : ℕ) → last_index_byte s b ≡ some i → i < length s
unfolding last_index_byte
last_index_byte-lt [] b i h = absurd (cc h)
last_index_byte-lt (c ∷ s) b i h = elim (Option-cases (last_index_byte s b)) [
  | inl e ↦ ground (arith, e)
  | inr (j, e) ↦ ground (arith, e, last_index_byte-lt s b j e)
]

-- An address whose first bracket closes elsewhere than before the last colon is refused.
split_address-misplaced :
    (s : Bytes) (e i : ℕ)
    → index_byte (b'[' ∷ s) b']' ≡ some e
    → last_index_byte (b'[' ∷ s) b':' ≡ some i
    → e + 1 ≢ i
    → split_address (b'[' ∷ s) ≡ none
unfolding split_address split_at split_bracketed
split_address-misplaced s e i first last ne =
    let differ : (e + 1 == i) ≡ false = ground arith in
    rw (split_address, last) (rw (split_bracketed, first, differ) refl)

bracketed_bare : (h : Bytes) → Lacks b']' h → split_address (b'[' ∷ h ++ b']' ∷ []) ≡ none
unfolding split_address
bracketed_bare h closed =
    let s : Bytes = b'[' ∷ h ++ b']' ∷ [] in
    let size : length s ≡ length h + 2 = omega (arith, length-append h (b']' ∷ [])) in
    elim (Option-cases (last_index_byte s b':')) [
      | inl e ↦ rw (split_address, e) refl
      | inr (i, e) ↦
          split_address-misplaced (h ++ b']' ∷ []) (length (b'[' ∷ h)) i
            (index_byte-append b']' (b'[' ∷ h) [] ((λ q. omega arith), closed)) e
            (λ q. omega (arith, last_index_byte-lt s b':' i e, size))
    ]

ensured_bare :
    (h port : Bytes)
    → Lacks b']' h
    → Lacks b':' port
    → elem b':' h ≡ true
    → split_address (ensure_port (b'[' ∷ h ++ b']' ∷ []) port) ≡ none
unfolding ensure_port join_host_port elem
ensured_bare h port closed no_colon colon =
    let s : Bytes = b'[' ∷ h ++ b']' ∷ [] in
    let rest : Bytes = b']' ∷ b':' ∷ port in
    let inside : elem b':' (h ++ b']' ∷ []) ≡ true =
      elem-append b':' h (b']' ∷ []) ∙ rw colon refl in
    let first : index_byte (b'[' ∷ s ++ rest) b']' ≡ some (length (b'[' ∷ b'[' ∷ h)) =
      ap (λ x. index_byte (b'[' ∷ b'[' ∷ x) b']') (append_assoc h (b']' ∷ []) rest)
      ∙ index_byte-append b']' (b'[' ∷ b'[' ∷ h) rest
          ((λ q. omega arith), ((λ q. omega arith), closed)) in
    let last : last_index_byte (b'[' ∷ s ++ rest) b':' ≡ some (length (front s)) =
      ap (λ x. last_index_byte x b':') (sym (front-append s port))
      ∙ last_index_byte-append b':' (front s) port no_colon in
    rw (ensure_port, bracketed_bare h closed)
      (rw (join_host_port, inside)
        (split_address-misplaced (s ++ rest) (length (b'[' ∷ b'[' ∷ h)) (length (front s)) first
          last (λ q. omega (arith, length-front s, length-append h (b']' ∷ [])))))

-- An address that is a host in brackets alone, with a colon inside, is not given a port that can be
-- taken off: EnsurePort puts brackets round the brackets.
pub ensure_port-bracketed :
    (h port : Bytes)
    → Lacks b']' h
    → Lacks b':' port
    → elem b':' h ≡ true
    → (split_address (b'[' ∷ h ++ b']' ∷ []) ≡ none)
      × (split_address (ensure_port (b'[' ∷ h ++ b']' ∷ []) port) ≡ none)
ensure_port-bracketed h port closed no_colon colon =
    (bracketed_bare h closed, ensured_bare h port closed no_colon colon)

Digits-IsPort : (s : Bytes) → All IsDigit s → IsPort s
Digits-IsPort s d = record {
  clean = record {
    no_open = Digits-Lacks s b'[' (omega arith) d;
    no_close = Digits-Lacks s b']' (omega arith) d;
  };
  no_colon = Digits-Lacks s b':' (omega arith) d;
}

default_port-IsPort : IsPort default_port
default_port-IsPort = Digits-IsPort default_port (omega arith)

-- Where an address without a port leads: to the same name, up to case, when TLS is to verify the
-- name that is dialled; otherwise TLS verifies the name that was asked for.
Leads : Bytes → Endpoint → Type 0
Leads addr e =
    (e.server_name ≡ addr)
    ⊎ ((hp : Bytes × Bytes) × (split_address e.target ≡ some hp)
        × (e.server_name ≡ [])
        × (to_lower hp.0 ≡ to_lower addr))

fallback-Leads :
    (addr : Bytes)
    → addr ≢ []
    → IsClean addr
    → split_address addr ≡ none
    → Leads addr (record { target = ensure_port addr default_port; server_name = [] })
unfolding Leads
fallback-Leads addr ne ca bare =
    elim (split_address-ensure_port addr default_port ne ca default_port-IsPort) [
      | inl (hp, h, k) ↦ absurd (cc (bare, h))
      | inr (h, k) ↦ inr ((addr, default_port), k, refl, refl)
    ]

of_record-Leads :
    (addr : Bytes) (rec : Srv) → IsClean (trim_dot rec.target) → Leads addr (of_record addr rec)
unfolding of_record Leads
of_record-Leads addr rec cr =
    let tgt : Bytes = trim_dot rec.target in
    elim (Bool-cases (eqb (to_lower tgt) (to_lower addr))) [
      | inl same ↦ inr (
        (tgt, decimal rec.port),
        split_address-join_host_port tgt (decimal rec.port) cr
            (Digits-IsPort (decimal rec.port) (decimal-IsDigit rec.port)),
        simp same refl,
        (eqb_iff (to_lower tgt) (to_lower addr)).0 same,
      )
      | inr other ↦ inl (simp other refl)
    ]

-- What the resolver may answer: names without brackets.
abbrev pub AllClean : Option (List Srv) → Type 0
AllClean none = Unit
AllClean (some recs) = All (λ rec. IsClean (trim_dot rec.target)) recs

of_answer-Leads :
    (addr : Bytes) (answer : Option (List Srv))
    → addr ≢ []
    → IsClean addr
    → split_address addr ≡ none
    → AllClean answer
    → Leads addr (of_answer addr answer)
unfolding of_answer
of_answer-Leads addr none ne ca bare cl = fallback-Leads addr ne ca bare
of_answer-Leads addr (some []) ne ca bare cl = fallback-Leads addr ne ca bare
of_answer-Leads addr (some (rec ∷ more)) ne ca bare cl = of_record-Leads addr rec cl.0

resolve_endpoint_bare :
    (is_ip : Bytes → Bool) (lookup : Bytes → Option (List Srv)) (allow_srv : Bool) (c : ℕ)
    (addr : Bytes)
    → split_address (c ∷ addr) ≡ none
    → resolve_endpoint is_ip lookup allow_srv (c ∷ addr) ≡ (
        if not allow_srv || is_ip (c ∷ addr)
        then some (record { target = ensure_port (c ∷ addr) default_port; server_name = [] })
        else some (of_answer (c ∷ addr) (lookup (c ∷ addr))))
unfolding resolve_endpoint
resolve_endpoint_bare is_ip lookup allow_srv c addr bare = rw (resolve_endpoint, bare) refl

-- Whatever the DNS answers, TLS is never left to verify a name other than the one that was asked
-- for: an address without a port either keeps its own name as the TLS name, or the name that is
-- dialled, and then verified, is the same up to case.
pub resolve_endpoint_lem :
    (is_ip : Bytes → Bool) (lookup : Bytes → Option (List Srv)) (allow_srv : Bool) (addr : Bytes)
    (e : Endpoint)
    → IsClean addr
    → AllClean (lookup addr)
    → split_address addr ≡ none
    → resolve_endpoint is_ip lookup allow_srv addr ≡ some e
    → (e.server_name ≡ addr)
      ⊎ ((hp : Bytes × Bytes) × (split_address e.target ≡ some hp)
          × (e.server_name ≡ [])
          × (to_lower hp.0 ≡ to_lower addr))
unfolding Leads resolve_endpoint
resolve_endpoint_lem is_ip lookup allow_srv [] e ca cl bare h = absurd (cc h)
resolve_endpoint_lem is_ip lookup allow_srv (c ∷ addr) e ca cl bare h =
    let same = sym (resolve_endpoint_bare is_ip lookup allow_srv c addr bare) ∙ h in
    let ne : c ∷ addr ≢ [] = λ q. cc q in
    elim (Bool-cases (not allow_srv || is_ip (c ∷ addr))) [
      | inl direct ↦
          let e' : record { target = ensure_port (c ∷ addr) default_port; server_name = [] } ≡ e =
            cc (same, direct) in
          subst (Leads (c ∷ addr)) e' (fallback-Leads (c ∷ addr) ne ca bare)
      | inr asked ↦
          let e' : of_answer (c ∷ addr) (lookup (c ∷ addr)) ≡ e = cc (same, asked) in
          subst (Leads (c ∷ addr)) e' (of_answer-Leads (c ∷ addr) (lookup (c ∷ addr)) ne ca bare cl)
    ]
