-- ===== src/Bridge/Collector.antt =====
-- cmd/unwedge-mcp/main.go: the bounded summary of a boot.
use unwedge.Base.{
  ℕ, ◌+◌, ◌-◌, ◌≤◌, ◌<◌, ◌≡◌, refl, sym, subst, ap, ◌∙◌, Bytes, List, [], ◌∷◌, ◌++◌, length, take,
  drop, ltb, ltb→lt, append_assoc, append-nil, length-append, length-drop, take-append-drop,
  Bool-cases, ◌⊎◌, inl, inr, arith,
}
use unwedge.Bridge.{BootEvent, written, bounded, collect}

-- The events of a boot in turn.
abbrev pub collect_all : Bytes → List BootEvent → Bytes
collect_all sb [] = sb
collect_all sb (e ∷ es) = collect_all (collect sb e) es

abbrev pub all_written : List BootEvent → Bytes
all_written [] = []
all_written (e ∷ es) = written e ++ all_written es

-- `sb` is the end of `full`, within the bound, and all of it or at least 100000 bytes.
pub record IsSummary (full sb : Bytes) : Type 0 where
  pub cut : Bytes
  pub is_end : full ≡ cut ++ sb
  pub is_bounded : length sb ≤ 200_000
  pub is_long : (cut ≡ []) ⊎ (100_000 ≤ length sb)

bounded-IsSummary :
    (cut s : Bytes) → (cut ≡ []) ⊎ (100_000 ≤ length s) → IsSummary (cut ++ s) (bounded s)
unfolding bounded
bounded-IsSummary cut s long = elim (Bool-cases (ltb 200_000 (length s))) [
  | inr short ↦
      rw short
        (record { cut = cut; is_end = refl; is_bounded = ground (arith, short); is_long = long })
  | inl over ↦
      let n : ℕ = length s - 100_000 in
      let more : 200_000 < length s = ltb→lt 200_000 (length s) over in
      let size : length (drop n s) ≡ length s - n = length-drop n s in
      rw over (record {
        cut = cut ++ take n s;
        is_end =
            ap (λ x. cut ++ x) (sym (take-append-drop n s))
            ∙ sym (append_assoc cut (take n s) (drop n s));
        is_bounded = omega (arith, size, more);
        is_long = inr (omega (arith, size, more));
      })
]

collect-IsSummary :
    (full sb : Bytes) (e : BootEvent)
    → IsSummary full sb
    → IsSummary (full ++ written e) (collect sb e)
unfolding collect
collect-IsSummary full sb e h =
    let grown : length (sb ++ written e) ≡ length sb + length (written e) =
      length-append sb (written e) in
    let long : (h.cut ≡ []) ⊎ (100_000 ≤ length (sb ++ written e)) = elim h.is_long [
      | inl all ↦ inl all
      | inr most ↦ inr (omega (arith, grown, most))
    ] in
    subst (λ f. IsSummary f (collect sb e))
      (sym (append_assoc h.cut sb (written e)) ∙ ap (λ x. x ++ written e) (sym h.is_end))
      (bounded-IsSummary h.cut (sb ++ written e) long)

collected-IsSummary :
    (full sb : Bytes) (es : List BootEvent)
    → IsSummary full sb
    → IsSummary (full ++ all_written es) (collect_all sb es)
collected-IsSummary full sb [] h = subst (λ f. IsSummary f sb) (sym (append-nil full)) h
collected-IsSummary full sb (e ∷ es) h =
    subst (λ f. IsSummary f (collect_all (collect sb e) es))
      (append_assoc full (written e) (all_written es))
      (collected-IsSummary (full ++ written e) (collect sb e) es (collect-IsSummary full sb e h))

-- However many events a boot has, the collected text is the end of all that was written for them,
-- no longer than 200000 bytes, and the whole of it or at least 100000 bytes.
pub collect_all-IsSummary : (es : List BootEvent) → IsSummary (all_written es) (collect_all [] es)
collect_all-IsSummary es =
    collected-IsSummary [] [] es
      (record { cut = []; is_end = refl; is_bounded = omega arith; is_long = inl refl })
