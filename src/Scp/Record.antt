-- ===== src/Scp/Record.antt =====
-- internal/sshexec/scp.go: the record that announces a file, printed and parsed.
use unwedge.Base.{
  ℕ, ◌+◌, ◌-◌, ◌*◌, ◌/◌, ◌%◌, ◌^◌, ◌<◌, ◌≡◌, ◌≢◌, refl, sym, ap, ap₂, ◌∙◌, Bytes, Bool, true, false,
  some, [], ◌∷◌, ◌++◌, All, ltb, leb, ◌==◌, lt→ltb, le→ltb_false, trim_right, append_assoc, arith,
  if◌then◌else◌, subst,
}
use unwedge.Base.Int.{pos}
use unwedge.Base.Decimal.{decimal, IsDigit, value, value-decimal, decimal-IsDigit, decimal-ne-nil}
use unwedge.Power.Dial.{Lacks}
use unwedge.Scp.{
  number, parse_uint, parse_int, cut_space, three_fields, perm, mode_field, file_record,
  parse_scp_file_line, octal4, file_line, is_line_end,
}

trim_right-kept :
    (cut : ℕ → Bool) (s : Bytes) (c : ℕ) (t : Bytes)
    → cut c ≡ false
    → trim_right cut (s ++ c ∷ t) ≡ s ++ c ∷ trim_right cut t
unfolding trim_right
trim_right-kept cut [] c t h =
    elim (trim_right cut t)
      as (λ x.
        elim x as (λ y. Bytes) [ [] ↦ if cut c then [] else c ∷ [] | d ∷ r ↦ c ∷ d ∷ r ] ≡ c ∷ x) [
          | [] ↦ rw h refl
          | d ∷ r ↦ refl
        ]
trim_right-kept cut (b ∷ []) c t h = rw (trim_right-kept cut [] c t h) refl
trim_right-kept cut (b ∷ d ∷ s) c t h = rw (trim_right-kept cut (d ∷ s) c t h) refl

trim_right-snoc :
    (cut : ℕ → Bool) (s : Bytes) (d : ℕ)
    → cut d ≡ true
    → trim_right cut (s ++ d ∷ []) ≡ trim_right cut s
unfolding trim_right
trim_right-snoc cut [] d h = rw h refl
trim_right-snoc cut (c ∷ s) d h = rw (trim_right-snoc cut s d h) refl

cut_space-append : (s t : Bytes) → Lacks b' ' s → cut_space (s ++ b' ' ∷ t) ≡ (s, some t)
unfolding cut_space
cut_space-append [] t h = refl
cut_space-append (c ∷ s) t h = ground (arith, h.0, cut_space-append s t h.1)

Digits-spaceless : (s : Bytes) → All IsDigit s → Lacks b' ' s
Digits-spaceless [] d = tt
Digits-spaceless (c ∷ s) (d, ds) = ((λ e. omega arith), Digits-spaceless s ds)

octal4-spaceless : (p : ℕ) → Lacks b' ' (octal4 p)
unfolding octal4
octal4-spaceless p =
    ((λ e. omega arith), ((λ e. omega arith), ((λ e. omega arith), ((λ e. omega arith), tt))))

number-step :
    (radix n x : ℕ) (s : Bytes)
    → x < radix
    → number radix n ((b'0' + x) ∷ s) ≡ number radix (n * radix + x) s
unfolding number
number-step radix n x s h =
    let back : b'0' + x - b'0' ≡ x = omega arith in
    let first : leb b'0' (b'0' + x) ≡ true = ground arith in rw (back, first, lt→ltb x radix h) refl

number-octal4 : (p : ℕ) → p < 512 → number 8 0 (octal4 p) ≡ some p
unfolding octal4
number-octal4 p h =
    let last : (n : ℕ) → number 8 n [] ≡ some n = λ n. (unfold number in refl) in
    let a : ℕ = 0 * 8 + p / 512 % 8 in
    let b : ℕ = a * 8 + p / 64 % 8 in
    let c : ℕ = b * 8 + p / 8 % 8 in
    number-step 8 0 (p / 512 % 8) _ (omega arith)
    ∙ number-step 8 a (p / 64 % 8) _ (omega arith)
    ∙ number-step 8 b (p / 8 % 8) _ (omega arith)
    ∙ number-step 8 c (p % 8) _ (omega arith)
    ∙ last (c * 8 + p % 8)
    ∙ ap some (omega arith)

parse_uint-number :
    (radix limit : ℕ) (s : Bytes) (n : ℕ)
    → s ≢ []
    → number radix 0 s ≡ some n
    → ltb limit n ≡ false
    → parse_uint radix limit s ≡ some n
unfolding parse_uint
parse_uint-number radix limit [] n ne e h = absurd (ne refl)
parse_uint-number radix limit (c ∷ s) n ne e h = rw (parse_uint, e) (rw h refl)

octal4-ne-nil : (p : ℕ) → octal4 p ≢ []
unfolding octal4
octal4-ne-nil p = λ e. cc

mode_field-octal4 : (p : ℕ) → p < 512 → mode_field (b'C' ∷ octal4 p) ≡ some p
mode_field-octal4 p h =
    let fits : ltb (2 ^ 32 - 1) p ≡ false = le→ltb_false _ _ (omega arith) in
    let read : parse_uint 8 (2 ^ 32 - 1) (octal4 p) ≡ some p =
      parse_uint-number 8 (2 ^ 32 - 1) (octal4 p) p (octal4-ne-nil p) (number-octal4 p h) fits in
    (unfold mode_field in read)

number-value : (n : ℕ) (s : Bytes) → All IsDigit s → number 10 n s ≡ some (value n s)
unfolding number
number-value n [] d = refl
number-value n (c ∷ s) (d, ds) =
    let first : leb b'0' c ≡ true = ground arith in
    let below : ltb (c - b'0') 10 ≡ true = ground arith in
    rw (first, below) (number-value (n * 10 + (c - b'0')) s ds)

parse_int-digits :
    (s : Bytes) → s ≢ [] → All IsDigit s → value 0 s < 2 ^ 63 → parse_int s ≡ some (pos (value 0 s))
unfolding parse_int
parse_int-digits [] ne d h = absurd (ne refl)
parse_int-digits (c ∷ s) ne d h =
    let no_minus : (c == b'-') ≡ false = ground (arith, d.0) in
    let no_plus : (c == b'+') ≡ false = ground (arith, d.0) in
    let fits : ltb (2 ^ 63 - 1) (value 0 (c ∷ s)) ≡ false = le→ltb_false _ _ (omega arith) in
    rw (no_minus, no_plus)
      (rw (parse_uint-number 10 (2 ^ 63 - 1) (c ∷ s) _ (λ e. cc) (number-value 0 (c ∷ s) d) fits)
        refl)

three_fields-joined :
    (a b c : Bytes)
    → Lacks b' ' a
    → Lacks b' ' b
    → three_fields (a ++ (b' ' ∷ b ++ b' ' ∷ c)) ≡ some (a, b, c)
unfolding three_fields
three_fields-joined a b c ha hb =
    let first : cut_space (a ++ (b' ' ∷ b ++ b' ' ∷ c)) ≡ (a, some (b ++ b' ' ∷ c)) =
      cut_space-append a (b ++ b' ' ∷ c) ha in
    let second : cut_space (b ++ b' ' ∷ c) ≡ (b, some c) = cut_space-append b c hb in
    rw (three_fields, first) (rw second (ap₂ (λ x y. some (x.0, y.0, c)) first second))

-- The three fields of the record, with the line end behind the name.
three_fields-file_line :
    (mode size : ℕ) (name : Bytes)
    → trim_right is_line_end name ≡ name
    → three_fields (trim_right is_line_end (file_line mode size name))
      ≡ some (b'C' ∷ octal4 (perm mode), decimal size, name)
three_fields-file_line mode size name h =
    let head : Bytes = b'C' ∷ octal4 (perm mode) in
    let front : Bytes = head ++ b' ' ∷ decimal size in
    let newline : is_line_end 10 ≡ true = (unfold is_line_end in refl) in
    let space : is_line_end b' ' ≡ false = (unfold is_line_end in refl) in
    let printed : file_line mode size name ≡ (front ++ b' ' ∷ name) ++ 10 ∷ [] =
      (unfold file_line in refl) in
    let trimmed : trim_right is_line_end (file_line mode size name)
        ≡ head ++ (b' ' ∷ decimal size ++ b' ' ∷ name) =
      ap (trim_right is_line_end) printed
      ∙ trim_right-snoc is_line_end (front ++ b' ' ∷ name) 10 newline
      ∙ trim_right-kept is_line_end front b' ' name space
      ∙ ap (λ x. front ++ b' ' ∷ x) h
      ∙ append_assoc head (b' ' ∷ decimal size) (b' ' ∷ name) in
    ap three_fields trimmed
    ∙ three_fields-joined head (decimal size) name
        ((λ e. omega arith), octal4-spaceless (perm mode))
        (Digits-spaceless (decimal size) (decimal-IsDigit size))

-- What an upload announces is read back by the parser of the download: the size below 2 ^ 63, the
-- permission bits of the mode and the name, for a name that does not end in a line end.
pub parse_scp_file_line-file_line :
    (mode size : ℕ) (name : Bytes)
    → size < 2 ^ 63
    → trim_right is_line_end name ≡ name
    → parse_scp_file_line (file_line mode size name)
      ≡ some (record { size = pos size; mode = perm mode; name = name })
unfolding parse_scp_file_line file_record
parse_scp_file_line-file_line mode size name h e =
    let int : parse_int (decimal size) ≡ some (pos size) =
      parse_int-digits (decimal size) (decimal-ne-nil size) (decimal-IsDigit size)
        (subst (λ n. n < 2 ^ 63) (sym (value-decimal size)) h)
      ∙ ap (λ n. some (pos n)) (value-decimal size) in
    rw (parse_scp_file_line, three_fields-file_line mode size name e)
      (rw (file_record, mode_field-octal4 (perm mode) (omega arith))
        (rw int (ap (λ m. some (record { size = pos size; mode = m; name = name })) (omega arith))))
