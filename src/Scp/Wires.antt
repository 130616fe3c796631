-- ===== src/Scp/Wires.antt =====
-- internal/sshexec/scp.go: what the two directions write and read on a wire on which no write fails.
use unwedge.Base.{
  ℕ, ◌≤◌, ◌≡◌, refl, sym, ap, ◌∙◌, Bytes, true, false, none, some, List, [], ◌∷◌, ◌++◌, All, take,
  drop, length, ◌==◌, le→ltb_false, Bool-cases, inl, inr, append_assoc, append-nil, arith,
  if◌then◌else◌,
}
use unwedge.Base.Int.{pos, to_ℕ}
use unwedge.Base.Decimal.{decimal, decimal-IsDigit, IsDigit}
use unwedge.Power.Dial.{Lacks, take-prefix}
use unwedge.Scp.{
  ScpMeta, sink_failed, Wire, then_next, write_wire, read_line, read_ack, copy_out, send_body,
  default_mode, scp_upload, Sink, receive_file, perm, file_line, octal4, base_name,
}

-- A wire that no write fails on.
abbrev pub fresh : Bytes → Wire
fresh input = record { input = input; output = []; broken = λ n. false }

read_line-append : (s t : Bytes) → Lacks 10 s → read_line (s ++ 10 ∷ t) ≡ ((s ++ 10 ∷ [], t), true)
unfolding read_line
read_line-append [] t h = refl
read_line-append (c ∷ s) t h = ground (arith, h.0, read_line-append s t h.1)

-- Everything that was written, in order.
abbrev pub sent : List Bytes → Bytes
sent [] = []
sent (b ∷ bs) = b ++ sent bs

-- The writes of a body.
abbrev pub body_writes : Bytes → List Bytes
body_writes [] = []
body_writes (c ∷ s) = (c ∷ s) ∷ []

pub sent-body_writes :
    (b : Bytes) (rest : List Bytes) → sent (body_writes b ++ rest) ≡ b ++ sent rest
sent-body_writes [] rest = refl
sent-body_writes (c ∷ s) rest = refl

copy_out-fresh :
    (b : Bytes) (input : Bytes) (out : List Bytes)
    → copy_out b (record { input = input; output = out; broken = λ n. false })
      ≡ (record { input = input; output = out ++ body_writes b; broken = λ n. false }, none)
unfolding copy_out write_wire
copy_out-fresh [] input out = rw append-nil refl
copy_out-fresh (c ∷ s) input out = refl

-- What an upload writes to a target that acknowledges every step.
pub scp_upload_writes :
    (path : Bytes) (mode size : ℕ) (src : Bytes)
    → size ≤ length src
    → let m = if mode == 0 then default_mode else mode in
      scp_upload path mode (pos size) src (fresh (0 ∷ 0 ∷ 0 ∷ [])) ≡ (
        record {
          input = [];
          output =
              file_line m size (base_name path) ∷ (body_writes (take size src) ++ (0 ∷ []) ∷ []);
          broken = λ n. false;
        },
        none,
      )
unfolding scp_upload send_body then_next write_wire read_ack
scp_upload_writes path mode size src h =
    rw (copy_out-fresh (take size src), le→ltb_false (length src) size h) refl

drop-body : (body rest : Bytes) → drop (length body) (body ++ rest) ≡ rest
drop-body [] rest = refl
drop-body (c ∷ body) rest = drop-body body rest

-- What a download does with a record, its body and the byte behind it.
pub receive_file_body :
    (sink : Sink) (mode : ℕ) (name body : Bytes) (out : List Bytes)
    → let meta : ScpMeta = record { size = pos (length body); mode = mode; name = name } in
      (d : Wire) × (receive_file sink meta
          (record { input = body ++ 0 ∷ []; output = out; broken = λ n. false })
        ≡ (d, if sink meta body then none else some sink_failed))
unfolding receive_file then_next write_wire read_ack to_ℕ
receive_file_body sink mode name body out =
    let meta : ScpMeta = record { size = pos (length body); mode = mode; name = name } in
    elim (Bool-cases (sink meta body)) [
      | inl ok ↦ (
        record {
          input = [];
          output = (out ++ (0 ∷ []) ∷ []) ++ (0 ∷ []) ∷ [];
          broken = λ n. false;
        },
        rw (take-prefix body (0 ∷ []), drop-body body (0 ∷ []), ok) refl,
      )
      | inr bad ↦ (
        record { input = 0 ∷ []; output = out ++ (0 ∷ []) ∷ []; broken = λ n. false },
        rw (take-prefix body (0 ∷ []), drop-body body (0 ∷ []), bad) refl,
      )
    ]

Digits-lineless : (s : Bytes) → All IsDigit s → Lacks 10 s
Digits-lineless [] d = tt
Digits-lineless (c ∷ s) (d, ds) = ((λ e. omega arith), Digits-lineless s ds)

octal4-lineless : (p : ℕ) → Lacks 10 (octal4 p)
unfolding octal4
octal4-lineless p =
    ((λ e. omega arith), ((λ e. omega arith), ((λ e. omega arith), ((λ e. omega arith), tt))))

Lacks-append : (b : ℕ) (s t : Bytes) → Lacks b s → Lacks b t → Lacks b (s ++ t)
Lacks-append b [] t hs ht = ht
Lacks-append b (c ∷ s) t hs ht = (hs.0, Lacks-append b s t hs.1 ht)

-- The record is one line.
pub read_line-file_line :
    (mode size : ℕ) (name rest : Bytes)
    → Lacks 10 name
    → read_line (file_line mode size name ++ rest) ≡ ((file_line mode size name, rest), true)
read_line-file_line mode size name rest clean =
    let front : Bytes = b'C' ∷ octal4 (perm mode) ++ b' ' ∷ decimal size ++ b' ' ∷ name in
    let printed : file_line mode size name ≡ front ++ 10 ∷ [] = (unfold file_line in refl) in
    let one_line : Lacks 10 front =
      Lacks-append 10 (b'C' ∷ octal4 (perm mode) ++ b' ' ∷ decimal size) (b' ' ∷ name)
        (Lacks-append 10 (b'C' ∷ octal4 (perm mode)) (b' ' ∷ decimal size)
          ((λ e. omega arith), octal4-lineless (perm mode))
          ((λ e. omega arith), Digits-lineless (decimal size) (decimal-IsDigit size)))
        ((λ e. omega arith), clean) in
    ap (λ l. read_line (l ++ rest)) printed
    ∙ ap read_line (append_assoc front (10 ∷ []) rest)
    ∙ read_line-append front rest one_line
    ∙ ap (λ l. ((l, rest), true)) (sym printed)
