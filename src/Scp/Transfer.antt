-- ===== src/Scp/Transfer.antt =====
-- internal/sshexec/scp.go: the two directions against each other, and the loop over control lines.
use unwedge.Base.{
  ℕ, zero, suc, ◌+◌, ◌^◌, ◌≤◌, ◌<◌, ◌≡◌, refl, ap, ◌∙◌, Bytes, Bool, true, false, none, some, [],
  ◌∷◌, ◌++◌, take, length, length-take, ◌==◌, trim_right, inl, inr, ◌⊎◌, arith, if◌then◌else◌,
  subst,
}
use unwedge.Base.Int.{pos}
use unwedge.Power.Dial.{Lacks}
use unwedge.Scp.{
  Turn, again, finished, after_ack, control_turn, ScpMeta, sink_failed, Wire, Outcome, write_wire,
  read_line, default_mode, scp_upload, Sink, receive_file, receive_record, control_loop,
  scp_download, perm, file_line, base_name, is_line_end, parse_scp_file_line,
}
use unwedge.Scp.Record.{parse_scp_file_line-file_line}
use unwedge.Scp.Wires.{
  fresh, sent, sent-body_writes, scp_upload_writes, receive_file_body, read_line-file_line,
}

length-read_line : (s : Bytes) → length (read_line s).0.0 + length (read_line s).0.1 ≡ length s
unfolding read_line
length-read_line [] = refl
length-read_line (c ∷ s) = ground (arith, length-read_line s)

input-write_wire : (b : Bytes) (w : Wire) → (write_wire b w).0.input ≡ w.input
unfolding write_wire
input-write_wire b w = ground arith

after_ack-again : (o : Outcome) (v : Wire) → after_ack o ≡ again v → o.0 ≡ v
unfolding after_ack
after_ack-again (w, none) v h = cc
after_ack-again (w, some e) v h = cc

-- The loop goes on only behind a line, with the input that is left.
control_turn-again :
    (sink : Sink) (line : Bytes) (complete : Bool) (w v : Wire)
    → control_turn sink (line, complete) w ≡ again v
    → (0 < length line) × (v.input ≡ w.input)
unfolding control_turn after_ack
control_turn-again sink [] complete w v h = cc
control_turn-again sink (b ∷ more) complete w v h =
    let kept : (write_wire (0 ∷ []) w).0.input ≡ w.input = input-write_wire (0 ∷ []) w in
    ground (arith, after_ack-again (write_wire (0 ∷ []) w) v, kept)

Turn-cases : (t : Turn) → ((v : Wire) × (t ≡ again v)) ⊎ ((o : Outcome) × (t ≡ finished o))
Turn-cases (again v) = inl (v, refl)
Turn-cases (finished o) = inr (o, refl)

-- With fuel above the input's length the loop over control lines ends, whatever the remote side sends
-- and whatever fails.
pub control_loop_ends :
    (fuel : ℕ) (sink : Sink) (w : Wire)
    → length w.input < fuel
    → (o : Outcome) × (control_loop fuel sink w ≡ some o)
unfolding control_loop
control_loop_ends zero sink w h = absurd (omega arith)
control_loop_ends (suc fuel) sink w h =
    let l = read_line w.input in
    elim (Turn-cases (control_turn sink (l.0.0, l.1) (record w { input = l.0.1 }))) [
      | inl (v, e) ↦
          let t = control_turn-again sink l.0.0 l.1 (record w { input = l.0.1 }) v e in
          let shorter : length v.input < length w.input =
            omega (arith, ap length t.1, length-read_line w.input, t.0) in
          rw (control_loop, e) (control_loop_ends fuel sink v (omega arith))
      | inr (o, e) ↦ (o, rw (control_loop, e) refl)
    ]

control_turn-file_line :
    (mode size : ℕ) (name : Bytes) (sink : Sink) (w : Wire)
    → control_turn sink (file_line mode size name, true) w
      ≡ finished (receive_record sink (file_line mode size name) w)
unfolding control_turn file_line
control_turn-file_line mode size name sink w = refl

receive_record_parsed :
    (sink : Sink) (line : Bytes) (meta : ScpMeta) (w : Wire)
    → parse_scp_file_line line ≡ some meta
    → receive_record sink line w ≡ receive_file sink meta w
unfolding receive_record
receive_record_parsed sink line meta w e = rw (receive_record, e) refl

control_loop_finishes :
    (fuel : ℕ) (sink : Sink) (w : Wire) (line rest : Bytes) (complete : Bool) (o : Outcome)
    → read_line w.input ≡ ((line, rest), complete)
    → control_turn sink (line, complete) (record w { input = rest }) ≡ finished o
    → control_loop (suc fuel) sink w ≡ some o
unfolding control_loop
control_loop_finishes fuel sink w line rest complete o e t = rw (control_loop, e) (rw t refl)

-- A download of a record, its body and a zero.
scp_download_reads :
    (mode : ℕ) (name body : Bytes) (sink : Sink)
    → length body < 2 ^ 63
    → Lacks 10 name
    → trim_right is_line_end name ≡ name
    → let meta : ScpMeta = record { size = pos (length body); mode = perm mode; name = name } in
      (d : Wire) × (scp_download sink
          (fresh (file_line mode (length body) name ++ (body ++ 0 ∷ [])))
        ≡ some (d, if sink meta body then none else some sink_failed))
unfolding scp_download write_wire
scp_download_reads mode name body sink small clean no_end =
    let got = receive_file_body sink (perm mode) name body ((0 ∷ []) ∷ []) in
    let line : Bytes = file_line mode (length body) name in
    let rest : Wire = record {
      input = body ++ 0 ∷ [];
      output = (0 ∷ []) ∷ [];
      broken = λ n. false;
    } in
    let meta : ScpMeta = record { size = pos (length body); mode = perm mode; name = name } in
    let ready : Wire = record {
      input = line ++ (body ++ 0 ∷ []);
      output = (0 ∷ []) ∷ [];
      broken = λ n. false;
    } in
    (
      got.0,
      control_loop_finishes (length ready.input) sink ready line (body ++ 0 ∷ []) true _
          (read_line-file_line mode (length body) name (body ++ 0 ∷ []) clean)
          (control_turn-file_line mode (length body) name sink rest
            ∙ ap finished (
                receive_record_parsed sink line meta rest
                  (parse_scp_file_line-file_line mode (length body) name small no_end)
                ∙ got.1)),
    )

-- What an upload writes to a target that acknowledges every step is a complete transfer: a download
-- that reads it gives its sink the size, the permission bits and the last element of the path, with
-- the first `size` bytes of the source, and then succeeds if the sink does. The name is one without
-- line ends, the size is below 2 ^ 63 and the source is not shorter.
pub scp_download-scp_upload :
    (path : Bytes) (mode size : ℕ) (src : Bytes) (sink : Sink)
    → size ≤ length src
    → size < 2 ^ 63
    → Lacks 10 (base_name path)
    → trim_right is_line_end (base_name path) ≡ base_name path
    → let m = if mode == 0 then default_mode else mode in
      let meta : ScpMeta = record { size = pos size; mode = perm m; name = base_name path } in
      (u d : Wire) × (scp_upload path mode (pos size) src (fresh (0 ∷ 0 ∷ 0 ∷ [])) ≡ (u, none))
      × (scp_download sink (fresh (sent u.output))
          ≡ some (d, if sink meta (take size src) then none else some sink_failed))
scp_download-scp_upload path mode size src sink h small clean no_end =
    let m : ℕ = if mode == 0 then default_mode else mode in
    let e : length (take size src) ≡ size = omega (arith, length-take size src) in
    let body : Bytes = take size src in
    let meta : ℕ → ScpMeta = λ n. record { size = pos n; mode = perm m; name = base_name path } in
    let got : (d : Wire) × (scp_download sink
            (fresh (file_line m size (base_name path) ++ (body ++ 0 ∷ [])))
          ≡ some (d, if sink (meta size) body then none else some sink_failed)) =
      subst
        (λ n.
          (d : Wire) × (scp_download sink
              (fresh (file_line m n (base_name path) ++ (body ++ 0 ∷ [])))
            ≡ some (d, if sink (meta n) body then none else some sink_failed)))
        e (scp_download_reads m (base_name path) body sink (omega arith) clean no_end) in
    (
      _,
      got.0,
      scp_upload_writes path mode size src h,
      ap (λ b. scp_download sink (fresh (file_line m size (base_name path) ++ b)))
            (sent-body_writes body ((0 ∷ []) ∷ []))
          ∙ got.1,
    )
