-- ===== src/Scp/Tests.antt =====
-- internal/sshexec/scp.go: small transfers.
use unwedge.Base.{
  ◌≡◌, refl, Bytes, codes, true, none, some, [], ◌∷◌, ◌++◌, if◌then◌else◌, arith, eqb, trim_right,
}
use unwedge.Base.Int.{pos, negsuc}
use unwedge.Base.Decimal.{decimal, digits}
use unwedge.Power.Address.{last_index_byte}
use unwedge.Scp.{
  ScpMeta, Wire, Sink, Outcome, short_body, sink_failed, shell_quote, upload_command,
  download_command, escape_quotes, base_name, last_element, parse_scp_file_line, three_fields,
  cut_space, mode_field, file_record, parse_uint, parse_int, negated, number, is_line_end,
  file_line, octal4, read_line, scp_upload, send_body, copy_out, write_wire, then_next, read_ack,
  scp_download, control_loop, control_turn, perm,
}
use unwedge.Scp.Quote.{shell_words, shell_words-command}
use unwedge.Scp.Wires.{fresh, sent}
use unwedge.Scp.Transfer.{control_loop_ends, scp_download-scp_upload}

abbrev path : Bytes
path = codes "/tmp/fw.bin"

quoted_apostrophe : shell_quote (codes "a'b") ≡ codes "'a'\\''b'"
unfolding shell_quote escape_quotes
quoted_apostrophe = refl

plain_name : base_name path ≡ codes "fw.bin"
unfolding base_name last_element last_index_byte trim_right
plain_name = refl

no_name : base_name (codes "//") ≡ codes "file"
unfolding base_name last_element last_index_byte trim_right
no_name = refl

-- A line end in the path ends the record early: what follows is not part of the announced name.
name_with_line_end :
    (read_line (file_line 420 5 (codes "a" ++ 10 ∷ codes "b"))).0.0 ≡ file_line 420 5 (codes "a")
unfolding read_line file_line octal4 decimal digits
name_with_line_end = refl

negative_announced :
    parse_scp_file_line (codes "C0644 -5 x" ++ 10 ∷ [])
    ≡ some (record { size = negsuc 4; mode = 420; name = codes "x" })
unfolding parse_scp_file_line three_fields cut_space mode_field file_record parse_uint parse_int
    negated number trim_right is_line_end
negative_announced = refl

-- A source that ends early: the record has been sent, and the error says so.
ends_early : (scp_upload path 0 (pos 9) (codes "abc") (fresh (0 ∷ 0 ∷ 0 ∷ []))).1 ≡ some short_body
unfolding scp_upload send_body copy_out write_wire then_next read_ack
ends_early = refl

nothing_sent : ((o : Outcome) × (scp_download (λ m b. true) (fresh []) ≡ some o))
unfolding scp_download control_loop control_turn write_wire read_line
nothing_sent = (_, refl)

control_loop_ends_example :
    (o : Outcome) × (control_loop 5 (λ m b. true) (fresh (codes "T0" ++ 10 ∷ [])) ≡ some o)
control_loop_ends_example =
    control_loop_ends 5 (λ m b. true) (fresh (codes "T0" ++ 10 ∷ [])) (omega arith)

abbrev keeps : Sink
keeps meta body = eqb body (codes "hello")

scp_download-scp_upload_example :
    let meta : ScpMeta = record { size = pos 5; mode = perm 420; name = base_name path } in
    (u d : Wire) × (scp_upload path 0 (pos 5) (codes "hello!") (fresh (0 ∷ 0 ∷ 0 ∷ [])) ≡ (u, none))
    × (scp_download keeps (fresh (sent u.output))
        ≡ some (d, if keeps meta (codes "hello") then none else some sink_failed))
unfolding base_name last_element last_index_byte trim_right is_line_end
scp_download-scp_upload_example =
    scp_download-scp_upload path 0 5 (codes "hello!") keeps (omega arith) (omega arith)
      ((λ e. cc e), ((λ e. cc e), ((λ e. cc e), ((λ e. cc e), ((λ e. cc e), ((λ e. cc e), tt))))))
      refl

shell_words-command_example :
    (shell_words (upload_command (codes "it's; ls"))
      ≡ some (codes "scp" ∷ codes "-t" ∷ codes "--" ∷ codes "it's; ls" ∷ []))
    × (shell_words (download_command (codes "it's; ls"))
        ≡ some (codes "scp" ∷ codes "-f" ∷ codes "--" ∷ codes "it's; ls" ∷ []))
shell_words-command_example = shell_words-command (codes "it's; ls")
