-- ===== src/Scp.antt =====
-- internal/sshexec/scp.go: single files over the classic scp protocol. A session is the wire: what
-- the remote side sends, and what has been written to it.
pub mod Record
pub mod Quote
pub mod Wires
pub mod Transfer
mod Tests
use unwedge.Base.{
  ℕ, zero, suc, ◌+◌, ◌-◌, ◌*◌, ◌/◌, ◌%◌, ◌^◌, Bytes, codes, Bool, true, false, ◌&&◌, ◌||◌, not,
  Option, none, some, List, [], ◌∷◌, ◌++◌, take, drop, length, ltb, leb, ◌==◌, if◌then◌else◌,
  trim_right, trim_space,
}
use unwedge.Base.Int.{ℤ, pos, negsuc, to_ℕ}
use unwedge.Base.Decimal.{decimal}
use unwedge.Power.Address.{last_index_byte}

pub record ScpMeta : Type 0 where
  pub size : ℤ
  pub mode : ℕ
  pub name : Bytes

-- shellQuote
unfoldable pub escape_quotes : Bytes → Bytes
escape_quotes [] = []
escape_quotes (c ∷ s) = if c == b'\'' then codes "'\\''" ++ escape_quotes s else c ∷ escape_quotes s

unfoldable pub shell_quote : Bytes → Bytes
unfolding escape_quotes
shell_quote s = b'\'' ∷ escape_quotes s ++ b'\'' ∷ []

-- What stands behind the last slash of a path without trailing ones.
unfoldable pub last_element : Bytes → Bytes
last_element p = elim (last_index_byte p b'/') [ none ↦ p | some i ↦ drop (i + 1) p ]

unfoldable pub base_name : Bytes → Bytes
base_name path = elim (last_element (trim_right (λ c. c == b'/') path)) [
  | [] ↦ codes "file"
  | c ∷ p ↦ c ∷ p
]

-- Numbers as strconv reads them: all digits below the base.
unfoldable pub number : ℕ → ℕ → Bytes → Option ℕ
number radix n [] = some n
number radix n (c ∷ s) =
    let rest = number radix (n * radix + (c - b'0')) s in
    if leb b'0' c && ltb (c - b'0') radix then rest else none

-- strconv.ParseUint, for a base up to ten; more than the limit is out of range.
unfoldable pub parse_uint : ℕ → ℕ → Bytes → Option ℕ
parse_uint radix limit [] = none
parse_uint radix limit (c ∷ s) = elim (number radix 0 (c ∷ s)) [
  | none ↦ none
  | some n ↦ if ltb limit n then none else some n
]

-- Minus the number.
unfoldable pub negated : ℕ → ℤ
negated zero = pos zero
negated (suc n) = negsuc n

-- strconv.ParseInt(s, 10, 64)
unfoldable pub parse_int : Bytes → Option ℤ
unfolding negated
parse_int [] = none
parse_int (c ∷ s) =
    if c == b'-'
    then elim (parse_uint 10 (2 ^ 63) s) [ none ↦ none | some n ↦ some (negated n) ]
    else elim (parse_uint 10 (2 ^ 63 - 1) (if c == b'+' then s else c ∷ s)) [
      | none ↦ none
      | some n ↦ some (pos n)
    ]

-- The text before the first space, and what stands behind it.
unfoldable pub cut_space : Bytes → Bytes × Option Bytes
cut_space [] = ([], none)
cut_space (c ∷ s) =
    let rest = cut_space s in if c == b' ' then ([], some s) else (c ∷ rest.0, rest.1)

unfoldable pub is_line_end : ℕ → Bool
is_line_end c = c == 13 || c == 10

-- The three fields of SplitN(line, " ", 3).
unfoldable pub three_fields : Bytes → Option (Bytes × Bytes × Bytes)
three_fields line =
    let first = cut_space line in
    elim first.1 [
      | none ↦ none
      | some rest ↦ elim (cut_space rest).1 [
        | none ↦ none
        | some third ↦ some (first.0, (cut_space rest).0, third)
      ]
    ]

-- `os.FileMode(mode).Perm()`
abbrev pub perm : ℕ → ℕ
perm mode = mode % 512

-- The mode field after its C: at least one more byte.
unfoldable pub mode_field : Bytes → Option ℕ
mode_field [] = none
mode_field (c ∷ digits) = if c == b'C' then parse_uint 8 (2 ^ 32 - 1) digits else none

unfoldable pub file_record : Bytes × Bytes × Bytes → Option ScpMeta
file_record (mode, size, name) = elim (mode_field mode) [
  | none ↦ none
  | some m ↦ elim (parse_int size) [
    | none ↦ none
    | some n ↦ some (record { size = n; mode = perm m; name = name })
  ]
]

unfoldable pub parse_scp_file_line : Bytes → Option ScpMeta
parse_scp_file_line line = elim (three_fields (trim_right is_line_end line)) [
  | none ↦ none
  | some fields ↦ file_record fields
]

-- `%04o` of permission bits.
unfoldable pub octal4 : ℕ → Bytes
octal4 p = (b'0' + p / 512 % 8) ∷ (b'0' + p / 64 % 8) ∷ (b'0' + p / 8 % 8) ∷ (b'0' + p % 8) ∷ []

-- The line that announces a file.
unfoldable pub file_line : ℕ → ℕ → Bytes → Bytes
file_line mode size name =
    b'C' ∷ octal4 (perm mode) ++ b' ' ∷ decimal size ++ b' ' ∷ name ++ 10 ∷ []

pub data ScpError : Type 0 where
  negative_size write_failed read_failed unexpected_ack : ScpError
  short_body no_file is_directory bad_record unexpected_control sink_failed : ScpError
  remote : Bytes → ScpError

-- `broken n` says that the write after `n` others fails.
pub record Wire : Type 0 where
  pub input : Bytes
  pub output : List Bytes
  pub broken : ℕ → Bool

abbrev pub Outcome : Type 0
Outcome = Wire × Option ScpError

unfoldable pub then_next : Outcome → (Wire → Outcome) → Outcome
then_next (w, none) k = k w
then_next (w, some e) k = (w, some e)

unfoldable pub write_wire : Bytes → Wire → Outcome
write_wire b w =
    if w.broken (length w.output)
    then (w, some write_failed)
    else (record w { output = w.output ++ b ∷ [] }, none)

-- ReadString('\n'): the line with its newline, or what is left without one.
unfoldable pub read_line : Bytes → (Bytes × Bytes) × Bool
read_line [] = (([], []), false)
read_line (c ∷ s) =
    let rest = read_line s in
    if c == 10 then ((10 ∷ [], s), true) else ((c ∷ rest.0.0, rest.0.1), rest.1)

unfoldable pub read_ack : Wire → Outcome
read_ack w = elim w.input [
  | [] ↦ (w, some read_failed)
  | b ∷ s ↦
      if b == 0
      then (record w { input = s }, none)
      else if b == 1 || b == 2
      then (record w { input = (read_line s).0.1 }, some (remote (trim_space (read_line s).0.0)))
      else (record w { input = s }, some unexpected_ack)
]

-- io.Copy of some bytes: nothing is written for none.
unfoldable pub copy_out : Bytes → Wire → Outcome
copy_out [] w = (w, none)
copy_out (c ∷ s) w = write_wire (c ∷ s) w

-- io.CopyN of `size` bytes from a source that yields `src`.
unfoldable pub send_body : Bytes → ℕ → Wire → Outcome
unfolding copy_out
send_body src size w =
    then_next (copy_out (take size src) w)
      λ w'. if ltb (length src) size then (w', some short_body) else (w', none)

abbrev pub default_mode : ℕ
default_mode = 420

-- What SCPUpload does on the wire of `scp -t`.
unfoldable pub scp_upload : Bytes → ℕ → ℤ → Bytes → Wire → Outcome
scp_upload path mode (negsuc n) src w = (w, some negative_size)
scp_upload path mode (pos size) src w = then_next (read_ack w) λ w1.
    then_next
      (write_wire (file_line (if mode == 0 then default_mode else mode) size (base_name path)) w1)
      λ w2.
        then_next (read_ack w2)
          λ w3. then_next (send_body src size w3) λ w4. then_next (write_wire (0 ∷ []) w4) read_ack

-- A file that the sink is given: its description and the bytes of the limited reader.
abbrev pub Sink : Type 0
Sink = ScpMeta → Bytes → Bool

-- After a file record. The sink reads the limited reader to its end.
unfoldable pub receive_file : Sink → ScpMeta → Wire → Outcome
receive_file sink meta w = then_next (write_wire (0 ∷ []) w) λ w1.
    let size = to_ℕ meta.size in
    let w2 = record w1 { input = drop size w1.input } in
    if sink meta (take size w1.input)
    then then_next (read_ack w2) (write_wire (0 ∷ []))
    else (w2, some sink_failed)

unfoldable pub receive_record : Sink → Bytes → Wire → Outcome
receive_record sink line w = elim (parse_scp_file_line line) [
  | none ↦ (w, some bad_record)
  | some meta ↦ receive_file sink meta w
]

-- What a control line leads to: the next one, or the end.
pub data Turn : Type 0 where
  again : Wire → Turn
  finished : Outcome → Turn

unfoldable pub after_ack : Outcome → Turn
after_ack (w, none) = again w
after_ack (w, some e) = finished (w, some e)

unfoldable pub control_turn : Sink → Bytes × Bool → Wire → Turn
unfolding after_ack
control_turn sink ([], complete) w = finished (w, some no_file)
control_turn sink (b ∷ more, complete) w =
    if not complete
    then finished (w, some read_failed)
    else if b == b'T'
    then after_ack (write_wire (0 ∷ []) w)
    else if b == 1 || b == 2
    then finished (w, some (remote (trim_space more)))
    else if b == b'D' || b == b'E'
    then finished (w, some is_directory)
    else if b == b'C'
    then finished (receive_record sink (b ∷ more) w)
    else finished (w, some unexpected_control)

-- The loop over control lines; on fuel, which does not run out if it is above the input's length.
unfoldable pub control_loop : ℕ → Sink → Wire → Option Outcome
control_loop zero sink w = none
control_loop (suc fuel) sink w =
    let l = read_line w.input in
    elim (control_turn sink (l.0.0, l.1) (record w { input = l.0.1 })) [
      | again v ↦ control_loop fuel sink v
      | finished o ↦ some o
    ]

-- What SCPDownload does on the wire of `scp -f`.
unfoldable pub scp_download : Sink → Wire → Option Outcome
scp_download sink w =
    let ready = write_wire (0 ∷ []) w in
    elim ready.1 [
      | some e ↦ some ready
      | none ↦ control_loop (suc (length ready.0.input)) sink ready.0
    ]

unfoldable pub upload_command : Bytes → Bytes
unfolding shell_quote
upload_command path = codes "scp -t -- " ++ shell_quote path

unfoldable pub download_command : Bytes → Bytes
unfolding shell_quote
download_command path = codes "scp -f -- " ++ shell_quote path
