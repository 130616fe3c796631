-- ===== src/Uboot/Output.antt =====
-- internal/uboot/uboot.go: the output of a command, and its check.
use unwedge.Base.{
  ℕ, ◌+◌, Bytes, codes, Bool, ◌||◌, Option, some, none, List, [], ◌∷◌, ◌++◌, length, drop, ◌==◌,
  if◌then◌else◌, eqb, trim_left, trim_right, find_sub, contains_sub, to_lower,
}
use unwedge.Uboot.{
  Orchestrator, Expected, UbootError, marker_found, info, emit_console, send_and_expect,
}

abbrev pub newline : ℕ
newline = 10

-- strings.Split(s, "\n")
unfoldable pub split_lines : Bytes → List Bytes
split_lines [] = [] ∷ []
split_lines (c ∷ s) = elim (split_lines s) [
  | [] ↦ (c ∷ []) ∷ []
  | l ∷ ls ↦ if c == newline then [] ∷ l ∷ ls else (c ∷ l) ∷ ls
]

-- strings.Join(lines, "\n")
unfoldable pub join_lines : List Bytes → Bytes
join_lines [] = []
join_lines (l ∷ []) = l
join_lines (l ∷ k ∷ ls) = l ++ newline ∷ join_lines (k ∷ ls)

-- A line of the prompt alone, or a blank one.
unfoldable pub is_dropped : Bytes → Bool
is_dropped line =
    let last = trim_right (λ c. c == 13 || c == 32 || c == 9) line in
    eqb last (codes "=>") || eqb last []

-- The loop that takes such lines off the end.
unfoldable pub drop_tail : List Bytes → List Bytes
drop_tail [] = []
drop_tail (l ∷ ls) = elim (drop_tail ls) [
  | [] ↦ if is_dropped l then [] else l ∷ []
  | k ∷ ks ↦ l ∷ k ∷ ks
]

-- What stands behind the echo of the command.
unfoldable pub after_echo : Bytes → Bytes → Bytes
after_echo raw command = elim (find_sub raw command) [
  | none ↦ raw
  | some i ↦ drop (i + length command) raw
]

unfoldable pub is_crlf : ℕ → Bool
is_crlf c = c == 13 || c == newline

unfoldable pub clean_command_output : Bytes → Bytes → Bytes
clean_command_output raw command =
    join_lines (drop_tail (split_lines (trim_left is_crlf (after_echo raw command))))

-- The first marker that the output, in lower case, contains.
unfoldable pub first_marker : Bytes → List Bytes → Option Bytes
first_marker low [] = none
first_marker low (k ∷ ks) = if contains_sub low (to_lower k) then some k else first_marker low ks

module _ {W : Type 0} where
  -- RunCommand; its timeout is the context's.
  unfoldable pub run_command : Orchestrator W → Bytes → W → W × Expected
  run_command o command w =
      let (w', seen) = send_and_expect o.device (command ++ 13 ∷ []) o.prompt_re none w in
      (w', record { output = clean_command_output seen.output command; err = seen.err })

  -- The two ways a checked command fails.
  unfoldable pub checked : Option UbootError → Option Bytes → W → W × Option UbootError
  checked (some e) found w = (w, some e)
  checked none none w = (w, none)
  checked none (some k) w = (w, some (marker_found k))

  unfoldable pub run_checked :
      Orchestrator W → Bytes → Bytes → List Bytes → W → W × Option UbootError
  run_checked o stage command markers w =
      let (w1, seen) = run_command o command (info o.device stage (codes "uboot> " ++ command) w) in
      let w2 = emit_console o.device stage seen.output w1 in
      checked seen.err (first_marker (to_lower seen.output) markers) w2
