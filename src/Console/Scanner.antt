-- ===== src/Console/Scanner.antt =====
-- internal/serialconsole/console.go: the search of WaitForPattern. The compiled regexp is its
-- FindIndex: the place of the first match, as start and end.
use unwedge.Base.{
  ℕ, ◌+◌, ◌-◌, ◌/◌, ◌^◌, ◌≤◌, ◌≡◌, refl, sym, subst, Bytes, Bool, Option, some, none, List, [], ◌∷◌,
  ◌++◌, length, take, drop, ltb, if◌then◌else◌, length-drop, arith,
}
use unwedge.Base.Int.{ℤ}
use unwedge.Console.{Console, ConsoleError, max_pattern_window, total_written, rearm_replay}

abbrev pub pattern_scan_overlap : ℕ
pattern_scan_overlap = 2 ^ 16

abbrev pub Regexp : Type 0
Regexp = Bytes → Option (ℕ × ℕ)

pub record PatternScanner : Type 0 where
  pub acc : Bytes
  pub scanned : ℕ

-- `s.acc[start+loc[0] : start+loc[1]]`
unfoldable pub match_text : Bytes → ℕ → ℕ × ℕ → Bytes
match_text acc start loc = take (loc.1 - loc.0) (drop (start + loc.0) acc)

-- The state after a search that finds nothing.
unfoldable pub trimmed : Bytes → PatternScanner
trimmed acc =
    let keep = max_pattern_window / 2 in
    let dropped = length acc - keep in
    if ltb max_pattern_window (length acc)
    then record { acc = drop dropped acc; scanned = length acc - dropped }
    else record { acc = acc; scanned = length acc }

-- Subtraction stops at zero, as `if start < 0` has it.
unfoldable pub scan : Regexp → PatternScanner → PatternScanner × Option Bytes
scan re s =
    let start = s.scanned - pattern_scan_overlap in
    elim (re (drop start s.acc)) [
      | some loc ↦ (s, some (match_text s.acc start loc))
      | none ↦ (trimmed s.acc, none)
    ]

unfoldable pub feed : Regexp → Bytes → PatternScanner → PatternScanner × Option Bytes
feed re chunk s = scan re (record s { acc = s.acc ++ chunk })

unfoldable pub scanner_reset : PatternScanner → PatternScanner
scanner_reset s = record { acc = []; scanned = 0 }

-- What the select of drainInto takes next: a chunk, the end of the channel, or the end of the context.
pub data Arrival : Type 0 where
  chunk : Bytes → Arrival
  ended : Option ConsoleError → Arrival
  context_done : Arrival

pub data Drained : Type 0 where
  matched : Bytes → Drained
  retry fatal : Drained
  blocked : Drained

-- drainInto, over what arrives; `ended` carries `c.Err()`.
unfoldable pub drain_into : Regexp → List Arrival → PatternScanner → PatternScanner × Drained
drain_into re [] s = (s, blocked)
drain_into re (context_done ∷ as') s = (s, fatal)
drain_into re (ended none ∷ as') s = (s, retry)
drain_into re (ended (some e) ∷ as') s = (s, fatal)
drain_into re (chunk p ∷ as') s =
    let fed = feed re p s in
    elim fed.1 [ some m ↦ (fed.0, matched m) | none ↦ drain_into re as' fed.0 ]

-- One turn of the loop of WaitForPattern: what arrives, whether the context has ended after it, and
-- the console when its total is read again, before the next Subscribe.
pub record Turn : Type 0 where
  pub arrivals : List Arrival
  pub context_err : Bool
  pub rearmed : Console

pub data Waited : Type 0 where
  found : Bytes → Bytes → Waited
  cancelled console_closed : Bytes → Waited
  waiting : Waited

unfoldable pub after_drain : Bool → PatternScanner × Drained → Waited → Waited
after_drain context_err (s, matched m) next = found m s.acc
after_drain context_err (s, fatal) next =
    if context_err then cancelled s.acc else console_closed s.acc
after_drain context_err (s, retry) next = if context_err then cancelled s.acc else next
after_drain context_err (s, blocked) next = waiting

unfoldable pub wait_turns : Regexp → List Turn → PatternScanner → Waited
wait_turns re [] s = waiting
wait_turns re (t ∷ ts) s =
    let drained = drain_into re t.arrivals s in
    let next = wait_turns re ts (scanner_reset drained.0) in after_drain t.context_err drained next

-- WaitForPattern, with what each of its subscriptions was asked to replay.
unfoldable pub replays : ℕ → List Turn → List ℤ
replays arm_total [] = []
replays arm_total (t ∷ ts) = rearm_replay arm_total t.rearmed ∷ replays arm_total ts

unfoldable pub wait_for_pattern : Regexp → ℤ → Console → List Turn → Waited × List ℤ
wait_for_pattern re include_scrollback c ts = (
  wait_turns re ts (record { acc = []; scanned = 0 }),
  include_scrollback ∷ replays (total_written c) ts,
)

trimmed-fits : (acc : Bytes) → length (trimmed acc).acc ≤ max_pattern_window
unfolding trimmed
trimmed-fits acc = ground (arith, length-drop (length acc - max_pattern_window / 2) acc)

trimmed-scanned : (acc : Bytes) → (trimmed acc).scanned ≡ length (trimmed acc).acc
unfolding trimmed
trimmed-scanned acc = ground (arith, length-drop (length acc - max_pattern_window / 2) acc)

-- A search that finds nothing leaves the trimmed output.
scan-none :
    (re : Regexp) (s : PatternScanner) → (scan re s).1 ≡ none → (scan re s).0 ≡ trimmed s.acc
unfolding scan
scan-none re s =
    elim (re (drop (s.scanned - pattern_scan_overlap) s.acc))
      as (λ o.
        let r = elim o as (λ x. PatternScanner × Option Bytes) [
          | some loc ↦ (s, some (match_text s.acc (s.scanned - pattern_scan_overlap) loc))
          | none ↦ (trimmed s.acc, none)
        ] in
        r.1 ≡ none → r.0 ≡ trimmed s.acc) [ some loc ↦ (λ h. absurd (cc h)) | none ↦ (λ h. refl) ]

-- A chunk that brings no match leaves at most a window of output, all of it marked as searched.
pub feed-fits :
    (re : Regexp) (p : Bytes) (s : PatternScanner)
    → (feed re p s).1 ≡ none
    → (length (feed re p s).0.acc ≤ max_pattern_window)
      × ((feed re p s).0.scanned ≡ length (feed re p s).0.acc)
unfolding feed
feed-fits re p s h =
    let e : (feed re p s).0 ≡ trimmed (s.acc ++ p) =
      scan-none re (record s { acc = s.acc ++ p }) h in
    (
      subst (λ t. length t.acc ≤ max_pattern_window) (sym e) (trimmed-fits (s.acc ++ p)),
      subst (λ t. t.scanned ≡ length t.acc) (sym e) (trimmed-scanned (s.acc ++ p)),
    )
