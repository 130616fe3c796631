-- ===== src/Console/Tests.antt =====
-- internal/serialconsole/console.go: two subscribers, one of them slow, on channels of two chunks.
use unwedge.Base.{
  ◌≡◌, refl, Bytes, codes, true, false, some, none, List, [], ◌∷◌, ◌++◌, map, get_elem?,
  if◌then◌else◌, arith,
}
use unwedge.Base.Int.{pos, is_positive, to_ℕ}
use unwedge.Ring.{new_ring, write, reset, snapshot}
use unwedge.Ring.History.{write_all, joined, new_ring-Holds}
use unwedge.Console.{
  Feed, Console, ConsoleOp, eof, closed_error, publish_op, close_op, subscribe_op, receive_op,
  console_run, console_step, new_console, subscribe, publish, deliver, close_with_err, rearm_replay,
}
use unwedge.Console.Feeds.{subscribe_no_gap, published}
use unwedge.Console.Safety.{IsWell, console_run-IsWell, new_console-IsWell}
use unwedge.Console.Scanner.{Regexp, PatternScanner}
use unwedge.Console.Rearm.{rearm_replay-published, rearm_replay-reset}

abbrev ops : List ConsoleOp
ops =
    publish_op (codes "boot")
    ∷ receive_op 0
    ∷ publish_op (codes "ing")
    ∷ publish_op (codes "!")
    ∷ close_op eof
    ∷ []

abbrev scroll : Console
scroll = record {
  ring = write (new_ring 4) (codes "uboot");
  feeds = [];
  closed = false;
  close_err = none;
}

-- A feed of two chunks that receives nothing is detached by the third.
slow_detached :
    map
      (λ f. f.closed)
      (console_run 2
        (subscribe_op (pos 0)
          ∷ publish_op (codes "a")
          ∷ publish_op (codes "b")
          ∷ publish_op (codes "c")
          ∷ [])
        (new_console (pos 4))).feeds
    ≡ true ∷ []
unfolding console_run console_step new_console subscribe publish deliver write is_positive to_ℕ
slow_detached = refl

closed_once :
    (console_run 2 (close_op eof ∷ close_op closed_error ∷ []) (new_console (pos 4))).close_err
    ≡ some closed_error
unfolding console_run console_step new_console close_with_err
closed_once = refl

subscribe_no_gap_example :
    (f : Feed) × (get_elem? (console_run 2 ops (subscribe (pos 3) scroll).0).feeds 0 ≡ some f)
    × (f.closed ≡ false
        → joined f.sent
          ≡ (if is_positive (pos 3) then (snapshot scroll.ring (pos 3)).0 else []) ++ published ops)
unfolding subscribe
subscribe_no_gap_example = subscribe_no_gap 2 (pos 3) scroll ops

console_run-IsWell_example : IsWell (console_run 2 ops (new_console (pos 4)))
console_run-IsWell_example =
    console_run-IsWell 2 ops (new_console (pos 4)) (new_console-IsWell (pos 4))

abbrev burst : List Bytes
burst = codes "login" ∷ codes ": " ∷ []

abbrev after_burst : Console
after_burst = record {
  ring = write_all (new_ring 16) burst;
  feeds = [];
  closed = false;
  close_err = none;
}

-- One more byte comes between the count and the Subscribe.
abbrev at_subscribe : Console
at_subscribe = record {
  ring = write_all after_burst.ring (codes ">" ∷ []);
  feeds = [];
  closed = false;
  close_err = none;
}

rearm_replay-published_example :
    (snapshot at_subscribe.ring (rearm_replay (new_ring 16).total_in after_burst)).0
    ≡ codes "ogin: >"
unfolding new_ring
rearm_replay-published_example =
    rearm_replay-published (new_ring 16) [] burst (codes ">" ∷ []) after_burst at_subscribe
      (new_ring-Holds 16) refl refl (omega arith) (omega arith)

abbrev after_reset : Console
after_reset = record {
  ring = write_all (reset (new_ring 16)) burst;
  feeds = [];
  closed = false;
  close_err = none;
}

rearm_replay-reset_example :
    (subscribe (rearm_replay 9 after_reset) after_reset).0.feeds
    ≡ record { sent = []; taken = 0; closed = false; registered = true } ∷ []
rearm_replay-reset_example =
    rearm_replay-reset (new_ring 16) [] burst after_reset 9 (new_ring-Holds 16) refl (omega arith)

abbrev finds_nothing : Regexp
finds_nothing s = none

abbrev fresh_scanner : PatternScanner
fresh_scanner = record { acc = []; scanned = 0 }
