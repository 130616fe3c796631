-- ===== src/Console.antt =====
-- internal/serialconsole/console.go: the console. What holds the mutex is one atomic operation. A
-- subscription is the place of its feed in `feeds`: its number is the id, the channel is what was
-- sent on it with how much of that was received, and `registered` says that it is in the map `subs`.
pub mod Feeds
pub mod Safety
pub mod Rearm
pub mod Scanner
mod Tests
use unwedge.Base.{
  ℕ, zero, suc, ◌+◌, ◌-◌, ◌^◌, Bytes, Bool, true, false, ◌&&◌, ◌||◌, not, Option, some, none, List,
  [], ◌∷◌, ◌++◌, length, drop, map, ltb, leb, if◌then◌else◌,
}
use unwedge.Base.Int.{ℤ, pos, negsuc, is_positive, is_negative, to_ℕ}
use unwedge.Ring.{Ring, new_ring, write, reset, snapshot}

abbrev pub default_buffer_bytes : ℕ
default_buffer_bytes = 2 ^ 20

pub data ConsoleError : Type 0 where
  eof closed_error : ConsoleError
  transport_error : ℕ → ConsoleError

pub record Feed : Type 0 where
  pub sent : List Bytes
  pub taken : ℕ
  pub closed : Bool
  pub registered : Bool

pub record Console : Type 0 where
  pub ring : Ring
  pub feeds : List Feed
  pub closed : Bool
  pub close_err : Option ConsoleError

unfoldable pub new_console : ℤ → Console
unfolding is_positive to_ℕ
new_console buffer_bytes = record {
  ring = new_ring (if is_positive buffer_bytes then to_ℕ buffer_bytes else default_buffer_bytes);
  feeds = [];
  closed = false;
  close_err = none;
}

-- The send of `publish` on one feed: the buffered channel takes the chunk, or, when it is full, the
-- subscriber is detached.
unfoldable pub deliver : ℕ → Bytes → Feed → Feed
deliver capacity p f =
    if not f.registered || f.closed
    then f
    else if ltb (length f.sent - f.taken) capacity
    then record f { sent = f.sent ++ p ∷ [] }
    else record f { closed = true; registered = false }

unfoldable pub publish : ℕ → Bytes → Console → Console
publish capacity p c = record c { ring = write c.ring p; feeds = map (deliver capacity p) c.feeds }

unfoldable pub end_feed : Feed → Feed
end_feed f = if f.registered then record f { closed = true; registered = false } else f

unfoldable pub end_error : ConsoleError → ConsoleError
end_error eof = closed_error
end_error closed_error = closed_error
end_error (transport_error n) = transport_error n

unfoldable pub close_with_err : ConsoleError → Console → Console
unfolding end_error
close_with_err e c =
    if c.closed
    then c
    else record c { closed = true; close_err = some (end_error e); feeds = map end_feed c.feeds }

-- What one Read yields: its bytes, and an error or none.
pub record ReadResult : Type 0 where
  pub bytes : Bytes
  pub err : Option ConsoleError

-- `if n > 0 { c.publish(buf[:n]) }`
unfoldable pub publish_read : ℕ → Bytes → Console → Console
publish_read capacity [] c = c
publish_read capacity (b ∷ bs) c = publish capacity (b ∷ bs) c

unfoldable pub read_loop : ℕ → List ReadResult → Console → Console
unfolding publish_read
read_loop capacity [] c = c
read_loop capacity (r ∷ rs) c =
    let c' = publish_read capacity r.bytes c in
    elim r.err [ some e ↦ close_with_err e c' | none ↦ read_loop capacity rs c' ]

-- Close, where `rw.Close()` returns `err`. The flag is read before the transport is closed.
unfoldable pub close_console : Option ConsoleError → Console → Console × Option ConsoleError
close_console err c = (if c.closed then c else close_with_err closed_error c, err)

-- Write, where `rw.Write(p)` returns `r`.
unfoldable pub write_console :
    (Bytes → ℕ × Option ConsoleError) → Bytes → Console → ℕ × Option ConsoleError
write_console r p c = if c.closed then (0, some closed_error) else r p

unfoldable pub console_snapshot : ℤ → Console → Bytes × Bool
console_snapshot max_bytes c = snapshot c.ring max_bytes

unfoldable pub console_reset : Console → Console
console_reset c = record c { ring = reset c.ring }

unfoldable pub buffered_bytes : Console → ℕ
buffered_bytes c = c.ring.size

unfoldable pub total_written : Console → ℕ
total_written c = c.ring.total_in

-- `if len(snap) > 0 { s.ch <- snap }`
unfoldable pub replayed : Bytes → List Bytes
replayed [] = []
replayed (b ∷ bs) = (b ∷ bs) ∷ []

-- Subscribe; the id is the length of the old list.
unfoldable pub subscribe : ℤ → Console → Console × ℕ
unfolding replayed
subscribe replay_bytes c =
    let f : Feed = record {
      sent = if is_positive replay_bytes then replayed (snapshot c.ring replay_bytes).0 else [];
      taken = 0;
      closed = c.closed;
      registered = not c.closed;
    } in
    (record c { feeds = c.feeds ++ f ∷ [] }, length c.feeds)

-- A change of one feed.
unfoldable pub on_feed : (Feed → Feed) → ℕ → List Feed → List Feed
on_feed g i [] = []
on_feed g zero (f ∷ fs) = g f ∷ fs
on_feed g (suc i) (f ∷ fs) = f ∷ on_feed g i fs

unfoldable pub close_feed : Feed → Feed
close_feed f =
    if f.registered && not f.closed then record f { closed = true; registered = false } else f

-- Subscription.Close
unfoldable pub close_subscription : ℕ → Console → Console
close_subscription i c = record c { feeds = on_feed close_feed i c.feeds }

-- A receive on the channel of a subscription that has something in it.
unfoldable pub take_feed : Feed → Feed
take_feed f = if ltb f.taken (length f.sent) then record f { taken = f.taken + 1 } else f

unfoldable pub receive : ℕ → Console → Console
receive i c = record c { feeds = on_feed take_feed i c.feeds }

-- The atomic operations of all goroutines.
pub data ConsoleOp : Type 0 where
  publish_op : Bytes → ConsoleOp
  close_op : ConsoleError → ConsoleOp
  reset_op : ConsoleOp
  subscribe_op : ℤ → ConsoleOp
  close_subscription_op receive_op : ℕ → ConsoleOp

unfoldable pub console_step : ℕ → ConsoleOp → Console → Console
console_step capacity (publish_op p) c = publish capacity p c
console_step capacity (close_op e) c = close_with_err e c
console_step capacity reset_op c = console_reset c
console_step capacity (subscribe_op n) c = (subscribe n c).0
console_step capacity (close_subscription_op i) c = close_subscription i c
console_step capacity (receive_op i) c = receive i c

unfoldable pub console_run : ℕ → List ConsoleOp → Console → Console
console_run capacity [] c = c
console_run capacity (o ∷ os) c = console_run capacity os (console_step capacity o c)

-- WaitForPattern: what it asks Subscribe to replay after a detach.
abbrev pub max_pattern_window : ℕ
max_pattern_window = 2 ^ 20

-- `c.TotalWritten() - armTotal`
unfoldable pub missed : ℕ → ℕ → ℤ
missed arm_total total =
    if ltb total arm_total then negsuc (arm_total - total - 1) else pos (total - arm_total)

-- What the next Subscribe is asked for; `c` is the console when TotalWritten is read, which is another
-- turn of the mutex than that Subscribe.
unfoldable pub rearm_replay : ℕ → Console → ℤ
unfolding missed
rearm_replay arm_total c =
    let m = missed arm_total (total_written c) in
    if not (is_negative m) && ltb max_pattern_window (to_ℕ m) then pos max_pattern_window else m
