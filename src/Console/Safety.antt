-- ===== src/Console/Safety.antt =====
-- internal/serialconsole/console.go: the channels and the end of the console.
use unwedge.Base.{
  ℕ, zero, suc, ◌≡◌, ◌↔◌, refl, true, false, none, List, [], ◌∷◌, All, All-snoc, map, Bool-cases,
  inl, inr, arith,
}
use unwedge.Base.Int.{ℤ}
use unwedge.Console.{
  Feed, Console, ConsoleOp, publish_op, close_op, reset_op, subscribe_op, close_subscription_op,
  receive_op, deliver, end_feed, close_feed, take_feed, on_feed, publish, close_with_err,
  console_reset, subscribe, close_subscription, receive, console_step, console_run, new_console,
}
use unwedge.Console.Feeds.{IsSound}

abbrev IsEnded : Feed → Type 0
IsEnded f = f.closed ≡ true

-- Every channel is open exactly while its subscriber is in the map, a stopped console has no open
-- channel, and it has a terminal error exactly when it has stopped.
pub record IsWell (c : Console) : Type 0 where
  pub sound : All IsSound c.feeds
  pub ended : c.closed ≡ true → All (λ f. f.closed ≡ true) c.feeds
  pub live : (c.close_err ≡ none) ↔ (c.closed ≡ false)

All-map :
    (P Q : Feed → Type 0) (g : Feed → Feed)
    → ((f : Feed) → P f → Q (g f))
    → (fs : List Feed) → All P fs
    → All Q (map g fs)
All-map P Q g h [] a = a
All-map P Q g h (f ∷ fs) a = (h f a.0, All-map P Q g h fs a.1)

All-on_feed :
    (P : Feed → Type 0) (g : Feed → Feed)
    → ((f : Feed) → P f → P (g f))
    → (i : ℕ) (fs : List Feed) → All P fs
    → All P (on_feed g i fs)
unfolding on_feed
All-on_feed P g h i [] a = a
All-on_feed P g h zero (f ∷ fs) a = (h f a.0, a.1)
All-on_feed P g h (suc i) (f ∷ fs) a = (a.0, All-on_feed P g h i fs a.1)

at_feed-IsWell :
    (g : Feed → Feed) (i : ℕ) (c : Console)
    → ((f : Feed) → IsSound f → IsSound (g f))
    → ((f : Feed) → IsEnded f → IsEnded (g f))
    → IsWell c
    → IsWell (record c { feeds = on_feed g i c.feeds })
at_feed-IsWell g i c keeps ends w = record {
  sound = All-on_feed IsSound g keeps i c.feeds w.sound;
  ended = λ h. All-on_feed IsEnded g ends i c.feeds (w.ended h);
  live = w.live;
}

console_step-IsWell :
    (capacity : ℕ) (o : ConsoleOp) (c : Console) → IsWell c → IsWell (console_step capacity o c)
unfolding console_step publish close_with_err console_reset subscribe close_subscription receive
console_step-IsWell capacity (publish_op p) c w = record {
  sound =
      All-map IsSound IsSound (deliver capacity p) (λ f s. unfold deliver in ground (arith, s))
        c.feeds w.sound;
  ended = λ h.
      All-map IsEnded IsEnded (deliver capacity p) (λ f e. unfold deliver in ground (arith, e))
        c.feeds (w.ended h);
  live = w.live;
}
console_step-IsWell capacity (close_op e) c w = elim (Bool-cases c.closed) [
  | inl h ↦ simp h w
  | inr h ↦ simp h (record {
    sound =
        All-map IsSound IsSound end_feed (λ f s. unfold end_feed in ground (arith, s)) c.feeds
          w.sound;
    ended = λ k.
        All-map IsSound IsEnded end_feed (λ f s. unfold end_feed in ground (arith, s)) c.feeds
          w.sound;
    live = ((λ k. cc k), (λ k. cc k));
  })
]
console_step-IsWell capacity reset_op c w = record {
  sound = w.sound;
  ended = w.ended;
  live = w.live;
}
console_step-IsWell capacity (subscribe_op n) c w = record {
  sound = All-snoc IsSound _ c.feeds refl w.sound;
  ended = λ h. All-snoc IsEnded _ c.feeds h (w.ended h);
  live = w.live;
}
console_step-IsWell capacity (close_subscription_op i) c w =
    at_feed-IsWell close_feed i c (λ f s. unfold close_feed in ground (arith, s))
      (λ f e. unfold close_feed in ground (arith, e)) w
console_step-IsWell capacity (receive_op i) c w =
    at_feed-IsWell take_feed i c (λ f s. unfold take_feed in ground (arith, s))
      (λ f e. unfold take_feed in ground (arith, e)) w

-- A run of a well-formed console, such as a new one, stays well formed: a channel is open exactly
-- while its subscriber is in the map, a stopped console has no open channel, and it has a terminal
-- error exactly when it has stopped.
pub console_run-IsWell :
    (capacity : ℕ) (os : List ConsoleOp) (c : Console)
    → IsWell c
    → IsWell (console_run capacity os c)
unfolding console_run
console_run-IsWell capacity [] c w = w
console_run-IsWell capacity (o ∷ os) c w =
    console_run-IsWell capacity os (console_step capacity o c) (console_step-IsWell capacity o c w)

pub new_console-IsWell : (n : ℤ) → IsWell (new_console n)
unfolding new_console
new_console-IsWell n = record { sound = _; ended = λ h. _; live = ((λ h. refl), (λ h. refl)) }
