-- ===== src/Power.antt =====
-- internal/power: power.go, hook.go and fake.go. A controller acts on a world `W`; an error is `some`.
pub mod Apc
pub mod Address
pub mod Cycle
pub mod Dial
mod Tests
use unwedge.Base.{
  ℕ, ◌*◌, Bytes, codes, Bool, true, false, Option, none, some, List, [], ◌∷◌, ◌++◌, if◌then◌else◌,
  not,
}
use unwedge.Base.Int.{ℤ, pos, is_positive}

pub data State : Type 0 where
  unknown on off : State

unfoldable pub state_string : State → Bytes
state_string on = codes "on"
state_string off = codes "off"
state_string unknown = codes "unknown"

-- The errors of a controller: the device's, by a number; the wrapped ones; and the context's.
pub data PowerError : Type 0 where
  device : ℕ → PowerError
  power_off : PowerError → PowerError
  power_on : PowerError → PowerError
  context_done : PowerError

-- The context during a wait: whether it ends before the duration has passed.
abbrev pub Context : Type 0
Context = ℤ → Bool

pub record Controller (W : Type 0) : Type 0 where
  pub get_status : W → W × (State × Option PowerError)
  pub turn_on : W → W × Option PowerError
  pub turn_off : W → W × Option PowerError
  pub power_cycle : Context → ℤ → W → W × Option PowerError

abbrev pub nanosecond_second : ℕ
nanosecond_second = 1_000_000_000

-- DefaultOffDuration
abbrev pub default_off_duration : ℤ
default_off_duration = pos (5 * nanosecond_second)

unfoldable pub or_default : ℤ → ℤ → ℤ
unfolding is_positive
or_default off_for default = if is_positive off_for then off_for else default

-- An action whose error is wrapped.
module _ {W : Type 0} where
  -- An action whose error is wrapped.
  unfoldable pub wrapped : (PowerError → PowerError) → W × Option PowerError → W × Option PowerError
  wrapped f (w, none) = (w, none)
  wrapped f (w, some e) = (w, some (f e))

  -- `if err := a(); err != nil { return err }` before the rest.
  unfoldable pub then_do :
      W × Option PowerError → (W → W × Option PowerError) → W × Option PowerError
  then_do (w, none) k = k w
  then_do (w, some e) k = (w, some e)

  unfoldable pub polled :
      Option (State → W → W × Option PowerError) → State → W → W × Option PowerError
  polled none s w = (w, none)
  polled (some poll) s w = poll s w

  -- The shared helper `cycle`.
  unfoldable pub cycle :
      Context
      → Controller W
      → ℤ
      → Option (State → W → W × Option PowerError)
      → W
      → W × Option PowerError
  unfolding wrapped then_do polled or_default
  cycle ctx c off_for poll w =
      let duration = or_default off_for default_off_duration in
      then_do (wrapped power_off (c.turn_off w)) λ w1. then_do (polled poll off w1) λ w2.
        if ctx duration
        then (w2, some context_done)
        else then_do (wrapped power_on (c.turn_on w2)) (polled poll on)

  -- hook.go: the embedded controller, with Off and Cycle behind the callback.
  unfoldable pub hooked : Controller W → (W → W) → Controller W
  hooked c on_power_loss = record c {
    turn_off = λ w. c.turn_off (on_power_loss w);
    power_cycle = λ ctx off_for w. c.power_cycle ctx off_for (on_power_loss w);
  }

  unfoldable pub hook : Controller W → Option (W → W) → Controller W
  unfolding hooked
  hook c none = c
  hook c (some f) = hooked c f

-- fake.go: the in-memory controller.
pub data Action : Type 0 where
  did_on did_off did_cycle : Action

pub record Fake : Type 0 where
  pub state : State
  pub events : List Action

unfoldable pub new_fake : State → Fake
new_fake initial = record { state = initial; events = [] }

unfoldable pub fake_on : Fake → Fake × Option PowerError
fake_on f = (record { state = on; events = f.events ++ did_on ∷ [] }, none)

unfoldable pub fake_off : Fake → Fake × Option PowerError
fake_off f = (record { state = off; events = f.events ++ did_off ∷ [] }, none)

-- The controller that `Cycle` hands to the helper, which calls only Off and On of it.
unfoldable pub fake_switch : Controller Fake
unfolding fake_on fake_off
fake_switch = record {
  get_status = λ f. (f, (f.state, none));
  turn_on = fake_on;
  turn_off = fake_off;
  power_cycle = λ ctx off_for f. (f, none);
}

unfoldable pub fake_cycle : Context → ℤ → Fake → Fake × Option PowerError
unfolding fake_switch cycle
fake_cycle ctx off_for f =
    cycle ctx fake_switch (or_default off_for (pos 1_000_000)) none
      (record f { events = f.events ++ did_cycle ∷ [] })

unfoldable pub fake : Controller Fake
unfolding fake_switch fake_cycle
fake = record fake_switch { power_cycle = fake_cycle }
