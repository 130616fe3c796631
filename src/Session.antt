-- ===== src/Session.antt =====
-- internal/session/session.go: the single-user hardware lock. Every method holds `mu` throughout
-- (Acquire for one round of its loop), so each is one atomic function on the state. A reading of
-- the clock is an argument, in nanoseconds, one for each call of `now`. A channel is a number:
-- `made` counts the channels created and `closed` lists those closed, the last first.
pub mod Acquire
pub mod Step
pub mod Invariant
pub mod Holder
pub mod InFlight
pub mod Waiters
pub mod Loop
pub mod Ids
mod Tests
use unwedge.Base.{
  ℕ, ◌+◌, ◌-◌, ◌*◌, Bytes, Bool, true, false, ◌&&◌, ◌||◌, not, Option, none, some, List, [], ◌∷◌,
  ltb, leb, if◌then◌else◌, eqb,
}
use unwedge.Base.Int.{ℤ, is_positive, is_negative, to_ℕ}

-- DefaultTTL, five minutes.
abbrev pub default_ttl : ℕ
default_ttl = 5 * 60 * 1_000_000_000

pub record Info : Type 0 where
  pub active : Bool
  pub id : Bytes
  pub owner : Bytes
  pub started_at : ℕ
  pub expires_at : ℕ

pub record BusyError : Type 0 where
  pub owner : Bytes
  pub expires_at : ℕ

pub data SessionError : Type 0 where
  not_holder : Bytes → SessionError
  no_active_session : Bytes → SessionError

pub record Manager : Type 0 where
  pub ttl : ℕ
  pub id : Bytes
  pub owner : Bytes
  pub started_at : ℕ
  pub last_activity : ℕ
  pub active_calls : ℕ
  pub released : Option ℕ
  pub made : ℕ
  pub closed : List ℕ
  pub stopped : Bool

unfoldable pub new_manager : ℤ → Manager
new_manager ttl = record {
  ttl = if is_positive ttl then to_ℕ ttl else default_ttl;
  id = [];
  owner = [];
  started_at = 0;
  last_activity = 0;
  active_calls = 0;
  released = none;
  made = 0;
  closed = [];
  stopped = false;
}

abbrev pub expires_at_locked : Manager → ℕ
expires_at_locked m = m.last_activity + m.ttl

-- `close(m.released)` where there is a channel.
unfoldable pub close_released : Option ℕ → List ℕ → List ℕ
close_released none closed = closed
close_released (some ch) closed = ch ∷ closed

unfoldable pub clear_locked : Manager → Manager
unfolding close_released
clear_locked m = record m {
  id = [];
  owner = [];
  active_calls = 0;
  released = none;
  closed = close_released m.released m.closed;
}

unfoldable pub is_free : Manager → Bool
is_free m = eqb m.id []

unfoldable pub expire_if_idle : ℕ → Manager → Manager
unfolding clear_locked
expire_if_idle now m =
    if is_free m || ltb 0 m.active_calls
    then m
    else if ltb (expires_at_locked m) now
    then clear_locked m
    else m

unfoldable pub no_info : Info
no_info = record { active = false; id = []; owner = []; started_at = 0; expires_at = 0 }

unfoldable pub info_locked : Manager → Info
unfolding no_info
info_locked m = if is_free m then no_info else record {
  active = true;
  id = m.id;
  owner = m.owner;
  started_at = m.started_at;
  expires_at = expires_at_locked m;
}

-- A tick of the reaper.
unfoldable pub reap : ℕ → Manager → Manager
reap now m = if m.stopped then m else expire_if_idle now m

unfoldable pub close : Manager → Manager
close m = record m { stopped = true }

unfoldable pub finish : Bytes → Manager → Manager × Option SessionError
unfolding clear_locked
finish id m =
    if is_free m || eqb m.id id
    then (if eqb m.id id then clear_locked m else m, none)
    else (m, some (not_holder id))

-- `m.id == "" || m.id != id`
unfoldable pub is_not_holder : Bytes → Manager → Bool
is_not_holder id m = is_free m || not (eqb m.id id)

unfoldable pub refresh : Bytes → ℕ → ℕ → Manager → Manager × Option SessionError
refresh id t0 t1 m =
    let m' = expire_if_idle t0 m in
    if is_not_holder id m'
    then (m', some (no_active_session id))
    else (record m' { last_activity = t1 }, none)

unfoldable pub call_start : Bytes → ℕ → ℕ → Manager → Manager × Option SessionError
call_start id t0 t1 m =
    let m' = expire_if_idle t0 m in
    if is_not_holder id m'
    then (m', some (no_active_session id))
    else (record m' { last_activity = t1; active_calls = m'.active_calls + 1 }, none)

unfoldable pub call_end : Bytes → ℕ → Manager → Manager
call_end id t m =
    if eqb m.id id && ltb 0 m.active_calls
    then record m { active_calls = m.active_calls - 1; last_activity = t }
    else m

unfoldable pub info : ℕ → Manager → Manager × Info
info t m = let m' = expire_if_idle t m in (m', info_locked m')
