-- ===== src/Service.antt =====
-- internal/server/server.go: the handlers that map requests to the components and their errors to
-- status codes. A component that is not configured is none.
pub mod Handlers
pub mod Streams
mod Tests
use unwedge.Base.{
  ℕ, ◌*◌, Bytes, codes, Bool, true, false, Option, some, none, List, [], ◌∷◌, ◌++◌, map, length,
  if◌then◌else◌, eqb,
}
use unwedge.Base.Int.{ℤ, pos, is_positive}
use unwedge.Grpc.{
  Code, Reply, reply, status, failed_precondition, invalid_argument, not_found, unavailable,
  internal, deadline_exceeded, milliseconds,
}
use unwedge.Keys.{keys_bytes}
use unwedge.Power.{State, on, off, unknown, Controller, Context, PowerError}
use unwedge.Console.{Console, ConsoleError, console_snapshot, write_console}
use unwedge.Images.{Info, Access, Directory, Store, StoreError, list_images, delete, on_disk_name}
use unwedge.Uboot.{
  UbootError, Event, EventKind, event_info, event_console, event_stage, event_success, event_error,
}

-- `dur(ms, def)`
unfoldable pub dur : ℤ → ℤ → ℤ
dur ms default = if is_positive ms then milliseconds ms else default

pub data PowerState : Type 0 where
  power_state_unknown power_state_on power_state_off : PowerState

unfoldable pub power_state_to_proto : State → PowerState
power_state_to_proto on = power_state_on
power_state_to_proto off = power_state_off
power_state_to_proto unknown = power_state_unknown

pub data PowerAction : Type 0 where
  action_unspecified action_on action_off action_cycle action_status : PowerAction

pub record PowerResponse : Type 0 where
  pub state : PowerState
  pub query_failed : Bool

unfoldable pub is_failure : Option PowerError → Bool
is_failure none = false
is_failure (some e) = true

module _ {W : Type 0} where
  -- The switch of PowerControl; none for an action that is unspecified.
  unfoldable pub power_action :
      Context → Controller W → PowerAction → ℤ → W → Option (W × Option PowerError)
  power_action ctx c action_unspecified off_ms w = none
  power_action ctx c action_on off_ms w = some (c.turn_on w)
  power_action ctx c action_off off_ms w = some (c.turn_off w)
  power_action ctx c action_cycle off_ms w = some (c.power_cycle ctx (dur off_ms (pos 0)) w)
  power_action ctx c action_status off_ms w = some (w, none)

  unfoldable pub power_answer : Controller W → W × Option PowerError → W × Reply PowerResponse
  unfolding is_failure
  power_answer c (w, some e) = (w, status unavailable)
  power_answer c (w, none) =
      let (w', answer) = c.get_status w in
      (
        w',
        reply
            (record { state = power_state_to_proto answer.0; query_failed = is_failure answer.1 }),
      )

  unfoldable pub power_control :
      Context → Option (Controller W) → PowerAction → ℤ → W → W × Reply PowerResponse
  power_control ctx none a off_ms w = (w, status failed_precondition)
  power_control ctx (some c) a off_ms w = elim (power_action ctx c a off_ms w) [
    | none ↦ (w, status invalid_argument)
    | some done ↦ power_answer c done
  ]

unfoldable pub read_console_log : Option Console → ℤ → Reply (Bytes × Bool)
read_console_log none max_bytes = status failed_precondition
read_console_log (some c) max_bytes = reply (console_snapshot max_bytes c)

-- `rw.Write` of the transport is an argument.
unfoldable pub write_keys :
    (Bytes → ℕ × Option ConsoleError) → Option Console → Bytes → List Bytes → Reply ℕ
write_keys transport none data' keys = status failed_precondition
write_keys transport (some c) data' keys = elim (keys_bytes keys) [
  | none ↦ status invalid_argument
  | some kb ↦
      let (n, err) = write_console transport (data' ++ kb) c in
      elim err [ none ↦ reply n | some e ↦ status unavailable ]
]

unfoldable pub delete_image : Option Store → Bool → Bytes → Directory → Directory × Reply Bool
delete_image none fails name d = (d, status failed_precondition)
delete_image (some s) fails name d =
    let (d', err) = delete s fails name d in
    elim err [ none ↦ (d', reply true) | some e ↦ (d', status internal) ]

-- The image that Netboot checks: its length and checksum, if the list has it.
unfoldable pub find_image : Bytes → List Info → Option (ℕ × ℕ)
find_image name [] = none
find_image name (i ∷ is) = if eqb i.name name then some (i.size, i.crc) else find_image name is

pub record NetbootRequest : Type 0 where
  pub image : Bytes
  pub verify_crc32 : Bool

-- What Netboot hands to the orchestrator: the on-disk name, with the length and checksum if wanted.
pub record NetbootTarget : Type 0 where
  pub image : Bytes
  pub image_len : ℕ
  pub image_crc32 : ℕ

unfoldable pub on_disk_target : Option Store → Bytes → ℕ × ℕ → Reply NetbootTarget
on_disk_target none image (n, crc) =
    reply (record { image = image; image_len = n; image_crc32 = crc })
on_disk_target (some s) image (n, crc) = elim (on_disk_name s image) [
  | none ↦ status invalid_argument
  | some path ↦ reply (record { image = path; image_len = n; image_crc32 = crc })
]

module _ (crc32 : Bytes → ℕ) (sha256 : Bytes → Bytes) where
  -- The checksum that Netboot looks up.
  unfoldable pub verified_image :
      Option Store → Bytes → (Bytes → Access) → Directory → Reply (ℕ × ℕ)
  verified_image none image access d = status failed_precondition
  verified_image (some s) image access d =
      elim (find_image image (list_images crc32 sha256 s access d)) [
        | none ↦ status not_found
        | some found ↦ reply found
      ]

  -- Netboot up to the call of the orchestrator; the list of images can be read.
  unfoldable pub netboot_target :
      Bool → Option Store → NetbootRequest → (Bytes → Access) → Directory → Reply NetbootTarget
  netboot_target configured store r access d =
      if configured
      then (if r.verify_crc32
          then elim (verified_image store r.image access d) [
            | reply found ↦ on_disk_target store r.image found
            | status c ↦ status c
            | Reply.pending ↦ Reply.pending
          ]
          else on_disk_target store r.image (0, 0))
      else status failed_precondition

-- bootEventToProto keeps the stage, message and console bytes, and numbers the kind.
unfoldable pub kind_to_proto : EventKind → ℕ
kind_to_proto event_info = 1
kind_to_proto event_console = 2
kind_to_proto event_stage = 3
kind_to_proto event_success = 4
kind_to_proto event_error = 5

-- finishBoot: the kind of the last event, and the status. `is_deadline` is what `errors.Is` answers
-- for `context.DeadlineExceeded`.
unfoldable pub finish_boot : (UbootError → Bool) → Option UbootError → EventKind × Reply Bool
finish_boot is_deadline none = (event_success, reply true)
finish_boot is_deadline (some e) =
    (event_error, if is_deadline e then status deadline_exceeded else status internal)
