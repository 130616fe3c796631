-- ===== src/Cli/Locking.antt =====
-- cmd/unwedge/main.go with internal/server/session.go: which commands take the lock.
use unwedge.Base.{
  ℕ, ◌≡◌, refl, sym, subst, ap, drop, Bytes, codes, Bool, true, false, ◌&&◌, not, none, some, List,
  [], ◌∷◌, ◌++◌, eqb, has_prefix, if◌then◌else◌, inl, inr,
}
use unwedge.Gate.{is_exempt, mentions}
use unwedge.Bridge.{power_action_named}
use unwedge.Cli.{
  Command, status, console, log, write, power, interrupt, uboot, netboot, image, ssh, scp, smoke,
  is_lock_free, CmdOpts, Request, get_status, list_images, tunnel, stream_console, read_console_log,
  write_console, power_control, interrupt_boot, run_uboot_command, netboot_image, upload_image,
  delete_image, ssh_exec, scp_download, scp_upload, smoke_run, Plan, requests, cmd_power, cmd_uboot,
  cmd_image, image_file, cmd_ssh, cmd_scp, copied, with_argument, command_named, takes_lock, joined,
  usage, invalid_action, unknown_subcommand,
}

-- A method of the service by its full name.
abbrev full : Bytes → Bytes
full method = codes "/unwedge.v1.Unwedge/" ++ method

-- The RPCs of a request, by internal/client/client.go and internal/smoke/smoke.go.
unfoldable pub methods_of : Request → List Bytes
methods_of get_status = full (codes "GetStatus") ∷ []
methods_of list_images = full (codes "ListImages") ∷ []
methods_of tunnel = full (codes "Tunnel") ∷ []
methods_of (stream_console n) = full (codes "StreamConsole") ∷ []
methods_of (read_console_log n) = full (codes "ReadConsoleLog") ∷ []
methods_of (write_console t ks) = full (codes "WriteConsole") ∷ []
methods_of (power_control a) = full (codes "PowerControl") ∷ []
methods_of (interrupt_boot p t) = full (codes "InterruptBoot") ∷ []
methods_of (run_uboot_command c t) = full (codes "RunUbootCommand") ∷ []
methods_of (netboot_image i o) = full (codes "Netboot") ∷ []
methods_of (upload_image f w) = full (codes "UploadImage") ∷ []
methods_of (delete_image n) = full (codes "DeleteImage") ∷ []
methods_of (ssh_exec c t) = full (codes "SSHExec") ∷ []
methods_of (scp_download r l t) = full (codes "SCPDownload") ∷ []
methods_of (scp_upload l r t) = full (codes "SCPUpload") ∷ []
methods_of (smoke_run p o) =
    full (codes "UploadImage")
    ∷ full (codes "StreamConsole")
    ∷ full (codes "Netboot")
    ∷ full (codes "SSHExec")
    ∷ []

abbrev pub all_exempt : List Bytes → Bool
all_exempt [] = true
all_exempt (m ∷ ms) = is_exempt m && all_exempt ms

abbrev pub all_free : List Request → Bool
all_free [] = true
all_free (r ∷ rs) = all_exempt (methods_of r) && all_free rs

-- What holds of the requests of a plan, if it has any.
abbrev Agrees : Bool → Plan → Type 0
Agrees b (inl e) = Unit
Agrees b (inr rs) = b ≡ all_free rs

if-Agrees : (b c : Bool) (p q : Plan) → Agrees c p → Agrees c q → Agrees c (if b then p else q)
if-Agrees true c p q hp hq = hp
if-Agrees false c p q hp hq = hq

file-Agrees :
    (request : Bytes → Request) (args : List Bytes)
    → ((a : Bytes) → false ≡ all_exempt (methods_of (request a)))
    → Agrees false (image_file request args)
unfolding image_file
file-Agrees request [] h = tt
file-Agrees request (a ∷ args) h = rw (sym (h a)) refl

image-Agrees : (args : List Bytes) → Agrees false (cmd_image args)
unfolding cmd_image methods_of is_exempt mentions eqb
image-Agrees [] = tt
image-Agrees (a ∷ args) =
    let rm : Plan =
      if eqb a (codes "rm") then image_file delete_image args else inl unknown_subcommand in
    let upload : Plan =
      if eqb a (codes "upload") then image_file (λ f. upload_image f true) args else rm in
    if-Agrees (eqb a (codes "ls")) false (inr (list_images ∷ [])) upload refl (
      if-Agrees (eqb a (codes "upload")) false (image_file (λ f. upload_image f true) args) rm
        (file-Agrees (λ f. upload_image f true) args (λ x. refl))
        (if-Agrees (eqb a (codes "rm")) false (image_file delete_image args)
          (inl unknown_subcommand) (file-Agrees delete_image args (λ x. refl)) tt))

ssh-Agrees : (args : List Bytes) (o : CmdOpts) → Agrees false (cmd_ssh args o)
unfolding cmd_ssh methods_of is_exempt mentions eqb
ssh-Agrees [] o = if-Agrees o.proxy false (inr (tunnel ∷ [])) (inl usage) refl tt
ssh-Agrees (a ∷ args) o =
    if-Agrees o.proxy false (inr (tunnel ∷ []))
      (inr (ssh_exec (joined (a ∷ args)) o.timeout_ms ∷ [])) refl refl

scp-Agrees : (args : List Bytes) (o : CmdOpts) → Agrees false (cmd_scp args o)
unfolding cmd_scp copied methods_of is_exempt mentions eqb
scp-Agrees [] o = tt
scp-Agrees (src ∷ []) o = tt
scp-Agrees (src ∷ dst ∷ []) o =
    let upload : Plan =
      if has_prefix dst (codes ":") && not (has_prefix src (codes ":"))
      then inr (scp_upload src (drop 1 dst) o.timeout_ms ∷ [])
      else inl usage in
    if-Agrees (has_prefix src (codes ":") && not (has_prefix dst (codes ":"))) false
      (inr (scp_download (drop 1 src) dst o.timeout_ms ∷ [])) upload refl
      (if-Agrees (has_prefix dst (codes ":") && not (has_prefix src (codes ":"))) false
        (inr (scp_upload src (drop 1 dst) o.timeout_ms ∷ [])) (inl usage) refl tt)
scp-Agrees (src ∷ dst ∷ more ∷ args) o = tt

requests-Agrees :
    (scanned : Bytes → ℕ) (c : Command) (args : List Bytes) (o : CmdOpts)
    → Agrees (is_lock_free c) (requests scanned c args o)
unfolding is_lock_free requests methods_of is_exempt mentions eqb cmd_power cmd_uboot cmd_image
    image_file cmd_ssh cmd_scp copied with_argument
requests-Agrees scanned status args o = refl
requests-Agrees scanned console args o = refl
requests-Agrees scanned log args o = refl
requests-Agrees scanned write args o = refl
requests-Agrees scanned power [] o = tt
requests-Agrees scanned power (a ∷ args) o =
    elim (power_action_named a)
      as (λ x. Agrees false (elim x as (λ y. Plan) [
        | none ↦ inl invalid_action
        | some p ↦ inr (power_control p ∷ [])
      ])) [ none ↦ tt | some p ↦ refl ]
requests-Agrees scanned interrupt args o = refl
requests-Agrees scanned uboot [] o = tt
requests-Agrees scanned uboot (a ∷ args) o =
    elim o.power_cycle
      as (λ b.
        false
        ≡ all_free (
            if b
            then interrupt_boot true o.timeout_ms
              ∷ run_uboot_command (joined (a ∷ args)) o.timeout_ms
              ∷ []
            else run_uboot_command (joined (a ∷ args)) o.timeout_ms ∷ [])) [
              | true ↦ refl
              | false ↦ refl
            ]
requests-Agrees scanned netboot [] o = tt
requests-Agrees scanned netboot (a ∷ args) o = refl
requests-Agrees scanned image args o = image-Agrees args
requests-Agrees scanned ssh args o = ssh-Agrees args o
requests-Agrees scanned scp args o = scp-Agrees args o
requests-Agrees scanned smoke [] o = tt
requests-Agrees scanned smoke (a ∷ args) o = refl

-- A command that comes to its calls takes the hardware lock exactly if one of them is an RPC that the
-- daemon refuses without it, unless the lock was declined.
pub takes_lock-requests :
    (scanned : Bytes → ℕ) (name : Bytes) (c : Command) (args : List Bytes) (o : CmdOpts)
    (rs : List Request)
    → command_named name ≡ some c
    → requests scanned c args o ≡ inr rs
    → takes_lock false name ≡ not (all_free rs)
unfolding takes_lock
takes_lock-requests scanned name c args o rs named planned =
    let agrees : is_lock_free c ≡ all_free rs =
      subst (Agrees (is_lock_free c)) planned (requests-Agrees scanned c args o) in
    rw (takes_lock, named) (ap not agrees)
