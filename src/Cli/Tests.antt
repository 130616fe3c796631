-- ===== src/Cli/Tests.antt =====
-- cmd/unwedge/main.go: two commands.
use unwedge.Base.{ℕ, ◌≡◌, refl, Bytes, codes, true, false, not, List, [], ◌∷◌, eqb, has_prefix, inr}
use unwedge.Cli.{
  uboot, CmdOpts, Request, interrupt_boot, run_uboot_command, write_console, scp_download, requests,
  cmd_uboot, cmd_scp, copied, joined, keys_of, split_commas, with_first, command_named, command_in,
  takes_lock, write, scp,
}
use unwedge.Cli.Locking.{all_free, takes_lock-requests}

abbrev opts : CmdOpts
opts = record {
  keys = codes "ctrl-x,enter";
  kernel_args = [];
  verify = false;
  power_cycle = true;
  timeout_ms = 480000;
  proxy = false;
  ssh_command = [];
}

abbrev no_number : Bytes → ℕ
no_number a = 0

keys_split :
    requests no_number write (codes "a" ∷ codes "b" ∷ []) opts
    ≡ inr (write_console (codes "a b") (codes "ctrl-x" ∷ codes "enter" ∷ []) ∷ [])
unfolding requests joined keys_of split_commas with_first
keys_split = refl

copies_back :
    requests no_number scp (codes ":/tmp/f" ∷ codes "f" ∷ []) opts
    ≡ inr (scp_download (codes "/tmp/f") (codes "f") 480000 ∷ [])
unfolding requests cmd_scp copied has_prefix
copies_back = refl

abbrev printenv : List Request
printenv = interrupt_boot true 480000 ∷ run_uboot_command (codes "printenv") 480000 ∷ []

takes_lock-requests_example : takes_lock false (codes "uboot") ≡ not (all_free printenv)
unfolding command_named command_in eqb requests cmd_uboot joined
takes_lock-requests_example =
    takes_lock-requests no_number (codes "uboot") uboot (codes "printenv" ∷ []) opts printenv refl
      refl
