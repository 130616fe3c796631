-- ===== src/Uboot/Tests.antt =====
-- internal/uboot/uboot.go: a board that answers every command with the prompt.
use unwedge.Base.{
  ◌≡◌, refl, Bytes, codes, true, false, none, List, [], ◌∷◌, ◌++◌, eqb, trim_left, trim_right,
  find_sub, has_prefix,
}
use unwedge.Base.Int.{pos}
use unwedge.Uboot.{Config, Device, Orchestrator, chunk, with_defaults}
use unwedge.Uboot.Output.{
  clean_command_output, after_echo, split_lines, join_lines, drop_tail, is_dropped, is_crlf,
}
use unwedge.Uboot.Netboot.{NetbootParams, netboot_to}
use unwedge.Base.Decimal.{hex8, hexadecimal, hex_digits, hex_char}
use unwedge.Uboot.Sent.{Logs}
use unwedge.Uboot.Order.{Netbooted, netboot-order}

abbrev empty_config : Config
empty_config = record {
  prompt_pattern = [];
  interrupt_pattern = [];
  interrupt_key = [];
  eth_act = [];
  load_addr = [];
  core_mask = [];
  server_ip = [];
  command_timeout = pos 0;
  kernel_banner = [];
}

abbrev board : Device (List Bytes)
board = record {
  write = λ b w. (w ++ b ∷ [], true);
  subscribed = λ w. (w, chunk (codes "=> ") ∷ []);
  wait_for_pattern = λ re n w. (w, true);
  context_ended = λ w. (w, false);
  cycle = none;
  emit = λ e w. w;
}

abbrev on_board : Orchestrator (List Bytes)
on_board = record {
  device = board;
  cfg = with_defaults empty_config;
  prompt_re = λ b. true;
  interrupt_re = λ b. true;
  banner_re = λ b. true;
  interrupt_kb = 24 ∷ [];
}

abbrev params : NetbootParams
params = record {
  image = codes "img";
  power_cycle = false;
  server_ip = codes "10.0.0.1";
  kernel_args = codes " quiet ";
  verify_crc32 = true;
  image_len = 16;
  image_crc32 = 48879;
}

cleaned :
    clean_command_output (codes "version\r\nU-Boot 2013\r\n=> ") (codes "version")
    ≡ codes "U-Boot 2013\r"
unfolding clean_command_output after_echo split_lines join_lines drop_tail is_dropped is_crlf
    find_sub has_prefix trim_left trim_right eqb
cleaned = refl

board-Logs : Logs board (λ w. w)
board-Logs = record { writes = λ b w. refl; subscribes = λ w. refl; emits = λ e w. refl }

checksum_text : hex8 48879 ≡ codes "0000beef"
unfolding hex8 hexadecimal hex_digits hex_char
checksum_text = refl

netboot-order_example :
    Netbooted on_board
      (λ w. w)
      board-Logs
      params
      (codes "10.0.0.1")
      []
      (netboot_to on_board params (codes "10.0.0.1") [])
netboot-order_example = netboot-order on_board (λ w. w) board-Logs params (codes "10.0.0.1") [] refl
