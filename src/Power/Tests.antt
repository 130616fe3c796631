-- ===== src/Power/Tests.antt =====
-- Addresses and cycles of internal/power/apc_test.go, and instances of the theorems.
use unwedge.Base.{ℕ, ◌≡◌, ◌↔◌, refl, Bytes, codes, false, none, some, List, [], ◌∷◌, ◌++◌}
use unwedge.Base.Int.{pos}
use unwedge.Power.{on, off, cycle, Fake, fake_switch, did_on, did_off}
use unwedge.Power.Address.{
  parse_port, split_host_port, index_byte, last_index_byte, with_port, bracketed, plain,
}
use unwedge.Power.Apc.{Apc, Snmp, set_done, variables}
use unwedge.Power.Cycle.{Counted, cycle_iff}

with_colon : split_host_port (codes "10.0.0.1:1161") 161 ≡ (codes "10.0.0.1", 1161)
unfolding split_host_port plain with_port bracketed parse_port index_byte last_index_byte
with_colon = refl

bare_brackets : split_host_port (codes "[fe80::1]") 161 ≡ (codes "fe80::1", 161)
unfolding split_host_port plain with_port bracketed parse_port index_byte last_index_byte
bare_brackets = refl

abbrev start : Fake
start = record { state = off; events = [] }

abbrev after : Fake
after = record { state = on; events = did_off ∷ did_on ∷ [] }

cycle_iff_example : (cycle (λ d. false) fake_switch (pos 5) none start ≡ (after, none)) ↔ (
    (w1 : Fake) × (fake_switch.turn_off start ≡ (w1, none))
    × (◌≡◌ {A = _} false false)
    × (fake_switch.turn_on w1 ≡ (after, none)))
cycle_iff_example = cycle_iff (λ d. false) fake_switch (pos 5) start after

abbrev counted : Counted Fake
counted = record { world = start; losses = 3 }

-- A PDU that answers everything and logs the Sets.
abbrev pdu : Snmp (List (Bytes × ℕ))
pdu = record {
  connect = λ w. (w, none);
  set = λ oid cmd w. (w ++ (oid, cmd) ∷ [], set_done (some 0));
  get = λ oid w. (w, variables []);
  close = λ w. w;
}

abbrev outlet : Apc
outlet = record {
  cfg = record {
    address = codes "pdu";
    community = [];
    outlet = pos 3;
    version = [];
    timeout = 0;
    retries = pos 1;
    command_oid_base = [];
    state_oid_base = [];
    off_duration = pos 0;
  };
  cmd_oid = codes "1.3";
  st_oid = codes "1.4";
}
