-- ===== src/Power/Cycle.antt =====
-- internal/power: what a power cycle does to the outlet.
use unwedge.Base.{
  ℕ, zero, suc, ◌+◌, ◌≡◌, ◌↔◌, ◌⊎◌, refl, inl, inr, true, false, none, some, [], ◌∷◌, ◌++◌,
  append_assoc, if◌then◌else◌, Bool-cases, arith,
}
use unwedge.Base.Int.{ℤ, pos}
use unwedge.Power.{
  on, off, PowerError, power_off, context_done, Context, Controller, default_off_duration,
  or_default, cycle, hook, did_on, did_off, did_cycle, Fake, fake_cycle,
}
use unwedge.Power.Apc.{Apc, Snmp, SetAnswer, set_failed, set_done, set_error, set_command}

-- How long the outlet stays off: the caller's duration or the controller's, if positive, or else
-- five seconds.
abbrev pub off_time : ℤ → ℤ → ℤ
off_time off_for own = or_default (or_default off_for own) default_off_duration

module _ {W : Type 0} (ctx : Context) (c : Controller W) (off_for : ℤ) where
  abbrev duration : ℤ
  duration = or_default off_for default_off_duration

  cycle_parts :
      (w w2 : W)
      → cycle ctx c off_for none w ≡ (w2, none)
      → (w1 : W) × (c.turn_off w ≡ (w1, none))
        × (ctx duration ≡ false)
        × (c.turn_on w1 ≡ (w2, none))
  unfolding cycle
  cycle_parts w w2 h = ((c.turn_off w).0, ground arith, ground arith, ground arith)

  -- A cycle without a poll succeeds exactly when the outlet is turned off, the whole off time
  -- passes and the outlet is then turned on, in this order.
  pub cycle_iff :
      (w w2 : W)
      → (cycle ctx c off_for none w ≡ (w2, none)) ↔ (
          (w1 : W) × (c.turn_off w ≡ (w1, none))
          × (ctx duration ≡ false)
          × (c.turn_on w1 ≡ (w2, none)))
  cycle_iff w w2 = (λ h. cycle_parts w w2 h, λ h. unfold cycle in ground (arith, h.1, h.2, h.3))

  -- Where a cycle stops: a failed Off leaves the outlet as that call left it, and On is not tried;
  -- an interrupted wait leaves it turned off.
  pub cycle_stops :
      (w : W)
      → ((w1 : W) (e : PowerError)
          → c.turn_off w ≡ (w1, some e)
          → cycle ctx c off_for none w ≡ (w1, some (power_off e)))
        × ((w1 : W)
            → c.turn_off w ≡ (w1, none)
            → ctx duration ≡ true
            → cycle ctx c off_for none w ≡ (w1, some context_done))
  unfolding cycle
  cycle_stops w = ((λ w1 e h. ground (arith, h)), (λ w1 h over. ground (arith, h, over)))

-- On the in-memory controller: a cycle logs itself, turns the outlet off and then on again; if it is
-- interrupted meanwhile, the outlet stays off.
pub fake_cycle_lem :
    (ctx : Context) (off_for : ℤ) (f : Fake)
    → fake_cycle ctx off_for f ≡ (
        if ctx (off_time off_for (pos 1_000_000))
        then (
          record { state = off; events = f.events ++ (did_cycle ∷ did_off ∷ []) },
          some context_done,
        )
        else (
          record { state = on; events = f.events ++ (did_cycle ∷ did_off ∷ did_on ∷ []) },
          none,
        ))
unfolding fake_cycle
fake_cycle_lem ctx off_for f = elim (Bool-cases (ctx (off_time off_for (pos 1_000_000)))) [
  | inl over ↦ rw over (simp append_assoc)
  | inr whole ↦ rw whole (simp append_assoc)
]

-- A world with a count of the power losses announced.
pub record Counted (W : Type 0) : Type 0 where
  pub world : W
  pub losses : ℕ

module _ {W : Type 0} where
  -- A controller that leaves the count alone.
  abbrev pub lifted : Controller W → Controller (Counted W)
  lifted c = record {
    get_status =
        λ s. let (w, r) = c.get_status s.world in (record { world = w; losses = s.losses }, r);
    turn_on = λ s. let (w, r) = c.turn_on s.world in (record { world = w; losses = s.losses }, r);
    turn_off = λ s. let (w, r) = c.turn_off s.world in (record { world = w; losses = s.losses }, r);
    power_cycle = λ ctx off_for s.
        let (w, r) = c.power_cycle ctx off_for s.world in
        (record { world = w; losses = s.losses }, r);
  }

  abbrev pub announce : Counted W → Counted W
  announce s = record s { losses = s.losses + 1 }

-- The callback of a hooked controller runs once for an Off and once for a Cycle, whatever their
-- results, and not for On or Status; the device sees the same calls with the same results.
pub hook_once :
    {W : Type 0} (c : Controller W) (ctx : Context) (off_for : ℤ) (s : Counted W)
    → let h = hook (lifted c) (some announce) in
      let (w_off, r_off) = c.turn_off s.world in
      let (w_cycle, r_cycle) = c.power_cycle ctx off_for s.world in
      let (w_on, r_on) = c.turn_on s.world in
      let (w_status, r_status) = c.get_status s.world in
      (h.turn_off s ≡ (record { world = w_off; losses = s.losses + 1 }, r_off))
      × (h.power_cycle ctx off_for s ≡ (record { world = w_cycle; losses = s.losses + 1 }, r_cycle))
      × (h.turn_on s ≡ (record { world = w_on; losses = s.losses }, r_on))
      × (h.get_status s ≡ (record { world = w_status; losses = s.losses }, r_status))
unfolding hook
hook_once c ctx off_for s = (refl, refl, refl, refl)

set_error_iff :
    (s : SetAnswer) → (set_error s ≡ none) ↔ ((s ≡ set_done none) ⊎ (s ≡ set_done (some 0)))
unfolding set_error
set_error_iff (set_failed e) = ((λ h. cc), (λ h. ground arith))
set_error_iff (set_done none) = ((λ h. inl refl), (λ h. refl))
set_error_iff (set_done (some zero)) = ((λ h. inr refl), (λ h. refl))
set_error_iff (set_done (some (suc n))) = ((λ h. ground arith), (λ h. ground arith))

-- An SNMP Set is taken for done exactly when the connection is up, the Set is answered without a
-- failure, and the answer's error status, if it has one, is zero.
pub set_command_iff :
    {W : Type 0} (snmp : Snmp W) (a : Apc) (cmd : ℕ) (w : W)
    → ((set_command snmp a cmd w).1 ≡ none) ↔ (
        ((snmp.connect w).1 ≡ none)
        × (((snmp.set a.cmd_oid cmd (snmp.connect w).0).1 ≡ set_done none)
            ⊎ ((snmp.set a.cmd_oid cmd (snmp.connect w).0).1 ≡ set_done (some 0))))
set_command_iff snmp a cmd w = (
  λ h. unfold set_command in ground (arith, h, (set_error_iff answer).0),
  λ h. unfold set_command in ground (arith, h.0, (set_error_iff answer).1 h.1),
)
  where
    answer : SetAnswer
    answer = (snmp.set a.cmd_oid cmd (snmp.connect w).0).1
