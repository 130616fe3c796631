-- ===== src/Daemon/Startup.antt =====
-- cmd/unwedged/main.go: what a configuration that has been loaded is good for.
use unwedge.Base.{
  ℕ, ◌*◌, ◌/◌, ◌≤◌, ◌≡◌, ◌≢◌, inl, inr, refl, sym, ap, ◌∙◌, Bytes, true, Option, none, some, [],
  ◌∷◌, eqb, eqb_iff, Option-cases, Bool-cases, arith,
}
use unwedge.Base.Int.{is_positive, to_ℕ}
use unwedge.Power.Apc.{Apc, new_apc, oid_of, oid_outlet_command, oid_outlet_state}
use unwedge.Images.{Store, new_store}
use unwedge.Daemon.{
  Config, validate, validated, named, load, default, apc_config, store_in, service_store,
  is_enabled, reaper_interval, minute, hour,
}

validated-inr : (c d : Config) → validated c ≡ inr d → (c ≡ d) × (validate c ≡ none)
unfolding validated
validated-inr c d h = elim (Option-cases (validate c)) [
  | inl e ↦ (cc (h, e), e)
  | inr (x, e) ↦ absurd (cc (h, e))
]

-- What Load returns has passed Validate.
pub validate-load :
    (read : Bytes → Option Bytes) (overlay : Bytes → Config → Option Config) (path : Bytes)
    (c : Config)
    → load read overlay path ≡ inr c
    → validate c ≡ none
unfolding load
validate-load read overlay path c h = elim (Option-cases (read path)) [
  | inl e ↦ absurd (cc (rw (load, e) at h))
  | inr (b, e) ↦ elim (Option-cases (overlay b default)) [
    | inl e' ↦ absurd (cc (rw (load, e, e') at h))
    | inr (d, e') ↦
        let facts = validated-inr (named path d) c (rw (load, e, e') at h) in
        sym (ap validate facts.0) ∙ facts.1
  ]
]

valid_outlet :
    (c : Config) → validate c ≡ none → c.power.address ≢ [] → is_positive c.power.outlet ≡ true
unfolding validate
valid_outlet c h ne = ground (arith, h, eqb_iff c.power.address [])

valid_dir : (c : Config) → validate c ≡ none → is_enabled c.tftp.enabled ≡ true → c.tftp.dir ≢ []
unfolding validate
valid_dir c h on = λ e. ground (arith, h, on, eqb_iff c.tftp.dir [])

new_apc_starts :
    (c : Config)
    → c.power.address ≢ []
    → is_positive c.power.outlet ≡ true
    → (a : Apc) × (new_apc (apc_config c) ≡ inr a)
unfolding new_apc apc_config
new_apc_starts c ne h = elim (Bool-cases (eqb c.power.address [])) [
  | inl e ↦ absurd (ne ((eqb_iff c.power.address []).0 e))
  | inr e ↦ (
    record {
      cfg = apc_config c;
      cmd_oid = oid_of c.power.command_oid_base oid_outlet_command (to_ℕ c.power.outlet);
      st_oid = oid_of c.power.state_oid_base oid_outlet_state (to_ℕ c.power.outlet);
    },
    rw (e, h) refl,
  )
]

store_starts : (dir name : Bytes) → dir ≢ [] → (s : Store) × (store_in dir name ≡ some s)
unfolding store_in new_store
store_starts [] name ne = absurd (ne refl)
store_starts (b ∷ dir) name ne = (_, refl)

-- A loaded configuration that names a power unit is one that power.NewAPC takes, and one whose TFTP
-- server is on has an image store.
pub load-starts :
    (read : Bytes → Option Bytes) (overlay : Bytes → Config → Option Config) (path : Bytes)
    (c : Config)
    → load read overlay path ≡ inr c
    → (c.power.address ≢ [] → (a : Apc) × (new_apc (apc_config c) ≡ inr a))
      × (is_enabled c.tftp.enabled ≡ true → (s : Store) × (service_store c ≡ some s))
load-starts read overlay path c h =
    let ok : validate c ≡ none = validate-load read overlay path c h in
    (
      λ ne. new_apc_starts c ne (valid_outlet c ok ne),
      λ on. (unfold service_store in store_starts c.tftp.dir c.name (valid_dir c ok on)),
    )

-- The time between two sweeps is at least a minute, at most an hour, and the sixth part of the age
-- where that lies between.
pub reaper_interval_lem :
    (max_age : ℕ)
    → (minute ≤ reaper_interval max_age)
      × (reaper_interval max_age ≤ hour)
      × (6 * minute ≤ max_age → max_age ≤ 6 * hour → reaper_interval max_age ≡ max_age / 6)
unfolding reaper_interval
reaper_interval_lem max_age = (ground arith, ground arith, λ low high. ground arith)
