-- ===== src/ClientConfig/Flags.antt =====
-- internal/clientconfig/clientconfig.go: the early scan for the -config flag.
use unwedge.Base.{
  ℕ, zero, suc, ◌≡◌, refl, ◌∙◌, Bytes, codes, false, List, [], ◌∷◌, ◌++◌, All, eqb, replicate,
  trim_left,
}
use unwedge.ClientConfig.{cut_equals, is_dash, pre_scan_config}

-- An argument that neither ends the flags nor names this one.
abbrev pub IsOther : Bytes → Type 0
IsOther a =
    (eqb a (codes "--") ≡ false)
    × (eqb (cut_equals (trim_left is_dash a)).0 (codes "config") ≡ false)

-- The flag with any number of dashes.
abbrev pub dashed : ℕ → Bytes → Bytes
dashed n name = replicate n b'-' ++ name

pre_scan_config-skip :
    (before rest : List Bytes)
    → All IsOther before
    → pre_scan_config (before ++ rest) ≡ pre_scan_config rest
unfolding pre_scan_config
pre_scan_config-skip [] rest h = refl
pre_scan_config-skip (a ∷ before) rest h = rw (h.0.0, h.0.1) (pre_scan_config-skip before rest h.1)

trim_left-dashed :
    (n c : ℕ) (s : Bytes) → is_dash c ≡ false → trim_left is_dash (dashed n (c ∷ s)) ≡ c ∷ s
unfolding trim_left
trim_left-dashed zero c s h = rw h refl
trim_left-dashed (suc n) c s h = trim_left-dashed n c s h

dashed-ne : (n c : ℕ) (s : Bytes) → is_dash c ≡ false → eqb (dashed n (c ∷ s)) (codes "--") ≡ false
unfolding eqb
dashed-ne zero c s h = rw h refl
dashed-ne (suc zero) c s h = rw h refl
dashed-ne (suc (suc zero)) c s h = refl
dashed-ne (suc (suc (suc n))) c s h = refl

-- Behind arguments that do not name it, the flag is found with either dash form: its value is what
-- follows the equals sign, or else the next argument; and nothing is looked at behind `--`.
pub pre_scan_config_lem :
    (before : List Bytes) (n : ℕ) (v : Bytes) (rest : List Bytes)
    → All IsOther before
    → (pre_scan_config (before ++ dashed n (codes "config=" ++ v) ∷ rest) ≡ v)
      × (pre_scan_config (before ++ dashed n (codes "config") ∷ v ∷ rest) ≡ v)
      × (pre_scan_config (before ++ codes "--" ∷ rest) ≡ [])
unfolding pre_scan_config cut_equals eqb
pre_scan_config_lem before n v rest h = (
  pre_scan_config-skip before (dashed n (codes "config=" ++ v) ∷ rest) h
      ∙ rw
          (
            dashed-ne n b'c' (codes "onfig=" ++ v) refl,
            trim_left-dashed n b'c' (codes "onfig=" ++ v) refl,
          )
          refl,
  pre_scan_config-skip before (dashed n (codes "config") ∷ v ∷ rest) h
      ∙ rw (dashed-ne n b'c' (codes "onfig") refl, trim_left-dashed n b'c' (codes "onfig") refl)
          refl,
  pre_scan_config-skip before (codes "--" ∷ rest) h,
)
