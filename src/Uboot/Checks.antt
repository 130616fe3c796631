-- ===== src/Uboot/Checks.antt =====
-- internal/uboot/uboot.go: when a checked command succeeds.
use unwedge.Base.{◌≡◌, Bytes, false, contains_sub, to_lower}

abbrev pub IsAbsent : Bytes → Bytes → Type 0
IsAbsent output k = contains_sub (to_lower output) (to_lower k) ≡ false
