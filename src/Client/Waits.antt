-- ===== src/Client/Waits.antt =====
-- internal/client/client.go with internal/server/session.go: a wait on its way to the daemon.
use unwedge.Base.{
  ℕ, suc, ◌+◌, ◌*◌, ◌/◌, ◌^◌, ◌≤◌, ◌<◌, ◌≡◌, refl, ap, ◌∙◌, true, ◌==◌, Bool-cases, inl, inr, arith,
}
use unwedge.Base.Int.{pos, negsuc, is_negative}
use unwedge.Grpc.{millisecond, milliseconds, int64}
use unwedge.Gate.Calls.{milliseconds_lem}
use unwedge.Client.{wait_ms}

-- `d` milliseconds stand for `n` nanoseconds, less than a millisecond off.
abbrev pub Near : ℕ → ℕ → Type 0
Near n d = (n < d * millisecond + millisecond) × (d * millisecond < n + millisecond)

encoded :
    (n : ℕ)
    → suc n < 2 ^ 63
    → (d : ℕ) × (wait_ms (pos (suc n)) ≡ pos d) × (0 < d) × (d ≤ 9223372036854) × Near (suc n) d
unfolding wait_ms
encoded n h = elim (Bool-cases (suc n / millisecond == 0)) [
  | inl short ↦
      (1, rw (wait_ms, short) refl, omega arith, omega arith, (ground arith, ground arith))
  | inr long ↦ (
    suc n / millisecond,
    rw (wait_ms, long) refl,
    ground arith,
    omega arith,
    (omega arith, omega arith),
  )
]

-- A wait keeps its meaning on its way to the daemon: one below zero arrives below zero (fail fast),
-- zero arrives as zero (no limit), and a positive one arrives positive, less than a millisecond off.
pub milliseconds-wait_ms :
    (n : ℕ)
    → suc n < 2 ^ 63
    → (is_negative (milliseconds (wait_ms (negsuc n))) ≡ true)
      × (milliseconds (wait_ms (pos 0)) ≡ pos 0)
      × ((d : ℕ) × (milliseconds (wait_ms (pos (suc n))) ≡ pos (d * millisecond))
          × (0 < d)
          × Near (suc n) d)
milliseconds-wait_ms n h =
    let (d, e, more, small, near) = encoded n h in
    (
      unfold wait_ms milliseconds int64 is_negative in refl,
      unfold wait_ms milliseconds int64 in refl,
      (d, ap milliseconds e ∙ (milliseconds_lem d).0 small, more, near),
    )
