-- ===== src/Grpc.antt =====
-- What the gRPC service returns: a response, or a status with a code of google.golang.org/grpc/codes
-- (its text is left out); `pending` while the call has not returned.
use unwedge.Base.{ℕ, suc, ◌*◌, ◌-◌, ◌%◌, ◌^◌, ltb, if◌then◌else◌}
use unwedge.Base.Int.{ℤ, pos, negsuc}

pub data Code : Type 0 where
  canceled invalid_argument deadline_exceeded not_found failed_precondition aborted : Code
  unimplemented internal unavailable : Code

pub data Reply {ℓ} (A : Type ℓ) : Type ℓ where
  reply : A → Reply A
  status : Code → Reply A
  pending : Reply A

abbrev pub millisecond : ℕ
millisecond = 1_000_000

-- The int64 that a natural number wraps round to.
unfoldable pub int64 : ℕ → ℤ
int64 n = let low = n % 2 ^ 64 in if ltb low (2 ^ 63) then pos low else negsuc (2 ^ 64 - 1 - low)

-- `time.Duration(ms) * time.Millisecond`, in int64 arithmetic.
unfoldable pub milliseconds : ℤ → ℤ
unfolding int64
milliseconds (pos ms) = int64 (ms * millisecond)
milliseconds (negsuc k) = int64 (suc k * (2 ^ 64 - millisecond))
