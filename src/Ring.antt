-- ===== src/Ring.antt =====
-- internal/serialconsole/ring.go: the scrollback ring buffer. `copy_at d off s` is Go's
-- `copy(d[off:], s)`; the counters are unbounded numbers.
pub mod Contents
pub mod Stored
pub mod Snapshot
pub mod Write
pub mod History
mod Tests
use unwedge.Base.{
  ℕ, ◌+◌, ◌-◌, ◌%◌, min, Bytes, Bool, true, false, ◌&&◌, ◌||◌, ◌++◌, length, take, drop, replicate,
  ltb, leb, if◌then◌else◌,
}
use unwedge.Base.Int.{ℤ, is_positive, to_ℕ}

pub record Ring : Type 0 where
  pub buf : Bytes
  pub size : ℕ
  pub start : ℕ
  pub total_in : ℕ
  pub truncated : Bool

unfoldable pub copy_at : Bytes → ℕ → Bytes → Bytes
copy_at dst off src = take off dst ++ (take (length dst - off) src ++ drop (off + length src) dst)

unfoldable pub new_ring : ℕ → Ring
new_ring capacity =
    let c = if ltb capacity 1 then 1 else capacity in
    record { buf = replicate c 0; size = 0; start = 0; total_in = 0; truncated = false }

-- The bytes after both copies of `write`, which may go round the end of the buffer.
unfoldable pub stored : Ring → Bytes → Bytes
stored r p =
    let c = length r.buf in
    let end = (r.start + r.size) % c in
    let n = min (c - end) (length p) in
    let once = copy_at r.buf end p in if ltb n (length p) then copy_at once 0 (drop n p) else once

unfoldable pub write : Ring → Bytes → Ring
write r p =
    let c = length r.buf in
    let free = c - r.size in
    let total = r.total_in + length p in
    if leb c (length p)
    then record {
      buf = copy_at r.buf 0 (drop (length p - c) p);
      size = c;
      start = 0;
      total_in = total;
      truncated = true;
    }
    else if ltb free (length p)
    then record {
      buf = stored r p;
      size = c;
      start = (r.start + (length p - free)) % c;
      total_in = total;
      truncated = true;
    }
    else record r { buf = stored r p; size = r.size + length p; total_in = total }

unfoldable pub reset : Ring → Ring
reset r = record r { size = 0; start = 0; total_in = 0; truncated = false }

-- `maxBytes > 0 && maxBytes < n`
unfoldable pub limits : ℤ → ℕ → Bool
limits max_bytes n = is_positive max_bytes && ltb (to_ℕ max_bytes) n

unfoldable pub snapshot : Ring → ℤ → Bytes × Bool
snapshot r max_bytes =
    let c = length r.buf in
    let n = if limits max_bytes r.size then to_ℕ max_bytes else r.size in
    let begin = (r.start + (r.size - n)) % c in
    let first = min n (c - begin) in
    let out = copy_at (replicate n 0) 0 (drop begin r.buf) in
    (if ltb first n then copy_at out first r.buf else out, r.truncated || limits max_bytes r.size)
