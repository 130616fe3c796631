-- ===== src/Ring/Tests.antt =====
-- internal/serialconsole/ring_test.go and more: runs of a small ring, and instances of the theorems.
use unwedge.Base.{◌≡◌, ◌||◌, refl, codes, true, false, [], ◌∷◌, last_n, ltb, arith}
use unwedge.Base.Int.{pos, to_ℕ, is_positive}
use unwedge.Ring.{Ring, new_ring, write, reset, snapshot, limits, stored, copy_at}
use unwedge.Ring.Contents.{IsValid}
use unwedge.Ring.History.{write_all, has_full_chunk, snapshot-write_all}

abbrev wrapped : Ring
wrapped = write_all (new_ring 8) (codes "abcdef" ∷ codes "ghij" ∷ [])

-- TestRingOverflow: ten bytes in a ring of eight.
ten_in_eight : snapshot wrapped (pos 0) ≡ (codes "cdefghij", true)
unfolding snapshot write new_ring limits is_positive stored copy_at
ten_in_eight = refl

ten_in_eight_tail : snapshot wrapped (pos 3) ≡ (codes "hij", true)
unfolding snapshot write new_ring limits is_positive to_ℕ stored copy_at
ten_in_eight_tail = refl

abbrev turned : Ring
turned = record { buf = codes "cdab"; size = 4; start = 2; total_in = 9; truncated = true }

turned-IsValid : IsValid turned
turned-IsValid = omega arith

snapshot-write_all_example :
    let r =
      write_all
        (reset (write_all (new_ring 4) (codes "old" ∷ [])))
        (codes "abc" ∷ codes "def" ∷ []) in
    let (log, truncated) = snapshot r (pos 0) in
    (log ≡ last_n 4 (codes "abcdef"))
    × (r.total_in ≡ 6)
    × (truncated ≡ false → log ≡ codes "abcdef")
    × (truncated ≡ (has_full_chunk 4 (codes "abc" ∷ codes "def" ∷ []) || ltb 4 6))
snapshot-write_all_example =
    snapshot-write_all 4 (codes "old" ∷ []) (codes "abc" ∷ codes "def" ∷ [])
