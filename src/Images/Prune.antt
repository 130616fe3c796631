-- ===== src/Images/Prune.antt =====
-- internal/tftp/imagestore.go: what a sweep removes.
use unwedge.Base.{
  ℕ, ◌+◌, ◌≡◌, refl, Bytes, Bool, true, false, ◌&&◌, ◌||◌, not, Option, some, none, leb, [], ◌∷◌,
  map, if◌then◌else◌, arith,
}
use unwedge.Base.Int.{ℤ, is_positive, to_ℕ}
use unwedge.Images.{
  Entry, Directory, Fate, removable, vanished_before_stat, vanished_before_remove, remove_fails,
  is_stale, prune_entry, sweep, prune, first_of_errors,
}

unfoldable pub filter : (Entry → Bool) → Directory → Directory
filter p [] = []
filter p (e ∷ d) = let rest = filter p d in if p e then e ∷ rest else rest

abbrev pub is_removable : Fate → Bool
is_removable removable = true
is_removable vanished_before_stat = false
is_removable vanished_before_remove = false
is_removable remove_fails = false

abbrev pub is_vanished : Fate → Bool
is_vanished removable = false
is_vanished vanished_before_stat = true
is_vanished vanished_before_remove = false
is_vanished remove_fails = false

abbrev pub is_raced : Fate → Bool
is_raced removable = false
is_raced vanished_before_stat = false
is_raced vanished_before_remove = true
is_raced remove_fails = false

abbrev pub is_stuck : Fate → Bool
is_stuck removable = false
is_stuck vanished_before_stat = false
is_stuck vanished_before_remove = false
is_stuck remove_fails = true

-- The last change of an entry and the whole age lie behind.
unfoldable pub is_old : ℕ → ℕ → Entry → Bool
is_old max_age now e = leb (e.mod_time + max_age) now

-- A regular file that is older than the age and whose remove succeeds.
unfoldable pub is_pruned : ℕ → ℕ → (Bytes → Fate) → Entry → Bool
is_pruned max_age now fate e = not e.is_dir && is_old max_age now e && is_removable (fate e.name)

-- A file that another remover takes first: before the stat, or, if it is old, before the remove.
unfoldable pub is_gone : ℕ → ℕ → (Bytes → Fate) → Entry → Bool
is_gone max_age now fate e =
    not e.is_dir && (is_vanished (fate e.name) || (is_old max_age now e && is_raced (fate e.name)))

-- An old regular file whose remove fails.
unfoldable pub is_failed : ℕ → ℕ → (Bytes → Fate) → Entry → Bool
is_failed max_age now fate e = not e.is_dir && is_old max_age now e && is_stuck (fate e.name)

abbrev pub first_name : Directory → Option Bytes
first_name [] = none
first_name (e ∷ d) = some e.name

-- What a sweep leaves.
unfoldable pub is_kept : ℕ → ℕ → (Bytes → Fate) → Entry → Bool
unfolding is_pruned is_gone
is_kept max_age now fate e = not (is_pruned max_age now fate e) && not (is_gone max_age now fate e)

module _ (max_age now : ℕ) (fate : Bytes → Fate) where
  sweep-removed :
      (d : Directory)
      → (sweep max_age now fate d).removed
        ≡ map (λ e. e.name) (filter (is_pruned max_age now fate) d)
  unfolding sweep prune_entry filter is_pruned is_stale is_old
  sweep-removed [] = refl
  sweep-removed (e ∷ d) =
      elim (fate e.name)
        as (λ f.
          (prune_entry max_age now f e (sweep max_age now fate d)).removed
          ≡ map (λ e'. e'.name)
              (if not e.is_dir && is_old max_age now e && is_removable f
                then e ∷ filter (is_pruned max_age now fate) d
                else filter (is_pruned max_age now fate) d)) [
                  | removable ↦ ground (arith, sweep-removed d)
                  | vanished_before_stat ↦ ground (arith, sweep-removed d)
                  | vanished_before_remove ↦ ground (arith, sweep-removed d)
                  | remove_fails ↦ ground (arith, sweep-removed d)
                ]

  sweep-kept :
      (d : Directory) → (sweep max_age now fate d).kept ≡ filter (is_kept max_age now fate) d
  unfolding sweep prune_entry filter is_kept is_stale is_old
  sweep-kept [] = refl
  sweep-kept (e ∷ d) =
      elim (fate e.name)
        as (λ f. (prune_entry max_age now f e (sweep max_age now fate d)).kept ≡ (
          if not (not e.is_dir && is_old max_age now e && is_removable f)
            && not (not e.is_dir && (is_vanished f || (is_old max_age now e && is_raced f)))
          then e ∷ filter (is_kept max_age now fate) d
          else filter (is_kept max_age now fate) d)) [
            | removable ↦ ground (arith, sweep-kept d)
            | vanished_before_stat ↦ ground (arith, sweep-kept d)
            | vanished_before_remove ↦ ground (arith, sweep-kept d)
            | remove_fails ↦ ground (arith, sweep-kept d)
          ]

  sweep-first_err :
      (d : Directory)
      → (sweep max_age now fate d).first_err ≡ first_name (filter (is_failed max_age now fate) d)
  unfolding sweep prune_entry filter is_failed is_stale is_old first_of_errors
  sweep-first_err [] = refl
  sweep-first_err (e ∷ d) =
      elim (fate e.name)
        as (λ f.
          (prune_entry max_age now f e (sweep max_age now fate d)).first_err
          ≡ first_name (
              if not e.is_dir && is_old max_age now e && is_stuck f
              then e ∷ filter (is_failed max_age now fate) d
              else filter (is_failed max_age now fate) d)) [
                | removable ↦ ground (arith, sweep-first_err d)
                | vanished_before_stat ↦ ground (arith, sweep-first_err d)
                | vanished_before_remove ↦ ground (arith, sweep-first_err d)
                | remove_fails ↦ ground (arith, sweep-first_err d)
              ]

-- With a positive age, Prune reports and removes exactly the regular files whose last change is at
-- least the age ago and whose remove succeeds, whatever fails for others; what it leaves is the rest,
-- in order, less the files that vanish during the sweep; and its error is about the first old file
-- whose remove fails, if there is one. With any other age it does nothing.
pub prune_lem :
    (max_age : ℤ) (now : ℕ) (fate : Bytes → Fate) (d : Directory)
    → let age = to_ℕ max_age in
      let swept = prune max_age now fate d in
      (is_positive max_age ≡ true
        → (swept.removed ≡ map (λ e. e.name) (filter (is_pruned age now fate) d))
          × (swept.kept ≡ filter (is_kept age now fate) d)
          × (swept.first_err ≡ first_name (filter (is_failed age now fate) d)))
      × (is_positive max_age ≡ false
          → (swept.removed ≡ []) × (swept.kept ≡ d) × (swept.first_err ≡ none))
unfolding prune
prune_lem max_age now fate d = (
  (λ h. (
    rw h (sweep-removed (to_ℕ max_age) now fate d),
    rw h (sweep-kept (to_ℕ max_age) now fate d),
    rw h (sweep-first_err (to_ℕ max_age) now fate d),
  )),
  (λ h. (rw h refl, rw h refl, rw h refl)),
)
