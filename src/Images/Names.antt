-- ===== src/Images/Names.antt =====
-- internal/tftp/imagestore.go: which names of images are accepted.
use unwedge.Base.{
  ℕ, ◌≡◌, refl, Bytes, codes, Bool, true, false, ◌||◌, Option, some, none, [], ◌∷◌, ◌++◌, ◌==◌,
  if◌then◌else◌, eqb, eqb_refl, Bool-cases, inl, inr, elem, trim_right, arith,
}
use unwedge.Images.{Store, on_disk_name, slash, after_slash, base, is_refused, sanitize}

pub trim_right_no_slash : (s : Bytes) → elem slash s ≡ false → trim_right (λ b. b == slash) s ≡ s
unfolding elem trim_right
trim_right_no_slash [] h = refl
trim_right_no_slash (c ∷ []) h = ground arith
trim_right_no_slash (c ∷ d ∷ s) h =
    let tail : trim_right (λ b. b == slash) (d ∷ s) ≡ d ∷ s =
      trim_right_no_slash (d ∷ s) (ground arith) in
    rw tail refl

pub after_slash_no_slash : (s : Bytes) → elem slash s ≡ false → after_slash s ≡ s
unfolding after_slash
after_slash_no_slash [] h = refl
after_slash_no_slash (c ∷ s) h = rw h refl

base_no_slash : (c : ℕ) (s : Bytes) → elem slash (c ∷ s) ≡ false → base (c ∷ s) ≡ c ∷ s
unfolding base
base_no_slash c s h = rw (base, trim_right_no_slash (c ∷ s) h) (after_slash_no_slash (c ∷ s) h)

-- The names that would leave the directory or name it.
unfoldable pub is_unsafe : Bytes → Bool
is_unsafe name =
    eqb name []
    || eqb name (codes ".")
    || eqb name (codes "..")
    || elem slash name
    || elem b'\\' name

is_refused_lem : (name : Bytes) → is_refused name ≡ is_unsafe name
unfolding is_refused is_unsafe eqb base
is_refused_lem [] = refl
is_refused_lem (c ∷ s) = elim (Bool-cases (elem slash (c ∷ s))) [
  | inl h ↦ ground (arith, h)
  | inr h ↦ ground (arith, base_no_slash c s h, eqb_refl (c ∷ s))
]

-- The name by which an image is known is its own.
pub base_safe : (name : Bytes) → is_unsafe name ≡ false → base name ≡ name
unfolding is_unsafe eqb
base_safe [] h = absurd (cc h)
base_safe (c ∷ s) h = base_no_slash c s (ground arith)

-- A name is accepted, as it is, exactly when it is not empty, `.` or `..` and has neither a slash
-- nor a backslash.
pub sanitize_lem : (name : Bytes) → sanitize name ≡ (if is_unsafe name then none else some name)
unfolding sanitize
sanitize_lem name = elim (Bool-cases (is_unsafe name)) [
  | inl h ↦ rw (is_refused_lem name, h) refl
  | inr h ↦ rw (is_refused_lem name, h, base_safe name h) refl
]

-- What OnDiskName answers: the prefix before a safe name.
pub on_disk_name_lem :
    (s : Store) (name : Bytes)
    → on_disk_name s name ≡ (if is_unsafe name then none else some (s.prefix ++ name))
unfolding on_disk_name
on_disk_name_lem s name =
    rw (on_disk_name, sanitize_lem name)
      elim (is_unsafe name)
        as (λ b.
          elim (if b then none else some name) as (λ o. Option Bytes) [
            | none ↦ none
            | some a ↦ some (s.prefix ++ a)
          ]
          ≡ (if b then none else some (s.prefix ++ name))) [ true ↦ refl | false ↦ refl ]

-- A name that has a path is its own base.
pub base-on_disk_name :
    (s : Store) (name path : Bytes) → on_disk_name s name ≡ some path → base name ≡ name
base-on_disk_name s name path h = elim (Bool-cases (is_unsafe name)) [
  | inl u ↦ absurd (cc (on_disk_name_lem s name, h, u))
  | inr u ↦ base_safe name u
]
