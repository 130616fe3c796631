-- ===== src/Images/Namespace.antt =====
-- internal/tftp/imagestore.go: the prefixes of the instances in a shared directory.
use unwedge.Base.{
  ℕ, ◌≡◌, ◌≢◌, refl, sym, ap, Bytes, codes, true, false, Option, some, none, [], ◌∷◌, ◌++◌,
  append_assoc, if◌then◌else◌, has_prefix, find_sub, contains_sub, arith,
}
use unwedge.Images.Names.{is_unsafe, sanitize_lem}
use unwedge.Images.{Store, namespaced, on_disk_name}

-- No `--` in the name, and none that the separator completes.
abbrev pub IsClear : Bytes → Type 0
IsClear n = contains_sub (n ++ codes "-") (codes "--") ≡ false

contains_sub_tail :
    (c : ℕ) (s p : Bytes) → contains_sub (c ∷ s) p ≡ false → contains_sub s p ≡ false
unfolding contains_sub find_sub
contains_sub_tail c s p h = ground arith

contains_sub_dashes : (s : Bytes) → contains_sub (b'-' ∷ b'-' ∷ s) (codes "--") ≡ true
unfolding contains_sub find_sub has_prefix
contains_sub_dashes s = refl

prefixes_apart :
    (m n x y : Bytes)
    → IsClear m
    → IsClear n
    → m ++ (b'-' ∷ b'-' ∷ x) ≡ n ++ (b'-' ∷ b'-' ∷ y)
    → (m ≡ n) × (x ≡ y)
prefixes_apart [] [] x y hm hn e = (refl, ground arith)
prefixes_apart [] (c ∷ []) x y hm hn e =
    absurd (unfold contains_sub find_sub has_prefix in ground (arith, hn, e))
prefixes_apart [] (c ∷ d ∷ n) x y hm hn e =
    absurd (unfold contains_sub find_sub has_prefix in ground (arith, hn, e))
prefixes_apart (c ∷ []) [] x y hm hn e =
    absurd (unfold contains_sub find_sub has_prefix in ground (arith, hm, e))
prefixes_apart (c ∷ d ∷ m) [] x y hm hn e =
    absurd (unfold contains_sub find_sub has_prefix in ground (arith, hm, e))
prefixes_apart (c ∷ m) (d ∷ n) x y hm hn e =
    let rest =
      prefixes_apart m n x y (contains_sub_tail c (m ++ codes "-") (codes "--") hm)
        (contains_sub_tail d (n ++ codes "-") (codes "--") hn) (ground arith) in
    (ground (arith, rest), rest.1)

-- Where a file of an instance lies.
pub path_of :
    (c : ℕ) (n : Bytes) (s : Store) (x : Bytes)
    → on_disk_name (namespaced (c ∷ n) s) x
      ≡ (if is_unsafe x then none else some ((c ∷ n) ++ (b'-' ∷ b'-' ∷ x)))
unfolding on_disk_name namespaced
path_of c n s x =
    rw (on_disk_name, sanitize_lem x)
      elim (is_unsafe x)
        as (λ b.
          elim (if b then none else some x) as (λ o. Option Bytes) [
            | none ↦ none
            | some a ↦ some (((c ∷ n) ++ codes "--") ++ a)
          ]
          ≡ (if b then none else some ((c ∷ n) ++ (b'-' ∷ b'-' ∷ x)))) [
            | true ↦ refl
            | false ↦ ap some (append_assoc (c ∷ n) (codes "--") x)
          ]

-- Two named instances whose names are clear never share a file of the directory.
pub on_disk_name_apart :
    (m n : Bytes) (s : Store) (x y p : Bytes)
    → m ≢ []
    → n ≢ []
    → IsClear m
    → IsClear n
    → on_disk_name (namespaced m s) x ≡ some p
    → on_disk_name (namespaced n s) y ≡ some p
    → (m ≡ n) × (x ≡ y)
on_disk_name_apart [] n s x y p hm hn cm cn hx hy = absurd (hm refl)
on_disk_name_apart (c ∷ m) [] s x y p hm hn cm cn hx hy = absurd (hn refl)
on_disk_name_apart (c ∷ m) (d ∷ n) s x y p hm hn cm cn hx hy =
    prefixes_apart (c ∷ m) (d ∷ n) x y cm cn (ground (arith, path_of c m s x, path_of d n s y))

-- For an instance with a name `n`, its image `-x` is the same file as the image `x` of the instance
-- `n-`, if both image names are safe.
pub on_disk_name-collides :
    (c : ℕ) (n : Bytes) (s : Store) (x : Bytes)
    → is_unsafe x ≡ false
    → is_unsafe (b'-' ∷ x) ≡ false
    → on_disk_name (namespaced (c ∷ n) s) (b'-' ∷ x)
      ≡ on_disk_name (namespaced (c ∷ n ++ codes "-") s) x
on_disk_name-collides c n s x h h' =
    (rw (path_of c n s (b'-' ∷ x), path_of c (n ++ codes "-") s x, h, h')
      (ap (λ t. some (c ∷ t)) (sym (append_assoc n (codes "-") (b'-' ∷ b'-' ∷ x)))))
