-- ===== src/Images/Listing.antt =====
-- internal/tftp/imagestore.go: the files that List describes.
use mathlib.Core.List.{Memᴰ}
use mathlib.Core.List.Memᴰ.{head, tail}
use unwedge.Base.{
  ℕ, ◌≡◌, refl, sym, Bytes, Bool, true, false, ◌||◌, [], List, ◌∷◌, ◌++◌, All, length, drop,
  Bool-cases, inl, inr, eqb, has_prefix, drop-has_prefix, arith,
}
use unwedge.Images.{
  Info, Entry, Directory, Store, Access, no_stat, no_read, readable, is_listed, info_shown, listed,
  insert_info, sort_by_name, list_images, is_before,
}

-- `i` describes the file `e` of the store.
pub record Describes (crc32 : Bytes → ℕ) (s : Store) (access : Bytes → Access) (e : Entry)
    (i : Info) : Type 0 where
  pub is_file : e.is_dir ≡ false
  pub name_eq : e.name ≡ s.prefix ++ i.name
  pub size_eq : i.size ≡ length e.content
  pub checked : access e.name ≡ readable → i.crc ≡ crc32 e.content

-- An image that List shows is a file of the directory.
abbrev pub IsShown : (Bytes → ℕ) → Store → (Bytes → Access) → Directory → Info → Type 0
IsShown crc32 s access d i = (e : Entry) × Memᴰ e d × Describes crc32 s access e i

All-insert_info :
    (P : Info → Type 0) (i : Info) (is : List Info) → P i → All P is → All P (insert_info i is)
unfolding insert_info
All-insert_info P i [] p ps = (p, tt)
All-insert_info P i (j ∷ js) p (q, qs) = elim (Bool-cases (is_before j.name i.name)) [
  | inl h ↦ rw h (q, All-insert_info P i js p qs)
  | inr h ↦ rw h (p, (q, qs))
]

All-sort_by_name : (P : Info → Type 0) (is : List Info) → All P is → All P (sort_by_name is)
unfolding sort_by_name
All-sort_by_name P [] ps = tt
All-sort_by_name P (i ∷ is) (p, ps) =
    All-insert_info P i (sort_by_name is) p (All-sort_by_name P is ps)

All-map {ℓ} :
    {A : Type ℓ} (P Q : A → Type 0) (xs : List A) → ((x : A) → P x → Q x) → All P xs → All Q xs
All-map P Q [] f ps = tt
All-map P Q (x ∷ xs) f (p, ps) = (f x p, All-map P Q xs f ps)

trimmed-prefix :
    (prefix name : Bytes)
    → (eqb prefix [] || has_prefix name prefix) ≡ true
    → prefix ++ drop (length prefix) name ≡ name
trimmed-prefix [] name h = refl
trimmed-prefix (c ∷ prefix) name h = drop-has_prefix name (c ∷ prefix) (unfold eqb in h)

module _ (crc32 : Bytes → ℕ) (sha256 : Bytes → Bytes) (s : Store) (access : Bytes → Access) where
  Shown : Directory → Info → Type 0
  Shown = IsShown crc32 s access

  is_listed-name :
      (e : Entry)
      → is_listed crc32 sha256 s e ≡ true
      → (e.is_dir ≡ false) × (e.name ≡ s.prefix ++ drop (length s.prefix) e.name)
  unfolding is_listed
  is_listed-name e h = (ground arith, sym (trimmed-prefix s.prefix e.name (ground arith)))

  info_shown-Describes :
      (opens : Bool) (e : Entry)
      → is_listed crc32 sha256 s e ≡ true
      → (access e.name ≡ readable → opens ≡ true)
      → Describes crc32 s access e (info_shown crc32 sha256 s opens e)
  unfolding info_shown
  info_shown-Describes opens e h can = record {
    is_file = (is_listed-name e h).0;
    name_eq = (is_listed-name e h).1;
    size_eq = refl;
    checked = λ r. rw (can r) refl;
  }

  entry-All :
      (e : Entry) (d : Directory) (a : Access) (rest : List Info)
      → access e.name ≡ a
      → is_listed crc32 sha256 s e ≡ true
      → All (Shown (e ∷ d)) rest
      → All (Shown (e ∷ d)) (elim a [
        | no_stat ↦ rest
        | no_read ↦ info_shown crc32 sha256 s false e ∷ rest
        | readable ↦ info_shown crc32 sha256 s true e ∷ rest
      ])
  unfolding Shown
  entry-All e d no_stat rest q h ps = ps
  entry-All e d no_read rest q h ps =
      ((e, head refl, info_shown-Describes false e h (λ r. cc (q, r))), ps)
  entry-All e d readable rest q h ps =
      ((e, head refl, info_shown-Describes true e h (λ r. refl)), ps)

  listed-All : (d : Directory) → All (Shown d) (listed crc32 sha256 s access d)
  unfolding listed Shown
  listed-All [] = tt
  listed-All (e ∷ d) =
      let rest : All (Shown (e ∷ d)) (listed crc32 sha256 s access d) =
        All-map (Shown d) (Shown (e ∷ d)) (listed crc32 sha256 s access d)
          (λ i (f, m, shown). (f, tail m, shown)) (listed-All d) in
      elim (Bool-cases (is_listed crc32 sha256 s e)) [
        | inl h ↦ rw h (entry-All e d (access e.name) (listed crc32 sha256 s access d) refl h rest)
        | inr h ↦ rw h rest
      ]

  -- Every image of the list is a file of the directory, under the prefix of the store, with its length
  -- and, if it can be read, its checksum.
  pub list_images-All :
      (d : Directory) → All (IsShown crc32 s access d) (list_images crc32 sha256 s access d)
  unfolding list_images Shown
  list_images-All d = All-sort_by_name (Shown d) (listed crc32 sha256 s access d) (listed-All d)
