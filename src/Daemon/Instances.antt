-- ===== src/Daemon/Instances.antt =====
-- internal/config/config.go with internal/tftp/imagestore.go: instances that share a directory.
use unwedge.Base.{
  ℕ, ◌≡◌, ◌≢◌, refl, sym, subst, ap, ap₂, ◌∙◌, Bytes, codes, Bool, true, false, ◌||◌, none, some,
  [], ◌∷◌, ◌++◌, ◌==◌, ==_iff, inl, inr, elem, eqb, contains_sub, find_sub, has_prefix,
  Option-cases, Bool-cases, arith,
}
use unwedge.Net.Laws.{elem-append}
use unwedge.Images.{Store, new_store, namespaced, on_disk_name}
use unwedge.Images.Names.{is_unsafe, on_disk_name_lem}
use unwedge.Images.Namespace.{IsClear, path_of, on_disk_name_apart}
use unwedge.Daemon.{
  Config, is_alnum, is_name_byte, all_bytes, matches_instance_name, is_invalid_name, validate,
  store_in, service_store,
}

abbrev pub ends_in_dash : Bytes → Bool
ends_in_dash [] = false
ends_in_dash (c ∷ []) = c == b'-'
ends_in_dash (c ∷ d ∷ s) = ends_in_dash (d ∷ s)

-- A dash more makes no double dash, behind another byte.
contains_sub_snoc :
    (s : Bytes) → contains_sub s (codes "--") ≡ false → ends_in_dash s ≡ false → IsClear s
unfolding contains_sub find_sub has_prefix
contains_sub_snoc [] h e = refl
contains_sub_snoc (c ∷ []) h e = ground (arith, e)
contains_sub_snoc (c ∷ d ∷ s) h e = ground (arith, h, contains_sub_snoc (d ∷ s))

valid_name : (c : Config) → validate c ≡ none → is_invalid_name c.name ≡ false
unfolding validate
valid_name c h = elim (Bool-cases (is_invalid_name c.name)) [
  | inl bad ↦ absurd (cc (rw (validate, bad) at h))
  | inr ok ↦ ok
]

double_free : (n : Bytes) → is_invalid_name n ≡ false → contains_sub n (codes "--") ≡ false
unfolding is_invalid_name eqb
double_free [] h = (unfold contains_sub find_sub has_prefix in refl)
double_free (c ∷ n) h = ground (arith, h)

valid-IsClear : (n : Bytes) → is_invalid_name n ≡ false → ends_in_dash n ≡ false → IsClear n
valid-IsClear n h e = contains_sub_snoc n (double_free n h) e

of_store_in :
    (dir name : Bytes) (s : Store)
    → store_in dir name ≡ some s
    → (raw : Store) × (s ≡ namespaced name raw)
unfolding store_in
of_store_in dir name s h = elim (Option-cases (new_store dir)) [
  | inl e ↦ absurd (cc (rw (store_in, e) at h))
  | inr (raw, e) ↦ (raw, cc (rw (store_in, e) at h))
]

same_path :
    (n x : Bytes) (r s : Store)
    → n ≢ []
    → on_disk_name (namespaced n r) x ≡ on_disk_name (namespaced n s) x
same_path [] x r s ne = absurd (ne refl)
same_path (c ∷ n) x r s ne = path_of c n r x ∙ sym (path_of c n s x)

-- Two named instances with validated configurations, whose names do not end in a dash, keep their
-- images in different files, whatever the images are called: a common file is the same image of the
-- same instance.
pub service_store-apart :
    (a b : Config) (s t : Store) (x y p : Bytes)
    → validate a ≡ none
    → validate b ≡ none
    → a.name ≢ []
    → b.name ≢ []
    → ends_in_dash a.name ≡ false
    → ends_in_dash b.name ≡ false
    → service_store a ≡ some s
    → service_store b ≡ some t
    → on_disk_name s x ≡ some p
    → on_disk_name t y ≡ some p
    → (a.name ≡ b.name) × (x ≡ y)
unfolding service_store
service_store-apart a b s t x y p va vb na nb da db sa sb px py =
    let (raw, e) = of_store_in a.tftp.dir a.name s sa in
    let (raw', e') = of_store_in b.tftp.dir b.name t sb in
    on_disk_name_apart a.name b.name raw x y p na nb (valid-IsClear a.name (valid_name a va) da)
      (valid-IsClear b.name (valid_name b vb) db) (ap (λ st. on_disk_name st x) (sym e) ∙ px)
      (same_path b.name y raw raw' nb ∙ ap (λ st. on_disk_name st y) (sym e') ∙ py)

elem-all_bytes :
    (b : ℕ) (n : Bytes)
    → is_name_byte b ≡ false
    → all_bytes is_name_byte n ≡ true
    → elem b n ≡ false
unfolding elem
elem-all_bytes b [] h a = refl
elem-all_bytes b (c ∷ n) h a =
    let first : is_name_byte c ≡ true = ground (arith, a) in
    let rest : all_bytes is_name_byte n ≡ true = ground (arith, a) in
    elim (Bool-cases (b == c)) [
      | inl e ↦ absurd (cc (h, first, ap is_name_byte ((==_iff b c).0 e)))
      | inr e ↦ rw e (elem-all_bytes b n h rest)
    ]

alnum-name_byte : (c : ℕ) → is_alnum c ≡ true → is_name_byte c ≡ true
unfolding is_name_byte
alnum-name_byte c h = rw (is_name_byte, h) refl

all_name_bytes : (n : Bytes) → n ≢ [] → is_invalid_name n ≡ false → all_bytes is_name_byte n ≡ true
unfolding is_invalid_name matches_instance_name eqb
all_name_bytes [] ne h = absurd (ne refl)
all_name_bytes (c ∷ n) ne h =
    let first : is_alnum c ≡ true = ground (arith, h) in
    let rest : all_bytes is_name_byte n ≡ true = ground (arith, h) in
    rw (alnum-name_byte c first) rest

dashless : (b : ℕ) → is_name_byte b ≡ false → elem b (codes "--") ≡ false
unfolding is_name_byte elem
dashless b h = ground (arith, h)

elem-prefixed :
    (b : ℕ) (n x : Bytes)
    → is_name_byte b ≡ false
    → n ≢ []
    → is_invalid_name n ≡ false
    → elem b x ≡ false
    → elem b (n ++ codes "--" ++ x) ≡ false
elem-prefixed b n x hb ne h hx =
    let dashes : elem b (codes "--") ≡ false = dashless b hb in
    elem-append b (n ++ codes "--") x
    ∙ ap₂ (λ u v. u || v)
        (elem-append b n (codes "--")
          ∙ ap₂ (λ u v. u || v) (elem-all_bytes b n hb (all_name_bytes n ne h)) dashes)
        hx

not_dots :
    (m x : Bytes)
    → (eqb (m ++ codes "--" ++ x) [] ≡ false) × (eqb (m ++ codes "--" ++ x) (codes ".") ≡ false)
unfolding eqb
not_dots [] x = (refl, refl)
not_dots (d ∷ m) x = (refl, ground (arith, (not_dots m x).0))

-- The name of an instance, the separator and a safe image name make a safe file name.
is_unsafe-prefixed :
    (n x : Bytes)
    → n ≢ []
    → is_invalid_name n ≡ false
    → is_unsafe x ≡ false
    → is_unsafe (n ++ codes "--" ++ x) ≡ false
unfolding is_unsafe eqb
is_unsafe-prefixed [] x ne h u = absurd (ne refl)
is_unsafe-prefixed (c ∷ n) x ne h u =
    let p : Bytes = c ∷ n ++ codes "--" ++ x in
    let slashes : elem b'/' p ≡ false =
      elem-prefixed b'/' (c ∷ n) x (unfold is_name_byte is_alnum in refl) ne h
        (ground (arith, u)) in
    let back : elem b'\\' p ≡ false =
      elem-prefixed b'\\' (c ∷ n) x (unfold is_name_byte is_alnum in refl) ne h
        (ground (arith, u)) in
    ground (arith, slashes, back, not_dots n x)

safe_slash : (p : Bytes) → is_unsafe p ≡ false → elem b'/' p ≡ false
unfolding is_unsafe
safe_slash p u = ground (arith, u)

prefixed_safe :
    (n x : Bytes) (raw : Store)
    → is_invalid_name n ≡ false
    → is_unsafe x ≡ false
    → is_unsafe ((namespaced n raw).prefix ++ x) ≡ false
unfolding namespaced
prefixed_safe [] x raw h u = u
prefixed_safe (c ∷ n) x raw h u = is_unsafe-prefixed (c ∷ n) x (λ e. cc) h u

some_injective : (x y : Store) → some x ≡ some y → x ≡ y
some_injective x y e = cc

safe_path :
    (n x p : Bytes) (raw : Store)
    → is_invalid_name n ≡ false
    → on_disk_name (namespaced n raw) x ≡ some p
    → is_unsafe p ≡ false
unfolding namespaced
safe_path n x p raw h e = elim (Bool-cases (is_unsafe x)) [
  | inl u ↦ absurd (cc (on_disk_name_lem (namespaced n raw) x, e, u))
  | inr u ↦
      let q : (namespaced n raw).prefix ++ x ≡ p =
        cc (on_disk_name_lem (namespaced n raw) x, e, u) in
      subst (λ r. is_unsafe r ≡ false) q (prefixed_safe n x raw h u)
]

raw_prefix : (dir : Bytes) (raw : Store) → new_store dir ≡ some raw → raw.prefix ≡ []
unfolding new_store
raw_prefix [] raw e = absurd (cc e)
raw_prefix (c ∷ dir) raw e = sym (ap (λ (s : Store). s.prefix) (some_injective _ raw e))

-- A file that a validated instance stores is one that the TFTP server, which has the directory
-- without a prefix, serves by the same name: it lies in the directory itself.
pub service_store-served :
    (c : Config) (s raw : Store) (x p : Bytes)
    → validate c ≡ none
    → service_store c ≡ some s
    → new_store c.tftp.dir ≡ some raw
    → on_disk_name s x ≡ some p
    → (elem b'/' p ≡ false) × (on_disk_name raw p ≡ some p)
unfolding service_store
service_store-served c s raw x p v e r h =
    let (raw', e') = of_store_in c.tftp.dir c.name s e in
    let safe : is_unsafe p ≡ false =
      safe_path c.name x p raw' (valid_name c v) (ap (λ st. on_disk_name st x) (sym e') ∙ h) in
    (
      safe_slash p safe,
      on_disk_name_lem raw p ∙ rw safe (ap (λ q. some (q ++ p)) (raw_prefix c.tftp.dir raw r)),
    )
