-- ===== src/Service/Handlers.antt =====
-- internal/server/server.go: when PowerControl and Netboot go ahead.
use unwedge.Base.{
  ℕ, ◌≡◌, ◌↔◌, refl, sym, ap, Bytes, true, false, Option, some, none, ◌++◌, Bool-cases, inl, inr,
  if◌then◌else◌, List, [], ◌∷◌, ◌∙◌, All, length, eqb, eqb_iff,
}
use unwedge.Base.Int.{ℤ}
use unwedge.Grpc.{Reply, reply, status, pending, not_found, invalid_argument}
use unwedge.Power.{Controller, Context, PowerError}
use mathlib.Core.List.{Memᴰ}
use unwedge.Images.{Directory, Store, Info, Entry, Access, readable, list_images}
use unwedge.Images.Listing.{IsShown, list_images-All}
use unwedge.Images.Names.{is_unsafe, on_disk_name_lem}
use unwedge.Service.{
  PowerAction, PowerResponse, power_action, power_answer, power_control, NetbootTarget, find_image,
  on_disk_target, verified_image, netboot_target,
}

module _ {W : Type 0} where
  power_answer_iff :
      (c : Controller W) (r : W × Option PowerError)
      → ((p : PowerResponse) × ((power_answer c r).1 ≡ reply p)) ↔ (r.1 ≡ none)
  unfolding power_answer
  power_answer_iff c (w, some e) = ((λ h. absurd (cc h.1)), (λ h. absurd (cc h)))
  power_answer_iff c (w, none) = ((λ h. refl), (λ h. (_, refl)))

  -- PowerControl of a configured controller answers with a state exactly when the action is a
  -- specified one and succeeds, whether or not the state can be queried after it.
  pub power_control_iff :
      (ctx : Context) (c : Controller W) (a : PowerAction) (off_ms : ℤ) (w : W)
      → ((p : PowerResponse) × ((power_control ctx (some c) a off_ms w).1 ≡ reply p))
        ↔ ((w' : W) × (power_action ctx c a off_ms w ≡ some (w', none)))
  unfolding power_control
  power_control_iff ctx c a off_ms w =
      elim (power_action ctx c a off_ms w)
        as (λ o.
          let r = elim o as (λ x. W × Reply PowerResponse) [
            | none ↦ (w, status invalid_argument)
            | some done ↦ power_answer c done
          ] in
          ((p : PowerResponse) × (r.1 ≡ reply p)) ↔ ((w' : W) × (o ≡ some (w', none)))) [
            | none ↦ ((λ h. absurd (cc h.1)), (λ h. absurd (cc h.1)))
            | some done ↦ (
              (λ h. (done.0, ap (λ e. some (done.0, e)) ((power_answer_iff c done).0 h))),
              (λ h. (power_answer_iff c done).1 (cc h.1)),
            )
          ]

abbrev target_at : Bytes → ℕ → ℕ → NetbootTarget
target_at image n crc = record { image = image; image_len = n; image_crc32 = crc }

on_disk_target_lem :
    (s : Store) (image : Bytes) (n crc : ℕ)
    → on_disk_target (some s) image (n, crc) ≡ (
        if is_unsafe image
        then status invalid_argument
        else reply (target_at (s.prefix ++ image) n crc))
unfolding on_disk_target
on_disk_target_lem s image n crc =
    rw (on_disk_target, on_disk_name_lem s image)
      elim (is_unsafe image)
        as (λ b.
          elim (if b then none else some (s.prefix ++ image)) as (λ o. Reply NetbootTarget) [
            | none ↦ status invalid_argument
            | some path ↦ reply (target_at path n crc)
          ]
          ≡ (if b then status invalid_argument else reply (target_at (s.prefix ++ image) n crc))) [
            | true ↦ refl
            | false ↦ refl
          ]

on_disk_target-reply :
    (s : Store) (image : Bytes) (n crc : ℕ) (t : NetbootTarget)
    → on_disk_target (some s) image (n, crc) ≡ reply t
    → (is_unsafe image ≡ false) × (t ≡ target_at (s.prefix ++ image) n crc)
on_disk_target-reply s image n crc t h = elim (Bool-cases (is_unsafe image)) [
  | inl u ↦ absurd (cc (on_disk_target_lem s image n crc, u, h))
  | inr u ↦ (u, cc (on_disk_target_lem s image n crc, u, h))
]

pair_injective : (x y : ℕ × ℕ) → some x ≡ some y → x ≡ y
pair_injective x y e = cc

-- An image that is found is one of the list, by its name.
find_image-All :
    (P : Info → Type 0) (name : Bytes) (is : List Info) (n crc : ℕ)
    → All P is
    → find_image name is ≡ some (n, crc)
    → (i : Info) × P i × (i.name ≡ name) × (i.size ≡ n) × (i.crc ≡ crc)
unfolding find_image
find_image-All P name [] n crc ps h = cc
find_image-All P name (i ∷ is) n crc (p, ps) h = elim (Bool-cases (eqb i.name name)) [
  | inl same ↦
      let found : (i.size, i.crc) ≡ (n, crc) = pair_injective _ _ (rw same at h) in
      (i, p, (eqb_iff i.name name).0 same, ap (λ x. x.0) found, ap (λ x. x.1) found)
  | inr other ↦ find_image-All P name is n crc ps (rw other at h)
]

module _ (crc32 : Bytes → ℕ) (sha256 : Bytes → Bytes) where
  verified-find_image :
      (s : Store) (image : Bytes) (access : Bytes → Access) (d : Directory) (t : NetbootTarget)
      → netboot_target crc32 sha256 true
          (some s)
          (record { image = image; verify_crc32 = true })
          access
          d
        ≡ reply t
      → (is_unsafe image ≡ false)
        × (t.image ≡ s.prefix ++ image)
        × (find_image image (list_images crc32 sha256 s access d)
            ≡ some (t.image_len, t.image_crc32))
  unfolding netboot_target verified_image
  verified-find_image s image access d t =
      elim (find_image image (list_images crc32 sha256 s access d))
        as (λ o.
          let found = elim o as (λ x. Reply (ℕ × ℕ)) [
            | none ↦ status not_found
            | some f ↦ reply f
          ] in
          elim found as (λ x. Reply NetbootTarget) [
            | reply f ↦ on_disk_target (some s) image f
            | status c ↦ status c
            | pending ↦ pending
          ]
            ≡ reply t
          → (is_unsafe image ≡ false)
            × (t.image ≡ s.prefix ++ image)
            × (o ≡ some (t.image_len, t.image_crc32))) [
              | none ↦ (λ h. absurd (cc h))
              | some f ↦ (λ h.
                  let (safe, same) = on_disk_target-reply s image f.0 f.1 t h in
                  (
                    safe,
                    ap (λ x. x.image) same,
                    ap (λ x. some (x.image_len, x.image_crc32)) (sym same),
                  ))
            ]

  -- A Netboot that asks for verification goes ahead only with a safe image name, under the prefix of
  -- the store, and that is the name of a file of the directory, with the length and, if the file could
  -- be read, the checksum of its content.
  pub netboot_target-verified :
      (s : Store) (image : Bytes) (access : Bytes → Access) (d : Directory) (t : NetbootTarget)
      → netboot_target crc32 sha256 true
          (some s)
          (record { image = image; verify_crc32 = true })
          access
          d
        ≡ reply t
      → (is_unsafe image ≡ false)
        × (t.image ≡ s.prefix ++ image)
        × ((e : Entry) × Memᴰ e d
            × (e.name ≡ t.image)
            × (e.is_dir ≡ false)
            × (t.image_len ≡ length e.content)
            × (access e.name ≡ readable → t.image_crc32 ≡ crc32 e.content))
  netboot_target-verified s image access d t h =
      let (safe, path, found) = verified-find_image s image access d t h in
      let (i, (e, m, shown), named, sized, checked) =
        find_image-All (IsShown crc32 s access d) image (list_images crc32 sha256 s access d)
          t.image_len t.image_crc32 (list_images-All crc32 sha256 s access d) found in
      (
        safe,
        path,
        (
          e,
          m,
          shown.name_eq ∙ ap (λ n. s.prefix ++ n) named ∙ sym path,
          shown.is_file,
          sym sized ∙ shown.size_eq,
          (λ can. sym checked ∙ shown.checked can),
        ),
      )
