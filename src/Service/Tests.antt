-- ===== src/Service/Tests.antt =====
-- internal/server/server.go: a controller in memory, and an image store with one image.
use unwedge.Base.{
  ◌≡◌, refl, Bytes, codes, false, [], ◌∷◌, ◌++◌, length, eqb, elem, has_prefix, trim_right,
}
use mathlib.Core.List.{Memᴰ}
use unwedge.Images.{
  Entry, Access, readable, info_shown, Directory, Store, listed, list_images, sort_by_name,
  insert_info, is_listed, on_disk_name, sanitize, is_refused, base, after_slash,
}
use unwedge.Images.Names.{is_unsafe}
use unwedge.Service.{NetbootTarget, find_image, netboot_target, verified_image, on_disk_target}
use unwedge.Service.Handlers.{netboot_target-verified}

abbrev store : Store
store = record { dir = codes "/srv"; prefix = codes "a--" }

abbrev files : Directory
files = record { name = codes "a--img"; is_dir = false; content = codes "xyz"; mod_time = 1 } ∷ []

abbrev target : NetbootTarget
target = record { image = codes "a--img"; image_len = 3; image_crc32 = 3 }

abbrev reads : Bytes → Access
reads name = readable

netboot_target-verified_example :
    (is_unsafe (codes "img") ≡ false)
    × (target.image ≡ store.prefix ++ codes "img")
    × ((e : Entry) × Memᴰ e files
        × (e.name ≡ target.image)
        × (e.is_dir ≡ false)
        × (target.image_len ≡ length e.content)
        × (reads e.name ≡ readable → target.image_crc32 ≡ length e.content))
unfolding netboot_target verified_image on_disk_target find_image list_images sort_by_name
    insert_info listed info_shown is_listed on_disk_name sanitize is_refused base after_slash eqb
    elem has_prefix trim_right
netboot_target-verified_example =
    netboot_target-verified length (λ b. b) store (codes "img") reads files target refl
