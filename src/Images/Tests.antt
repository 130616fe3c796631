-- ===== src/Images/Tests.antt =====
-- internal/tftp/imagestore.go: a directory with an image of each of two instances and an old upload.
use unwedge.Base.{
  ℕ, ◌≡◌, ◌≢◌, refl, Bytes, codes, true, false, some, none, [], ◌∷◌, length, if◌then◌else◌, eqb,
  elem, has_prefix, trim_right, map,
}
use unwedge.Base.Int.{pos, is_positive, to_ℕ}
use unwedge.Images.{
  list_images, sort_by_name, insert_info, is_before, Entry, Directory, Store, Faults, Upload,
  write_failed, io_copy, Access, readable, info_shown, namespaced, base, sanitize, is_refused,
  on_disk_name, after_slash, lookup_entry, exists_entry, put_entry, remove_entry, file_of, save,
  finish_save, listed, is_listed, Fate, removable, vanished_before_remove, is_stale, prune_entry,
  sweep, prune,
}
use unwedge.Images.Names.{is_unsafe}
use unwedge.Images.Namespace.{on_disk_name-collides}
use unwedge.Images.Save.{save_refused, save-stored, info_of}
use unwedge.Images.Prune.{prune_lem, filter, is_pruned, is_kept, is_failed, first_name}

abbrev file : Bytes → ℕ → Entry
file name mod_time = record {
  name = name;
  is_dir = false;
  content = codes "x";
  mod_time = mod_time;
}

abbrev files : Directory
files = file (codes "a--img") 50 ∷ file (codes "b--img") 10 ∷ file (codes ".upload-1") 5 ∷ []

abbrev store_a : Store
store_a = namespaced (codes "a") (record { dir = codes "/srv"; prefix = [] })

abbrev no_faults : Faults
no_faults = record { create = false; write = none; close = false; rename = false; cleanup = false }

-- The disk is full after two bytes, and the temporary file stays.
abbrev left_over : Faults
left_over = record {
  create = false;
  write = some (record { read = 3; saved_bytes = 2 });
  close = false;
  rename = false;
  cleanup = true;
}

abbrev reads : Bytes → Access
reads name = readable

abbrev upload : Upload
upload = record { bytes = codes "kernel"; fails = false }

abbrev tmp : Bytes
tmp = codes ".upload-2"

abbrev no_crc : Bytes → ℕ
no_crc = length

abbrev no_sha : Bytes → Bytes
no_sha s = s

sanitize_plain : sanitize (codes "vmlinux.elf") ≡ some (codes "vmlinux.elf")
unfolding sanitize is_refused base after_slash eqb elem trim_right
sanitize_plain = refl

sanitize_traversal : sanitize (codes "../etc/passwd") ≡ none
unfolding sanitize is_refused base after_slash eqb elem trim_right
sanitize_traversal = refl

listed_a : map (λ i. i.name) (listed no_crc no_sha store_a reads files) ≡ codes "img" ∷ []
unfolding listed info_shown is_listed namespaced eqb has_prefix
listed_a = refl

save_refused_example :
    let saved =
      save no_crc no_sha store_a left_over tmp
        (codes "k")
        (record { bytes = codes "ker"; fails = true })
        false
        60
        files in
    ((other : Bytes) → other ≢ tmp → lookup_entry other saved.0 ≡ lookup_entry other files)
    × (true ≡ false → saved.0 ≡ files)
unfolding save finish_save io_copy on_disk_name sanitize is_refused base after_slash namespaced
    exists_entry lookup_entry put_entry remove_entry eqb elem trim_right
save_refused_example =
    save_refused no_crc no_sha store_a left_over tmp (codes "k")
      (record { bytes = codes "ker"; fails = true }) false 60 files write_failed refl refl

abbrev path_k : Bytes
path_k = codes "a--k"

save-stored_example :
    (path : Bytes) × (on_disk_name store_a (codes "k") ≡ some path)
    × (info_of no_crc no_sha (codes "k") upload 60 ≡ info_of no_crc no_sha (codes "k") upload 60)
    × (lookup_entry path
          (save no_crc no_sha store_a no_faults tmp (codes "k") upload false 60 files).0
        ≡ some (file_of no_crc no_sha path upload.bytes 60))
    × ((other : Bytes)
        → other ≢ path
        → lookup_entry other
            (save no_crc no_sha store_a no_faults tmp (codes "k") upload false 60 files).0
          ≡ lookup_entry other files)
unfolding save finish_save io_copy on_disk_name sanitize is_refused base after_slash namespaced
    exists_entry lookup_entry put_entry remove_entry eqb elem trim_right
save-stored_example =
    save-stored no_crc no_sha store_a no_faults tmp (codes "k") upload false 60 files
      (info_of no_crc no_sha (codes "k") upload 60) refl refl

on_disk_name-collides_example :
    on_disk_name (namespaced (codes "a") store_a) (codes "-k")
    ≡ on_disk_name (namespaced (codes "a-") store_a) (codes "k")
unfolding is_unsafe eqb elem
on_disk_name-collides_example = on_disk_name-collides b'a' [] store_a (codes "k") refl refl

abbrev fates : Bytes → Fate
fates n = if eqb n (codes "b--img") then vanished_before_remove else removable

sorted_names :
    map (λ i. i.name) (list_images no_crc no_sha (record { dir = []; prefix = [] }) reads files)
    ≡ codes "a--img" ∷ codes "b--img" ∷ []
unfolding list_images sort_by_name insert_info is_before listed info_shown is_listed eqb has_prefix
sorted_names = refl

pruned_names : (prune (pos 20) 60 fates files).removed ≡ codes ".upload-1" ∷ []
unfolding prune sweep prune_entry is_stale eqb is_positive to_ℕ
pruned_names = refl

prune_lem_example :
    (is_positive (pos 20) ≡ true
      → ((prune (pos 20) 60 fates files).removed
          ≡ map (λ e. e.name) (filter (is_pruned (to_ℕ (pos 20)) 60 fates) files))
        × ((prune (pos 20) 60 fates files).kept ≡ filter (is_kept (to_ℕ (pos 20)) 60 fates) files)
        × ((prune (pos 20) 60 fates files).first_err
            ≡ first_name (filter (is_failed (to_ℕ (pos 20)) 60 fates) files)))
    × (is_positive (pos 20) ≡ false
        → ((prune (pos 20) 60 fates files).removed ≡ [])
          × ((prune (pos 20) 60 fates files).kept ≡ files)
          × ((prune (pos 20) 60 fates files).first_err ≡ none))
prune_lem_example = prune_lem (pos 20) 60 fates files
