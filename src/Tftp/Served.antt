-- ===== src/Tftp/Served.antt =====
-- internal/tftp/server.go with the image store: an upload on its way to U-Boot.
use unwedge.Base.{
  ℕ, ◌≡◌, ◌≢◌, refl, sym, ap, ◌∙◌, Bytes, Bool, false, none, some, [], ◌∷◌, ◌==◌, elem, trim_right,
  trim_space, eqb,
}
use unwedge.Images.{
  Store, Directory, Info, Upload, Faults, Entry, stored, slash, after_slash, base, save,
  exists_entry, on_disk_name, lookup_entry, new_store, file_of,
}
use unwedge.Images.Names.{is_unsafe, on_disk_name_lem, trim_right_no_slash}
use unwedge.Images.Save.{save-stored}
use unwedge.Daemon.{Config, validate, service_store}
use unwedge.Daemon.Instances.{service_store-served}
use unwedge.Tftp.{requested_name, content_of, read_handler}

some_injective : (x y : Bytes) → some x ≡ some y → x ≡ y
some_injective x y e = cc

-- A leading slash is dropped.
base-rooted : (c : ℕ) (p : Bytes) → elem slash (c ∷ p) ≡ false → base (slash ∷ c ∷ p) ≡ c ∷ p
unfolding base after_slash elem trim_right
base-rooted c p h =
    let tail : trim_right (λ b. b == slash) (c ∷ p) ≡ c ∷ p = trim_right_no_slash (c ∷ p) h in
    rw (base, tail) (rw h refl)

no_empty_path : (raw : Store) → on_disk_name raw [] ≢ some []
unfolding is_unsafe eqb
no_empty_path raw e = cc (on_disk_name_lem raw [], e)

requested_name-rooted :
    (raw : Store) (p : Bytes)
    → elem slash p ≡ false
    → on_disk_name raw p ≡ some p
    → trim_space (slash ∷ p) ≡ slash ∷ p
    → requested_name (slash ∷ p) ≡ p
unfolding requested_name
requested_name-rooted raw [] h e t = absurd (no_empty_path raw e)
requested_name-rooted raw (c ∷ p) h e t = ap base t ∙ base-rooted c p h

read_at :
    (raw : Store) (d : Directory) (filename p : Bytes) (e : Entry)
    → requested_name filename ≡ p
    → on_disk_name raw p ≡ some p
    → lookup_entry p d ≡ some e
    → read_handler raw d filename ≡ some e.content
unfolding read_handler content_of
read_at raw d filename p e named served found = rw (read_handler, named) (rw served (rw found refl))

-- An image that a validated instance has saved is what the TFTP server sends to U-Boot, which asks
-- for its file by a slash and the on-disk name: the bytes of the upload, whole. The name of the
-- temporary file was new, and the file's name has no space at its end.
pub read_handler-save :
    (crc32 : Bytes → ℕ) (sha256 : Bytes → Bytes) (c : Config) (s raw : Store) (faults : Faults)
    (tmp name : Bytes) (upload : Upload) (overwrite : Bool) (now : ℕ) (d : Directory) (i : Info)
    (p : Bytes)
    → validate c ≡ none
    → service_store c ≡ some s
    → new_store c.tftp.dir ≡ some raw
    → exists_entry tmp d ≡ false
    → on_disk_name s name ≡ some p
    → trim_space (slash ∷ p) ≡ slash ∷ p
    → let saved = save crc32 sha256 s faults tmp name upload overwrite now d in
      saved.1 ≡ stored i → read_handler raw saved.0 (slash ∷ p) ≡ some upload.bytes
read_handler-save crc32 sha256 c s raw faults tmp name upload overwrite now d i p v es er new named
      trimmed h =
    let (inside, served) = service_store-served c s raw name p v es er named in
    let (path, e, described, found, others) =
      save-stored crc32 sha256 s faults tmp name upload overwrite now d i new h in
    let same : path ≡ p = some_injective path p (sym e ∙ named) in
    let entry : Entry = file_of crc32 sha256 path upload.bytes now in
    let after : Directory = (save crc32 sha256 s faults tmp name upload overwrite now d).0 in
    read_at raw after (slash ∷ p) p entry (requested_name-rooted raw p inside served trimmed) served
      (ap (λ q. lookup_entry q after) (sym same) ∙ found)
