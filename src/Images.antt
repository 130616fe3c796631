-- ===== src/Images.antt =====
-- internal/tftp/imagestore.go: the image store. The image directory is the list of its entries, in
-- the order of ReadDir; a path in it is the entry's name. What fails in the operating system is an
-- argument, and so are the name of the temporary file and the digests.
pub mod Names
pub mod Namespace
pub mod Entries
pub mod Save
pub mod Prune
pub mod Listing
mod Tests
use unwedge.Base.{
  ℕ, ◌+◌, Bytes, codes, Bool, true, false, ◌&&◌, ◌||◌, not, Option, none, some, List, [], ◌∷◌, ◌++◌,
  length, take, drop, ltb, ◌==◌, if◌then◌else◌, eqb, elem, has_prefix, trim_right,
}
use unwedge.Base.Int.{ℤ, is_positive, to_ℕ}

pub record Info : Type 0 where
  pub name : Bytes
  pub size : ℕ
  pub mod_time : ℕ
  pub crc : ℕ
  pub sha : Bytes

pub record Entry : Type 0 where
  pub name : Bytes
  pub is_dir : Bool
  pub content : Bytes
  pub mod_time : ℕ

abbrev pub Directory : Type 0
Directory = List Entry

pub record Store : Type 0 where
  pub dir : Bytes
  pub prefix : Bytes

pub data StoreError : Type 0 where
  invalid_name already_exists dir_required : StoreError
  create_failed write_failed close_failed rename_failed remove_failed : StoreError

-- NewStore, where the directory can be made.
unfoldable pub new_store : Bytes → Option Store
new_store [] = none
new_store (c ∷ dir) = some (record { dir = c ∷ dir; prefix = [] })

unfoldable pub namespaced : Bytes → Store → Store
namespaced [] s = record { dir = s.dir; prefix = [] }
namespaced (c ∷ name) s = record { dir = s.dir; prefix = (c ∷ name) ++ codes "--" }

abbrev pub slash : ℕ
slash = b'/'

-- What stands behind the last slash.
unfoldable pub after_slash : Bytes → Bytes
after_slash [] = []
after_slash (c ∷ s) =
    let rest = after_slash s in
    if elem slash (c ∷ s) then (if elem slash s then rest else s) else c ∷ s

-- filepath.Base: `.` for the empty path, `/` for a path of slashes.
unfoldable pub base : Bytes → Bytes
unfolding after_slash
base [] = codes "."
base (c ∷ s) = elim (trim_right (λ b. b == slash) (c ∷ s)) [
  | [] ↦ slash ∷ []
  | d ∷ r ↦ after_slash (d ∷ r)
]

unfoldable pub is_refused : Bytes → Bool
unfolding base
is_refused name =
    not (eqb name (base name))
    || eqb (base name) []
    || eqb (base name) (codes ".")
    || eqb (base name) (codes "..")
    || elem slash name
    || elem b'\\' name

unfoldable pub sanitize : Bytes → Option Bytes
sanitize name = if is_refused name then none else some (base name)

-- OnDiskName, and Path within the directory.
unfoldable pub on_disk_name : Store → Bytes → Option Bytes
on_disk_name s name = elim (sanitize name) [ none ↦ none | some b ↦ some (s.prefix ++ b) ]

unfoldable pub lookup_entry : Bytes → Directory → Option Entry
lookup_entry n [] = none
lookup_entry n (e ∷ d) = if eqb e.name n then some e else lookup_entry n d

unfoldable pub remove_entry : Bytes → Directory → Directory
remove_entry n [] = []
remove_entry n (e ∷ d) = if eqb e.name n then d else e ∷ remove_entry n d

-- A file written under a name, in the place of what had it.
unfoldable pub put_entry : Entry → Directory → Directory
put_entry f [] = f ∷ []
put_entry f (e ∷ d) = if eqb e.name f.name then f ∷ d else e ∷ put_entry f d

unfoldable pub exists_entry : Bytes → Directory → Bool
unfolding lookup_entry
exists_entry n d = elim (lookup_entry n d) [ none ↦ false | some e ↦ true ]

-- A write to the disk that fails when so many bytes of the upload have been read, and so many of them
-- written.
pub record DiskFault : Type 0 where
  pub read : ℕ
  pub saved_bytes : ℕ

-- Which system call of Save fails; `cleanup` is the stat or the remove of the deferred function.
pub record Faults : Type 0 where
  pub create : Bool
  pub write : Option DiskFault
  pub close : Bool
  pub rename : Bool
  pub cleanup : Bool

-- The bytes that the reader yields, and whether an error ends them.
pub record Upload : Type 0 where
  pub bytes : Bytes
  pub fails : Bool

-- io.Copy: what it has written, and whether it fails. A fault behind the end of the upload is not met.
unfoldable pub io_copy : Option DiskFault → Upload → Bytes × Bool
io_copy none upload = (upload.bytes, upload.fails)
io_copy (some f) upload =
    if ltb (length upload.bytes) f.read
    then (upload.bytes, upload.fails)
    else (take f.saved_bytes (take f.read upload.bytes), true)

-- What the operating system allows of an entry that List looks at.
pub data Access : Type 0 where
  no_stat no_read readable : Access

pub data Saved : Type 0 where
  stored : Info → Saved
  refused : StoreError → Saved

module _ (crc32 : Bytes → ℕ) (sha256 : Bytes → Bytes) where
  abbrev pub file_of : Bytes → Bytes → ℕ → Entry
  file_of name content now = record {
    name = name;
    is_dir = false;
    content = content;
    mod_time = now;
  }

  -- Behind io.Copy, which has left `copy`: `written` has the temporary file. An early return removes
  -- it if it can.
  unfoldable pub finish_save :
      Faults → Bytes → Bytes → Bytes → Bytes × Bool → ℕ → Directory → Directory × Saved
  finish_save faults name path tmp copy now written =
      let cleaned = if faults.cleanup then written else remove_entry tmp written in
      if copy.1
      then (cleaned, refused write_failed)
      else if faults.close
      then (cleaned, refused close_failed)
      else if faults.rename
      then (cleaned, refused rename_failed)
      else (
        put_entry (file_of path copy.0 now) (remove_entry tmp written),
        stored (record {
          name = base name;
          size = length copy.0;
          mod_time = now;
          crc = crc32 copy.0;
          sha = sha256 copy.0;
        }),
      )

  unfoldable pub save :
      Store → Faults → Bytes → Bytes → Upload → Bool → ℕ → Directory → Directory × Saved
  unfolding finish_save io_copy
  save s faults tmp name upload overwrite now d = elim (on_disk_name s name) [
    | none ↦ (d, refused invalid_name)
    | some path ↦
        let copy = io_copy faults.write upload in
        if not overwrite && exists_entry path d
        then (d, refused already_exists)
        else if faults.create
        then (d, refused create_failed)
        else finish_save faults name path tmp copy now (put_entry (file_of tmp copy.0 now) d)
  ]

  -- Which entries List shows.
  unfoldable pub is_listed : Store → Entry → Bool
  is_listed s e =
      not (e.is_dir || has_prefix e.name (codes ".upload-"))
      && (eqb s.prefix [] || has_prefix e.name s.prefix)

  unfoldable pub info_shown : Store → Bool → Entry → Info
  info_shown s opens e = record {
    name = drop (length s.prefix) e.name;
    size = length e.content;
    mod_time = e.mod_time;
    crc = if opens then crc32 e.content else 0;
    sha = [];
  }

  -- The loop of List, before the sort by name. Without a stat an entry is skipped; the checksum of a
  -- file that cannot be read is 0.
  unfoldable pub listed : Store → (Bytes → Access) → Directory → List Info
  unfolding is_listed info_shown
  listed s access [] = []
  listed s access (e ∷ d) =
      let rest = listed s access d in
      if is_listed s e
      then (elim (access e.name) [
        | no_stat ↦ rest
        | no_read ↦ info_shown s false e ∷ rest
        | readable ↦ info_shown s true e ∷ rest
      ])
      else rest

-- `a < b` on texts, byte by byte.
unfoldable pub is_before : Bytes → Bytes → Bool
is_before [] [] = false
is_before [] (y ∷ ys) = true
is_before (x ∷ xs) [] = false
is_before (x ∷ xs) (y ∷ ys) = ltb x y || (x == y && is_before xs ys)

unfoldable pub insert_info : Info → List Info → List Info
insert_info i [] = i ∷ []
insert_info i (j ∷ js) =
    let rest = insert_info i js in if is_before j.name i.name then j ∷ rest else i ∷ j ∷ js

-- sort.Slice by name
unfoldable pub sort_by_name : List Info → List Info
sort_by_name [] = []
sort_by_name (i ∷ is) = insert_info i (sort_by_name is)

-- List, where the directory can be read.
unfoldable pub list_images :
    (Bytes → ℕ) → (Bytes → Bytes) → Store → (Bytes → Access) → Directory → List Info
list_images crc32 sha256 s access d = sort_by_name (listed crc32 sha256 s access d)

-- Delete, with what `os.Remove` does when the file is there.
unfoldable pub delete : Store → Bool → Bytes → Directory → Directory × Option StoreError
delete s remove_fails name d = elim (on_disk_name s name) [
  | none ↦ (d, some invalid_name)
  | some path ↦
      if exists_entry path d && not remove_fails
      then (remove_entry path d, none)
      else (d, some remove_failed)
]

-- What happens to an entry in a sweep: it is stat'ed and removed, vanishes before either, or the
-- remove fails.
pub data Fate : Type 0 where
  removable vanished_before_stat vanished_before_remove remove_fails : Fate

pub record Sweep : Type 0 where
  pub kept : Directory
  pub removed : List Bytes
  pub first_err : Option Bytes

-- `!fi.ModTime().After(now - maxAge)`, with the age added on the other side.
unfoldable pub is_stale : ℕ → ℕ → Entry → Bool
is_stale max_age now e = not (ltb now (e.mod_time + max_age))

unfoldable pub first_of_errors : Bytes → Option Bytes → Option Bytes
first_of_errors n later = some n

unfoldable pub prune_entry : ℕ → ℕ → Fate → Entry → Sweep → Sweep
unfolding is_stale first_of_errors
prune_entry max_age now fate e later =
    let keep = record later { kept = e ∷ later.kept } in
    if e.is_dir then keep else elim fate [
      | vanished_before_stat ↦ later
      | removable ↦
          if is_stale max_age now e then record later { removed = e.name ∷ later.removed } else keep
      | vanished_before_remove ↦ if is_stale max_age now e then later else keep
      | remove_fails ↦
          if is_stale max_age now e
          then record later {
            kept = e ∷ later.kept;
            first_err = first_of_errors e.name later.first_err;
          }
          else keep
    ]

-- The loop of Prune.
unfoldable pub sweep : ℕ → ℕ → (Bytes → Fate) → Directory → Sweep
unfolding prune_entry
sweep max_age now fate [] = record { kept = []; removed = []; first_err = none }
sweep max_age now fate (e ∷ d) = prune_entry max_age now (fate e.name) e (sweep max_age now fate d)

unfoldable pub prune : ℤ → ℕ → (Bytes → Fate) → Directory → Sweep
unfolding sweep
prune max_age now fate d =
    if is_positive max_age
    then sweep (to_ℕ max_age) now fate d
    else record { kept = d; removed = []; first_err = none }
