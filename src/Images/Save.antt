-- ===== src/Images/Save.antt =====
-- internal/tftp/imagestore.go: what Save leaves in the directory.
use unwedge.Base.{
  ◌∙◌, ◌⊎◌, inl, inr, Option-cases, Bool-cases, not, ◌&&◌, ℕ, ◌≡◌, ◌≢◌, refl, ap, Bytes, Option,
  if◌then◌else◌, Bool, true, false, some, none, length, arith,
}
use unwedge.Images.Names.{base-on_disk_name}
use unwedge.Images.{
  Info, Entry, Directory, Store, StoreError, DiskFault, io_copy, Saved, Faults, Upload, stored,
  refused, base, on_disk_name, lookup_entry, remove_entry, put_entry, exists_entry, file_of,
  finish_save, save, invalid_name, already_exists, create_failed, write_failed, close_failed,
  rename_failed, delete,
}
use unwedge.Images.Entries.{
  lookup_entry-put_same, lookup_entry-put_other, remove_entry-put_new, exists_entry-put_same,
}

delete_found :
    (s : Store) (name path : Bytes) (d : Directory)
    → on_disk_name s name ≡ some path
    → exists_entry path d ≡ true
    → delete s false name d ≡ (remove_entry path d, none)
unfolding delete
delete_found s name path d e h = rw (delete, e, h) refl

module _ (crc32 : Bytes → ℕ) (sha256 : Bytes → Bytes) where
  -- The description that Save returns of what it stored.
  abbrev pub info_of : Bytes → Upload → ℕ → Info
  info_of name upload now = record {
    name = name;
    size = length upload.bytes;
    mod_time = now;
    crc = crc32 upload.bytes;
    sha = sha256 upload.bytes;
  }

  -- A refused Save: the directory is as before, or the clean-up has failed and the temporary file is
  -- left.
  Refusal : Faults → Bytes → ℕ → Directory → Directory × Saved → Type 0
  Refusal faults tmp now d saved =
      ((e : StoreError) × (saved ≡ (d, refused e)))
      ⊎ ((e : StoreError) × (content : Bytes) × (faults.cleanup ≡ true)
          × (saved ≡ (put_entry (file_of crc32 sha256 tmp content now) d, refused e)))

  cleaned-Refusal :
      (faults : Faults) (tmp content : Bytes) (now : ℕ) (d : Directory) (e : StoreError)
      → exists_entry tmp d ≡ false
      → let written = put_entry (file_of crc32 sha256 tmp content now) d in
        Refusal faults tmp now d
          (if faults.cleanup then written else remove_entry tmp written, refused e)
  unfolding Refusal
  cleaned-Refusal faults tmp content now d e new = elim (Bool-cases faults.cleanup) [
    | inl h ↦ rw h (inr (e, content, refl, refl))
    | inr h ↦
        let same = remove_entry-put_new (file_of crc32 sha256 tmp content now) d new in
        rw h (inl (e, ap (λ x. (x, refused e)) same))
  ]

  -- What a Save past its first checks does.
  finish_save-put :
      (faults : Faults) (name path tmp : Bytes) (copy : Bytes × Bool) (now : ℕ) (d : Directory)
      → exists_entry tmp d ≡ false
      → let f = file_of crc32 sha256 in
        let saved =
          finish_save crc32 sha256 faults name path tmp copy now (put_entry (f tmp copy.0 now) d) in
        ((copy.1 ≡ false)
          × (saved ≡ (
            put_entry (f path copy.0 now) d,
            stored (info_of (base name) (record { bytes = copy.0; fails = false }) now),
          )))
        ⊎ Refusal faults tmp now d saved
  unfolding finish_save Refusal
  finish_save-put faults name path tmp copy now d new =
      let same = remove_entry-put_new (file_of crc32 sha256 tmp copy.0 now) d new in
      let early : (e : StoreError) → Refusal faults tmp now d _ =
        λ e. cleaned-Refusal faults tmp copy.0 now d e new in
      elim (Bool-cases copy.1) [
        | inl h ↦ inr (rw h (early write_failed))
        | inr h ↦ elim (Bool-cases faults.close) [
          | inl k ↦ inr (rw (h, k) (early close_failed))
          | inr k ↦ elim (Bool-cases faults.rename) [
            | inl l ↦ inr (rw (h, k, l) (early rename_failed))
            | inr l ↦ inl (h, rw (h, k, l, same) refl)
          ]
        ]
      ]

  io_copy_whole :
      (f : Option DiskFault) (u : Upload) → (io_copy f u).1 ≡ false → (io_copy f u).0 ≡ u.bytes
  unfolding io_copy
  io_copy_whole none u h = refl
  io_copy_whole (some f) u h = ground (arith, h)

  save-cases :
      (s : Store) (faults : Faults) (tmp name : Bytes) (upload : Upload) (overwrite : Bool)
      (now : ℕ) (d : Directory)
      → exists_entry tmp d ≡ false
      → let saved = save crc32 sha256 s faults tmp name upload overwrite now d in
        ((path : Bytes) × (on_disk_name s name ≡ some path)
          × (saved ≡ (
            put_entry (file_of crc32 sha256 path upload.bytes now) d,
            stored (info_of (base name) upload now),
          )))
        ⊎ Refusal faults tmp now d saved
  unfolding save Refusal
  save-cases s faults tmp name upload overwrite now d new =
      let copy : Bytes × Bool = io_copy faults.write upload in
      elim (Option-cases (on_disk_name s name)) [
        | inl e ↦ inr (inl (invalid_name, rw (save, e) refl))
        | inr (path, e) ↦ elim (Bool-cases (not overwrite && exists_entry path d)) [
          | inl h ↦ inr (inl (already_exists, rw (save, e, h) refl))
          | inr h ↦ elim (Bool-cases faults.create) [
            | inl k ↦ inr (inl (create_failed, rw (save, e, h, k) refl))
            | inr k ↦ elim (finish_save-put faults name path tmp copy now d new) [
              | inl (ok, done) ↦ inl (
                path,
                e,
                rw (save, e, h, k) done
                    ∙ ap
                        (λ b. (
                          put_entry (file_of crc32 sha256 path b now) d,
                          stored (info_of (base name) (record { bytes = b; fails = false }) now),
                        ))
                        (io_copy_whole faults.write upload ok),
              )
              | inr failed ↦ inr (rw (save, e, h, k) failed)
            ]
          ]
        ]
      ]

  -- A Save that is refused, at whatever point, leaves every file but its temporary one as it was, and
  -- the whole directory unless the clean-up of that file failed as well, if its name was new.
  pub save_refused :
      (s : Store) (faults : Faults) (tmp name : Bytes) (upload : Upload) (overwrite : Bool)
      (now : ℕ) (d : Directory) (e : StoreError)
      → exists_entry tmp d ≡ false
      → let saved = save crc32 sha256 s faults tmp name upload overwrite now d in
        saved.1 ≡ refused e
        → ((other : Bytes) → other ≢ tmp → lookup_entry other saved.0 ≡ lookup_entry other d)
          × (faults.cleanup ≡ false → saved.0 ≡ d)
  unfolding Refusal
  save_refused s faults tmp name upload overwrite now d e new h =
      elim (save-cases s faults tmp name upload overwrite now d new) [
        | inl (path, e', q) ↦ absurd (cc (ap (λ r. r.1) q, h))
        | inr (inl (x, q)) ↦
            ((λ other ne. ap (λ r. lookup_entry other r.0) q), (λ clean. ap (λ r. r.0) q))
        | inr (inr (x, content, left, q)) ↦ (
          (λ other ne.
              ap (λ r. lookup_entry other r.0) q
              ∙ lookup_entry-put_other (file_of crc32 sha256 tmp content now) other d ne),
          (λ clean. absurd (cc (left, clean))),
        )
      ]

  Refusal-not_stored :
      (faults : Faults) (tmp : Bytes) (now : ℕ) (d : Directory) (saved : Directory × Saved)
      (i : Info)
      → Refusal faults tmp now d saved
      → saved.1 ≢ stored i
  unfolding Refusal
  Refusal-not_stored faults tmp now d saved i (inl (e, q)) h = cc (ap (λ r. r.1) q, h)
  Refusal-not_stored faults tmp now d saved i (inr (e, content, left, q)) h =
      cc (ap (λ r. r.1) q, h)

  -- A Save that succeeds has put the whole upload under the on-disk name of the image, described it by
  -- its name, length and digests, and left every other file as it was, if the name of its temporary
  -- file was new.
  pub save-stored :
      (s : Store) (faults : Faults) (tmp name : Bytes) (upload : Upload) (overwrite : Bool)
      (now : ℕ) (d : Directory) (i : Info)
      → exists_entry tmp d ≡ false
      → let saved = save crc32 sha256 s faults tmp name upload overwrite now d in
        saved.1 ≡ stored i
        → (path : Bytes) × (on_disk_name s name ≡ some path)
          × (i ≡ info_of name upload now)
          × (lookup_entry path saved.0 ≡ some (file_of crc32 sha256 path upload.bytes now))
          × ((other : Bytes) → other ≢ path → lookup_entry other saved.0 ≡ lookup_entry other d)
  save-stored s faults tmp name upload overwrite now d i new h =
      elim (save-cases s faults tmp name upload overwrite now d new) [
        | inl (path, e, q) ↦ (
          path,
          e,
          (let mine : i ≡ info_of (base name) upload now = cc (ap (λ r. r.1) q, h) in
              mine ∙ ap (λ n. info_of n upload now) (base-on_disk_name s name path e)),
          rw (ap (λ r. r.0) q)
              (lookup_entry-put_same (file_of crc32 sha256 path upload.bytes now) d),
          (λ other ne.
              rw (ap (λ r. r.0) q)
                (lookup_entry-put_other (file_of crc32 sha256 path upload.bytes now) other d ne)),
        )
        | inr refusal ↦ absurd (Refusal-not_stored faults tmp now d _ i refusal h)
      ]

  -- Delete undoes a Save that succeeds, if the image was not there before and the name of the
  -- temporary file was new.
  pub delete-save :
      (s : Store) (faults : Faults) (tmp name : Bytes) (upload : Upload) (overwrite : Bool)
      (now : ℕ) (d : Directory) (i : Info) (path : Bytes)
      → exists_entry tmp d ≡ false
      → on_disk_name s name ≡ some path
      → exists_entry path d ≡ false
      → let saved = save crc32 sha256 s faults tmp name upload overwrite now d in
        saved.1 ≡ stored i → delete s false name saved.0 ≡ (d, none)
  delete-save s faults tmp name upload overwrite now d i path new e absent h =
      elim (save-cases s faults tmp name upload overwrite now d new) [
        | inl (path', e', q) ↦
            let f : Entry = file_of crc32 sha256 path upload.bytes now in
            let same : path' ≡ path = cc (e, e') in
            let q0 : (save crc32 sha256 s faults tmp name upload overwrite now d).0
                ≡ put_entry f d =
              ap (λ r. r.0) q
              ∙ ap (λ p. put_entry (file_of crc32 sha256 p upload.bytes now) d) same in
            ap (delete s false name) q0
            ∙ delete_found s name path (put_entry f d) e (exists_entry-put_same f d)
            ∙ ap (λ r. (r, none)) (remove_entry-put_new f d absent)
        | inr refusal ↦ absurd (Refusal-not_stored faults tmp now d _ i refusal h)
      ]
