-- ===== src/Client/Uploads.antt =====
-- internal/client/client.go with internal/server/server.go: files on their way to the image store and
-- to the target.
use unwedge.Base.{
  ℕ, ◌≡◌, ◌≢◌, refl, ap, ◌∙◌, Bytes, Option, none, Bool, true, false, some, List, [], ◌∷◌, ◌++◌,
  Option-cases, inl, inr, ◌⊎◌, arith,
}
use unwedge.Base.Int.{pos}
use unwedge.Grpc.{Reply, reply, status, internal}
use unwedge.Images.{
  Info, Directory, Store, StoreError, Upload, DiskFault, io_copy, Faults, Saved, stored, refused,
  save, finish_save, exists_entry, on_disk_name,
}
use unwedge.Images.Save.{save_refused}
use unwedge.Scp.{Wire, scp_upload}
use unwedge.Service.Streams.{
  UploadMessage, metadata, chunk, chunk_of, piped, upload_reply, upload_to, upload_image, scp_chunk,
  scp_chunk_of, scp_reply, scp_upload_to, service_scp_upload,
}
use unwedge.Client.{read_chunks, upload_messages, scp_messages}

-- All that the reads of a file yield.
abbrev pub joined : List Bytes → Bytes
joined [] = []
joined (r ∷ rs) = r ++ joined rs

piped-read_chunks :
    {M : Type 0} (bytes_of : M → Bytes) (message : Bytes → M) (reads : List Bytes)
    → ((b : Bytes) → bytes_of (message b) ≡ b)
    → piped bytes_of (read_chunks message reads) ≡ joined reads
unfolding piped read_chunks
piped-read_chunks bytes_of message [] h = refl
piped-read_chunks bytes_of message ([] ∷ reads) h = piped-read_chunks bytes_of message reads h
piped-read_chunks bytes_of message ((b ∷ bs) ∷ reads) h =
    ap (λ x. x ++ piped bytes_of (read_chunks message reads)) (h (b ∷ bs))
    ∙ ap (λ x. (b ∷ bs) ++ x) (piped-read_chunks bytes_of message reads h)

abbrev pub saved_reply : Saved → Reply Info
saved_reply (stored i) = reply i
saved_reply (refused e) = status internal

Saved-cases : (x : Saved) → ((i : Info) × (x ≡ stored i)) ⊎ ((e : StoreError) × (x ≡ refused e))
Saved-cases (stored i) = inl (i, refl)
Saved-cases (refused e) = inr (e, refl)

upload_reply_clean :
    (faults : Faults) (bytes : Bytes) (x : Saved) → upload_reply true faults bytes x ≡ saved_reply x
unfolding upload_reply
upload_reply_clean faults bytes (stored i) = refl
upload_reply_clean faults bytes (refused e) = refl

upload_reply_broken :
    (faults : Faults) (bytes : Bytes) (x : Saved) (i : Info)
    → upload_reply false faults bytes x ≢ reply i
unfolding upload_reply
upload_reply_broken faults bytes (stored j) i = λ e. cc
upload_reply_broken faults bytes (refused e) i = ground arith

module _ (crc32 : Bytes → ℕ) (sha256 : Bytes → Bytes) where
  -- An upload of the client in whatever chunks is one Save of the whole file: the same directory,
  -- and the described image as the reply, or Internal if Save refuses.
  pub upload_image-upload_messages :
      (s : Store) (faults : Faults) (tmp name : Bytes) (size : ℕ) (overwrite : Bool)
      (reads : List Bytes) (now : ℕ) (d : Directory)
      → let whole : Upload = record { bytes = joined reads; fails = false } in
        let saved = save crc32 sha256 s faults tmp name whole overwrite now d in
        upload_image crc32 sha256
          (some s)
          faults
          tmp
          (record { messages = upload_messages name size overwrite reads; clean = true })
          now
          d
        ≡ (saved.0, saved_reply saved.1)
  unfolding upload_image upload_to upload_messages
  upload_image-upload_messages s faults tmp name size overwrite reads now d =
      let all : piped chunk_of (read_chunks chunk reads) ≡ joined reads =
        piped-read_chunks chunk_of chunk reads (λ b. (unfold chunk_of in refl)) in
      let result : Bytes → Directory × Saved = λ b.
        save crc32 sha256 s faults tmp name (record { bytes = b; fails = false }) overwrite now d in
      ap (λ b. ((result b).0, upload_reply true faults b (result b).1)) all
      ∙ ap (λ x. ((result (joined reads)).0, x))
          (upload_reply_clean faults (joined reads) (result (joined reads)).1)

  io_copy_fails : (f : Option DiskFault) (u : Upload) → u.fails ≡ true → (io_copy f u).1 ≡ true
  unfolding io_copy
  io_copy_fails none u h = h
  io_copy_fails (some f) u h = ground (arith, h)

  save_not_stored :
      (s : Store) (faults : Faults) (tmp name : Bytes) (upload : Upload) (overwrite : Bool)
      (now : ℕ) (d : Directory) (i : Info)
      → upload.fails ≡ true
      → (save crc32 sha256 s faults tmp name upload overwrite now d).1 ≢ stored i
  unfolding save finish_save
  save_not_stored s faults tmp name upload overwrite now d i h =
      let broken = io_copy_fails faults.write upload h in
      elim (Option-cases (on_disk_name s name)) [
        | inl e ↦ ground (arith, e)
        | inr (path, e) ↦ ground (arith, e, broken)
      ]

  save_failing :
      (s : Store) (faults : Faults) (tmp name : Bytes) (upload : Upload) (overwrite : Bool)
      (now : ℕ) (d : Directory)
      → upload.fails ≡ true
      → (e : StoreError) × ((save crc32 sha256 s faults tmp name upload overwrite now d).1
          ≡ refused e)
  save_failing s faults tmp name upload overwrite now d h =
      elim (Saved-cases (save crc32 sha256 s faults tmp name upload overwrite now d).1) [
        | inl (i, e) ↦ absurd (save_not_stored s faults tmp name upload overwrite now d i h e)
        | inr refusal ↦ refusal
      ]

  -- An upload that breaks off, before or behind its metadata, is no success and leaves the image
  -- directory as it was, if the name of the temporary file was new and its clean-up does not fail.
  pub upload_image_broken :
      (s : Store) (faults : Faults) (tmp : Bytes) (messages : List UploadMessage) (now : ℕ)
      (d : Directory)
      → exists_entry tmp d ≡ false
      → faults.cleanup ≡ false
      → let result =
          upload_image crc32 sha256
            (some s)
            faults
            tmp
            (record { messages = messages; clean = false })
            now
            d in
        (result.0 ≡ d) × ((i : Info) → result.1 ≢ reply i)
  unfolding upload_image upload_to
  upload_image_broken s faults tmp [] now d new clean = (refl, λ i e. cc)
  upload_image_broken s faults tmp (chunk b ∷ rest) now d new clean = (refl, λ i e. cc)
  upload_image_broken s faults tmp (metadata name size overwrite ∷ rest) now d new clean =
      let upload : Upload = record { bytes = piped chunk_of rest; fails = true } in
      let (e, refusal) = save_failing s faults tmp name upload overwrite now d refl in
      (
        (save_refused crc32 sha256 s faults tmp name upload overwrite now d e new refusal).1 clean,
        upload_reply_broken faults (piped chunk_of rest) _,
      )

-- A file that the client sends to the target goes to the scp source whole: the handler is an scp
-- upload of what the reads yield, for a path that is not empty.
pub service_scp_upload-scp_messages :
    (c : ℕ) (path : Bytes) (size mode : ℕ) (reads : List Bytes) (w : Wire)
    → let m = scp_messages (c ∷ path) size mode reads in
      service_scp_upload true m.0 m.1 w
      ≡ scp_reply (pos size) (scp_upload (c ∷ path) mode (pos size) (joined reads) w)
unfolding service_scp_upload scp_upload_to scp_messages
service_scp_upload-scp_messages c path size mode reads w =
    ap (λ b. scp_reply (pos size) (scp_upload (c ∷ path) mode (pos size) b w))
      (piped-read_chunks scp_chunk_of scp_chunk reads (λ b. (unfold scp_chunk_of in refl)))
