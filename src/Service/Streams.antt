-- ===== src/Service/Streams.antt =====
-- internal/server/server.go: the handlers of streams. What a stream receives is the list of its
-- messages, and whether its end is clean (io.EOF) or an error.
use unwedge.Base.{
  ℕ, ◌+◌, Bytes, Bool, true, false, not, Option, none, some, List, [], ◌∷◌, ◌++◌, length, ltb,
  if◌then◌else◌,
}
use unwedge.Base.Int.{ℤ, pos, negsuc}
use unwedge.Grpc.{
  Reply, reply, status, failed_precondition, invalid_argument, internal, aborted, unavailable,
}
use unwedge.Images.{
  Info, Directory, Store, StoreError, invalid_name, already_exists, create_failed, write_failed,
  DiskFault, Faults, Saved, stored, refused, save,
}
use unwedge.Scp.{Wire, Outcome, scp_upload}

-- UploadImageRequest: metadata (name, size, overwrite), or a chunk.
pub data UploadMessage : Type 0 where
  metadata : Bytes → ℕ → Bool → UploadMessage
  chunk : Bytes → UploadMessage

pub record Received (M : Type 0) : Type 0 where
  pub messages : List M
  pub clean : Bool

-- GetChunk
unfoldable pub chunk_of : UploadMessage → Bytes
chunk_of (metadata name size overwrite) = []
chunk_of (chunk b) = b

-- What goes through the pipe; an empty chunk is not written.
unfoldable pub piped : {M : Type 0} → (M → Bytes) → List M → Bytes
piped bytes_of [] = []
piped bytes_of (x ∷ xs) = bytes_of x ++ piped bytes_of xs

unfoldable pub has_bytes : Bytes → Bool
has_bytes [] = false
has_bytes (c ∷ s) = true

-- Whether bytes are left behind those that a failing io.Copy has read.
unfoldable pub has_rest : Option DiskFault → Bytes → Bool
has_rest none bytes = false
has_rest (some f) bytes = ltb f.read (length bytes)

-- Whether a write into the pipe fails since Save has returned with this error: before it reads, or
-- when the disk has failed in the middle.
unfoldable pub is_cut : Faults → Bytes → StoreError → Bool
unfolding has_bytes has_rest
is_cut faults bytes invalid_name = has_bytes bytes
is_cut faults bytes already_exists = has_bytes bytes
is_cut faults bytes create_failed = has_bytes bytes
is_cut faults bytes write_failed = has_rest faults.write bytes
is_cut faults bytes e = false

-- The status behind the loop: an error of the stream comes before the error of Save, but not before a
-- write into the pipe that fails.
unfoldable pub upload_reply : Bool → Faults → Bytes → Saved → Reply Info
unfolding is_cut
upload_reply clean faults bytes (stored i) = if clean then reply i else status aborted
upload_reply clean faults bytes (refused e) =
    if clean
    then status internal
    else if is_cut faults bytes e
    then status internal
    else status aborted

module _ (crc32 : Bytes → ℕ) (sha256 : Bytes → Bytes) where
  -- Save in its goroutine with the pipe, joined behind the loop.
  unfoldable pub upload_to :
      Store
      → Faults
      → Bytes
      → Bytes
      → Bool
      → Received UploadMessage
      → ℕ
      → Directory
      → Directory × Reply Info
  unfolding upload_reply piped
  upload_to s faults tmp name overwrite stream now d =
      let bytes = piped chunk_of stream.messages in
      let saved =
        save crc32 sha256 s faults tmp name (record { bytes = bytes; fails = not stream.clean })
          overwrite now d in
      (saved.0, upload_reply stream.clean faults bytes saved.1)

  -- UploadImage
  unfoldable pub upload_image :
      Option Store
      → Faults
      → Bytes
      → Received UploadMessage
      → ℕ
      → Directory
      → Directory × Reply Info
  unfolding upload_to
  upload_image none faults tmp stream now d = (d, status failed_precondition)
  upload_image (some s) faults tmp stream now d = elim stream.messages [
    | [] ↦ (d, status invalid_argument)
    | first ∷ rest ↦ elim first [
      | chunk b ↦ (d, status invalid_argument)
      | metadata name size overwrite ↦
          upload_to s faults tmp name overwrite (record { messages = rest; clean = stream.clean })
            now d
    ]
  ]

-- SCPUploadRequest: metadata (remote path, size, mode), or a chunk.
pub data ScpMessage : Type 0 where
  scp_metadata : Bytes → ℤ → ℕ → ScpMessage
  scp_chunk : Bytes → ScpMessage

unfoldable pub scp_chunk_of : ScpMessage → Bytes
scp_chunk_of (scp_metadata path size mode) = []
scp_chunk_of (scp_chunk b) = b

unfoldable pub scp_reply : {A : Type 0} → A → Outcome → Wire × Reply A
scp_reply a (w, none) = (w, reply a)
scp_reply a (w, some e) = (w, status unavailable)

-- SCPUpload on the wire of the session. A stream without a first message ends with its own error.
unfoldable pub scp_upload_to : Bytes → ℤ → ℕ → List ScpMessage → Wire → Wire × Reply ℤ
unfolding scp_reply piped
scp_upload_to [] size mode rest w = (w, status invalid_argument)
scp_upload_to (c ∷ path) (negsuc n) mode rest w = (w, status invalid_argument)
scp_upload_to (c ∷ path) (pos n) mode rest w =
    scp_reply (pos n) (scp_upload (c ∷ path) mode (pos n) (piped scp_chunk_of rest) w)

-- SCPUpload once its first message has come.
unfoldable pub service_scp_upload : Bool → ScpMessage → List ScpMessage → Wire → Wire × Reply ℤ
unfolding scp_upload_to
service_scp_upload false first rest w = (w, status failed_precondition)
service_scp_upload true (scp_chunk b) rest w = (w, status invalid_argument)
service_scp_upload true (scp_metadata path size mode) rest w = scp_upload_to path size mode rest w

-- StreamConsole: the chunks of the subscription with their offsets.
unfoldable pub console_chunks : ℕ → List Bytes → List (Bytes × ℕ)
console_chunks offset [] = []
console_chunks offset (b ∷ bs) = (b, offset) ∷ console_chunks (offset + length b) bs
