-- ===== src/Client.antt =====
-- internal/client/client.go: the client that the command line and the bridge share. The generated
-- stub is an argument: what the daemon answers.
pub mod Waits
pub mod Calls
pub mod Uploads
mod Tests
use unwedge.Base.{
  ℕ, zero, suc, ◌+◌, ◌/◌, Bytes, codes, Bool, true, false, Option, none, some, List, [], ◌∷◌, ◌++◌,
  map, length, ◌==◌, if◌then◌else◌,
}
use unwedge.Base.Int.{ℤ, pos, negsuc}
use unwedge.Grpc.{Reply, reply, status, pending, Code, millisecond}
use unwedge.Gate.{StartResponse}
use unwedge.Service.Streams.{UploadMessage, metadata, chunk, ScpMessage, scp_metadata, scp_chunk}

-- The session that is attached to calls; empty without one.
pub record Client : Type 0 where
  pub session_id : Bytes

-- withSession: the values of the session key in the outgoing metadata.
unfoldable pub with_session : Client → List Bytes → List Bytes
with_session c outgoing = elim c.session_id [ [] ↦ outgoing | b ∷ id ↦ outgoing ++ (b ∷ id) ∷ [] ]

-- How Acquire encodes its wait, a number of nanoseconds.
unfoldable pub wait_ms : ℤ → ℤ
wait_ms (negsuc n) = negsuc 0
wait_ms (pos zero) = pos 0
wait_ms (pos (suc n)) = let ms = suc n / millisecond in pos (if ms == 0 then 1 else ms)

unfoldable pub acquired : Client → Reply StartResponse → Client × Reply StartResponse
acquired c (reply r) = (record { session_id = r.session_id }, reply r)
acquired c (status e) = (c, status e)
acquired c pending = (c, pending)

-- Acquire
unfoldable pub acquire :
    (Bytes → ℤ → Reply StartResponse) → Bytes → ℤ → Client → Client × Reply StartResponse
unfolding acquired wait_ms
acquire start_session owner wait c = acquired c (start_session owner (wait_ms wait))

-- Release; without a session there is no call.
unfoldable pub release : (Bytes → Reply (Unit {0})) → Client → Client × Reply (Unit {0})
release finish_session c = elim c.session_id [
  | [] ↦ (c, reply tt)
  | b ∷ id ↦ (record { session_id = [] }, finish_session (b ∷ id))
]

-- Ping
unfoldable pub ping : (Bytes → Reply ℤ) → Client → Option (Reply ℤ)
ping call c = elim c.session_id [ [] ↦ none | b ∷ id ↦ some (call (b ∷ id)) ]

unfoldable pub has_session : Client → Bool
has_session c = elim c.session_id [ [] ↦ false | b ∷ id ↦ true ]

unfoldable pub clear_session : Client → Client
clear_session c = record { session_id = [] }

-- One turn of a loop that reads a file: the bytes of a read, if there are any, are sent.
unfoldable pub read_chunks : {M : Type 0} → (Bytes → M) → List Bytes → List M
read_chunks message [] = []
read_chunks message ([] ∷ reads) = read_chunks message reads
read_chunks message ((b ∷ bs) ∷ reads) = message (b ∷ bs) ∷ read_chunks message reads

-- The messages of UploadImageFile, for what the reads of the file yield.
unfoldable pub upload_messages : Bytes → ℕ → Bool → List Bytes → List UploadMessage
unfolding read_chunks
upload_messages name size overwrite reads = metadata name size overwrite ∷ read_chunks chunk reads

-- The messages of SCPUploadFile.
unfoldable pub scp_messages : Bytes → ℕ → ℕ → List Bytes → ScpMessage × List ScpMessage
unfolding read_chunks
scp_messages path size mode reads = (scp_metadata path (pos size) mode, read_chunks scp_chunk reads)

-- drainBootEvents: what the stream yields until io.EOF, or an error.
unfoldable pub drain_boot_events : {E : Type 0} → List E → Option Code → List E × Reply (Unit {0})
drain_boot_events events none = (events, reply tt)
drain_boot_events events (some e) = (events, status e)
