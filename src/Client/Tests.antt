-- ===== src/Client/Tests.antt =====
-- internal/client/client.go: a client against a new lock, and small files.
use unwedge.Base.{
  ℕ, ◌*◌, ◌<◌, ◌≤◌, ◌≡◌, refl, Bytes, codes, true, false, Option, none, some, List, [], ◌∷◌, length,
  eqb, arith,
}
use unwedge.Base.Int.{pos, negsuc, is_negative}
use unwedge.Grpc.{Reply, reply, milliseconds, millisecond}
use unwedge.Session.{Manager, is_free, expires_at_locked, clear_locked, expire_if_idle, info_locked}
use unwedge.Session.Acquire.{Round, attempt, take_lock, after_attempt, left_at}
use unwedge.Session.Acquire
use unwedge.Gate.{
  StartResponse, is_exempt, mentions, start_session, start_reply, interceptor, ended,
  finish_session,
}
use unwedge.Gate.Lock.{begun}
use unwedge.Images.{Store, Upload, Faults, save}
use unwedge.Service.Streams.{upload_image, console_chunks}
use unwedge.Client.{Client, wait_ms, with_session, upload_messages}
use unwedge.Client.Waits.{Near, milliseconds-wait_ms}
use unwedge.Client.Calls.{started, client, acquire-interceptor}
use unwedge.Client.Uploads.{saved_reply, upload_image-upload_messages}

-- 1.5 milliseconds are encoded as one.
encoded_wait : wait_ms (pos 1_500_000) ≡ pos 1
unfolding wait_ms
encoded_wait = refl

offsets : console_chunks 0 (codes "ab" ∷ codes "c" ∷ []) ≡ (codes "ab", 0) ∷ (codes "c", 2) ∷ []
unfolding console_chunks
offsets = refl

milliseconds-wait_ms_example :
    (is_negative (milliseconds (wait_ms (negsuc 0))) ≡ true)
    × (milliseconds (wait_ms (pos 0)) ≡ pos 0)
    × ((d : ℕ) × (milliseconds (wait_ms (pos 1)) ≡ pos (d * millisecond)) × (0 < d) × Near 1 d)
milliseconds-wait_ms_example = milliseconds-wait_ms 0 (omega arith)

abbrev lock : Manager
lock = record {
  ttl = 100_000_000;
  id = [];
  owner = [];
  started_at = 0;
  last_activity = 0;
  active_calls = 0;
  released = none;
  made = 0;
  closed = [];
  stopped = false;
}

abbrev rounds : List Round
rounds =
    record {
      others = λ m. m;
      meanwhile = λ m. m;
      fresh = codes "b2";
      t0 = 10;
      t1 = 11;
      t2 = 12;
      signals = [];
    }
    ∷ []

abbrev given : StartResponse
given = record { session_id = codes "b2"; expires_at_ms = 100; ttl_ms = 100 }

abbrev ssh_exec : Bytes
ssh_exec = codes "/unwedge.v1.Unwedge/SSHExec"

abbrev nobody : Client
nobody = record { session_id = [] }

abbrev handler : Option Manager → Option Manager × Reply ℕ
handler m = (m, reply 7)

acquire-interceptor_example :
    (held : Manager) × ((started (codes "ci") (pos 0) rounds lock nobody given).0 ≡ some held)
    × (20 ≤ expires_at_locked held
        → interceptor ssh_exec
            (some (with_session (client (codes "ci") (pos 0) rounds lock nobody given) []))
            20
            21
            22
            handler
            (started (codes "ci") (pos 0) rounds lock nobody given).0
          ≡ (
            ended held.id 22 (handler (some (begun 21 held))).0,
            (handler (some (begun 21 held))).1,
          ))
    × ((finish_session
          (client (codes "ci") (pos 0) rounds lock nobody given).session_id
          (started (codes "ci") (pos 0) rounds lock nobody given).0).0
        ≡ some (clear_locked held))
unfolding is_exempt mentions eqb start_session start_reply Acquire.acquire left_at after_attempt
    attempt take_lock expire_if_idle is_free info_locked
acquire-interceptor_example =
    acquire-interceptor (codes "ci") (pos 0) rounds lock nobody given ssh_exec 20 21 22 handler
      ((λ e. cc e), tt) refl refl

abbrev size_of : Bytes → ℕ
size_of b = length b

abbrev no_sha : Bytes → Bytes
no_sha b = []

abbrev store : Store
store = record { dir = codes "/srv"; prefix = codes "a--" }

abbrev no_faults : Faults
no_faults = record { create = false; write = none; close = false; rename = false; cleanup = false }

abbrev reads : List Bytes
reads = codes "ab" ∷ [] ∷ codes "c" ∷ []

upload_image-upload_messages_example :
    let whole : Upload = record { bytes = codes "abc"; fails = false } in
    let saved =
      save size_of no_sha store no_faults (codes ".upload-1") (codes "k") whole false 60 [] in
    upload_image size_of no_sha
      (some store)
      no_faults
      (codes ".upload-1")
      (record { messages = upload_messages (codes "k") 3 false reads; clean = true })
      60
      []
    ≡ (saved.0, saved_reply saved.1)
upload_image-upload_messages_example =
    upload_image-upload_messages size_of no_sha store no_faults (codes ".upload-1") (codes "k") 3
      false reads 60 []
