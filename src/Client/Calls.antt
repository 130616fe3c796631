-- ===== src/Client/Calls.antt =====
-- internal/client/client.go with internal/server/session.go: the session id that calls carry.
use unwedge.Base.{
  ℕ, ◌≤◌, ◌≡◌, ◌≢◌, refl, sym, ap, ◌∙◌, Bytes, false, Option, some, List, [], ◌∷◌, eqb_iff, inr,
}
use unwedge.Base.Int.{ℤ}
use unwedge.Grpc.{Reply, reply, milliseconds}
use unwedge.Session.{Manager, Info, is_free, info_locked, expires_at_locked, clear_locked}
use unwedge.Session.Acquire
use unwedge.Session.Acquire.{Round, Outcome}
use unwedge.Session.Loop.{AllGen, acquire-Promise, Promise}
use unwedge.Gate.{
  StartResponse, is_exempt, session_id_from, interceptor, ended, start_session, start_reply,
  finish_session,
}
use unwedge.Gate.Lock.{begun, interceptor_lem}
use unwedge.Gate.Calls.{finish_session_lem}
use unwedge.Client.{Client, with_session, acquired, acquire, wait_ms}

not_free : (m : Manager) → is_free m ≡ false → m.id ≢ []
unfolding is_free
not_free m h e = absurd (cc (h, (eqb_iff m.id []).1 e))

id-info_locked : (m : Manager) → is_free m ≡ false → (info_locked m).id ≡ m.id
unfolding info_locked
id-info_locked m h = rw h refl

replied_id : (x y : StartResponse) → reply x ≡ reply y → x.session_id ≡ y.session_id
replied_id x y e = cc

-- A session id that a reply carries is that of the lock, which is held.
start_reply-held :
    (owner : Bytes) (wait : ℤ) (rounds : List Round) (ttl : ℕ) (before m : Manager) (o : Outcome)
    (r : StartResponse)
    → Promise owner wait rounds before m o
    → start_reply ttl o ≡ reply r
    → (r.session_id ≡ m.id) × (m.id ≢ [])
unfolding start_reply
start_reply-held owner wait rounds ttl before m (Acquire.acquired i) r p e =
    let named : i.id ≡ m.id = ap (λ (x : Info). x.id) p.0 ∙ id-info_locked m p.3 in
    (sym (replied_id _ r e) ∙ named, not_free m p.3)
start_reply-held owner wait rounds ttl before m (Acquire.busy b) r p e = cc
start_reply-held owner wait rounds ttl before m (Acquire.cancelled Acquire.deadline_exceeded) r p
      e =
    cc
start_reply-held owner wait rounds ttl before m (Acquire.cancelled Acquire.canceled) r p e = cc
start_reply-held owner wait rounds ttl before m Acquire.waiting r p e = cc

session_id_from-with_session :
    (id : Bytes)
    → id ≢ []
    → session_id_from (some (with_session (record { session_id = id }) [])) ≡ id
unfolding session_id_from with_session
session_id_from-with_session [] ne = absurd (ne refl)
session_id_from-with_session (b ∷ id) ne = refl

session_id-acquire :
    (call : Bytes → ℤ → Reply StartResponse) (owner : Bytes) (wait : ℤ) (c : Client)
    (r : StartResponse)
    → call owner (wait_ms wait) ≡ reply r
    → (acquire call owner wait c).0.session_id ≡ r.session_id
unfolding acquire acquired
session_id-acquire call owner wait c r e = rw e refl

module _ (owner : Bytes) (wait : ℤ) (rounds : List Round) (m : Manager) (c : Client)
    (r : StartResponse) where
  abbrev pub started : Option Manager × Reply StartResponse
  started = start_session owner (wait_ms wait) rounds (some m)

  -- The client after its Acquire.
  abbrev pub client : Client
  client = (acquire (λ o ms. (start_session o ms rounds (some m)).1) owner wait c).0

  -- Once an Acquire of the client has succeeded, the daemon's lock is held, an operational call of
  -- the client within the TTL is admitted and run, and the client's Release frees the lock. No
  -- generated id is empty.
  pub acquire-interceptor :
      {R : Type 0} (method : Bytes) (t0 t1 t2 : ℕ)
      (handler : Option Manager → Option Manager × Reply R)
      → AllGen rounds
      → is_exempt method ≡ false
      → started.1 ≡ reply r
      → (held : Manager) × (started.0 ≡ some held)
        × (t0 ≤ expires_at_locked held
            → let run = handler (some (begun t1 held)) in
              interceptor method (some (with_session client [])) t0 t1 t2 handler started.0
              ≡ (ended held.id t2 run.0, run.1))
        × ((finish_session client.session_id started.0).0 ≡ some (clear_locked held))
  unfolding start_session
  acquire-interceptor method t0 t1 t2 handler gen operational e =
      let result : Manager × Outcome =
        Acquire.acquire owner (milliseconds (wait_ms wait)) rounds m in
      let held : Manager = result.0 in
      let facts : (r.session_id ≡ held.id) × (held.id ≢ []) =
        start_reply-held owner (milliseconds (wait_ms wait)) rounds held.ttl m held result.1 r
          (acquire-Promise owner (milliseconds (wait_ms wait)) rounds m gen) e in
      let mine : client.session_id ≡ held.id =
        session_id-acquire (λ o ms. (start_session o ms rounds (some m)).1) owner wait c r e
        ∙ facts.0 in
      let carried : session_id_from (some (with_session client [])) ≡ held.id =
        ap (λ i. session_id_from (some (with_session (record { session_id = i }) []))) mine
        ∙ session_id_from-with_session held.id facts.1 in
      (
        held,
        refl,
        λ early.
            (interceptor_lem method (some (with_session client [])) t0 t1 t2 handler held
                operational).0
              (sym carried, (λ q. facts.1 (sym carried ∙ q)), inr early)
            ∙ ap
                (λ i. (
                  ended i t2 (handler (some (begun t1 held))).0,
                  (handler (some (begun t1 held))).1,
                ))
                carried,
        ap (λ i. (finish_session i (some held)).0) mine
            ∙ ap (λ x. x.0) ((finish_session_lem held.id held facts.1).0 refl),
      )
