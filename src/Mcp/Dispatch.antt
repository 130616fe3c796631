-- ===== src/Mcp/Dispatch.antt =====
-- internal/mcp/mcp.go: which lines are answered.
use unwedge.Base.{
  ◌≡◌, refl, ap, ◌∙◌, Bytes, codes, Bool, true, false, ◌&&◌, ◌||◌, not, some, List, [], ◌∷◌, eqb,
  eqb_iff, if◌then◌else◌, Bool-cases, inl, inr, arith,
}
use unwedge.Base.Int.{pos}
use unwedge.Mcp.{
  Server, RpcRequest, RpcResponse, result, error, Decoder, dispatch, handle_line, handle_tool_call,
  tool_result, answered,
}

abbrev pub id_of : RpcResponse → Bytes
id_of (result id x) = id
id_of (error id code text) = id

unfoldable pub is_known : Bytes → Bool
is_known m =
    eqb m (codes "initialize")
    || eqb m (codes "ping")
    || eqb m (codes "tools/list")
    || eqb m (codes "tools/call")

-- The two notifications of the protocol, and whatever else is unknown and has no id.
unfoldable pub is_silent : RpcRequest → Bool
unfolding is_known
is_silent req =
    eqb req.method (codes "notifications/initialized")
    || eqb req.method (codes "initialized")
    || (eqb req.id [] && not (is_known req.method))

eqb_apart : (m a b : Bytes) → eqb a b ≡ false → eqb m a ≡ true → eqb m b ≡ false
eqb_apart m a b ne e = ap (λ x. eqb x b) ((eqb_iff m a).0 e) ∙ ne

silent_not :
    (req : RpcRequest) (k : Bytes)
    → eqb req.method k ≡ true
    → eqb k (codes "notifications/initialized") ≡ false
    → eqb k (codes "initialized") ≡ false
    → is_known k ≡ true
    → is_silent req ≡ false
unfolding is_silent
silent_not req k e a b known =
    let n1 : eqb req.method (codes "notifications/initialized") ≡ false =
      eqb_apart req.method k (codes "notifications/initialized") a e in
    let n2 : eqb req.method (codes "initialized") ≡ false =
      eqb_apart req.method k (codes "initialized") b e in
    let named : is_known req.method ≡ true = ap is_known ((eqb_iff req.method k).0 e) ∙ known in
    ground (arith, n1, n2, named)

abbrev Answers : RpcRequest → List RpcResponse → Type 0
Answers req out =
    (r : RpcResponse) × (id_of r ≡ req.id) × (out ≡ (if is_silent req then [] else r ∷ []))

answer :
    (req : RpcRequest) (r : RpcResponse)
    → id_of r ≡ req.id
    → is_silent req ≡ false
    → Answers req (r ∷ [])
answer req r e h = (r, e, rw h refl)

silence : (req : RpcRequest) → is_silent req ≡ true → Answers req []
silence req h = (error req.id (pos 0) [], refl, rw h refl)

ready_silent :
    (req : RpcRequest)
    → (eqb req.method (codes "notifications/initialized") || eqb req.method (codes "initialized"))
      ≡ true
    → is_silent req ≡ true
unfolding is_silent
ready_silent req h = ground (arith, h)

unknown_silent :
    (req : RpcRequest)
    → eqb req.method (codes "initialize") ≡ false
    → (eqb req.method (codes "notifications/initialized") || eqb req.method (codes "initialized"))
      ≡ false
    → eqb req.method (codes "ping") ≡ false
    → eqb req.method (codes "tools/list") ≡ false
    → eqb req.method (codes "tools/call") ≡ false
    → is_silent req ≡ eqb req.id []
unfolding is_silent is_known
unknown_silent req a b c d f = ground (arith, a, b, c, d, f)

module _ {W : Type 0} where
  id-tool_call :
      (json : Decoder) (s : Server W) (req : RpcRequest) (w : W)
      → id_of (handle_tool_call json s req w).1 ≡ req.id
  unfolding handle_tool_call tool_result
  id-tool_call json s req w = ground arith

  dispatch-Answers :
      (json : Decoder) (s : Server W) (req : RpcRequest) (w : W)
      → Answers req (dispatch json s req w).1
  unfolding dispatch answered is_known eqb
  dispatch-Answers json s req w = elim (Bool-cases (eqb req.method (codes "initialize"))) [
    | inl a ↦
        rw (dispatch, a) (answer req _ refl (silent_not req (codes "initialize") a refl refl refl))
    | inr a ↦
        elim (Bool-cases (
          eqb req.method (codes "notifications/initialized")
          || eqb req.method (codes "initialized"))) [
            | inl b ↦ rw (dispatch, a, b) (silence req (ready_silent req b))
            | inr b ↦ elim (Bool-cases (eqb req.method (codes "ping"))) [
              | inl c ↦
                  rw (dispatch, a, b, c)
                    (answer req _ refl (silent_not req (codes "ping") c refl refl refl))
              | inr c ↦ elim (Bool-cases (eqb req.method (codes "tools/list"))) [
                | inl d ↦
                    rw (dispatch, a, b, c, d)
                      (answer req _ refl (silent_not req (codes "tools/list") d refl refl refl))
                | inr d ↦ elim (Bool-cases (eqb req.method (codes "tools/call"))) [
                  | inl f ↦
                      rw (dispatch, a, b, c, d, f)
                        (answer req _ (id-tool_call json s req w)
                          (silent_not req (codes "tools/call") f refl refl refl))
                  | inr f ↦
                      let q : is_silent req ≡ eqb req.id [] = unknown_silent req a b c d f in
                      elim (Bool-cases (eqb req.id [])) [
                        | inl i ↦ rw (dispatch, a, b, c, d, f, i) (silence req (q ∙ i))
                        | inr i ↦ rw (dispatch, a, b, c, d, f, i) (answer req _ refl (q ∙ i))
                      ]
                ]
              ]
            ]
          ]
  ]

  -- A line that is a request gets one response with the id of the request, or none: none exactly for
  -- the notification that the client is initialized and for an unknown method without an id.
  pub handle_line-request :
      (json : Decoder) (s : Server W) (line : Bytes) (w : W) (req : RpcRequest)
      → json.request line ≡ some req
      → (r : RpcResponse) × (id_of r ≡ req.id)
        × ((handle_line json s line w).1 ≡ (if is_silent req then [] else r ∷ []))
  unfolding handle_line
  handle_line-request json s line w req e = rw (handle_line, e) (dispatch-Answers json s req w)
