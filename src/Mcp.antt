-- ===== src/Mcp.antt =====
-- internal/mcp/mcp.go: the server of the Model Context Protocol. Decoding and encoding of JSON are
-- arguments; a tool acts on a world, and a message that is written is a Response.
pub mod Registry
pub mod Dispatch
mod Tests
use unwedge.Base.{
  ℕ, Bytes, codes, Bool, true, false, ◌&&◌, ◌||◌, not, Option, none, some, List, [], ◌∷◌, ◌++◌,
  ◌==◌, if◌then◌else◌, eqb, trim_left, trim_right, map,
}
use unwedge.Base.Int.{ℤ, negsuc}

abbrev pub protocol_version : Bytes
protocol_version = codes "2024-11-05"

-- What a tool does with its arguments: a text, or the text of an error.
abbrev pub Handler : Type 0 → Type 0
Handler W = Bytes → W → W × (Bool × Bytes)

pub record Tool (W : Type 0) : Type 0 where
  pub name : Bytes
  pub description : Bytes
  pub input_schema : Option Bytes
  pub handler : Handler W

pub record Server (W : Type 0) : Type 0 where
  pub name : Bytes
  pub version : Bytes
  pub tools : List (Tool W)
  pub order : List Bytes
  pub middleware : Option (Bytes → Handler W → Handler W)

pub record RpcRequest : Type 0 where
  pub id : Bytes
  pub method : Bytes
  pub params : Bytes

pub record ToolSpec : Type 0 where
  pub name : Bytes
  pub description : Bytes
  pub input_schema : Bytes

pub data Result : Type 0 where
  initialized : Bytes → Bytes → Bytes → Result
  pong : Result
  tool_list : List ToolSpec → Result
  tool_text : Bytes → Bool → Result

-- A reply or an error, with the id of its request. The text of a decoding error is left out.
pub data RpcResponse : Type 0 where
  result : Bytes → Result → RpcResponse
  error : Bytes → ℤ → Bytes → RpcResponse

-- What JSON decoding yields of a line, of the parameters of initialize and of those of a tool call.
pub record Decoder : Type 0 where
  pub request : Bytes → Option RpcRequest
  pub protocol : Bytes → Option Bytes
  pub call : Bytes → Option (Bytes × Bytes)

unfoldable pub is_blank : ℕ → Bool
is_blank c = c == 32 || c == 9 || c == 13 || c == 10

-- trimSpace
unfoldable pub trim_blanks : Bytes → Bytes
unfolding is_blank
trim_blanks b = trim_right is_blank (trim_left is_blank b)

-- The parameters of initialize: the protocol of the client, if it names one.
unfoldable pub requested : Option Bytes → Bytes
requested none = protocol_version
requested (some []) = protocol_version
requested (some (c ∷ p)) = c ∷ p

unfoldable pub tool_result : Bytes → Bool × Bytes → RpcResponse
tool_result id (fails, text) =
    result id (tool_text (if fails then codes "error: " ++ text else text) fails)

module _ {W : Type 0} where
  unfoldable pub new_server : Bytes → Bytes → Server W
  new_server name version = record {
    name = name;
    version = version;
    tools = [];
    order = [];
    middleware = none;
  }

  unfoldable pub use_middleware : (Bytes → Handler W → Handler W) → Server W → Server W
  use_middleware m s = record s { middleware = some m }

  -- The map of the tools by name.
  unfoldable pub find_tool : Bytes → List (Tool W) → Option (Tool W)
  find_tool n [] = none
  find_tool n (t ∷ ts) = if eqb t.name n then some t else find_tool n ts

  unfoldable pub put_tool : Tool W → List (Tool W) → List (Tool W)
  put_tool t [] = t ∷ []
  put_tool t (u ∷ us) = if eqb u.name t.name then t ∷ us else u ∷ put_tool t us

  unfoldable pub add_tool : Tool W → Server W → Server W
  add_tool t s = record s {
    tools = put_tool t s.tools;
    order = elim (find_tool t.name s.tools) [ none ↦ s.order ++ t.name ∷ [] | some u ↦ s.order ];
  }

  unfoldable pub spec_of : Tool W → ToolSpec
  spec_of t = record {
    name = t.name;
    description = t.description;
    input_schema = elim t.input_schema [ none ↦ codes "{\"type\":\"object\"}" | some x ↦ x ];
  }

  -- The tool of a name; the zero tool for a name that the map lacks.
  unfoldable pub spec_named : List (Tool W) → Bytes → ToolSpec
  unfolding spec_of
  spec_named ts n = elim (find_tool n ts) [
    | some t ↦ spec_of t
    | none ↦ record { name = []; description = []; input_schema = codes "{\"type\":\"object\"}" }
  ]

  unfoldable pub tools_list : Server W → List ToolSpec
  tools_list s = map (spec_named s.tools) s.order

  unfoldable pub guarded : Server W → Tool W → Handler W
  guarded s t = elim s.middleware [ none ↦ t.handler | some m ↦ m t.name t.handler ]

  unfoldable pub handle_tool_call : Decoder → Server W → RpcRequest → W → W × RpcResponse
  unfolding tool_result guarded
  handle_tool_call json s req w = elim (json.call req.params) [
    | none ↦ (w, error req.id (negsuc 32601) (codes "invalid params"))
    | some c ↦ elim (find_tool c.0 s.tools) [
      | none ↦ (w, error req.id (negsuc 32601) (codes "unknown tool: " ++ c.0))
      | some t ↦ let done = guarded s t c.1 w in (done.0, tool_result req.id done.1)
    ]
  ]

  unfoldable pub answered : W × RpcResponse → W × List RpcResponse
  answered (w, r) = (w, r ∷ [])

  -- The switch over the method.
  unfoldable pub dispatch : Decoder → Server W → RpcRequest → W → W × List RpcResponse
  unfolding answered handle_tool_call requested tools_list
  dispatch json s req w =
      if eqb req.method (codes "initialize")
      then (
        w,
        result req.id (initialized (requested (json.protocol req.params)) s.name s.version) ∷ [],
      )
      else if eqb req.method (codes "notifications/initialized")
          || eqb req.method (codes "initialized")
      then (w, [])
      else if eqb req.method (codes "ping")
      then (w, result req.id pong ∷ [])
      else if eqb req.method (codes "tools/list")
      then (w, result req.id (tool_list (tools_list s)) ∷ [])
      else if eqb req.method (codes "tools/call")
      then answered (handle_tool_call json s req w)
      else if eqb req.id []
      then (w, [])
      else (w, error req.id (negsuc 32600) (codes "method not found: " ++ req.method) ∷ [])

  unfoldable pub handle_line : Decoder → Server W → Bytes → W → W × List RpcResponse
  unfolding dispatch
  handle_line json s line w = elim (json.request line) [
    | some req ↦ dispatch json s req w
    | none ↦ (
      w,
      if eqb (trim_blanks line) [] then [] else error [] (negsuc 32699) (codes "parse error") ∷ [],
    )
  ]

  -- Serve over the lines until stdin ends; an empty line is that of the end.
  unfoldable pub serve : Decoder → Server W → List Bytes → W → W × List RpcResponse
  serve json s [] w = (w, [])
  serve json s ([] ∷ lines) w = serve json s lines w
  serve json s ((b ∷ bs) ∷ lines) w =
      let first = handle_line json s (b ∷ bs) w in
      let rest = serve json s lines first.0 in (rest.0, first.1 ++ rest.1)
