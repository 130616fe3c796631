-- ===== src/Mcp/Tests.antt =====
-- internal/mcp/mcp.go: a server with two tools of one name.
use unwedge.Base.{
  ℕ, ◌≡◌, refl, Bytes, codes, false, none, some, List, [], ◌∷◌, map, eqb, if◌then◌else◌, trim_left,
  trim_right,
}
use unwedge.Mcp.{
  Tool, Server, RpcRequest, RpcResponse, result, pong, Decoder, new_server, put_tool, spec_of,
  tools_list, handle_line, dispatch, is_blank, trim_blanks,
}
use unwedge.Mcp.Registry.{add_all, put_all, tools_list-add_all}
use unwedge.Mcp.Dispatch.{id_of, is_silent, handle_line-request}

abbrev tool : Bytes → Bytes → Tool ℕ
tool name text = record {
  name = name;
  description = text;
  input_schema = none;
  handler = λ args w. (w, (false, args));
}

abbrev tools : List (Tool ℕ)
tools =
    tool (codes "a") (codes "old")
    ∷ tool (codes "b") (codes "b")
    ∷ tool (codes "a") (codes "new")
    ∷ []

tools_list-add_all_example :
    tools_list (add_all tools (new_server (codes "unwedge") (codes "dev")))
    ≡ map spec_of (put_all tools [])
tools_list-add_all_example = tools_list-add_all tools (codes "unwedge") (codes "dev")

put_tools : map (λ (t : Tool ℕ). t.description) (put_all tools []) ≡ codes "new" ∷ codes "b" ∷ []
unfolding put_tool eqb
put_tools = refl

-- A ping that has no id.
abbrev request : RpcRequest
request = record { id = []; method = codes "ping"; params = [] }

abbrev json : Decoder
json = record { request = λ b. some request; protocol = λ b. none; call = λ b. none }

abbrev server : Server ℕ
server = record {
  name = codes "unwedge";
  version = codes "dev";
  tools = [];
  order = [];
  middleware = none;
}

-- A notification by the protocol, as it has no id; it is answered.
answered_notification : (handle_line json server (codes "{}") 0).1 ≡ result [] pong ∷ []
unfolding handle_line dispatch eqb
answered_notification = refl

blank_line : (handle_line (record json { request = λ b. none }) server (codes " \n") 0).1 ≡ []
unfolding handle_line trim_blanks trim_left trim_right is_blank eqb
blank_line = refl

handle_line-request_example :
    (r : RpcResponse) × (id_of r ≡ [])
    × ((handle_line json server (codes "{}") 0).1 ≡ (if is_silent request then [] else r ∷ []))
handle_line-request_example = handle_line-request json server (codes "{}") 0 request refl
