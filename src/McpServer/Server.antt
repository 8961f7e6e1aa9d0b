-- ===== src/McpServer/Server.antt =====
-- internal/mcpserver/server.go: the requests of a session. A session is the list of lines that the
-- scanner gives, each with the operating system as its handler meets it; the answers are the lines
-- written. The log and the lock around a write are left out; `initialized` is set and never read.
pub mod Calls
pub mod Answers
pub mod Sessions
use groovy_agent.Base.{
  ◌≡◌, Bool, true, false, not, ◌&&◌, ◌||◌, Bytes, List, [], ◌∷◌, ◌++◌, map, Option, none, some,
  same, codes, if◌then◌else◌, Result, ok, err, ℤ,
}
use groovy_agent.Strings.{is_empty}
use groovy_agent.Json.{Value, bool, str, obj, Fields, end, field, Floats}
use groovy_agent.JsonSchema.{RawError, raw_text, validate_raw}
use groovy_agent.McpProto.{
  ToolDefinition, Content, CallToolResult, Category, category_name, unknown_tool, invalid_arguments,
  timeout, tool_error, version, code_parse_error, code_method_not_found, code_internal_error,
  RpcError, Message, ToolsCapability, InitializeResult, ListToolsResult, CallToolParams, Wire,
}
use groovy_agent.Coreutils.Text.{slice_stable, less_text}
use groovy_agent.McpServer.Workspace.{ToolError}
use groovy_agent.McpServer.Tools.{
  Limits, Payload, Fault, typed, plain, Effect, System, Runtime, Done,
}
use groovy_agent.McpServer.Tools.Texts.{clamp_result}
use groovy_agent.McpServer.Tools.Registry.{Tool, definitions, lookup_tool}

-- `Server`, whose tools are the registry's
pub record Server : Type 0 where
  pub workspace : Bytes
  pub limits : Limits
  pub wire : Wire

-- What a line meets: the system, what Go provides, and whether the time for a call is over when the
-- handler returns an error.
pub record Turn : Type 0 where
  pub system : System
  pub runtime : Runtime
  pub too_late : Bool

-- A line of the input, and whether the session's context is done before it is looked at.
pub record Event : Type 0 where
  pub cancelled : Bool
  pub line : Bytes
  pub turn : Turn

encoded_or_fixed : Option Bytes → Bytes
encoded_or_fixed (some text) = text
encoded_or_fixed none =
    codes "{\"success\":false,\"error\":\"tool_error\",\"message\":\"result could not be encoded\"}"

-- `if len(result.Metadata) > 0`; no result that a handler gives has this key already.
with_metadata : Fields → Fields → Fields
with_metadata end body = body
with_metadata metadata body = field (codes "metadata") (obj metadata) body

body_of : Option Fields → Bytes → Bool → Fields
body_of (some result) output truncated = result
body_of none output truncated =
    field (codes "success") (bool true)
      (field (codes "output") (str output) (field (codes "truncated") (bool truncated) end))

typed_or_general : Fault → ToolError
typed_or_general (typed e) = e
typed_or_general plain = record { category = tool_error; message = codes "tool execution failed" }

-- The error of a handler as it is reported.
reported : Bool → Fault → ToolError
unfolding typed_or_general
reported too_late fault =
    if too_late
    then record { category = timeout; message = codes "tool exceeded its time budget" }
    else typed_or_general fault

tool_names : List Tool → List Bytes
tool_names [] = []
tool_names (tool ∷ rest) = tool.name ∷ tool_names rest

-- What a request names.
pub data Method : Type 0 where
  initialize notification ping list_tools_method call_tool_method other_method : Method

method_of : Bytes → Method
method_of name =
    if same name (codes "initialize")
    then initialize
    else if same name (codes "notifications/initialized")
        || same name (codes "notifications/cancelled")
    then notification
    else if same name (codes "ping")
    then ping
    else if same name (codes "tools/list")
    then list_tools_method
    else if same name (codes "tools/call")
    then call_tool_method
    else other_method

module _ (s : Server) where
  -- `encode`
  encode : Fields → Bytes
  unfolding encoded_or_fixed
  encode body = encoded_or_fixed (s.wire.object.encode body)

  text_result : Fields → Bool → CallToolResult
  unfolding encode
  text_result body is_error = record {
    content = record { type = codes "text"; text = encode body } ∷ [];
    is_error = is_error;
  }

  -- `errorResult`
  pub error_result : Category → Bytes → CallToolResult
  unfolding text_result
  error_result category message =
      text_result
        (field (codes "success") (bool false) (
          field (codes "error") (str (category_name category))
            (field (codes "message") (str message) end)))
        true

  -- The end of `callTool`, with what the handler gave.
  unfoldable pub finished : Bool → Result Fault Payload → CallToolResult
  unfolding reported with_metadata body_of text_result clamp_result
  finished too_late (err fault) =
      let e = reported too_late fault in error_result e.category e.message
  finished too_late (ok result) =
      let (output, cut) = clamp_result result.output s.limits.max_result_bytes in
      text_result
        (with_metadata result.metadata (body_of result.result output (result.truncated || cut)))
        false

  run_tool : Turn → Tool → Result RawError Fields → CallToolResult × List Effect
  run_tool t tool (err e) = (error_result invalid_arguments (raw_text t.runtime.quote e), [])
  run_tool t tool (ok arguments) =
      let (result, effects) = tool.run arguments in (finished t.too_late result, effects)

  call_found : Turn → Option Tool → Bytes → CallToolResult × List Effect
  unfolding run_tool
  call_found t none arguments = (error_result unknown_tool (codes "tool is not available"), [])
  call_found t (some tool) arguments =
      run_tool t tool (validate_raw t.runtime.floats s.wire.object.decode tool.schema arguments)

  call_decoded : Turn → Option CallToolParams → CallToolResult × List Effect
  unfolding call_found
  call_decoded t none =
      (error_result invalid_arguments (codes "tool call parameters are not a JSON object"), [])
  call_decoded t (some params) =
      call_found t (lookup_tool s.workspace s.limits t.system t.runtime params.name)
        params.arguments

  -- `callTool`
  unfoldable pub call_tool : Turn → Bytes → CallToolResult × List Effect
  unfolding call_decoded
  call_tool t raw = call_decoded t (s.wire.call_params.decode raw)

  listed_tool : Option Tool → List ToolDefinition → List ToolDefinition
  listed_tool none rest = rest
  listed_tool (some tool) rest = elim (s.wire.object.encode tool.schema) [
    | none ↦ rest
    | some schema ↦
        record { name = tool.name; description = tool.description; input_schema = schema } ∷ rest
  ]

  listed_tools : Turn → List Bytes → List ToolDefinition
  unfolding listed_tool
  listed_tools t [] = []
  listed_tools t (name ∷ names) =
      listed_tool (lookup_tool s.workspace s.limits t.system t.runtime name) (listed_tools t names)

  -- `listTools`, by the names of `ToolNames`
  pub list_tools : Turn → ListToolsResult
  unfolding listed_tools slice_stable less_text tool_names
  list_tools t = record {
    tools =
        listed_tools t (
          slice_stable less_text
            (tool_names (definitions s.workspace s.limits t.system t.runtime)));
    next_cursor = [];
  }

  ended : Option Bytes → List Bytes
  ended none = []
  ended (some text) = (text ++ b'\n' ∷ []) ∷ []

  -- `Server.write`
  unfoldable pub write : Message → List Bytes
  unfolding ended
  write message = ended (s.wire.message.encode message)

  abbrev pub result_answer : Bytes → Bytes → Message
  result_answer id result = record {
    jsonrpc = codes "2.0";
    id = id;
    method = [];
    params = [];
    result = result;
    error = none;
  }

  abbrev error_answer : Bytes → ℤ → Bytes → Message
  error_answer id code message = record {
    jsonrpc = codes "2.0";
    id = id;
    method = [];
    params = [];
    result = [];
    error = some (record { code = code; message = message });
  }

  -- `respondError`
  pub respond_error : Bytes → ℤ → Bytes → List Bytes
  unfolding is_empty
  respond_error id code message =
      write (error_answer (if is_empty id then codes "null" else id) code message)

  respond_encoded : Bytes → Option Bytes → List Bytes
  respond_encoded id none =
      respond_error id code_internal_error (codes "result could not be encoded")
  respond_encoded id (some result) = write (result_answer id result)

  -- `respondResult`, with what encoding the result gives
  unfoldable pub respond_result : Bytes → Option Bytes → List Bytes
  unfolding respond_encoded is_empty
  respond_result id encoded = if is_empty id then [] else respond_encoded id encoded

  abbrev server_info : InitializeResult
  server_info = record {
    protocol_version = version;
    tools = some (record { list_changed = false });
    server_info = record { name = codes "coreutils-mcp"; version = codes "1.0.0" };
  }

  by_method : Turn → Message → Method → List Bytes × List Effect
  by_method t request initialize =
      (respond_result request.id (s.wire.initialize_result.encode server_info), [])
  by_method t request notification = ([], [])
  by_method t request ping = (respond_result request.id (s.wire.object.encode end), [])
  by_method t request list_tools_method =
      (respond_result request.id (s.wire.list_result.encode (list_tools t)), [])
  by_method t request call_tool_method =
      let (result, effects) = call_tool t request.params in
      if is_empty request.id
      then ([], [])
      else (respond_result request.id (s.wire.call_result.encode result), effects)
  by_method t request other_method =
      if is_empty request.id
      then ([], [])
      else (respond_error request.id code_method_not_found (codes "unsupported method"), [])

  -- `dispatch`: the lines written, and the changes made.
  unfoldable pub dispatch : Turn → Message → List Bytes × List Effect
  unfolding by_method method_of is_empty
  dispatch t request = by_method t request (method_of request.method)

  handle_decoded : Turn → Option Message → List Bytes × List Effect
  handle_decoded t none =
      (respond_error [] code_parse_error (codes "malformed JSON-RPC message"), [])
  handle_decoded t (some request) = dispatch t request

  -- The body of the loop of `Serve`.
  unfoldable pub handle_line : Turn → Bytes → List Bytes × List Effect
  unfolding handle_decoded is_empty
  handle_line t line =
      if is_empty line then ([], []) else handle_decoded t (s.wire.message.decode line)

  -- `Serve`: the lines written and the changes made until the context is done or the input ends.
  unfoldable pub serve : List Event → List Bytes × List Effect
  serve [] = ([], [])
  serve (event ∷ events) =
      let (written, effects) = handle_line event.turn event.line in
      let (more, others) = serve events in
      if event.cancelled then ([], []) else (written ++ more, effects ++ others)
