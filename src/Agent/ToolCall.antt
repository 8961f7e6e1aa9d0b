-- ===== src/Agent/ToolCall.antt =====
-- internal/agent/toolcall.go: the checks on a tool call that the model requests, and the payloads
-- that answer it. The session's part of `runToolCall` is in Session.
pub mod Checks
use groovy_agent.Base.{
  ℕ, ◌*◌, ◌∷◌, Bool, true, false, not, ◌&&◌, ◌||◌, Bytes, List, [], ◌++◌, Option, none, some, same,
  codes, leb, if◌then◌else◌, length, Result, ok, err, ◌>>=◌, ◌>>◌, ℤ, gtb_ℤ, take, ltb,
}
use groovy_agent.Strings.{trim_space, has_prefix, contains_byte}
use groovy_agent.Paths.{is_abs, clean}
use groovy_agent.Paths.Clean.{climbs}
use groovy_agent.Json.{Value, str, obj, bool, Fields, end, field, get, Floats}
use groovy_agent.JsonSchema.{RawError, raw_text, not_an_object, invalid, to_number, validate_raw}
use groovy_agent.McpProto.{
  ToolDefinition, Category, category_name, unknown_tool, invalid_arguments, workspace_violation,
  tool_error,
}
use groovy_agent.Llm.{ToolCall, Message}

-- encoding/json and the verb %q, which Go provides: `decode` is Unmarshal into a map, `decode_numbers`
-- the decoder with UseNumber, `encode` is Marshal of a map.
pub record Codec : Type 0 where
  pub decode : Bytes → Option Fields
  pub decode_numbers : Bytes → Option Fields
  pub encode : Fields → Option Bytes
  pub quote : Bytes → Bytes
  pub floats : Floats

pub data Rejection : Type 0 where
  unsupported_call_type budget_exhausted not_available not_an_object_text unusable_schema :
      Rejection
  raw_error : RawError → Rejection
  exceeds_limit : Bytes → Rejection
  path_not_text path_empty path_invalid path_absolute path_escapes : Rejection

unfoldable pub category_of : Rejection → Category
category_of unsupported_call_type = invalid_arguments
category_of budget_exhausted = tool_error
category_of not_available = unknown_tool
category_of not_an_object_text = invalid_arguments
category_of unusable_schema = tool_error
category_of (raw_error e) = invalid_arguments
category_of (exceeds_limit key) = invalid_arguments
category_of path_not_text = invalid_arguments
category_of path_empty = invalid_arguments
category_of path_invalid = invalid_arguments
category_of path_absolute = workspace_violation
category_of path_escapes = workspace_violation

unfoldable pub message_of : (Bytes → Bytes) → Rejection → Bytes
unfolding raw_text
message_of quote unsupported_call_type = codes "unsupported tool call type"
message_of quote budget_exhausted = codes "tool call budget is exhausted"
message_of quote not_available = codes "tool is not available in this request"
message_of quote not_an_object_text = codes "arguments must be a JSON object"
message_of quote unusable_schema = codes "tool schema is unusable"
message_of quote (raw_error e) = raw_text quote e
message_of quote (exceeds_limit key) = quote key ++ codes " exceeds the configured limit"
message_of quote path_not_text = codes "\"path\" must be a string"
message_of quote path_empty = codes "\"path\" must not be empty"
message_of quote path_invalid = codes "\"path\" contains an invalid character"
message_of quote path_absolute =
    codes "absolute paths are not allowed; use workspace-relative paths"
message_of quote path_escapes = codes "path escapes the workspace"

abbrev pub max_total_tool_calls : ℕ
max_total_tool_calls = 5

-- `m[key]` on a map from names.
unfoldable pub find {ℓ} : {V : Type ℓ} → List (Bytes × V) → Bytes → Option V
find [] key = none
find ((k, v) ∷ rest) key = if same k key then some v else find rest key

abbrev requested_limits : List (Bytes × ℕ)
requested_limits =
    (codes "max_bytes", 12 * 1024)
    ∷ (codes "lines", 200)
    ∷ (codes "max_matches", 20)
    ∷ (codes "max_results", 200)
    ∷ (codes "max_text_chars", 12 * 1024)
    ∷ []

abbrev Verdict : Type 0
Verdict = Result Rejection (Unit {0})

-- `validateWorkspacePath`
unfoldable pub validate_workspace_path : Bytes → Verdict
validate_workspace_path path =
    let trimmed = trim_space path in
    if same trimmed []
    then err path_empty
    else if contains_byte trimmed 0
    then err path_invalid
    else if is_abs trimmed || has_prefix trimmed (codes "/")
    then err path_absolute
    else if climbs (clean trimmed)
    then err path_escapes
    else ok tt

within_limit : Bytes → ℕ → Option ℤ → Verdict
within_limit key limit none = err (exceeds_limit key)
within_limit key limit (some requested) =
    if gtb_ℤ requested limit then err (exceeds_limit key) else ok tt

check_limit : Floats → Bytes → Value → Option ℕ → Verdict
unfolding within_limit
check_limit F key value none = ok tt
check_limit F key value (some limit) = within_limit key limit (to_number F value)

check_path : Bytes → Value → Verdict
check_path tool_name (str path) =
    if same tool_name (codes "basename") || same tool_name (codes "dirname")
    then ok tt
    else validate_workspace_path path
check_path tool_name _ = err path_not_text

-- The body of the loop over the arguments.
check_argument : Floats → Bytes → Bytes → Value → Verdict
unfolding check_limit check_path find
check_argument F tool_name key value = do
  check_limit F key value (find requested_limits key)
  if same key (codes "path") then check_path tool_name value else ok tt

unfoldable pub check_arguments : Floats → Bytes → Fields → Verdict
unfolding check_argument
check_arguments F tool_name end = ok tt
check_arguments F tool_name (field key value rest) = do
  check_argument F tool_name key value
  check_arguments F tool_name rest

or_empty_object : Bytes → Bytes
or_empty_object [] = codes "{}"
or_empty_object (c ∷ raw) = c ∷ raw

object_text : Bytes → Verdict
object_text raw = if has_prefix raw (codes "{") then ok tt else err not_an_object_text

known_tool : Option ToolDefinition → Result Rejection ToolDefinition
known_tool none = err not_available
known_tool (some tool) = ok tool

usable_schema : Option Fields → Result Rejection Fields
usable_schema none = err unusable_schema
usable_schema (some schema) = ok schema

valid_arguments : Result RawError Fields → Result Rejection Fields
valid_arguments (ok arguments) = ok arguments
valid_arguments (err e) = err (raw_error e)

-- The checks of `validateCall` from the look-up of the tool on.
admit_call :
    Codec
    → List (Bytes × ToolDefinition)
    → Bytes
    → Bytes
    → Result Rejection (Bytes × ToolDefinition)
unfolding object_text known_tool usable_schema valid_arguments
admit_call C exposed name raw = do
  tool ← known_tool (find exposed name)
  object_text raw
  schema ← usable_schema (C.decode tool.input_schema)
  arguments ← valid_arguments (validate_raw C.floats C.decode_numbers schema raw)
  check_arguments C.floats tool.name arguments
  ok (raw, tool)

-- `validateCall`; `calls` is the session's count of tool calls.
unfoldable pub validate_call :
    Codec → List (Bytes × ToolDefinition) → ℕ → ToolCall → Result Rejection (Bytes × ToolDefinition)
unfolding or_empty_object admit_call
validate_call C exposed calls call =
    let raw = or_empty_object (trim_space call.function.arguments) in
    if not (same call.type []) && not (same call.type (codes "function"))
    then err unsupported_call_type
    else if leb max_total_tool_calls calls
    then err budget_exhausted
    else admit_call C exposed call.function.name raw

abbrev encode_failed : Bytes
encode_failed =
    codes "{\"success\":false,\"error\":\"tool_error\",\"message\":\"result could not be encoded\"}"

unfoldable pub encode_payload : Codec → Fields → Bytes
encode_payload C body = elim (C.encode body) [ some encoded ↦ encoded | none ↦ encode_failed ]

unfoldable pub error_payload : Codec → Category → Bytes → Bytes
unfolding encode_payload
error_payload C category message = encode_payload C (
    field (codes "success") (bool false) (
      field (codes "error") (str (category_name category))
        (field (codes "message") (str message) end)))

wrapped_result : Codec → Bytes → Bool → Bytes
unfolding error_payload
wrapped_result C text true = error_payload C tool_error (codes "tool reported an error")
wrapped_result C text false = encode_payload C (
    field (codes "success") (bool true)
      (field (codes "output") (str text) (field (codes "truncated") (bool false) end)))

-- `normalizeResult`
unfoldable pub normalize_result : Codec → Bytes → Bool → Bytes
unfolding wrapped_result
normalize_result C text is_error = elim (C.decode text) [
  | none ↦ wrapped_result C text is_error
  | some decoded ↦ elim (get decoded (codes "success")) [
    | some _ ↦ text
    | none ↦ wrapped_result C text is_error
  ]
]

unfoldable pub tool_message : Bytes → Bytes → Bytes → Message
tool_message id name content = record {
  role = codes "tool";
  content = content;
  tool_calls = [];
  tool_call_id = id;
  name = name;
}
