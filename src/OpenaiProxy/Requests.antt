-- ===== src/OpenaiProxy/Requests.antt =====
-- internal/openaiproxy/proxy.go: `New` and the handling of a chat request. The reverse proxy for all
-- other requests is a call of the library.
use groovy_agent.Base.{
  ℕ, zero, suc, ◌*◌, ◌==◌, Bool, true, false, not, ◌&&◌, Bytes, List, [], ◌∷◌, ◌++◌, Option, none,
  some, codes, length, take, ltb, if◌then◌else◌, Result, ok, err, ℤ, pos, negsuc,
}
use groovy_agent.Strings.{has_prefix, to_lower}
use groovy_agent.Json.{
  Value, bool, int, str, arr, obj, Items, nil, cons, Fields, end, field, get, as_array,
  text_or_empty,
}
use groovy_agent.OpenaiProxy.{set, object_items}
use groovy_agent.OpenaiProxy.Guards.{Settings, apply_tool_call_guards}
use groovy_agent.OpenaiProxy.Tools.{
  BridgeError, ToolSource, Cache, Lifetimes, get_openai_tools, sanitize_bridge_error,
}

-- `Config`, less the URL; times are in nanoseconds.
pub record Config : Type 0 where
  pub mcp_enabled : Bool
  pub max_tool_calls_per_turn : ℤ
  pub tools_cache_ttl : ℤ
  pub tools_error_cache_ttl : ℤ
  pub disable_duplicate_tool_calls : Bool

-- `Proxy`, less the upstream URL and the cache
pub record Proxy : Type 0 where
  pub mcp_enabled : Bool
  pub settings : Settings
  pub lifetimes : Lifetimes

abbrev default_tools_cache_ttl : ℕ
default_tools_cache_ttl = 10 * 1000000000

abbrev max_chat_completion_body_size : ℕ
max_chat_completion_body_size = 1024 * 1024

-- A number, or the fallback where it is not positive.
positive_or : ℤ → ℕ → ℕ
positive_or (pos zero) fallback = fallback
positive_or (pos (suc n)) fallback = suc n
positive_or (negsuc n) fallback = fallback

-- `New`, behind the check of the URL
unfoldable pub new_proxy : Config → Proxy
unfolding positive_or
new_proxy config =
    let ttl = positive_or config.tools_cache_ttl default_tools_cache_ttl in
    record {
      mcp_enabled = config.mcp_enabled;
      settings = record {
        max_tool_calls_per_turn = positive_or config.max_tool_calls_per_turn 3;
        disable_duplicate_tool_calls = config.disable_duplicate_tool_calls;
      };
      lifetimes = record {
        tools_ttl = ttl;
        error_ttl = positive_or config.tools_error_cache_ttl ttl;
      };
    }

-- A response of the upstream server, whose body may fail to be read.
pub record Upstream : Type 0 where
  pub status : ℕ
  pub content_type : Bytes
  pub body : Option Bytes

-- What the network, the clock and `encoding/json` answer: a forwarded body may get no response. A body
-- that is null, which decodes to a map that cannot be written to, is left out.
pub record Backend : Type 0 where
  pub forward : Bytes → Option Upstream
  pub tool_source : ToolSource
  pub now : ℕ
  pub completed_at : ℕ
  pub created : ℤ
  pub decode : Bytes → Option Fields
  pub encode : Fields → Option Bytes
  pub unicode_lower : Bytes → Bytes

-- What the client gets: an error of the proxy, a response passed on as it comes, marked as a stream
-- or not, or a status with a body.
pub data Answer : Type 0 where
  http_error : ℕ → Answer
  passed_on : Bool → Upstream → Answer
  written : ℕ → Bytes → Answer
  diagnostic : Fields → Answer

is_nonempty : Option Items → Bool
is_nonempty (some (cons tool tools)) = true
is_nonempty _ = false

-- `hasUsableTools`
unfoldable pub has_usable_tools : Fields → Bool
unfolding is_nonempty
has_usable_tools payload = is_nonempty (as_array (get payload (codes "tools")))

is_true : Option Value → Bool
is_true (some (bool b)) = b
is_true _ = false

-- `requestWantsStreaming`
unfoldable pub request_wants_streaming : Fields → Bool
unfolding is_true
request_wants_streaming payload = is_true (get payload (codes "stream"))

-- The completion of `writeDiagnosticCompletion`.
unfoldable pub diagnostic_completion : ℤ → Fields → BridgeError → Fields
diagnostic_completion created payload e =
    field (codes "id") (str (codes "chatcmpl-tool-bridge-error")) (
      field (codes "object") (str (codes "chat.completion")) (
        field (codes "created") (int created) (
          field (codes "model") (str (text_or_empty (get payload (codes "model")))) (
            field (codes "choices")
              (arr (
                cons
                  (obj (
                    field (codes "index") (int (pos 0)) (
                      field (codes "message")
                        (obj (
                          field (codes "role") (str (codes "assistant")) (
                            field (codes "content")
                              (str (
                                codes
                                  "Tool bridge temporarily unavailable: MCP tools are enabled, but automatic tool exposure for this request failed. "
                                ++ (codes
                                      "Please retry shortly or call GET /tools to inspect currently available tools. Diagnostic: "
                                    ++ sanitize_bridge_error e)))
                              end)))
                        (field (codes "finish_reason") (str (codes "stop")) end))))
                  nil))
              end))))

with_choice : Fields → Option Value → Fields
with_choice payload none = set (codes "tool_choice") (str (codes "auto")) payload
with_choice payload (some choice) = payload

-- The payload with the tools of the bridge, if there are any.
unfoldable pub with_tools : Fields → List Fields → Fields
unfolding with_choice
with_tools payload [] = payload
with_tools payload (tool ∷ tools) =
    let more = set (codes "tools") (arr (object_items (tool ∷ tools))) payload in
    with_choice more (get more (codes "tool_choice"))

module _ (p : Proxy) (B : Backend) where
  -- `forwardRaw`, and `forwardStreamingResponse` for a stream
  pass_on : Bool → Option Upstream → Answer
  pass_on stream none = http_error 502
  pass_on stream (some response) = passed_on stream response

  is_guarded : Upstream → Bool
  is_guarded response =
      (response.status == 200)
      && has_prefix (to_lower B.unicode_lower response.content_type) (codes "application/json")

  answer_with : Upstream → Option Bytes → Answer
  unfolding is_guarded
  answer_with response none = http_error 502
  answer_with response (some body) =
      let read = take (2 * (1024 * 1024)) body in
      if is_guarded response
      then written response.status (apply_tool_call_guards p.settings B.decode B.encode read).0
      else written response.status read

  answer_from : Option Upstream → Answer
  unfolding answer_with
  answer_from none = http_error 502
  answer_from (some response) = answer_with response response.body

  sent : Bool → Option Bytes → Answer
  unfolding pass_on answer_from
  sent stream none = http_error 400
  sent true (some text) = pass_on true (B.forward text)
  sent false (some text) = answer_from (B.forward text)

  with_discovered : Fields → Result BridgeError (List Fields) × Cache → Answer × Cache
  unfolding sent
  with_discovered payload (err e, c) = (diagnostic (diagnostic_completion B.created payload e), c)
  with_discovered payload (ok tools, c) =
      (sent (request_wants_streaming payload) (B.encode (with_tools payload tools)), c)

  handle_payload : Bytes → Option Fields → Cache → Answer × Cache
  unfolding with_discovered sent pass_on
  handle_payload body none c = (pass_on false (B.forward body), c)
  handle_payload body (some payload) c =
      if p.mcp_enabled && not (has_usable_tools payload)
      then with_discovered payload
          (get_openai_tools p.lifetimes B.tool_source B.now B.completed_at c)
      else (sent (request_wants_streaming payload) (B.encode payload), c)

  handle_body : Option Bytes → Cache → Answer × Cache
  unfolding handle_payload
  handle_body none c = (http_error 400, c)
  handle_body (some body) c =
      if ltb max_chat_completion_body_size (length body)
      then (http_error 413, c)
      else handle_payload body (B.decode body) c

  -- `handleChatCompletions`, for a body that may fail to be read
  unfoldable pub handle_chat_completions : Option Bytes → Cache → Answer × Cache
  unfolding handle_body
  handle_chat_completions body c = handle_body body c
