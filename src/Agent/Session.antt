-- ===== src/Agent/Session.antt =====
-- internal/agent/agent.go, from `Session` on, and `runToolCall` of toolcall.go: the bounded loop
-- between the model and the tools. What the session does to the outside is a list of events, and
-- the model and the servers answer by functions of all events so far. Log lines are left out.
pub mod Permitted
pub mod Output
pub mod Rounds
pub mod Replies
use groovy_agent.Base.{
  member, ℕ, zero, suc, ◌+◌, ◌*◌, Bool, true, false, Bytes, List, [], ◌∷◌, ◌++◌, Option, none, some,
  length, same, codes, leb, ltb, if◌then◌else◌, ◌||◌, Result, ok, err, ◌>>=◌, ℤ, pos, negsuc,
}
use groovy_agent.Strings.{trim_space, decimal}
use groovy_agent.Json.{Fields}
use groovy_agent.McpProto.{
  ToolDefinition, CallToolResult, result_text, invalid_arguments, result_too_large,
}
use groovy_agent.Llm.{Message, Tool, ToolCall}
use groovy_agent.Agent.Context.{PruneError, prune_messages}
use groovy_agent.Agent.Profiles.{Profile, max_exposed_tools, select_profile}
use groovy_agent.Agent.ToolCall.{
  Codec, Rejection, category_of, message_of, find, validate_call, error_payload, normalize_result,
  tool_message,
}

abbrev pub max_model_rounds : ℕ
max_model_rounds = 3

abbrev pub max_tool_calls_per_turn : ℕ
max_tool_calls_per_turn = 3

abbrev max_result_bytes : ℕ
max_result_bytes = 16 * 1024

-- A client is the number of the server that it is connected to.
abbrev pub ClientId : Type 0
ClientId = ℕ

-- A request to the model, or a call of a tool.
pub data Event : Type 0 where
  asked : List Message → List Tool → Event
  called : ClientId → Bytes → Bytes → Event

-- How `CallTool` ends. `cancelled` is an error with the context done.
pub data Outcome : Type 0 where
  answered : CallToolResult → Outcome
  failed cancelled : Outcome

-- What is outside: the model's answer (or its error) and a tool's, after all events so far, the
-- request itself being the last. `unicode_lower` is for the profile.
pub record Services : Type 0 where
  pub complete : List Event → Option Message
  pub call_tool : List Event → Outcome
  pub unicode_lower : Bytes → Bytes

-- `Session`, less what its methods change.
pub record Session : Type 0 where
  pub prompt : Bytes
  pub per_turn : ℤ
  pub clients : List (Bytes × ClientId)
  pub discovered : List (Bytes × ToolDefinition)

-- What the methods change: `toolCalls`, the lines written to `out`, and the outside.
pub record World : Type 0 where
  pub tool_calls : ℕ
  pub out : List Bytes
  pub history : List Event

pub data LoopError : Type 0 where
  no_usable_tools model_failed no_bound_client context_done session_unusable : LoopError
  not_pruned : PruneError → LoopError

abbrev Act : Type 0 → Type 0
Act A = World → Result LoopError A × World

-- An error returns at once, with all that was done before it.
continue : {A B : Type 0} → Result LoopError A × World → (A → Act B) → Result LoopError B × World
continue (ok a, w) next = next a w
continue (err e, w) next = (err e, w)

emit : Event → World → World
emit event w = record w { history = w.history ++ event ∷ [] }

print : Bytes → World → World
print line w = record w { out = w.out ++ line ∷ [] }

-- `AdaptTool`
adapt_tool : Codec → ToolDefinition → Option Tool
adapt_tool C tool = elim (C.decode tool.input_schema) [
  | none ↦ none
  | some parameters ↦ some (record {
    type = codes "function";
    function = record { name = tool.name; description = tool.description; parameters = parameters };
  })
]

abbrev Exposure : Type 0
Exposure = List (Bytes × ToolDefinition) × List Tool

expose_one : Bytes → ToolDefinition → Option Tool → Exposure → Exposure
expose_one name definition none e = e
expose_one name definition (some adapted) (exposed, tools) =
    (exposed ++ (name, definition) ∷ [], tools ++ adapted ∷ [])

expose_found : Codec → Bytes → Option ToolDefinition → Exposure → Exposure
unfolding expose_one
expose_found C name none e = e
expose_found C name (some definition) e = expose_one name definition (adapt_tool C definition) e

-- The loop of `exposeProfile`
expose_onto : Codec → List (Bytes × ToolDefinition) → List Bytes → Exposure → Exposure
unfolding expose_found
expose_onto C discovered [] e = e
expose_onto C discovered (name ∷ rest) e =
    let more = expose_onto C discovered rest (expose_found C name (find discovered name) e) in
    if leb max_exposed_tools (length e.1) then e else more

unfoldable pub expose_profile : Codec → List (Bytes × ToolDefinition) → Profile → Exposure
unfolding expose_onto adapt_tool find
expose_profile C discovered profile = expose_onto C discovered profile.tools ([], [])

module _ (V : Services) (C : Codec) (S : Session) where
  finish_call : Bytes → ToolDefinition → Outcome → Act Message
  finish_call id tool cancelled w = (err context_done, w)
  finish_call id tool failed w = (err session_unusable, w)
  finish_call id tool (answered result) w =
      let text = result_text result in
      (
        ok (
            tool_message id tool.name (
              if ltb max_result_bytes (length text)
              then error_payload C result_too_large (codes "tool result exceeded the result limit")
              else normalize_result C text result.is_error)),
        w,
      )

  send_call : Bytes → ToolDefinition → Bytes → Option ClientId → Act Message
  unfolding finish_call emit
  send_call id tool raw none w = (err no_bound_client, w)
  send_call id tool raw (some client) w =
      let w' = emit (called client tool.name raw) w in
      finish_call id tool (V.call_tool w'.history) w'

  answer_call : Bytes → ToolCall → Result Rejection (Bytes × ToolDefinition) → Act Message
  unfolding send_call
  answer_call id call (err rejection) w = (
    ok (
        tool_message id call.function.name
          (error_payload C (category_of rejection) (message_of C.quote rejection))),
    w,
  )
  answer_call id call (ok (raw, tool)) w =
      send_call id tool raw (find S.clients tool.name) (record w { tool_calls = suc w.tool_calls })

  -- `runToolCall`
  unfoldable pub run_tool_call : List (Bytes × ToolDefinition) → ToolCall → ℕ → ℕ → Act Message
  unfolding answer_call
  run_tool_call exposed call round index w =
      let id = trim_space call.id in
      if same id []
      then (
        ok (
            tool_message (codes "call_" ++ decimal round ++ codes "_" ++ decimal index)
              call.function.name
              (error_payload C invalid_arguments (codes "tool call is missing an id"))),
        w,
      )
      else answer_call id call (validate_call C exposed w.tool_calls call) w

abbrev pub round_limit_message : Bytes
round_limit_message = codes "Agent stopped: maximum model rounds reached."

abbrev tool_guard_limit_message : Bytes
tool_guard_limit_message =
    codes "Agent stopped early: assistant requested too many tool calls in one turn."

abbrev tool_guard_duplicate_message : Bytes
tool_guard_duplicate_message =
    codes "Agent stopped early: assistant repeated an identical tool call in one turn."

-- How a turn ends: with the conversation for the next round, or with a guard's message printed.
pub data Turn : Type 0 where
  next_round : List Message → Turn
  stopped : Turn

unfoldable pub duplicate_key : ToolCall → Bytes
duplicate_key call = call.function.name ++ (b'\n' ∷ trim_space call.function.arguments)

unfoldable pub per_turn_limit : ℤ → ℕ
per_turn_limit (pos zero) = max_tool_calls_per_turn
per_turn_limit (pos (suc n)) = suc n
per_turn_limit (negsuc n) = max_tool_calls_per_turn

module _ (V : Services) (C : Codec) (S : Session) (exposed : List (Bytes × ToolDefinition)) where
  -- The loop over the calls of one reply.
  unfoldable pub run_calls : List ToolCall → ℕ → ℕ → List Bytes → List Message → Act Turn
  unfolding print continue
  run_calls [] round index seen messages w = (ok (next_round messages), w)
  run_calls (call ∷ rest) round index seen messages w =
      let go_on = continue (run_tool_call V C S exposed call round index w) λ message.
        run_calls rest round (suc index) (duplicate_key call ∷ seen) (messages ++ message ∷ []) in
      if leb (per_turn_limit S.per_turn) index
      then (ok stopped, print tool_guard_limit_message w)
      else if member seen (duplicate_key call)
      then (ok stopped, print tool_guard_duplicate_message w)
      else go_on

  -- `Complete`, with the messages that pruning left
  ask : List Tool → Result PruneError (List Message) → Act Message
  unfolding emit
  ask tools (err e) w = (err (not_pruned e), w)
  ask tools (ok pruned) w =
      let w' = emit (asked pruned tools) w in
      elim (V.complete w'.history) [ none ↦ (err model_failed, w') | some reply ↦ (ok reply, w') ]

  -- What follows a reply within a round: the final answer is printed and ends the loop.
  use_reply : ℕ → List Message → Message → Act Turn
  unfolding print run_calls
  use_reply round messages reply w = elim reply.tool_calls [
    | [] ↦ (ok stopped, print (trim_space reply.content) w)
    | call ∷ calls ↦ run_calls (call ∷ calls) round 0 [] (messages ++ reply ∷ []) w
  ]

  run_round : List Tool → ℕ → List Message → Act Turn
  unfolding ask use_reply continue
  run_round tools round messages w =
      continue (ask tools (prune_messages messages tools) w) (use_reply round messages)

  after_turn : (List Message → Act (Unit {0})) → Turn → Act (Unit {0})
  after_turn next stopped w = (ok tt, w)
  after_turn next (next_round messages) w = next messages w

  -- The loop over the rounds, by the number of rounds left.
  unfoldable pub run_rounds : List Tool → ℕ → ℕ → List Message → Act (Unit {0})
  unfolding run_round print continue after_turn
  run_rounds tools zero round messages w = (ok tt, print round_limit_message w)
  run_rounds tools (suc left) round messages w =
      continue (run_round tools round messages w) (after_turn (run_rounds tools left (suc round)))

abbrev system_prompt : Bytes
system_prompt =
    codes
      "You are a local assistant with access to coreutils tools.\n\nUse tools when workspace data or an exact calculation is required.\nWhen web tools are available, use search_web to discover sources before browse_url.\nBrowse a few relevant links and synthesize from tool outputs.\nNever invent tool results.\nCall only listed tools.\nUse JSON arguments matching the tool schema.\nAfter receiving results, answer concisely.\nDo not repeat large tool output unless requested."

abbrev pub plain_message : Bytes → Bytes → Message
plain_message role content = record {
  role = role;
  content = content;
  tool_calls = [];
  tool_call_id = [];
  name = [];
}

abbrev first_messages : Bytes → List Message
first_messages prompt =
    plain_message (codes "system") system_prompt ∷ plain_message (codes "user") prompt ∷ []

loop_over : Services → Codec → Session → Exposure → Act (Unit {0})
loop_over V C S ([], tools) w = (err no_usable_tools, w)
loop_over V C S (e ∷ exposed, tools) w =
    run_rounds V C S (e ∷ exposed) tools max_model_rounds 1 (first_messages S.prompt) w

-- `Loop`
unfoldable pub loop : Services → Codec → Session → Act (Unit {0})
unfolding loop_over
loop V C S w =
    loop_over V C S (expose_profile C S.discovered (select_profile V.unicode_lower S.prompt)) w
