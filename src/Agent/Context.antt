-- ===== src/Agent/Context.antt =====
-- internal/agent/context.go: the token estimate and the pruning of the conversation.
-- Sums of lengths are plain numbers: a Go int cannot overflow on texts that fit into memory. A
-- budget that the source computes below zero is compared as a sum instead of subtracted.
pub mod Bounds
pub mod Exchanges
use groovy_agent.Base.{
  ℕ, zero, suc, ◌+◌, ◌-◌, ◌/◌, Bool, true, false, Bytes, List, [], ◌∷◌, ◌++◌, map, Option, none,
  some, length, take, same, codes, leb, if◌then◌else◌, Result, ok, err, ◌>>=◌,
}
use groovy_agent.Json.{Fields, end, field}
use groovy_agent.Llm.{Message, Tool, ToolCall}

-- `ContextTokens`, `ReservedTokens` and `maxToolResultBytes`
abbrev context_tokens : ℕ
context_tokens = 4096

abbrev reserved_tokens : ℕ
reserved_tokens = 256

abbrev max_tool_result_bytes : ℕ
max_tool_result_bytes = 4096

pub data PruneError : Type 0 where
  empty_conversation no_user_request does_not_fit out_of_fuel : PruneError

unfoldable pub estimate_tokens : Bytes → ℕ
estimate_tokens text = (length text + 3) / 4

unfoldable pub calls_tokens : List ToolCall → ℕ
calls_tokens [] = 0
calls_tokens (call ∷ calls) =
    estimate_tokens call.function.name
    + estimate_tokens call.function.arguments
    + 8
    + calls_tokens calls

unfoldable pub message_tokens : Message → ℕ
message_tokens message = estimate_tokens message.content + 8 + calls_tokens message.tool_calls

unfoldable pub keys_tokens : Fields → ℕ
keys_tokens end = 0
keys_tokens (field key value rest) = estimate_tokens key + 4 + keys_tokens rest

unfoldable pub tools_tokens : List Tool → ℕ
tools_tokens [] = 0
tools_tokens (tool ∷ tools) =
    estimate_tokens tool.function.name
    + estimate_tokens tool.function.description
    + 16
    + keys_tokens tool.function.parameters
    + 48
    + tools_tokens tools

-- The sum that the pruning loop computes in `used`.
unfoldable pub messages_tokens : List Message → ℕ
messages_tokens [] = 0
messages_tokens (message ∷ messages) = message_tokens message + messages_tokens messages

-- The suffix of `clampText`: an ellipsis (three bytes of UTF-8) and "[truncated]".
abbrev truncated_suffix : Bytes
truncated_suffix = 0xe2 ∷ 0x80 ∷ 0xa6 ∷ codes "[truncated]"

unfoldable pub clamp_text : Bytes → ℕ → Bytes × Bool
clamp_text text limit =
    if leb (length text) limit then (text, false) else (take limit text ++ truncated_suffix, true)

unfoldable pub is_role : Bytes → Message → Bool
is_role role message = same message.role role

-- What the loop over the tail does to one message.
unfoldable pub clamp_message : Message → Message
clamp_message message =
    if is_role (codes "tool") message
    then record message { content = (clamp_text message.content max_tool_result_bytes).0 }
    else message

-- The last user message, with all that follows it.
unfoldable pub last_user : List Message → Option (Message × List Message)
last_user [] = none
last_user (message ∷ rest) = elim (last_user rest) [
  | some found ↦ some found
  | none ↦ if is_role (codes "user") message then some (message, rest) else none
]

-- The inner loop of `dropOldestExchange`: skip the tool results.
pub skip_tools : List Message → List Message
skip_tools [] = []
skip_tools (message ∷ rest) =
    if is_role (codes "tool") message then skip_tools rest else message ∷ rest

pub drop_oldest_exchange : List Message → List Message
drop_oldest_exchange [] = []
drop_oldest_exchange (message ∷ rest) = skip_tools rest

-- The pruning loop, on fuel. `Bounds` shows that the fuel given below is enough.
unfoldable pub fit : ℕ → ℕ → List Message → Result PruneError (List Message)
fit zero budget tail = err out_of_fuel
fit (suc fuel) budget tail =
    let rest = fit fuel budget (drop_oldest_exchange tail) in
    if leb (messages_tokens tail) budget
    then ok tail
    else elim tail [ [] ↦ err does_not_fit | _ ∷ _ ↦ rest ]

-- What the budget has to leave room for besides the tail.
unfoldable pub fixed_tokens : List Tool → Message → Message → ℕ
fixed_tokens tools system user = tools_tokens tools + message_tokens system + message_tokens user

pub prune_around :
    List Tool → Message → Option (Message × List Message) → Result PruneError (List Message)
prune_around tools system none = err no_user_request
prune_around tools system (some (user, after)) =
    let tail = map clamp_message after in
    if leb (context_tokens - reserved_tokens) (fixed_tokens tools system user)
    then err does_not_fit
    else do
      kept ←
          fit (suc (length tail))
            (context_tokens - reserved_tokens - fixed_tokens tools system user) tail
      ok (system ∷ user ∷ kept)

unfoldable pub prune_messages : List Message → List Tool → Result PruneError (List Message)
unfolding prune_around
prune_messages [] tools = err empty_conversation
prune_messages (system ∷ rest) tools = prune_around tools system (last_user (system ∷ rest))
