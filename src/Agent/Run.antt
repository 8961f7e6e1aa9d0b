-- ===== src/Agent/Run.antt =====
-- internal/agent/agent.go: `Config.Validate`, `FilterDiscovered` and `Run`. Starting the processes,
-- the handshake and the file system are outside: their results are arguments.
pub mod Allowlist
use groovy_agent.Base.{
  member, ℕ, zero, suc, Bool, true, false, not, ◌&&◌, Bytes, List, [], ◌∷◌, ◌++◌, Option, none,
  some, same, codes, if◌then◌else◌, Result, ok, err, ◌>>=◌, ℤ, pos, negsuc,
}
use groovy_agent.Strings.{trim_space, has_prefix}
use groovy_agent.McpProto.{ToolDefinition}
use groovy_agent.Agent.ToolCall.{Codec, find}
use groovy_agent.Agent.Session.{
  Services, Session, World, LoopError, ClientId, max_tool_calls_per_turn, loop,
}

-- `Config`
pub record Config : Type 0 where
  pub llama_url : Bytes
  pub model : Bytes
  pub mcp_command : Bytes
  pub web_mcp_command : Bytes
  pub workspace : Bytes
  pub prompt : Bytes
  pub max_tool_calls_per_turn : ℤ

pub data ConfigError : Type 0 where
  url_required url_not_http model_required command_required prompt_required : ConfigError
  workspace_unusable : ConfigError

positive_or : ℤ → ℕ → ℤ
positive_or (pos zero) fallback = pos fallback
positive_or (pos (suc n)) fallback = pos (suc n)
positive_or (negsuc n) fallback = pos fallback

-- `resolve` makes a workspace absolute and follows its links; `none` if it is no directory.
with_workspace : Config → Option Bytes → Result ConfigError Config
with_workspace c none = err workspace_unusable
with_workspace c (some workspace) = ok (record c {
  workspace = workspace;
  max_tool_calls_per_turn = positive_or c.max_tool_calls_per_turn max_tool_calls_per_turn;
})

-- `Config.Validate`
validate_config : (Bytes → Option Bytes) → Config → Result ConfigError Config
unfolding with_workspace positive_or
validate_config resolve c =
    if same (trim_space c.llama_url) []
    then err url_required
    else if not (has_prefix c.llama_url (codes "http://"))
        && not (has_prefix c.llama_url (codes "https://"))
    then err url_not_http
    else if same (trim_space c.model) []
    then err model_required
    else if same (trim_space c.mcp_command) []
    then err command_required
    else if same (trim_space c.prompt) []
    then err prompt_required
    else with_workspace c
        (resolve (if same (trim_space c.workspace) [] then codes "." else c.workspace))

-- `m[key] = value`
put {ℓ} : {V : Type ℓ} → List (Bytes × V) → Bytes → V → List (Bytes × V)
put [] key value = (key, value) ∷ []
put ((k, v) ∷ rest) key value =
    if same k key then (k, value) ∷ rest else (k, v) ∷ put rest key value

abbrev allowed_core_tools : List Bytes
allowed_core_tools =
    codes "cat"
    ∷ codes "coreutils_run"
    ∷ codes "cp"
    ∷ codes "find"
    ∷ codes "grep"
    ∷ codes "ls"
    ∷ codes "mkdir"
    ∷ codes "mv"
    ∷ codes "pwd"
    ∷ codes "rm"
    ∷ codes "rmdir"
    ∷ codes "touch"
    ∷ codes "write_file"
    ∷ []

abbrev allowed_web_tools : List Bytes
allowed_web_tools = codes "browse_url" ∷ codes "search_web" ∷ []

filter_onto :
    List Bytes → List ToolDefinition → List (Bytes × ToolDefinition) → List (Bytes × ToolDefinition)
filter_onto allowlist [] kept = kept
filter_onto allowlist (tool ∷ tools) kept =
    filter_onto allowlist tools
      (if member allowlist tool.name then put kept tool.name tool else kept)

-- `FilterDiscovered`
pub filter_discovered : List ToolDefinition → List Bytes → List (Bytes × ToolDefinition)
unfolding filter_onto put member
filter_discovered tools allowlist = filter_onto allowlist tools []

bind_all : ClientId → List (Bytes × ToolDefinition) → List (Bytes × ClientId)
bind_all client [] = []
bind_all client ((name, tool) ∷ rest) = (name, client) ∷ bind_all client rest

-- The clients, numbered.
abbrev core_client : ClientId
core_client = 0

abbrev web_client : ClientId
web_client = 1

abbrev Tools : Type 0
Tools = List (Bytes × ToolDefinition)

-- The loop over the web server's tools: a name that is there already is denied.
merge_web : Tools → Tools × List (Bytes × ClientId) → Tools × List (Bytes × ClientId)
unfolding find put
merge_web [] (discovered, clients) = (discovered, clients)
merge_web ((name, tool) ∷ rest) (discovered, clients) =
    merge_web rest (elim (find discovered name) [
      | some _ ↦ (discovered, clients)
      | none ↦ (put discovered name tool, put clients name web_client)
    ])

pub data RunError : Type 0 where
  bad_config : ConfigError → RunError
  model_unreachable core_failed web_failed no_allowed_tools : RunError
  loop_error : LoopError → RunError

-- What starting the servers gives: whether the model answers, and the tools that each server
-- advertises, `none` if it does not start or does not list them.
pub record Startup : Type 0 where
  pub model_reachable : Bool
  pub core_tools : Option (List ToolDefinition)
  pub web_tools : Option (List ToolDefinition)

-- The web server's part; the flag is that no web command is configured.
add_web :
    Bool
    → Option (List ToolDefinition)
    → Tools × List (Bytes × ClientId)
    → Result RunError (Tools × List (Bytes × ClientId))
unfolding merge_web filter_discovered
add_web true tools found = ok found
add_web false none found = err web_failed
add_web false (some tools) found = ok (merge_web (filter_discovered tools allowed_web_tools) found)

-- The tools and their clients, once the core server's tools are filtered.
discover : Config → Startup → Tools → Result RunError (Tools × List (Bytes × ClientId))
unfolding add_web bind_all
discover c u core =
    add_web (same (trim_space c.web_mcp_command) []) u.web_tools (core, bind_all core_client core)

abbrev RunAct : Type 0
RunAct = World → Result RunError (Unit {0}) × World

lift_loop : Result LoopError (Unit {0}) × World → Result RunError (Unit {0}) × World
lift_loop (ok u, w) = (ok u, w)
lift_loop (err e, w) = (err (loop_error e), w)

start_session :
    Services → Codec → Config → Result RunError (Tools × List (Bytes × ClientId)) → RunAct
unfolding lift_loop
start_session V C c (err e) w = (err e, w)
start_session V C c (ok ([], clients)) w = (err no_allowed_tools, w)
start_session V C c (ok (t ∷ discovered, clients)) w = lift_loop (
    loop V C
      (record {
        prompt = c.prompt;
        per_turn = c.max_tool_calls_per_turn;
        clients = clients;
        discovered = t ∷ discovered;
      })
      w)

after_ping : Services → Codec → Config → Startup → Bool → Option (List ToolDefinition) → RunAct
unfolding start_session
after_ping V C c u false tools w = (err model_unreachable, w)
after_ping V C c u true none w = (err core_failed, w)
after_ping V C c u true (some tools) w =
    start_session V C c (discover c u (filter_discovered tools allowed_core_tools)) w

run_config : Services → Codec → Startup → Result ConfigError Config → RunAct
unfolding after_ping
run_config V C u (err e) w = (err (bad_config e), w)
run_config V C u (ok c) w = after_ping V C c u u.model_reachable u.core_tools w

-- `Run`
pub run : Services → Codec → (Bytes → Option Bytes) → Startup → Config → RunAct
unfolding run_config
run V C resolve u c w = run_config V C u (validate_config resolve c) w
