-- ===== src/Agent/Run/Allowlist.antt =====
-- Which tools a run may call, and on which server.
use groovy_agent.Base.{
  member, ℕ, ◌≤◌, ◌≡◌, refl, Bool, true, false, not, Bytes, List, [], ◌∷◌, Option, none, some, same,
  same_iff, All, if◌then◌else◌, Bool-cases, Option-cases, inl, inr, Result, ok, err, arith, ap,
  some-eq, ok-injective, err-ne-ok,
}
use mathlib.Core.Path.{subst}
use groovy_agent.McpProto.{ToolDefinition}
use groovy_agent.Agent.ToolCall.{Codec, find, max_total_tool_calls}
use groovy_agent.Llm.{Tool}
use groovy_agent.Strings.{trim_space}
use groovy_agent.Agent.Session.{
  Services, Session, World, LoopError, Event, asked, called, max_model_rounds, loop,
}
use groovy_agent.Agent.Session.Permitted.{
  IsPermitted, IsBoundedRun, loop-IsBoundedRun, fresh, count_asked, count_called,
}
use groovy_agent.Agent.Run.{
  put, filter_onto, filter_discovered, bind_all, merge_web, Tools, core_client, web_client,
  allowed_core_tools, allowed_web_tools, Config, ConfigError, RunError, Startup, discover, add_web,
  after_ping, validate_config, start_session, run_config, lift_loop, run,
}

module _ {ℓ} {V : Type ℓ} where
  find-put :
      (m : List (Bytes × V)) (k j : Bytes) (v : V)
      → find (put m k v) j ≡ (if same k j then some v else find m j)
  unfolding find put
  find-put [] k j v = refl
  find-put ((i, w) ∷ m) k j v =
      ground (arith, same_iff i k, same_iff i j, same_iff k j, find-put m k j v)

-- The last advertised tool of a name.
abbrev pub last_named : List ToolDefinition → Bytes → Option ToolDefinition
last_named [] name = none
last_named (tool ∷ tools) name = elim (last_named tools name) [
  | some later ↦ some later
  | none ↦ if same tool.name name then some tool else none
]

abbrev or_else : Option ToolDefinition → Option ToolDefinition → Option ToolDefinition
or_else (some t) other = some t
or_else none other = other

find-filter_onto :
    (allowlist : List Bytes) (tools : List ToolDefinition) (kept : Tools) (name : Bytes)
    → find (filter_onto allowlist tools kept) name ≡ (
        if member allowlist name
        then or_else (last_named tools name) (find kept name)
        else find kept name)
unfolding filter_onto
find-filter_onto allowlist [] kept name = ground arith
find-filter_onto allowlist (tool ∷ tools) kept name = ground (
  arith,
  same_iff tool.name name,
  find-put kept tool.name name tool,
  find-filter_onto allowlist tools (put kept tool.name tool) name,
  find-filter_onto allowlist tools kept name,
)

-- Of the tools that a server advertises, exactly those on the list are kept; of two with one name
-- the last.
pub find-filter_discovered :
    (tools : List ToolDefinition) (allowlist : List Bytes) (name : Bytes)
    → find (filter_discovered tools allowlist) name
      ≡ (if member allowlist name then last_named tools name else none)
unfolding filter_discovered find
find-filter_discovered tools allowlist name =
    ground (arith, find-filter_onto allowlist tools [] name)

-- Every key of a map is on a list.
abbrev KeysIn {ℓ} : {V : Type ℓ} → List Bytes → List (Bytes × V) → Type 0
KeysIn allowlist [] = Unit
KeysIn allowlist ((key, v) ∷ m) = (member allowlist key ≡ true) × KeysIn allowlist m

module _ {ℓ} {V : Type ℓ} (allowlist : List Bytes) where
  KeysIn-put :
      (m : List (Bytes × V)) (k : Bytes) (v : V)
      → member allowlist k ≡ true
      → KeysIn allowlist m
      → KeysIn allowlist (put m k v)
  unfolding put
  KeysIn-put [] k v h a = (h, tt)
  KeysIn-put ((i, w) ∷ m) k v h a = elim (Bool-cases (same i k)) [
    | inl e ↦ rw (e, put) (a.0, a.1)
    | inr e ↦ rw (e, put) (a.0, KeysIn-put m k v h a.1)
  ]

filter_onto-KeysIn :
    (allowlist : List Bytes) (tools : List ToolDefinition) (kept : Tools)
    → KeysIn allowlist kept
    → KeysIn allowlist (filter_onto allowlist tools kept)
unfolding filter_onto
filter_onto-KeysIn allowlist [] kept a = a
filter_onto-KeysIn allowlist (tool ∷ tools) kept a =
    elim (Bool-cases (member allowlist tool.name)) [
      | inl e ↦
          rw (e, filter_onto)
            (filter_onto-KeysIn allowlist tools _ (KeysIn-put allowlist kept tool.name tool e a))
      | inr e ↦ rw (e, filter_onto) (filter_onto-KeysIn allowlist tools kept a)
    ]

filter_discovered-KeysIn :
    (tools : List ToolDefinition) (allowlist : List Bytes)
    → KeysIn allowlist (filter_discovered tools allowlist)
unfolding filter_discovered
filter_discovered-KeysIn tools allowlist = filter_onto-KeysIn allowlist tools [] tt

-- The core server may be called for a core tool; the web server only if it is configured, and for a
-- web tool.
pub data MayCall (web : Bool) (name : Bytes) : ℕ → Type 0 where
  core : member allowed_core_tools name ≡ true → MayCall web name core_client
  web_tool : web ≡ true → member allowed_web_tools name ≡ true → MayCall web name web_client

abbrev Bound : Bool → List (Bytes × ℕ) → Type 0
Bound web clients =
    (name : Bytes) (client : ℕ) → find clients name ≡ some client → MayCall web name client

bind_all-Bound :
    (web : Bool) (m : Tools) → KeysIn allowed_core_tools m → Bound web (bind_all core_client m)
unfolding find bind_all
bind_all-Bound web [] a name client h = cc
bind_all-Bound web ((key, tool) ∷ m) (k, a) name client h = elim (Bool-cases (same key name)) [
  | inl e ↦
      subst (MayCall web name) (some-eq (rw (e, find) at h))
        (core (rw ((same_iff key name).0 e) at k))
  | inr e ↦ bind_all-Bound web m a name client (rw (e, find) at h)
]

put-Bound :
    (clients : List (Bytes × ℕ)) (key : Bytes)
    → member allowed_web_tools key ≡ true
    → Bound true clients
    → Bound true (put clients key web_client)
put-Bound clients key k b name client h = elim (Bool-cases (same key name)) [
  | inl e ↦
      subst (MayCall true name) (some-eq (rw (find-put, e) at h))
        (web_tool refl (rw ((same_iff key name).0 e) at k))
  | inr e ↦ b name client (rw (find-put, e) at h)
]

merge_web-Bound :
    (m : Tools) (discovered : Tools) (clients : List (Bytes × ℕ))
    → KeysIn allowed_web_tools m
    → Bound true clients
    → Bound true (merge_web m (discovered, clients)).1
unfolding merge_web
merge_web-Bound [] discovered clients a b = b
merge_web-Bound ((key, tool) ∷ m) discovered clients (k, a) b =
    elim (Option-cases (find discovered key)) [
      | inl e ↦ rw (e, merge_web) (merge_web-Bound m _ _ a (put-Bound clients key k b))
      | inr (t, e) ↦ rw (e, merge_web) (merge_web-Bound m discovered clients a b)
    ]

abbrev is_web_on : Config → Bool
is_web_on c = not (same (trim_space c.web_mcp_command) [])

add_web-Bound :
    (off : Bool) (web : Option (List ToolDefinition)) (kept : Tools)
    {found : Tools × List (Bytes × ℕ)}
    → ((on : Bool) → Bound on (bind_all core_client kept))
    → add_web off web (kept, bind_all core_client kept) ≡ ok found
    → Bound (not off) found.1
unfolding add_web
add_web-Bound true web kept b h = subst (λ f. Bound false f.1) (ok-injective h) (b false)
add_web-Bound false none kept b h = absurd (err-ne-ok h)
add_web-Bound false (some tools) kept b h =
    subst (λ f. Bound true f.1) (ok-injective h)
      (merge_web-Bound (filter_discovered tools allowed_web_tools) kept (bind_all core_client kept)
        (filter_discovered-KeysIn tools allowed_web_tools) (b true))

discover-Bound :
    (c : Config) (u : Startup) (tools : List ToolDefinition) {found : Tools × List (Bytes × ℕ)}
    → discover c u (filter_discovered tools allowed_core_tools) ≡ ok found
    → Bound (is_web_on c) found.1
unfolding discover
discover-Bound c u tools h =
    add_web-Bound (same (trim_space c.web_mcp_command) []) u.web_tools _
      (λ on. bind_all-Bound on _ (filter_discovered-KeysIn tools allowed_core_tools)) h

-- A call of a tool names a tool of the allowlist of the server that it goes to.
abbrev IsAllowed : Bool → Event → Type 0
IsAllowed web (asked messages tools) = Unit
IsAllowed web (called client name raw) = MayCall web name client

IsPermitted-IsAllowed :
    (C : Codec) (S : Session) (exposed : Tools) (tools : List Tool) (web : Bool)
    (events : List Event)
    → Bound web S.clients
    → All (IsPermitted C S exposed tools) events
    → All (IsAllowed web) events
IsPermitted-IsAllowed C S exposed tools web [] b a = tt
IsPermitted-IsAllowed C S exposed tools web (asked m t ∷ events) b (p, a) =
    (tt, IsPermitted-IsAllowed C S exposed tools web events b a)
IsPermitted-IsAllowed C S exposed tools web (called client name raw ∷ events) b
      ((key, tool, e, acc, f), a) =
    (b name client f, IsPermitted-IsAllowed C S exposed tools web events b a)

-- The workspace and the limit per turn change in `Validate`, the rest of the configuration does not.
validate_config-web :
    (resolve : Bytes → Option Bytes) (c d : Config)
    → validate_config resolve c ≡ ok d
    → d.web_mcp_command ≡ c.web_mcp_command
unfolding validate_config
validate_config-web resolve c d h = ground arith

-- A history within the allowlists and the limits: the first server is called for core tools only,
-- and the second for web tools, if a web command is configured.
pub record IsAllowedRun (c : Config) (w : World) : Type 0 where
  pub allowed : All (IsAllowed (is_web_on c)) w.history
  pub asks : count_asked w.history ≤ max_model_rounds
  pub calls : count_called w.history ≤ max_total_tool_calls

fresh-IsAllowedRun : (c : Config) → IsAllowedRun c fresh
fresh-IsAllowedRun c = record { allowed = tt; asks = omega arith; calls = omega arith }

start_session-IsAllowedRun :
    (V : Services) (C : Codec) (c : Config) (found : Result RunError (Tools × List (Bytes × ℕ)))
    → ((f : Tools × List (Bytes × ℕ)) → found ≡ ok f → Bound (is_web_on c) f.1)
    → IsAllowedRun c (start_session V C c found fresh).1
unfolding start_session
start_session-IsAllowedRun V C c (err e) b = fresh-IsAllowedRun c
start_session-IsAllowedRun V C c (ok ([], clients)) b = fresh-IsAllowedRun c
start_session-IsAllowedRun V C c (ok (t ∷ discovered, clients)) b =
    lifted (loop V C S fresh) (loop-IsBoundedRun V C S)
  where
    S : Session
    S = record {
      prompt = c.prompt;
      per_turn = c.max_tool_calls_per_turn;
      clients = clients;
      discovered = t ∷ discovered;
    }

    lifted :
        {exposed : Tools} {tools : List Tool} (r : Result LoopError (Unit {0}) × World)
        → IsBoundedRun C S exposed tools r.1
        → IsAllowedRun c (lift_loop r).1
    lifted (ok x, w) h = record {
      allowed = IsPermitted-IsAllowed C S _ _ (is_web_on c) w.history (b _ refl) h.permitted;
      asks = h.asks;
      calls = h.calls;
    }
    lifted (err e, w) h = record {
      allowed = IsPermitted-IsAllowed C S _ _ (is_web_on c) w.history (b _ refl) h.permitted;
      asks = h.asks;
      calls = h.calls;
    }

after_ping-IsAllowedRun :
    (V : Services) (C : Codec) (c : Config) (u : Startup) (reachable : Bool)
    (tools : Option (List ToolDefinition))
    → IsAllowedRun c (after_ping V C c u reachable tools fresh).1
unfolding after_ping
after_ping-IsAllowedRun V C c u false tools = fresh-IsAllowedRun c
after_ping-IsAllowedRun V C c u true none = fresh-IsAllowedRun c
after_ping-IsAllowedRun V C c u true (some tools) =
    start_session-IsAllowedRun V C c _ (λ f e. discover-Bound c u tools e)

run_config-IsAllowedRun :
    (V : Services) (C : Codec) (u : Startup) (c : Config) (r : Result ConfigError Config)
    → ((d : Config) → r ≡ ok d → is_web_on d ≡ is_web_on c)
    → IsAllowedRun c (run_config V C u r fresh).1
unfolding run_config
run_config-IsAllowedRun V C u c (err e) same_web = fresh-IsAllowedRun c
run_config-IsAllowedRun V C u c (ok d) same_web =
    let a = after_ping-IsAllowedRun V C d u u.model_reachable u.core_tools in
    record {
      allowed =
          subst
            (λ web.
              All (IsAllowed web)
                (after_ping V C d u u.model_reachable u.core_tools fresh).1.history)
            (same_web d refl) a.allowed;
      asks = a.asks;
      calls = a.calls;
    }

-- In the history of a run that starts with nothing done, whatever the model and the servers answer,
-- each tool call is one that the core allowlist or, where a web server is configured, the web
-- allowlist names, and the numbers of requests to the model and of tool calls are within the limits.
pub run-IsAllowedRun :
    (V : Services) (C : Codec) (resolve : Bytes → Option Bytes) (u : Startup) (c : Config)
    → IsAllowedRun c (run V C resolve u c fresh).1
unfolding run
run-IsAllowedRun V C resolve u c =
    run_config-IsAllowedRun V C u c (validate_config resolve c) (λ d e.
      ap (λ command. not (same (trim_space command) [])) (validate_config-web resolve c d e))
