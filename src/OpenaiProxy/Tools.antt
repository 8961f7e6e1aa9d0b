-- ===== src/OpenaiProxy/Tools.antt =====
-- internal/openaiproxy/proxy.go: the tools that the upstream server offers, and their cache. Waiting
-- for another request's fetch is left out: a call here meets no fetch that is under way.
use groovy_agent.Base.{
  ℕ, ◌-◌, ◌==◌, ◌*◌, Bool, true, false, Bytes, List, [], ◌∷◌, ◌++◌, Option, none, some, same, codes,
  take, ltb, if◌then◌else◌, Result, ok, err,
}
use groovy_agent.Strings.{trim_space, is_empty, decimal, contains}
use groovy_agent.Json.{
  Value, bool, str, arr, obj, Items, nil, cons, Fields, end, field, get, as_object, as_array,
  text_or_empty, fields_or_empty,
}
use groovy_agent.Coreutils.Text.{less_text}
use groovy_agent.OpenaiProxy.{set}

-- An error of the tool bridge: its text, and whether the request was cancelled or ran out of time.
pub record BridgeError : Type 0 where
  pub text : Bytes
  pub is_cancelled : Bool

-- A response to the request for the tools, with its body or the error of reading it.
pub record ToolsResponse : Type 0 where
  pub status : ℕ
  pub body : Result BridgeError Bytes

-- What the network and the decoder answer.
pub record ToolSource : Type 0 where
  pub get_tools : Result BridgeError ToolsResponse
  pub decode : Bytes → Result BridgeError Value

abbrev plain_error : Bytes → BridgeError
plain_error text = record { text = text; is_cancelled = false }

wrapped : Bytes → BridgeError → BridgeError
wrapped front e = record e { text = front ++ e.text }

-- The parameters of a tool that names none.
abbrev open_parameters : Fields
open_parameters =
    field (codes "type") (str (codes "object"))
      (field (codes "properties") (obj end) (field (codes "additionalProperties") (bool true) end))

first_object : Fields → List Bytes → Option Fields
first_object tool [] = none
first_object tool (key ∷ keys) = elim (as_object (get tool key)) [
  | none ↦ first_object tool keys
  | some schema ↦ some schema
]

-- `firstSchema`
unfoldable pub first_schema : Fields → List Bytes → Option Fields
unfolding first_object
first_schema tool keys = elim (first_object tool keys) [
  | some schema ↦ some schema
  | none ↦ as_object (get (fields_or_empty (get tool (codes "function"))) (codes "parameters"))
]

function_tool : Fields → Fields
function_tool function =
    field (codes "type") (str (codes "function")) (field (codes "function") (obj function) end)

with_parameters : Fields → Option Fields → Fields
with_parameters function none = set (codes "parameters") (obj open_parameters) function
with_parameters function (some parameters) = function

adapt_function : Fields → Option Fields
unfolding function_tool with_parameters
adapt_function function =
    if is_empty (trim_space (text_or_empty (get function (codes "name"))))
    then none
    else some
        (function_tool (with_parameters function (as_object (get function (codes "parameters")))))

parameters_or_open : Option Fields → Fields
parameters_or_open none = open_parameters
parameters_or_open (some schema) = schema

-- The name under one of two keys, the first being tried first.
tool_name : Fields → Bytes
tool_name tool =
    let name = text_or_empty (get tool (codes "tool")) in
    if is_empty (trim_space name) then text_or_empty (get tool (codes "name")) else name

adapt_named : Fields → Option Fields
unfolding tool_name function_tool parameters_or_open
adapt_named tool =
    if is_empty (trim_space (tool_name tool))
    then none
    else some (
        function_tool (
          field (codes "name") (str (tool_name tool)) (
            field (codes "description") (str (text_or_empty (get tool (codes "description")))) (
              field (codes "parameters")
                (obj (
                  parameters_or_open (
                    first_schema tool (
                      codes "parameters"
                      ∷ codes "input_schema"
                      ∷ codes "inputSchema"
                      ∷ codes "arguments"
                      ∷ codes "schema"
                      ∷ []))))
                end))))

adapt_kind : Fields → Bool → Option Fields → Option Fields
unfolding adapt_function adapt_named
adapt_kind tool true (some function) = adapt_function function
adapt_kind tool _ _ = adapt_named tool

-- `adaptTool`
unfoldable pub adapt_tool : Fields → Option Fields
unfolding adapt_kind
adapt_tool tool =
    adapt_kind tool (same (text_or_empty (get tool (codes "type"))) (codes "function"))
      (as_object (get tool (codes "function")))

no_list : Result BridgeError Items
no_list = err (plain_error (codes "/tools response does not include a tool list"))

list_in : Fields → Result BridgeError Items
unfolding no_list
list_in object = elim (as_array (get object (codes "data"))) [
  | some data_items ↦ ok data_items
  | none ↦ elim (as_array (get object (codes "tools"))) [ some tools ↦ ok tools | none ↦ no_list ]
]

-- `extractToolItems`
unfoldable pub extract_tool_items : Value → Result BridgeError Items
unfolding list_in
extract_tool_items (arr items) = ok items
extract_tool_items (obj object) = list_in object
extract_tool_items _ = err (plain_error (codes "/tools response is not a JSON object or array"))

adapted_onto : Option Fields → List Fields → List Fields
adapted_onto none rest = rest
adapted_onto (some tool) rest = tool ∷ rest

adapted_item : Option Fields → Option Fields
adapted_item none = none
adapted_item (some tool) = adapt_tool tool

unfoldable pub adapt_items : Items → List Fields
unfolding adapted_onto adapted_item
adapt_items nil = []
adapt_items (cons item rest) =
    adapted_onto (adapted_item (as_object (some item))) (adapt_items rest)

function_name : Fields → Bytes
function_name tool =
    text_or_empty (get (fields_or_empty (get tool (codes "function"))) (codes "name"))

insert_tool : Fields → List Fields → List Fields
unfolding function_name less_text
insert_tool tool [] = tool ∷ []
insert_tool tool (next ∷ tools) =
    let rest = insert_tool tool tools in
    if less_text (function_name next) (function_name tool) then next ∷ rest else tool ∷ next ∷ tools

-- `sort.SliceStable` by the name, whose result a stable sort by insertion has too.
unfoldable pub sort_tools : List Fields → List Fields
unfolding insert_tool
sort_tools [] = []
sort_tools (tool ∷ tools) = insert_tool tool (sort_tools tools)

module _ (T : ToolSource) where
  parsed_tools : Result BridgeError Value → Result BridgeError (List Fields)
  parsed_tools (err e) = err (wrapped (codes "parse /tools JSON: ") e)
  parsed_tools (ok decoded) = elim (extract_tool_items decoded) [
    | err e ↦ err e
    | ok items ↦ ok (sort_tools (adapt_items items))
  ]

  -- `parseOpenAITools`
  unfoldable pub parse_openai_tools : Bytes → Result BridgeError (List Fields)
  unfolding parsed_tools wrapped
  parse_openai_tools payload = parsed_tools (T.decode payload)

  read_tools : ℕ → Result BridgeError Bytes → Result BridgeError (List Fields)
  unfolding wrapped
  read_tools status (err e) = err (wrapped (codes "read /tools response: ") e)
  read_tools status (ok body) =
      if status == 200
      then parse_openai_tools (take (1024 * 1024) body)
      else err (plain_error (codes "/tools returned status " ++ decimal status))

  fetched : Result BridgeError ToolsResponse → Result BridgeError (List Fields)
  unfolding read_tools wrapped
  fetched (err e) = err (wrapped (codes "fetch /tools: ") e)
  fetched (ok response) = read_tools response.status response.body

  -- `fetchOpenAITools`
  unfoldable pub fetch_openai_tools : Result BridgeError (List Fields)
  unfolding fetched
  fetch_openai_tools = fetched T.get_tools

-- The cached tools and the cached error of `Proxy`, each with its time in nanoseconds.
pub record Cache : Type 0 where
  pub tools : Option (List Fields × ℕ)
  pub error : Option (BridgeError × ℕ)

-- `toolsCacheTTL` and `toolsErrorCacheTTL`
pub record Lifetimes : Type 0 where
  pub tools_ttl : ℕ
  pub error_ttl : ℕ

fresh {ℓ} : {A : Type ℓ} → ℕ → ℕ → Option (A × ℕ) → Option A
fresh now ttl none = none
fresh now ttl (some (value, stored)) = if ltb (now - stored) ttl then some value else none

store : Cache → ℕ → Result BridgeError (List Fields) → Cache
store c completed_at (err e) =
    if e.is_cancelled then c else record c { error = some (e, completed_at) }
store c completed_at (ok tools) = record { tools = some (tools, completed_at); error = none }

-- `getOpenAITools`, with the times at which it begins and at which a fetch is complete
unfoldable pub get_openai_tools :
    Lifetimes → ToolSource → ℕ → ℕ → Cache → Result BridgeError (List Fields) × Cache
unfolding fresh store
get_openai_tools l T now completed_at c = elim (fresh now l.tools_ttl c.tools) [
  | some tools ↦ (ok tools, c)
  | none ↦ elim (fresh now l.error_ttl c.error) [
    | some e ↦ (err e, c)
    | none ↦ (fetch_openai_tools T, store c completed_at (fetch_openai_tools T))
  ]
]

-- `sanitizeBridgeError`
unfoldable pub sanitize_bridge_error : BridgeError → Bytes
sanitize_bridge_error e =
    if contains e.text (codes "/tools returned status ")
    then e.text
    else if contains e.text (codes "parse /tools JSON")
    then codes "tools endpoint returned invalid JSON"
    else if contains e.text (codes "does not include a tool list")
    then codes "tools endpoint response did not include a tool list"
    else if contains e.text (codes "no usable function definitions")
    then codes "tools endpoint returned no callable function definitions"
    else codes "tools endpoint unavailable"
