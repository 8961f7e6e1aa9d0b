-- ===== src/McpClient.antt =====
-- internal/mcpclient/client.go: the client of a tool server. What the `select` of a call comes upon,
-- one case after the other, is a list of events; starting and stopping the server's process, and the
-- locks, are left out.
pub mod Answers
pub mod Discovery
pub mod Served
use groovy_agent.Base.{
  member, ℕ, zero, suc, ◌+◌, Bool, true, false, not, ◌&&◌, ◌||◌, Bytes, List, [], ◌∷◌, ◌++◌, Option,
  none, some, same, codes, if◌then◌else◌, Result, ok, err,
}
use groovy_agent.Strings.{decimal, is_empty}
use groovy_agent.Json.{Fields, end}
use groovy_agent.McpProto.{
  ToolDefinition, CallToolResult, version, RpcError, Message, Implementation, InitializeParams,
  InitializeResult, ListToolsResult, CallToolParams, ToolsCapability, Wire,
}

-- Why an operation of the client fails; `waiting` is that of a call which has no further event.
pub data CallError : Type 0 where
  waiting encoding_failed write_failed context_done transport_failed transport_closed : CallError
  undecodable no_tool_capability malformed_tool duplicate_tool too_many_pages : CallError
  rpc_error : Bytes → CallError

-- A case of the `select`.
pub data Event : Type 0 where
  cancelled reader_failed messages_closed : Event
  received : Message → Event

-- How the reader ends.
pub data ReadEnd : Type 0 where
  malformed_message scanner_failed end_of_file : ReadEnd

-- `Client`, with what it will come upon and what it has written.
pub record Client : Type 0 where
  pub next_id : ℕ
  pub events : List Event
  pub sent : List Bytes

pub or_empty : Option Bytes → Bytes
or_empty none = []
or_empty (some text) = text

-- `json.Marshal` of `strconv.Itoa`
unfoldable pub encoded_id : ℕ → Bytes
encoded_id n = b'"' ∷ (decimal n ++ (b'"' ∷ []))

end_of_input : Bool → ReadEnd
end_of_input true = scanner_failed
end_of_input false = end_of_file

-- `readLoop`: the messages that it passes on, and the error that it ends with.
unfoldable pub read_loop : Wire → List Bytes → Bool → List Message × ReadEnd
unfolding end_of_input
read_loop wire [] fails = ([], end_of_input fails)
read_loop wire (line ∷ lines) fails =
    let (messages, why) = read_loop wire lines fails in
    if is_empty line then (messages, why) else elim (wire.message.decode line) [
      | none ↦ ([], malformed_message)
      | some m ↦ (m ∷ messages, why)
    ]

pub answer_of : Message → Option RpcError → Result CallError Bytes
answer_of m (some e) = err (rpc_error e.message)
answer_of m none = ok m.result

unfoldable pub is_other : Bytes → Message → Bool
is_other id m = is_empty m.id || not (same m.id id)

-- The loop of `call`.
unfoldable pub receive : Bytes → List Event → Result CallError Bytes × List Event
unfolding answer_of is_other
receive id [] = (err waiting, [])
receive id (cancelled ∷ events) = (err context_done, events)
receive id (reader_failed ∷ events) = (err transport_failed, events)
receive id (messages_closed ∷ events) = (err transport_closed, events)
receive id (received m ∷ events) =
    let later = receive id events in if is_other id m then later else (answer_of m m.error, events)

read_result {ℓ} : {A : Type ℓ} → Option A → Result CallError A
read_result none = err undecodable
read_result (some a) = ok a

decoded {ℓ} : {A : Type ℓ} → (Bytes → Option A) → Result CallError Bytes → Result CallError A
unfolding read_result
decoded decode (err e) = err e
decoded decode (ok text) = read_result (decode text)

abbrev pub request : Bytes → Bytes → Bytes → Message
request id method params = record {
  jsonrpc = codes "2.0";
  id = id;
  method = method;
  params = params;
  result = [];
  error = none;
}

after_notice :
    InitializeResult
    → Result CallError (Unit {0}) × Client
    → Result CallError InitializeResult × Client
after_notice result (err e, c) = (err e, c)
after_notice result (ok done, c) = (ok result, c)

pub reads_schema : Option Fields → Bool
reads_schema none = false
reads_schema (some schema) = true

-- The rest of `ListTools` behind a page that is added.
with_page :
    (Bytes
      → List Bytes
      → List ToolDefinition
      → Client
      → Result CallError (List ToolDefinition) × Client)
    → Bytes
    → Client
    → Result CallError (List Bytes × List ToolDefinition)
    → Result CallError (List ToolDefinition) × Client
with_page next cursor c (err e) = (err e, c)
with_page next cursor c (ok (seen, tools)) =
    if is_empty cursor then (ok tools, c) else next cursor seen tools c

-- `maxPages`
abbrev pub max_pages : ℕ
max_pages = 10

module _ (wire : Wire) (accepts : Bytes → Bool) where
  write_line : Option Bytes → Client → Result CallError (Unit {0}) × Client
  write_line none c = (err encoding_failed, c)
  write_line (some text) c =
      if accepts (text ++ (b'\n' ∷ []))
      then (ok tt, record c { sent = c.sent ++ ((text ++ (b'\n' ∷ [])) ∷ []) })
      else (err write_failed, c)

  -- `Client.write`
  unfoldable pub write : Message → Client → Result CallError (Unit {0}) × Client
  unfolding write_line
  write m c = write_line (wire.message.encode m) c

  awaiting {ℓ} :
      {A : Type ℓ}
      → (Bytes → Option A)
      → Bytes
      → Result CallError (Unit {0}) × Client
      → Result CallError A × Client
  unfolding decoded
  awaiting decode id (err e, c) = (err e, c)
  awaiting decode id (ok done, c) =
      let (answer, rest) = receive id c.events in
      (decoded decode answer, record c { events = rest })

  -- `Client.call`, with `mustParams` for the encoded parameters
  unfoldable pub call {ℓ} :
      {A : Type ℓ}
      → (Bytes → Option A)
      → Bytes
      → Option Bytes
      → Client
      → Result CallError A × Client
  unfolding awaiting or_empty
  call decode method params c =
      let id = encoded_id (suc c.next_id) in
      awaiting decode id
        (write (request id method (or_empty params)) (record c { next_id = suc c.next_id }))

  -- `notify`
  unfoldable pub notify : Bytes → Option Bytes → Client → Result CallError (Unit {0}) × Client
  unfolding or_empty
  notify method params c = write (request [] method (or_empty params)) c

  acknowledge :
      InitializeResult
      → Option ToolsCapability
      → Client
      → Result CallError InitializeResult × Client
  unfolding after_notice
  acknowledge result none c = (err no_tool_capability, c)
  acknowledge result (some tools) c =
      after_notice result (notify (codes "notifications/initialized") (wire.object.encode end) c)

  initialized :
      Result CallError InitializeResult × Client → Result CallError InitializeResult × Client
  unfolding acknowledge
  initialized (err e, c) = (err e, c)
  initialized (ok result, c) = acknowledge result result.tools c

  -- `Initialize`
  unfoldable pub initialize : Client → Result CallError InitializeResult × Client
  unfolding initialized
  initialize c = initialized (
      call wire.initialize_result.decode (codes "initialize")
        (wire.initialize_params.encode (record {
          protocol_version = version;
          client_info = record { name = codes "groovy-agent"; version = codes "1.0.0" };
        }))
        c)

  -- The loop over a page, with the names seen and the tools kept so far.
  unfoldable pub add_page :
      List ToolDefinition
      → List Bytes
      → List ToolDefinition
      → Result CallError (List Bytes × List ToolDefinition)
  unfolding member reads_schema
  add_page [] seen tools = ok (seen, tools)
  add_page (tool ∷ page) seen tools =
      let rest = add_page page (tool.name ∷ seen) (tools ++ (tool ∷ [])) in
      if is_empty tool.name || is_empty tool.input_schema
      then err malformed_tool
      else if not (reads_schema (wire.read_schema tool.input_schema))
      then err malformed_tool
      else if member seen tool.name
      then err duplicate_tool
      else rest

  with_answer :
      (Bytes
        → List Bytes
        → List ToolDefinition
        → Client
        → Result CallError (List ToolDefinition) × Client)
      → List Bytes
      → List ToolDefinition
      → Result CallError ListToolsResult × Client
      → Result CallError (List ToolDefinition) × Client
  unfolding with_page
  with_answer next seen tools (err e, c) = (err e, c)
  with_answer next seen tools (ok result, c) =
      with_page next result.next_cursor c (add_page result.tools seen tools)

  -- The loop of `ListTools`, for as many pages.
  unfoldable pub list_pages :
      ℕ
      → Bytes
      → List Bytes
      → List ToolDefinition
      → Client
      → Result CallError (List ToolDefinition) × Client
  unfolding with_answer
  list_pages zero cursor seen tools c = (err too_many_pages, c)
  list_pages (suc pages) cursor seen tools c =
      with_answer (list_pages pages) seen tools
        (call wire.list_result.decode (codes "tools/list") (wire.list_params.encode cursor) c)

  -- `ListTools`
  unfoldable pub list_tools : Client → Result CallError (List ToolDefinition) × Client
  list_tools c = list_pages max_pages [] [] [] c

  -- `CallTool`
  pub call_tool : Bytes → Bytes → Client → Result CallError CallToolResult × Client
  call_tool name arguments c =
      call wire.call_result.decode (codes "tools/call")
        (wire.call_params.encode (record { name = name; arguments = arguments })) c
