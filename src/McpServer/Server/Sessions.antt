-- ===== src/McpServer/Server/Sessions.antt =====
-- What a whole session writes and changes.
use groovy_agent.Base.{
  Bytes, List, [], ◌∷◌, ◌++◌, Option, none, some, All, All-append, if◌then◌else◌, Bool-cases, inl,
  inr,
}
use groovy_agent.Strings.{is_empty}
use groovy_agent.McpProto.{Message, Wire}
use groovy_agent.McpServer.Tools.{Effect}
use groovy_agent.McpServer.Tools.Writing.Confined.{IsConfined}
use groovy_agent.McpServer.Server.{
  Server, Turn, Event, Method, initialize, notification, ping, list_tools_method, call_tool_method,
  other_method, by_method, method_of, dispatch, handle_decoded, handle_line, serve,
}
use groovy_agent.McpServer.Server.Calls.{call_tool-IsConfined}
use groovy_agent.McpServer.Server.Answers.{
  awaited, AreAnswers, AreAnswers-append, Marshals, handle_line-AreAnswers,
}

-- The identifiers that a session's answers carry, until the context is done.
unfoldable pub awaited_in : Wire → List Event → List Bytes
awaited_in wire [] = []
awaited_in wire (event ∷ events) =
    let rest = awaited_in wire events in
    if event.cancelled then [] else awaited wire event.line ++ rest

-- Where `encoding/json` encodes the answers, a session writes exactly one answer for each malformed
-- line and each request that has an identifier and is not named as a notification, with that
-- identifier, in the order of the lines, and no other line.
pub serve-AreAnswers :
    (s : Server) (IsJson : Bytes → Type 0) (events : List Event)
    → Marshals s IsJson
    → AreAnswers s (awaited_in s.wire events) (serve s events).0
unfolding serve awaited_in
serve-AreAnswers s IsJson [] J = tt
serve-AreAnswers s IsJson (event ∷ events) J = elim (Bool-cases event.cancelled) [
  | inl e ↦ rw e tt
  | inr e ↦ rw e (
      AreAnswers-append s (awaited s.wire event.line) (awaited_in s.wire events) _ _
        (handle_line-AreAnswers s IsJson J event.turn event.line)
        (serve-AreAnswers s IsJson events J))
]

module _ (s : Server) where
  Stays : List Bytes × List Effect → Type 0
  Stays done = All (IsConfined s.workspace) done.1

  by_method-Stays :
      (t : Turn) (request : Message) (method : Method) → Stays (by_method s t request method)
  unfolding by_method Stays
  by_method-Stays t request initialize = tt
  by_method-Stays t request notification = tt
  by_method-Stays t request ping = tt
  by_method-Stays t request list_tools_method = tt
  by_method-Stays t request call_tool_method = elim (Bool-cases (is_empty request.id)) [
    | inl e ↦ rw e tt
    | inr e ↦ rw e (call_tool-IsConfined s t request.params)
  ]
  by_method-Stays t request other_method = elim (Bool-cases (is_empty request.id)) [
    | inl e ↦ rw e tt
    | inr e ↦ rw e tt
  ]

  decoded-Stays : (t : Turn) (r : Option Message) → Stays (handle_decoded s t r)
  unfolding handle_decoded dispatch Stays
  decoded-Stays t none = tt
  decoded-Stays t (some request) = by_method-Stays t request (method_of request.method)

  handle_line-Stays : (t : Turn) (line : Bytes) → Stays (handle_line s t line)
  unfolding handle_line Stays
  handle_line-Stays t line = elim (Bool-cases (is_empty line)) [
    | inl e ↦ rw e tt
    | inr e ↦ rw e (decoded-Stays t (s.wire.message.decode line))
  ]

-- Whatever lines a session is sent, and however the operating system answers, each change that the
-- server asks for is of paths that are the workspace or lie beneath it.
pub serve-IsConfined :
    (s : Server) (events : List Event) → All (IsConfined s.workspace) (serve s events).1
unfolding serve Stays
serve-IsConfined s [] = tt
serve-IsConfined s (event ∷ events) = elim (Bool-cases event.cancelled) [
  | inl e ↦ rw e tt
  | inr e ↦ rw e (
      All-append (IsConfined s.workspace) (handle_line s event.turn event.line).1 (serve s events).1
        (serve-IsConfined s events) (handle_line-Stays s event.turn event.line))
]
