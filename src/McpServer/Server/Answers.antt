-- ===== src/McpServer/Server/Answers.antt =====
-- What a line of a session is answered with.
use groovy_agent.Base.{
  ◌≡◌, refl, Bool, true, false, Bytes, List, [], ◌∷◌, ◌++◌, Option, none, some, codes, ℤ,
  if◌then◌else◌, Bool-cases, inl, inr,
}
use groovy_agent.Strings.{is_empty}
use groovy_agent.Json.{Fields}
use groovy_agent.McpProto.{Message, InitializeResult, ListToolsResult, CallToolResult, Wire}
use groovy_agent.McpServer.Server.{
  Server, Turn, Method, initialize, notification, ping, list_tools_method, call_tool_method,
  other_method, method_of, write, ended, result_answer, error_answer, respond_error, respond_result,
  respond_encoded, by_method, dispatch, handle_decoded, handle_line, call_tool,
}

is_notification : Method → Bool
is_notification notification = true
is_notification _ = false

-- The identifiers that the answers to a request carry: its own, or none where it has none or its
-- method is one of the notifications.
awaited_by : Method → Bytes → List Bytes
unfolding is_notification is_empty
awaited_by method id = if is_empty id then [] else if is_notification method then [] else id ∷ []

awaited_of : Option Message → List Bytes
unfolding awaited_by method_of
awaited_of none = codes "null" ∷ []
awaited_of (some request) = awaited_by (method_of request.method) request.id

-- The same for a line: nothing for an empty one, and `null` for a malformed one.
unfoldable pub awaited : Wire → Bytes → List Bytes
unfolding awaited_of is_empty
awaited wire line = if is_empty line then [] else awaited_of (wire.message.decode line)

module _ (s : Server) where
  -- A line is an answer with this identifier.
  pub record IsAnswer (id line : Bytes) : Type 0 where
    pub answer : Message
    pub text : Bytes
    pub encoded : s.wire.message.encode answer ≡ some text
    pub is_line : line ≡ text ++ b'\n' ∷ []
    pub same_id : answer.id ≡ id
    pub is_version : answer.jsonrpc ≡ codes "2.0"

  -- The lines are answers with these identifiers, in this order.
  abbrev pub AreAnswers : List Bytes → List Bytes → Type 0
  AreAnswers [] [] = Unit
  AreAnswers [] (line ∷ lines) = ⊥
  AreAnswers (id ∷ ids) [] = ⊥
  AreAnswers (id ∷ ids) (line ∷ lines) = IsAnswer id line × AreAnswers ids lines

  pub AreAnswers-append :
      (ids more_ids lines more : List Bytes)
      → AreAnswers ids lines
      → AreAnswers more_ids more
      → AreAnswers (ids ++ more_ids) (lines ++ more)
  AreAnswers-append [] more_ids [] more h k = k
  AreAnswers-append [] more_ids (line ∷ lines) more h k = elim h [ ]
  AreAnswers-append (id ∷ ids) more_ids [] more h k = elim h [ ]
  AreAnswers-append (id ∷ ids) more_ids (line ∷ lines) more h k =
      (h.0, AreAnswers-append ids more_ids lines more h.1 k)

  -- What `encoding/json` does, for the texts that are JSON: null is, and so are a member that was
  -- read as it stands and what is encoded; and a message of such texts can be encoded.
  pub record Marshals (IsJson : Bytes → Type 0) : Type 0 where
    pub null_json : IsJson (codes "null")
    pub raw_json :
        (line : Bytes) (m : Message)
        → s.wire.message.decode line ≡ some m
        → is_empty m.id ≡ false
        → IsJson m.id
    pub initialize_json :
        (r : InitializeResult) (text : Bytes)
        → s.wire.initialize_result.encode r ≡ some text
        → IsJson text
    pub object_json : (r : Fields) (text : Bytes) → s.wire.object.encode r ≡ some text → IsJson text
    pub list_json :
        (r : ListToolsResult) (text : Bytes) → s.wire.list_result.encode r ≡ some text → IsJson text
    pub call_json :
        (r : CallToolResult) (text : Bytes) → s.wire.call_result.encode r ≡ some text → IsJson text
    pub encodes_result :
        (id result : Bytes)
        → IsJson id
        → IsJson result
        → ¬ (s.wire.message.encode (result_answer s id result) ≡ none)
    pub encodes_error :
        (id : Bytes) (code : ℤ) (message : Bytes)
        → IsJson id
        → ¬ (s.wire.message.encode (error_answer s id code message) ≡ none)

  module _ (IsJson : Bytes → Type 0) (J : Marshals IsJson) where
    ended-AreAnswers :
        (m : Message) (r : Option Bytes)
        → ¬ (s.wire.message.encode m ≡ none)
        → s.wire.message.encode m ≡ r
        → m.jsonrpc ≡ codes "2.0"
        → AreAnswers (m.id ∷ []) (ended s r)
    unfolding ended
    ended-AreAnswers m none encodes e v = elim (encodes e) [ ]
    ended-AreAnswers m (some text) encodes e v = (
      record {
        answer = m;
        text = text;
        encoded = e;
        is_line = refl;
        same_id = refl;
        is_version = v;
      },
      tt,
    )

    write-AreAnswers :
        (m : Message)
        → ¬ (s.wire.message.encode m ≡ none)
        → m.jsonrpc ≡ codes "2.0"
        → AreAnswers (m.id ∷ []) (write s m)
    unfolding write
    write-AreAnswers m encodes v = ended-AreAnswers m _ encodes refl v

    error-AreAnswers :
        (id : Bytes) (code : ℤ) (message : Bytes)
        → IsJson id
        → is_empty id ≡ false
        → AreAnswers (id ∷ []) (respond_error s id code message)
    unfolding respond_error
    error-AreAnswers id code message j e =
        rw e (
          write-AreAnswers (error_answer s id code message) (J.encodes_error id code message j)
            refl)

    malformed-AreAnswers :
        (code : ℤ) (message : Bytes)
        → AreAnswers (codes "null" ∷ []) (respond_error s [] code message)
    unfolding respond_error is_empty
    malformed-AreAnswers code message =
        write-AreAnswers (error_answer s (codes "null") code message)
          (J.encodes_error (codes "null") code message J.null_json) refl

    encoded-AreAnswers :
        (id : Bytes) (r : Option Bytes)
        → IsJson id
        → is_empty id ≡ false
        → ((text : Bytes) → r ≡ some text → IsJson text)
        → AreAnswers (id ∷ []) (respond_encoded s id r)
    unfolding respond_encoded
    encoded-AreAnswers id none j e k = error-AreAnswers id _ _ j e
    encoded-AreAnswers id (some result) j e k =
        write-AreAnswers (result_answer s id result) (J.encodes_result id result j (k result refl))
          refl

    module _ (t : Turn) (request : Message)
        (j : is_empty request.id ≡ false → IsJson request.id) where
      result-AreAnswers :
          (r : Option Bytes)
          → ((text : Bytes) → r ≡ some text → IsJson text)
          → AreAnswers
              (if is_empty request.id then [] else request.id ∷ [])
              (respond_result s request.id r)
      unfolding respond_result
      result-AreAnswers r k = elim (Bool-cases (is_empty request.id)) [
        | inl e ↦ rw e tt
        | inr e ↦ rw e (encoded-AreAnswers request.id r (j e) e k)
      ]

      by_method-AreAnswers :
          (method : Method)
          → AreAnswers (awaited_by method request.id) (by_method s t request method).0
      unfolding by_method awaited_by is_notification
      by_method-AreAnswers initialize = result-AreAnswers _ (J.initialize_json _)
      by_method-AreAnswers notification = elim (Bool-cases (is_empty request.id)) [
        | inl e ↦ rw e tt
        | inr e ↦ rw e tt
      ]
      by_method-AreAnswers ping = result-AreAnswers _ (J.object_json _)
      by_method-AreAnswers list_tools_method = result-AreAnswers _ (J.list_json _)
      by_method-AreAnswers call_tool_method = elim (Bool-cases (is_empty request.id)) [
        | inl e ↦ rw e tt
        | inr e ↦
            rw e (rw e at (result-AreAnswers _ (J.call_json (call_tool s t request.params).0)))
      ]
      by_method-AreAnswers other_method = elim (Bool-cases (is_empty request.id)) [
        | inl e ↦ rw e tt
        | inr e ↦ rw e (error-AreAnswers request.id _ _ (j e) e)
      ]

    decoded-AreAnswers :
        (t : Turn) (line : Bytes) (r : Option Message)
        → s.wire.message.decode line ≡ r
        → AreAnswers (awaited_of r) (handle_decoded s t r).0
    unfolding handle_decoded awaited_of dispatch
    decoded-AreAnswers t line none e = malformed-AreAnswers _ _
    decoded-AreAnswers t line (some request) e =
        by_method-AreAnswers t request (J.raw_json line request e) (method_of request.method)

    pub handle_line-AreAnswers :
        (t : Turn) (line : Bytes) → AreAnswers (awaited s.wire line) (handle_line s t line).0
    unfolding handle_line awaited
    handle_line-AreAnswers t line = elim (Bool-cases (is_empty line)) [
      | inl e ↦ rw e tt
      | inr e ↦ rw e (decoded-AreAnswers t line _ refl)
    ]
