-- ===== src/Llm/Client.antt =====
-- internal/llm/llm.go: the client of the model's server. `net/http` and `encoding/json` are
-- parameters; timeouts are failures of a request, and the texts of errors are left out.
pub mod Replies
use groovy_agent.Base.{
  ℕ, ◌*◌, ◌==◌, Bool, true, false, not, ◌&&◌, Bytes, List, [], ◌∷◌, ◌++◌, Option, none, some, codes,
  take, ltb, if◌then◌else◌, Result, ok, err,
}
use groovy_agent.Strings.{is_empty, trim_space, trim_right}
use groovy_agent.Json.{Value, str}
use groovy_agent.Llm.{FunctionCall, Message, Tool}

-- `chatRequest`, less the temperature and the stream flag, which are always off
pub record ChatRequest : Type 0 where
  pub model : Bytes
  pub messages : List Message
  pub tools : List Tool
  pub tool_choice : Bytes
  pub max_tokens : ℕ

-- `chatResponse`, with the message of the error where there is one
pub record ChatResponse : Type 0 where
  pub choices : List Message
  pub error : Option Bytes

-- `wireFunctionCall`
pub record WireFunctionCall : Type 0 where
  pub name : Bytes
  pub arguments : Value

-- A response, and its body where it can be read.
pub record Response : Type 0 where
  pub status : ℕ
  pub body : Option Bytes

-- What Go provides: `http.NewRequest` takes a URL, `Do` gives a response to a GET or, with a body, to
-- a POST; and `encoding/json`.
pub record Http : Type 0 where
  pub accepts : Bytes → Bool
  pub get : Bytes → Option Response
  pub post : Bytes → Bytes → Option Response
  pub encode_request : ChatRequest → Option Bytes
  pub decode_response : Bytes → Option ChatResponse
  pub encode_call : WireFunctionCall → Option Bytes
  pub is_json : Bytes → Bool
  pub decode_any : Bytes → Option Value

-- `MaxOutputTokens`
abbrev max_output_tokens : ℕ
max_output_tokens = 256

abbrev max_payload_bytes : ℕ
max_payload_bytes = 1024 * 1024

pub data Failure : Type 0 where
  bad_request not_encoded request_failed not_read bad_json no_choices not_reachable : Failure
  bad_status : ℕ → Failure
  model_error : Bytes → Failure

-- `Client`
pub record Client : Type 0 where
  pub base_url : Bytes
  pub model : Bytes

-- `New`
unfoldable pub new_client : Bytes → Bytes → Client
new_client base_url model = record { base_url = trim_right b'/' base_url; model = model }

structured : Bytes → Option Value → Value
structured text none = str text
structured text (some value) = value

-- `FunctionCall.MarshalJSON`
unfoldable pub marshal_json : Http → FunctionCall → Option Bytes
unfolding structured
marshal_json H f =
    let trimmed = trim_space f.arguments in
    H.encode_call (record {
      name = f.name;
      arguments =
          if not (is_empty trimmed) && H.is_json trimmed
          then structured f.arguments (H.decode_any trimmed)
          else str f.arguments;
    })

module _ (H : Http) where
  is_reachable : Option Response → Bool
  is_reachable none = false
  is_reachable (some response) = ltb response.status 500

  -- The loop of `Ping`.
  unfoldable pub ping_paths : Bytes → List Bytes → Result Failure (Unit {0})
  unfolding is_reachable
  ping_paths base [] = err not_reachable
  ping_paths base (path ∷ paths) =
      let rest = ping_paths base paths in
      if not (H.accepts (base ++ path))
      then err bad_request
      else if is_reachable (H.get (base ++ path))
      then ok tt
      else rest

  abbrev probes : List Bytes
  probes = codes "/health" ∷ codes "/v1/models" ∷ []

  -- `Client.Ping`
  unfoldable pub ping : Client → Result Failure (Unit {0})
  ping c = ping_paths c.base_url probes

  pub with_role : Message → Message
  with_role m = if is_empty m.role then record m { role = codes "assistant" } else m

  first_choice : List Message → Result Failure Message
  unfolding with_role
  first_choice [] = err no_choices
  first_choice (m ∷ rest) = ok (with_role m)

  choice_of : Option Bytes → List Message → Result Failure Message
  unfolding first_choice
  choice_of (some message) choices = err (model_error message)
  choice_of none choices = first_choice choices

  parsed : Option ChatResponse → Result Failure Message
  unfolding choice_of
  parsed none = err bad_json
  parsed (some response) = choice_of response.error response.choices

  read_reply : ℕ → Option Bytes → Result Failure Message
  unfolding parsed
  read_reply status none = err not_read
  read_reply status (some body) =
      if not (status == 200)
      then err (bad_status status)
      else parsed (H.decode_response (take max_payload_bytes body))

  reply_of : Option Response → Result Failure Message
  unfolding read_reply
  reply_of none = err request_failed
  reply_of (some response) = read_reply response.status response.body

  sent : Bytes → Option Bytes → Result Failure Message
  unfolding reply_of
  sent url none = err not_encoded
  sent url (some text) = if not (H.accepts url) then err bad_request else reply_of (H.post url text)

  tool_choice_for : List Tool → Bytes
  tool_choice_for [] = []
  tool_choice_for (tool ∷ tools) = codes "auto"

  -- The body of `Complete`'s request.
  unfoldable pub chat_request : Client → List Message → List Tool → ChatRequest
  unfolding tool_choice_for
  chat_request c messages tools = record {
    model = c.model;
    messages = messages;
    tools = tools;
    tool_choice = tool_choice_for tools;
    max_tokens = max_output_tokens;
  }

  -- `Client.Complete`
  pub complete : Client → List Message → List Tool → Result Failure Message
  unfolding sent
  complete c messages tools =
      sent (c.base_url ++ codes "/v1/chat/completions")
        (H.encode_request (chat_request c messages tools))
