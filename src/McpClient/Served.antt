-- ===== src/McpClient/Served.antt =====
-- The client's calls at the server of this repository.
use groovy_agent.Base.{
  ◌≡◌, refl, ◌∙◌, ℕ, suc, Bool, true, false, Bytes, List, [], ◌∷◌, ◌++◌, map, Option, none, some,
  same, same_refl, codes, All, ok,
}
use groovy_agent.Strings.{is_empty}
use groovy_agent.McpProto.{Message, Wire}
use groovy_agent.McpServer.Server.{
  Server, Turn, dispatch, handle_line, call_tool, respond_result, write, result_answer,
}
use groovy_agent.McpClient.{
  CallError, Event, received, Client, is_other, answer_of, encoded_id, read_loop, receive, request,
  call, awaiting, write_line, read_result, decoded,
}
use groovy_agent.McpClient.Answers.{receive-finds}
use groovy_agent.McpClient

-- A call of a tool that comes through: what is encoded on either side is decoded as it was on the
-- other, the request is written, and the answer follows messages that are not for this call.
pub record Passes (s : Server) (accepts : Bytes → Bool) (t : Turn) (c : Client)
    (name arguments : Bytes) : Type 0 where
  pub params : Bytes
  pub asked : Bytes
  pub result : Bytes
  pub answered : Bytes
  pub others : List Message
  pub rest : List Event
  pub params_encoded :
      s.wire.call_params.encode (record { name = name; arguments = arguments }) ≡ some params
  pub asked_encoded :
      s.wire.message.encode (request (encoded_id (suc c.next_id)) (codes "tools/call") params)
      ≡ some asked
  pub asked_decoded :
      s.wire.message.decode asked
      ≡ some (request (encoded_id (suc c.next_id)) (codes "tools/call") params)
  pub asked_full : is_empty asked ≡ false
  pub asked_accepted : accepts (asked ++ (b'\n' ∷ [])) ≡ true
  pub result_encoded : s.wire.call_result.encode (call_tool s t params).0 ≡ some result
  pub result_decoded : s.wire.call_result.decode result ≡ some (call_tool s t params).0
  pub answer_encoded :
      s.wire.message.encode (result_answer s (encoded_id (suc c.next_id)) result) ≡ some answered
  pub answer_decoded :
      s.wire.message.decode answered ≡ some (result_answer s (encoded_id (suc c.next_id)) result)
  pub answer_full : is_empty answered ≡ false
  pub unrelated : All (λ m. is_other (encoded_id (suc c.next_id)) m ≡ true) others
  pub in_order :
      c.events
      ≡ map received others ++ (map received (read_loop s.wire (answered ∷ []) false).0 ++ rest)

module _ (s : Server) (t : Turn) where
  -- What the server makes of a line with a tool call.
  handle_call :
      (line id params result text : Bytes)
      → is_empty line ≡ false
      → is_empty id ≡ false
      → s.wire.message.decode line ≡ some (request id (codes "tools/call") params)
      → s.wire.call_result.encode (call_tool s t params).0 ≡ some result
      → s.wire.message.encode (result_answer s id result) ≡ some text
      → handle_line s t line ≡ ((text ++ (b'\n' ∷ [])) ∷ [], (call_tool s t params).1)
  unfolding handle_line dispatch respond_result write same
  handle_call line id params result text full own d e f = rw (full, d, own, e, f) refl

module _ (wire : Wire) where
  read_one :
      (line : Bytes) (m : Message)
      → is_empty line ≡ false
      → wire.message.decode line ≡ some m
      → (read_loop wire (line ∷ []) false).0 ≡ m ∷ []
  unfolding read_loop
  read_one line m full e = rw (full, e) refl

  own_answer :
      (s : Server) (n : ℕ) (result : Bytes)
      → is_other (encoded_id n) (result_answer s (encoded_id n) result) ≡ false
  unfolding is_other encoded_id is_empty
  own_answer s n result = rw (same_refl (encoded_id n)) refl

  -- A call whose line is written and whose answer is in the events.
  call-received :
      {A : Type 0} (accepts : Bytes → Bool) (decode : Bytes → Option A) (method : Bytes)
      (encoded : Option Bytes) (c : Client) (params asked result : Bytes) (answer : Message) (a : A)
      (others : List Message) (rest : List Event)
      → encoded ≡ some params
      → wire.message.encode (request (encoded_id (suc c.next_id)) method params) ≡ some asked
      → accepts (asked ++ (b'\n' ∷ [])) ≡ true
      → c.events ≡ map received others ++ (received answer ∷ rest)
      → receive (encoded_id (suc c.next_id)) (map received others ++ (received answer ∷ rest))
        ≡ (ok result, rest)
      → decode result ≡ some a
      → call wire accepts decode method encoded c ≡ (
        ok a,
        record {
          next_id = suc c.next_id;
          events = rest;
          sent = c.sent ++ ((asked ++ (b'\n' ∷ [])) ∷ []);
        },
      )
  unfolding call McpClient.write
  call-received accepts decode method encoded c params asked result answer a others rest e f g h k
        d =
      rw (e, f, g, h, k, d) refl

found :
    (id : Bytes) (others : List Message) (answer : Message) (rest : List Event)
    → All (λ m. is_other id m ≡ true) others
    → is_other id answer ≡ false
    → answer.error ≡ none
    → receive id (map received others ++ (received answer ∷ rest)) ≡ (ok answer.result, rest)
unfolding answer_of
found id others answer rest all own clear =
    receive-finds id others answer rest all own ∙ rw clear refl

named : (n : ℕ) → is_empty (encoded_id n) ≡ false
unfolding encoded_id is_empty
named n = refl

-- Where a call comes through, the server answers its line with one line, and the client's call
-- returns the result that the server's handling of the call gives, with the request written once and
-- the events behind the answer left.
pub call_tool-served :
    (s : Server) (accepts : Bytes → Bool) (t : Turn) (c : Client) (name arguments : Bytes)
    (h : Passes s accepts t c name arguments)
    → (handle_line s t h.asked ≡ ((h.answered ++ (b'\n' ∷ [])) ∷ [], (call_tool s t h.params).1))
      × (McpClient.call_tool s.wire accepts name arguments c ≡ (
        ok (call_tool s t h.params).0,
        record {
          next_id = suc c.next_id;
          events = h.rest;
          sent = c.sent ++ ((h.asked ++ (b'\n' ∷ [])) ∷ []);
        },
      ))
unfolding McpClient.call_tool
call_tool-served s accepts t c name arguments h =
    let id = encoded_id (suc c.next_id) in
    let answer = result_answer s id h.result in
    (
      handle_call s t h.asked id h.params h.result h.answered h.asked_full (named (suc c.next_id))
          h.asked_decoded h.result_encoded h.answer_encoded,
      call-received s.wire accepts s.wire.call_result.decode (codes "tools/call") _ c h.params
          h.asked h.result answer _ h.others h.rest h.params_encoded h.asked_encoded
          h.asked_accepted
          (rw (read_one s.wire h.answered answer h.answer_full h.answer_decoded) at h.in_order)
          (found id h.others answer h.rest h.unrelated
            (own_answer s.wire s (suc c.next_id) h.result) refl)
          h.result_decoded,
    )
