-- ===== src/Llm/Client/Replies.antt =====
-- When the model's server is reached, and what its replies give.
use groovy_agent.Base.{
  ◌≡◌, ◌↔◌, refl, sym, ℕ, ◌==◌, true, Bytes, List, [], ◌∷◌, ◌++◌, Option, none, some, codes, take,
  ok, Bool-cases, inl, inr, ok-injective,
}
use groovy_agent.Llm.{Message, Tool}
use groovy_agent.Llm.Client.{
  ChatResponse, Response, Http, Client, with_role, first_choice, choice_of, parsed, read_reply,
  reply_of, sent, chat_request, complete, max_payload_bytes,
}

module _ (H : Http) where
  -- The message is the first choice of a response with status 200 to the request.
  pub record Replied (url request : Bytes) (message : Message) : Type 0 where
    pub response : Response
    pub body : Bytes
    pub decoded : ChatResponse
    pub first : Message
    pub others : List Message
    pub accepted : H.accepts url ≡ true
    pub posted : H.post url request ≡ some response
    pub succeeds : (response.status == 200) ≡ true
    pub readable : response.body ≡ some body
    pub parses : H.decode_response (take max_payload_bytes body) ≡ some decoded
    pub no_error : decoded.error ≡ none
    pub has_choice : decoded.choices ≡ first ∷ others
    pub is_message : message ≡ with_role H first

  -- What a response with these messages and this error gives.
  record Chosen (error : Option Bytes) (choices : List Message) (message : Message) : Type 0 where
    first : Message
    others : List Message
    no_error : error ≡ none
    has_choice : choices ≡ first ∷ others
    is_message : message ≡ with_role H first

  choice_of-Chosen :
      (error : Option Bytes) (choices : List Message) (message : Message)
      → choice_of H error choices ≡ ok message
      → Chosen error choices message
  unfolding choice_of first_choice
  choice_of-Chosen (some e) choices message h = cc
  choice_of-Chosen none [] message h = cc
  choice_of-Chosen none (first ∷ others) message h = record {
    first = first;
    others = others;
    no_error = refl;
    has_choice = refl;
    is_message = sym (ok-injective h);
  }

  record Parsed (r : Option ChatResponse) (message : Message) : Type 0 where
    decoded : ChatResponse
    parses : r ≡ some decoded
    chosen : Chosen decoded.error decoded.choices message

  parsed-Parsed :
      (r : Option ChatResponse) (message : Message) → parsed H r ≡ ok message → Parsed r message
  unfolding parsed
  parsed-Parsed none message h = cc
  parsed-Parsed (some decoded) message h = record {
    decoded = decoded;
    parses = refl;
    chosen = choice_of-Chosen decoded.error decoded.choices message h;
  }

  record Read (status : ℕ) (content : Option Bytes) (message : Message) : Type 0 where
    body : Bytes
    succeeds : (status == 200) ≡ true
    readable : content ≡ some body
    parsed_body : Parsed (H.decode_response (take max_payload_bytes body)) message

  read_reply-Read :
      (status : ℕ) (content : Option Bytes) (message : Message)
      → read_reply H status content ≡ ok message
      → Read status content message
  unfolding read_reply
  read_reply-Read status none message h = cc
  read_reply-Read status (some body) message h = elim (Bool-cases (status == 200)) [
    | inl e ↦ record {
      body = body;
      succeeds = e;
      readable = refl;
      parsed_body = parsed-Parsed _ message (rw e at h);
    }
    | inr e ↦ cc (rw e at h)
  ]

  replied :
      (url request : Bytes) (response : Response) (message : Message)
      → H.accepts url ≡ true
      → H.post url request ≡ some response
      → Read response.status response.body message
      → Replied url request message
  replied url request response message a p r = record {
    response = response;
    body = r.body;
    decoded = r.parsed_body.decoded;
    first = r.parsed_body.chosen.first;
    others = r.parsed_body.chosen.others;
    accepted = a;
    posted = p;
    succeeds = r.succeeds;
    readable = r.readable;
    parses = r.parsed_body.parses;
    no_error = r.parsed_body.chosen.no_error;
    has_choice = r.parsed_body.chosen.has_choice;
    is_message = r.parsed_body.chosen.is_message;
  }

  reply_of-Replied :
      (url request : Bytes) (message : Message) (r : Option Response)
      → H.accepts url ≡ true
      → H.post url request ≡ r
      → reply_of H r ≡ ok message
      → Replied url request message
  unfolding reply_of
  reply_of-Replied url request message none a p h = cc
  reply_of-Replied url request message (some response) a p h =
      replied url request response message a p
        (read_reply-Read response.status response.body message h)

  sent-Replied :
      (url request : Bytes) (message : Message)
      → sent H url (some request) ≡ ok message
      → Replied url request message
  unfolding sent
  sent-Replied url request message h = elim (Bool-cases (H.accepts url)) [
    | inl e ↦ reply_of-Replied url request message _ e refl (rw e at h)
    | inr e ↦ cc (rw e at h)
  ]

  Replied-sent :
      (url request : Bytes) (message : Message)
      → Replied url request message
      → sent H url (some request) ≡ ok message
  unfolding sent reply_of read_reply parsed choice_of first_choice
  Replied-sent url request message r =
      rw
        (
          r.accepted, r.posted, r.readable, r.succeeds, r.parses, r.no_error, r.has_choice,
          r.is_message,
        )
        refl

-- For a request that can be encoded, `Complete` returns a message just where the server takes the
-- request and answers with status 200 and a body whose first MiB decodes to a response without an
-- error and with a choice; the message is the first choice, with the role of the assistant where it
-- has none.
pub complete-Replied :
    (H : Http) (c : Client) (messages : List Message) (tools : List Tool) (request : Bytes)
    (message : Message)
    → H.encode_request (chat_request H c messages tools) ≡ some request
    → (complete H c messages tools ≡ ok message)
      ↔ Replied H (c.base_url ++ codes "/v1/chat/completions") request message
unfolding complete
complete-Replied H c messages tools request message e =
    rw e (sent-Replied H _ request message, Replied-sent H _ request message)
