-- ===== src/McpClient/Answers.antt =====
-- What a call of the client returns.
use groovy_agent.Base.{
  ◌≡◌, refl, ap, sym, suc, Bool, true, false, Bytes, List, [], ◌∷◌, ◌++◌, map, Option, none, some,
  All, Result, ok, err, Bool-cases, inl, inr, ok-injective,
}
use groovy_agent.McpProto.{RpcError, Message, Wire}
use groovy_agent.McpClient.{
  CallError, Event, cancelled, reader_failed, messages_closed, received, Client, is_other,
  encoded_id, answer_of, receive, read_result, decoded, write_line, write, request, awaiting,
  or_empty, call,
}

-- The message with this identifier stands in the events behind messages of others.
pub record Answered (id : Bytes) (events : List Event) (result : Bytes) (rest : List Event)
    : Type 0 where
  pub others : List Message
  pub answer : Message
  pub in_order : events ≡ map received others ++ (received answer ∷ rest)
  pub unrelated : All (λ m. is_other id m ≡ true) others
  pub own : is_other id answer ≡ false
  pub no_error : answer.error ≡ none
  pub same_result : answer.result ≡ result

answer_of-ok :
    (m : Message) (e : Option RpcError) (result : Bytes)
    → answer_of m e ≡ ok result
    → (e ≡ none) × (m.result ≡ result)
unfolding answer_of
answer_of-ok m none result h = (refl, ok-injective h)
answer_of-ok m (some e) result h = cc

skipped :
    (id : Bytes) (m : Message) (events : List Event) (result : Bytes) (rest : List Event)
    → is_other id m ≡ true
    → Answered id events result rest
    → Answered id (received m ∷ events) result rest
skipped id m events result rest other a = record {
  others = m ∷ a.others;
  answer = a.answer;
  in_order = ap (λ es. received m ∷ es) a.in_order;
  unrelated = (other, a.unrelated);
  own = a.own;
  no_error = a.no_error;
  same_result = a.same_result;
}

receive-Answered :
    (id : Bytes) (events : List Event) (result : Bytes)
    → (receive id events).0 ≡ ok result
    → Answered id events result (receive id events).1
unfolding receive
receive-Answered id [] result h = cc
receive-Answered id (cancelled ∷ events) result h = cc
receive-Answered id (reader_failed ∷ events) result h = cc
receive-Answered id (messages_closed ∷ events) result h = cc
receive-Answered id (received m ∷ events) result h = elim (Bool-cases (is_other id m)) [
  | inl e ↦ rw e (skipped id m events result _ e (receive-Answered id events result (rw e at h)))
  | inr e ↦ rw e (
      let (no_error, same_result) = answer_of-ok m m.error result (rw e at h) in
      record {
        others = [];
        answer = m;
        in_order = refl;
        unrelated = tt;
        own = e;
        no_error = no_error;
        same_result = same_result;
      })
]

-- A message behind messages of others is what a call returns.
pub receive-finds :
    (id : Bytes) (others : List Message) (answer : Message) (rest : List Event)
    → All (λ m. is_other id m ≡ true) others
    → is_other id answer ≡ false
    → receive id (map received others ++ (received answer ∷ rest))
      ≡ (answer_of answer answer.error, rest)
unfolding receive
receive-finds id [] answer rest all own = rw own refl
receive-finds id (m ∷ others) answer rest (other, all) own =
    rw other (receive-finds id others answer rest all own)

module _ (wire : Wire) (accepts : Bytes → Bool) {A : Type 0} (decode : Bytes → Option A)
    (method : Bytes) (params : Option Bytes) where
  -- A call that returned: its request is written, and its answer is the message with its identifier.
  pub record Returned (before : Client) (a : A) (after : Client) : Type 0 where
    pub text : Bytes
    pub result : Bytes
    pub encoded :
        wire.message.encode (request (encoded_id (suc before.next_id)) method (or_empty params))
        ≡ some text
    pub written : after.sent ≡ before.sent ++ ((text ++ (b'\n' ∷ [])) ∷ [])
    pub answered : Answered (encoded_id (suc before.next_id)) before.events result after.events
    pub read : decode result ≡ some a

  read_result-ok : (r : Option A) (a : A) → read_result r ≡ ok a → r ≡ some a
  unfolding read_result
  read_result-ok none a h = cc
  read_result-ok (some b) a h = ap some (ok-injective h)

  -- The text that an answer was decoded from.
  record Decoded (r : Result CallError Bytes) (a : A) : Type 0 where
    result : Bytes
    source : r ≡ ok result
    read : decode result ≡ some a

  decoded-ok : (r : Result CallError Bytes) (a : A) → decoded decode r ≡ ok a → Decoded r a
  unfolding decoded
  decoded-ok (err e) a h = cc
  decoded-ok (ok result) a h = record {
    result = result;
    source = refl;
    read = read_result-ok (decode result) a h;
  }

  written-Returned :
      (c : Client) (a : A) (r : Option Bytes)
      → wire.message.encode (request (encoded_id (suc c.next_id)) method (or_empty params)) ≡ r
      → let done =
          awaiting wire accepts decode
            (encoded_id (suc c.next_id))
            (write_line wire accepts r (record c { next_id = suc c.next_id })) in
        done.0 ≡ ok a → Returned c a done.1
  unfolding awaiting write_line
  written-Returned c a none e h = cc
  written-Returned c a (some text) e h = elim (Bool-cases (accepts (text ++ (b'\n' ∷ [])))) [
    | inl f ↦
        let d = decoded-ok (receive (encoded_id (suc c.next_id)) c.events).0 a (rw f at h) in
        rw f (record {
          text = text;
          result = d.result;
          encoded = e;
          written = refl;
          answered = receive-Answered (encoded_id (suc c.next_id)) c.events d.result d.source;
          read = d.read;
        })
    | inr f ↦ cc (rw f at h)
  ]

  -- Where a call returns a value, its request was encoded and written, as one line, and the value is
  -- decoded from the result of the first message that came with the call's identifier: those before
  -- it carry none or another's, it has no error, and the events behind it are left for later.
  pub call-Returned :
      (before after : Client) (a : A)
      → call wire accepts decode method params before ≡ (ok a, after)
      → Returned before a after
  unfolding call write
  call-Returned before after a h =
      rw (sym (ap (λ r. r.1) h)) (written-Returned before a _ refl (ap (λ r. r.0) h))
