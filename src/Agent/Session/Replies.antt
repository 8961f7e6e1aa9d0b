-- ===== src/Agent/Session/Replies.antt =====
-- The reply that a session deals with, and what it prints for it.
use groovy_agent.Base.{
  member, ℕ, suc, ◌<◌, ◌≤◌, ◌≡◌, ◌≢◌, ◌⊎◌, refl, ap, sym, ◌∙◌, Bool, true, false, Bytes, List, [],
  ◌∷◌, ◌++◌, map, ◌||◌, some, Bool-cases, inl, inr, same, length, length-append, arith,
}
use mathlib.Core.List.{append_assoc}
use groovy_agent.Strings.{trim_space}
use groovy_agent.Llm.{Message, Tool, ToolCall}
use groovy_agent.Agent.Session.{
  Event, asked, Services, Session, World, duplicate_key, per_turn_limit, tool_guard_limit_message,
  tool_guard_duplicate_message, round_limit_message,
}
use groovy_agent.Agent.Session.Permitted.{count_asked, count_asked-append}

-- The reply that the model gave to the last request in the history.
pub record HasReply (V : Services) (history : List Event) (reply : Message) : Type 0 where
  pub before : List Event
  pub after : List Event
  pub pruned : List Message
  pub tools : List Tool
  pub splits : history ≡ before ++ asked pruned tools ∷ after
  pub is_last : count_asked after ≡ 0
  pub replied : V.complete (before ++ asked pruned tools ∷ []) ≡ some reply

-- A call has the name and the arguments of one before it.
abbrev pub IsRepeated : List ToolCall → Type 0
IsRepeated calls =
    (before : List ToolCall) × (call : ToolCall) × (after : List ToolCall) × (calls
      ≡ before ++ call ∷ after)
    × (member (map duplicate_key before) (duplicate_key call) ≡ true)

-- The line that is printed for a reply: the answer, where it asks for no tool; else the message of a
-- guard that is met, or that of the limit of rounds, when there were `total` requests.
abbrev pub IsFor : Session → ℕ → List Event → Message → Bytes → Type 0
IsFor S total history reply line =
    ((reply.tool_calls ≡ []) × (line ≡ trim_space reply.content))
    ⊎ (((per_turn_limit S.per_turn < length reply.tool_calls) × (line ≡ tool_guard_limit_message))
        ⊎ ((IsRepeated reply.tool_calls × (line ≡ tool_guard_duplicate_message))
            ⊎ ((reply.tool_calls ≢ [])
                × (count_asked history ≡ total)
                × (line ≡ round_limit_message))))

abbrev pub IsFinal : Services → Session → ℕ → List Event → Bytes → Type 0
IsFinal V S total history line =
    (reply : Message) × HasReply V history reply × IsFor S total history reply line

-- From `w` to `w'` nothing is printed, and the model is not asked.
abbrev pub OnlyCalls : World → World → Type 0
OnlyCalls w w' =
    (w'.out ≡ w.out)
    × (events : List Event) × (w'.history ≡ w.history ++ events)
    × (count_asked events ≡ 0)

HasReply-append :
    (V : Services) (history events : List Event) (reply : Message)
    → HasReply V history reply
    → count_asked events ≡ 0
    → HasReply V (history ++ events) reply
HasReply-append V history events reply r h = record {
  before = r.before;
  after = r.after ++ events;
  pruned = r.pruned;
  tools = r.tools;
  splits =
      ap (λ l. l ++ events) r.splits
      ∙ append_assoc r.before (asked r.pruned r.tools ∷ r.after) events;
  is_last = omega (arith, r.is_last, h, count_asked-append r.after events);
  replied = r.replied;
}

member-last :
    (past : List ToolCall) (call : ToolCall) (key : Bytes)
    → member (map duplicate_key (past ++ call ∷ [])) key
      ≡ (member (map duplicate_key past) key || same (duplicate_key call) key)
unfolding member
member-last [] call key = elim (Bool-cases (same (duplicate_key call) key)) [
  | inl e ↦ rw e refl
  | inr e ↦ rw e refl
]
member-last (first ∷ past) call key = elim (Bool-cases (same (duplicate_key first) key)) [
  | inl e ↦ rw e refl
  | inr e ↦ rw e (member-last past call key)
]

-- Within a reply: `past` are the calls that were made, `calls` those that are left.
pub record IsMidway (V : Services) (reply : Message) (past calls : List ToolCall) (index : ℕ)
    (seen : List Bytes) (asks : ℕ) (w : World) : Type 0 where
  pub has_reply : HasReply V w.history reply
  pub count : count_asked w.history ≡ asks
  pub wanted : reply.tool_calls ≢ []
  pub splits : reply.tool_calls ≡ past ++ calls
  pub counted : index ≡ length past
  pub known : (key : Bytes) → member seen key ≡ true → member (map duplicate_key past) key ≡ true

pub next-IsMidway :
    {V : Services} {reply : Message} {past calls : List ToolCall} {index : ℕ} {seen : List Bytes}
    {asks : ℕ} {w w' : World} (call : ToolCall)
    → IsMidway V reply past (call ∷ calls) index seen asks w
    → OnlyCalls w w'
    → IsMidway V reply (past ++ call ∷ []) calls (suc index) (duplicate_key call ∷ seen) asks w'
unfolding member
next-IsMidway {V} {reply} {past} {calls} {index} {seen} {asks} {w} {w'} call m
      (_, events, e, none) =
    record {
      has_reply = rw e (HasReply-append V w.history events reply m.has_reply none);
      count = rw e (omega (arith, count_asked-append w.history events, m.count, none));
      wanted = m.wanted;
      splits = m.splits ∙ sym (append_assoc past (call ∷ []) calls);
      counted = omega (arith, m.counted, length-append past (call ∷ []));
      known = λ key h.
          rw (member-last past call key) (elim (Bool-cases (same (duplicate_key call) key)) [
            | inl e ↦ rw e (or_true (member (map duplicate_key past) key))
            | inr e ↦ rw (m.known key (rw e at h))
          ]);
    }
  where
    or_true : (b : Bool) → (b || true) ≡ true
    or_true true = refl
    or_true false = refl

pub limit-IsFinal :
    (V : Services) (S : Session) (total : ℕ) {reply : Message} {past calls : List ToolCall}
    {index : ℕ} {seen : List Bytes} {asks : ℕ} {w : World} (call : ToolCall)
    → IsMidway V reply past (call ∷ calls) index seen asks w
    → per_turn_limit S.per_turn ≤ index
    → IsFinal V S total w.history tool_guard_limit_message
limit-IsFinal V S total {reply} {past} {calls} call m h = (
  reply,
  m.has_reply,
  inr (inl (rw m.splits (omega (arith, h, m.counted, length-append past (call ∷ calls))), refl)),
)

pub repeated-IsFinal :
    (V : Services) (S : Session) (total : ℕ) {reply : Message} {past calls : List ToolCall}
    {index : ℕ} {seen : List Bytes} {asks : ℕ} {w : World} (call : ToolCall)
    → IsMidway V reply past (call ∷ calls) index seen asks w
    → member seen (duplicate_key call) ≡ true
    → IsFinal V S total w.history tool_guard_duplicate_message
repeated-IsFinal V S total {reply} {past} {calls} call m h = (
  reply,
  m.has_reply,
  inr (inr (inl ((past, call, calls, m.splits, m.known (duplicate_key call) h), refl))),
)
