-- ===== src/Agent/Context/Exchanges.antt =====
-- Which messages `pruneMessages` keeps: the request, and the newest exchanges after it.
use groovy_agent.Base.{
  ℕ, zero, suc, ◌-◌, ◌≤◌, ◌<◌, ◌≡◌, refl, ◌⊎◌, inl, inr, List, [], ◌∷◌, ◌++◌, map, none, some,
  codes, Bool-cases, true, false, leb, leb→le, leb_false→lt, Result, ok, err, All, ap, sym, ◌∙◌,
  ok-injective,
}
use mathlib.Core.Path.{subst}
use mathlib.Core.List.{append-nil, append_assoc}
use groovy_agent.Llm.{Message, Tool}
use groovy_agent.Agent.Context.{
  PruneError, does_not_fit, clamp_message, is_role, last_user, skip_tools, drop_oldest_exchange,
  messages_tokens, fixed_tokens, fit, prune_messages,
}
use groovy_agent.Agent.Context.Bounds.{
  available_tokens, Pruning, refused, kept, prune_around-Pruning,
}

abbrev IsTool : Message → Type 0
IsTool message = is_role (codes "tool") message ≡ true

-- No tool result stands at the front without the call that it answers.
abbrev StartsExchange : List Message → Type 0
StartsExchange [] = Unit
StartsExchange (message ∷ _) = is_role (codes "tool") message ≡ false

-- A message and the tool results that follow it.
pub record Skipped (rest : List Message) : Type 0 where
  pub tools : List Message
  pub splits : rest ≡ tools ++ skip_tools rest
  pub are_tools : All IsTool tools
  pub starts : StartsExchange (skip_tools rest)

skip_tools-Skipped : (rest : List Message) → Skipped rest
unfolding skip_tools
skip_tools-Skipped [] = record { tools = []; splits = refl; are_tools = tt; starts = tt }
skip_tools-Skipped (m ∷ rest) = elim (Bool-cases (is_role (codes "tool") m)) [
  | inl tool ↦
      let s = skip_tools-Skipped rest in
      record {
        tools = m ∷ s.tools;
        splits = rw tool (ap (◌∷◌ m) s.splits);
        are_tools = (tool, s.are_tools);
        starts = rw tool s.starts;
      }
  | inr other ↦ record { tools = []; splits = rw other; are_tools = tt; starts = rw other other }
]

-- What was dropped ends with an exchange that did not fit with the messages behind it.
pub data Needed (budget : ℕ) (kept : List Message) : List Message → Type 0 where
  nothing : Needed budget kept []
  exchange :
      (before : List Message) (message : Message) (tools : List Message)
      → All IsTool tools
      → budget < messages_tokens (message ∷ (tools ++ kept))
      → Needed budget kept (before ++ message ∷ tools)

pub record KeepsNewest (budget : ℕ) (tail kept : List Message) : Type 0 where
  pub dropped : List Message
  pub splits : tail ≡ dropped ++ kept
  pub fits : messages_tokens kept ≤ budget
  pub whole : (dropped ≡ []) ⊎ StartsExchange kept
  pub needed : Needed budget kept dropped

KeepsNewest-all :
    (budget : ℕ) (tail : List Message)
    → messages_tokens tail ≤ budget
    → KeepsNewest budget tail tail
KeepsNewest-all budget tail h = record {
  dropped = [];
  splits = refl;
  fits = h;
  whole = inl refl;
  needed = nothing;
}

Needed-cons :
    {budget : ℕ} {left dropped : List Message} (m : Message) (tools : List Message)
    → All IsTool tools
    → budget < messages_tokens (m ∷ (tools ++ (dropped ++ left)))
    → Needed budget left dropped
    → Needed budget left (m ∷ tools ++ dropped)
Needed-cons m tools all over nothing = rw append-nil (exchange [] m tools all over)
Needed-cons {budget} {left} m tools all over (exchange before n more are h) =
    rw (← append_assoc tools before (n ∷ more)) (exchange (m ∷ tools ++ before) n more are h)

KeepsNewest-cons :
    (budget : ℕ) (m : Message) (tail left : List Message)
    → budget < messages_tokens (m ∷ tail)
    → KeepsNewest budget (skip_tools tail) left
    → KeepsNewest budget (m ∷ tail) left
KeepsNewest-cons budget m tail left over k =
    let s = skip_tools-Skipped tail in
    let e : tail ≡ s.tools ++ (k.dropped ++ left) = s.splits ∙ ap (◌++◌ s.tools) k.splits in
    record {
      dropped = m ∷ s.tools ++ k.dropped;
      splits = ap (◌∷◌ m) (e ∙ sym (append_assoc s.tools k.dropped left));
      fits = k.fits;
      whole = inr (StartsExchange-left k.dropped k.splits k.whole s.starts);
      needed = Needed-cons m s.tools s.are_tools (rw e at over) k.needed;
    }
  where
    StartsExchange-left :
        (dropped : List Message)
        → skip_tools tail ≡ dropped ++ left
        → (dropped ≡ []) ⊎ StartsExchange left
        → StartsExchange (skip_tools tail)
        → StartsExchange left
    StartsExchange-left dropped e (inl none_dropped) starts =
        subst StartsExchange (e ∙ ap (λ d. d ++ left) none_dropped) starts
    StartsExchange-left dropped e (inr whole) starts = whole

fit-KeepsNewest :
    (fuel budget : ℕ) (tail left : List Message)
    → fit fuel budget tail ≡ ok left
    → KeepsNewest budget tail left
unfolding fit drop_oldest_exchange
fit-KeepsNewest zero budget tail left h = cc
fit-KeepsNewest (suc fuel) budget [] left h = elim (Bool-cases (leb (messages_tokens []) budget)) [
  | inl fits ↦
      subst (KeepsNewest budget []) (ok-injective (rw fits at h))
        (KeepsNewest-all budget [] (leb→le _ _ fits))
  | inr over ↦ cc (h, over)
]
fit-KeepsNewest (suc fuel) budget (m ∷ tail) left h =
    elim (Bool-cases (leb (messages_tokens (m ∷ tail)) budget)) [
      | inl fits ↦
          subst (KeepsNewest budget (m ∷ tail)) (ok-injective (rw fits at h))
            (KeepsNewest-all budget (m ∷ tail) (leb→le _ _ fits))
      | inr over ↦
          KeepsNewest-cons budget m tail left (leb_false→lt _ _ over)
            (fit-KeepsNewest fuel budget (skip_tools tail) left (rw over at h))
    ]

-- The last user message stands where `last_user` says, and none stands after it.
pub record IsLastUser (messages : List Message) (user : Message) (after : List Message)
    : Type 0 where
  pub before : List Message
  pub splits : messages ≡ before ++ user ∷ after
  pub is_user : is_role (codes "user") user ≡ true
  pub latest : All (λ m. is_role (codes "user") m ≡ false) after

last_user-eq-none :
    (messages : List Message)
    → All (λ m. is_role (codes "user") m ≡ false) messages
    → last_user messages ≡ none
unfolding last_user
last_user-eq-none [] l = refl
last_user-eq-none (m ∷ rest) (e, l) = rw (last_user-eq-none rest l, e)

last_user-append :
    (before : List Message) (user : Message) (after : List Message)
    → is_role (codes "user") user ≡ true
    → All (λ m. is_role (codes "user") m ≡ false) after
    → last_user (before ++ user ∷ after) ≡ some (user, after)
unfolding last_user
last_user-append [] user after e l = rw (last_user-eq-none after l, e)
last_user-append (m ∷ before) user after e l = rw (last_user-append before user after e l)

last_user_unique :
    (messages : List Message) (user : Message) (after : List Message)
    → IsLastUser messages user after
    → last_user messages ≡ some (user, after)
last_user_unique messages user after l =
    rw l.splits (last_user-append l.before user after l.is_user l.latest)

-- What `pruneMessages` returns on a conversation whose last user message is `user`.
pub data Pruned (tools : List Tool) (system user : Message) (after : List Message)
    : Result PruneError (List Message) → Type 0 where
  too_large :
      available_tokens ≤ fixed_tokens tools system user
      → Pruned tools system user after (err does_not_fit)
  newest :
      (tail : List Message)
      → fixed_tokens tools system user < available_tokens
      → KeepsNewest
          (available_tokens - fixed_tokens tools system user)
          (map clamp_message after)
          tail
      → Pruned tools system user after (ok (system ∷ user ∷ tail))

Pruning-Pruned :
    {tools : List Tool} {system user : Message} {after : List Message}
    {r : Result PruneError (List Message)}
    → Pruning tools system user after r
    → Pruned tools system user after r
Pruning-Pruned (refused h) = too_large h
Pruning-Pruned (kept tail room e) = newest tail room (fit-KeepsNewest _ _ _ tail e)

-- For a conversation with a user message, `pruneMessages` never fails but when the system message,
-- the last user message and the tools leave no token of the budget. Otherwise it returns these two
-- messages and then a suffix of the later messages, tool results clamped. The suffix fits into the
-- rest of the budget, begins with no tool result unless nothing was dropped, and the last exchange
-- dropped would not have fitted with it.
pub prune_messages-Pruned :
    (system : Message) (rest : List Message) (tools : List Tool) (user : Message)
    (after : List Message)
    → IsLastUser (system ∷ rest) user after
    → Pruned tools system user after (prune_messages (system ∷ rest) tools)
unfolding prune_messages
prune_messages-Pruned system rest tools user after l =
    rw (last_user_unique (system ∷ rest) user after l)
      (Pruning-Pruned (prune_around-Pruning tools system user after))
