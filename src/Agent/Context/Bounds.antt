-- ===== src/Agent/Context/Bounds.antt =====
-- The budget of `pruneMessages`: when it succeeds, and how large its result is.
use groovy_agent.Base.{
  ℕ, zero, suc, ◌+◌, ◌-◌, ◌≤◌, ◌<◌, ◌≡◌, inl, inr, List, [], ◌∷◌, map, Option, none, some, length,
  Bool-cases, leb, leb→le, leb_false→lt, Result, ok, err, arith,
}
use groovy_agent.Llm.{Message, Tool}
use groovy_agent.Agent.Context.{
  context_tokens, reserved_tokens, does_not_fit, clamp_message, last_user, skip_tools,
  drop_oldest_exchange, messages_tokens, fixed_tokens, tools_tokens, fit, prune_messages,
  PruneError, prune_around,
}

abbrev pub available_tokens : ℕ
available_tokens = context_tokens - reserved_tokens

length-skip_tools : (tail : List Message) → length (skip_tools tail) ≤ length tail
unfolding skip_tools
length-skip_tools [] = omega arith
length-skip_tools (m ∷ tail) = ground (arith, length-skip_tools tail)

fit-le :
    (fuel budget : ℕ) (tail kept : List Message)
    → fit fuel budget tail ≡ ok kept
    → messages_tokens kept ≤ budget
unfolding fit
fit-le zero budget tail kept h = cc
fit-le (suc fuel) budget [] kept h = ground arith
fit-le (suc fuel) budget (m ∷ tail) kept h =
    ground (arith, fit-le fuel budget (drop_oldest_exchange (m ∷ tail)) kept)

-- With a unit of fuel for each message the loop returns: on an empty tail nothing is left to pay.
fit_total :
    (fuel budget : ℕ) (tail : List Message)
    → length tail < fuel
    → (kept : List Message) × (fit fuel budget tail ≡ ok kept)
unfolding fit messages_tokens drop_oldest_exchange
fit_total zero budget tail h = absurd (omega arith)
fit_total (suc fuel) budget [] h = ([], ground arith)
fit_total (suc fuel) budget (m ∷ tail) h =
    elim (Bool-cases (leb (messages_tokens (m ∷ tail)) budget)) [
      | inl fits ↦ (m ∷ tail, rw fits)
      | inr over ↦
          let (kept, e) =
            fit_total fuel budget (skip_tools tail) (omega (arith, length-skip_tools tail)) in
          (kept, rw over e)
    ]

-- The two ways in which `pruneMessages` ends once the user's request is found.
pub data Pruning (tools : List Tool) (system user : Message) (after : List Message)
    : Result PruneError (List Message) → Type 0 where
  refused :
      available_tokens ≤ fixed_tokens tools system user
      → Pruning tools system user after (err does_not_fit)
  kept :
      (tail : List Message)
      → fixed_tokens tools system user < available_tokens
      → fit
          (suc (length (map clamp_message after)))
          (available_tokens - fixed_tokens tools system user)
          (map clamp_message after)
        ≡ ok tail
      → Pruning tools system user after (ok (system ∷ user ∷ tail))

pub prune_around-Pruning :
    (tools : List Tool) (system user : Message) (after : List Message)
    → Pruning tools system user after (prune_around tools system (some (user, after)))
unfolding prune_around
prune_around-Pruning tools system user after =
    elim (Bool-cases (leb available_tokens (fixed_tokens tools system user))) [
      | inl over ↦ rw over (refused (leb→le _ _ over))
      | inr room ↦
          let tail = map clamp_message after in
          let budget = available_tokens - fixed_tokens tools system user in
          let (left, e) = fit_total (suc (length tail)) budget tail (omega arith) in
          rw (room, e) (kept left (leb_false→lt _ _ room) e)
    ]

Pruning-fits :
    {tools : List Tool} {system user : Message} {after : List Message}
    {r : Result PruneError (List Message)} (pruned : List Message)
    → Pruning tools system user after r
    → r ≡ ok pruned
    → tools_tokens tools + messages_tokens pruned ≤ available_tokens
unfolding messages_tokens fixed_tokens
Pruning-fits pruned (refused h) e = cc
Pruning-fits {after = after} pruned (kept tail room f) e =
    ground (arith, fit-le _ _ (map clamp_message after) tail f)

prune_around-fits :
    (pruned : List Message) (tools : List Tool) (system : Message)
    (found : Option (Message × List Message))
    → prune_around tools system found ≡ ok pruned
    → tools_tokens tools + messages_tokens pruned ≤ available_tokens
unfolding prune_around
prune_around-fits pruned tools system none h = cc
prune_around-fits pruned tools system (some (user, after)) h =
    Pruning-fits pruned (prune_around-Pruning tools system user after) h

-- Whatever `pruneMessages` returns fits, with the tool definitions, into the context less the
-- tokens kept for the reply.
pub prune_messages-fits :
    (messages pruned : List Message) (tools : List Tool)
    → prune_messages messages tools ≡ ok pruned
    → tools_tokens tools + messages_tokens pruned ≤ available_tokens
unfolding prune_messages
prune_messages-fits [] pruned tools h = cc
prune_messages-fits (system ∷ rest) pruned tools h =
    prune_around-fits pruned tools system (last_user (system ∷ rest)) h
