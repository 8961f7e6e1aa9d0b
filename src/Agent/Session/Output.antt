-- ===== src/Agent/Session/Output.antt =====
-- What a session writes to standard output.
use groovy_agent.Base.{
  member, ℕ, zero, suc, ◌≡◌, refl, Bytes, List, [], ◌∷◌, ◌++◌, Option, none, some, Bool-cases,
  Option-cases, same, Result, ok, err, inl, inr, ap, sym, ◌∙◌, leb, ◌+◌, ◌≢◌, arith,
}
use groovy_agent.Strings.{trim_space}
use groovy_agent.McpProto.{ToolDefinition}
use groovy_agent.Llm.{Message, Tool, ToolCall}
use groovy_agent.Agent.Context.{PruneError, prune_messages}
use groovy_agent.Agent.Profiles.{select_profile}
use groovy_agent.Agent.ToolCall.{Codec, Rejection, find}
use mathlib.Core.List.{append-nil}
use groovy_agent.Agent.Session.Permitted.{count_asked, count_asked-append}
use groovy_agent.Agent.Session.Replies.{
  HasReply, IsFinal, OnlyCalls, IsMidway, next-IsMidway, limit-IsFinal, repeated-IsFinal,
}
use groovy_agent.Agent.Session.{
  asked, called, Outcome, answered, failed, cancelled, Services, Session, World, LoopError, Act,
  emit, finish_call, send_call, answer_call, run_tool_call, run_calls, ask, use_reply, run_round,
  run_rounds, after_turn, continue, loop, loop_over, per_turn_limit, duplicate_key, Turn, stopped,
  next_round, max_model_rounds, first_messages, expose_profile, Event, print,
}

abbrev PrintsLine : Services → Session → ℕ → World → World → Type 0
PrintsLine V S total w w' =
    (line : Bytes) × (w'.out ≡ w.out ++ line ∷ []) × IsFinal V S total w'.history line

abbrev PrintsNothing : World → World → Type 0
PrintsNothing w w' = w'.out ≡ w.out

-- The model has been asked `asks` times, and its last reply asks for tools.
abbrev IsAsked : Services → ℕ → List Event → Type 0
IsAsked V asks history =
    (count_asked history ≡ asks)
    × ((reply : Message) × HasReply V history reply × (reply.tool_calls ≢ []))

abbrev TurnPrints : Services → Session → ℕ → ℕ → World → Result LoopError Turn × World → Type 0
TurnPrints V S total asks w (ok stopped, w') = PrintsLine V S total w w'
TurnPrints V S total asks w (ok (next_round _), w') = PrintsNothing w w' × IsAsked V asks w'.history
TurnPrints V S total asks w (err _, w') = PrintsNothing w w'

-- One line, which is the one for the model's last reply, if it succeeds, and nothing if it fails.
abbrev pub RunPrints : Services → Session → ℕ → World → Result LoopError (Unit {0}) × World → Type 0
RunPrints V S total w (ok _, w') = PrintsLine V S total w w'
RunPrints V S total w (err _, w') = PrintsNothing w w'

-- What holds of a result and of the world that it leaves, if there is no error.
abbrev Holds : {A : Type 0} → (A → World → Type 0) → Result LoopError A × World → Type 0
Holds P (ok a, w) = P a w
Holds P (err _, w) = Unit

module _ (V : Services) (S : Session) (total : ℕ) where
  TurnPrints-from :
      (asks : ℕ) (w w' : World) (r : Result LoopError Turn × World)
      → w'.out ≡ w.out
      → TurnPrints V S total asks w' r
      → TurnPrints V S total asks w r
  TurnPrints-from asks w w' (ok stopped, w'') e (line, p, f) =
      (line, p ∙ ap (λ o. o ++ line ∷ []) e, f)
  TurnPrints-from asks w w' (ok (next_round _), w'') e (p, a) = (p ∙ e, a)
  TurnPrints-from asks w w' (err _, w'') e p = p ∙ e

  RunPrints-from :
      (w w' : World) (r : Result LoopError (Unit {0}) × World)
      → w'.out ≡ w.out
      → RunPrints V S total w' r
      → RunPrints V S total w r
  RunPrints-from w w' (ok _, w'') e (line, p, f) = (line, p ∙ ap (λ o. o ++ line ∷ []) e, f)
  RunPrints-from w w' (err _, w'') e p = p ∙ e

  TurnPrints-continue :
      {A : Type 0} (asks : ℕ) (P : A → World → Type 0) (w : World) (r : Result LoopError A × World)
      (next : A → Act Turn)
      → r.1.out ≡ w.out
      → Holds P r
      → ((a : A) (w' : World) → P a w' → TurnPrints V S total asks w' (next a w'))
      → TurnPrints V S total asks w (continue r next)
  unfolding continue
  TurnPrints-continue asks P w (ok a, w') next e p rest =
      TurnPrints-from asks w w' (next a w') e (rest a w' p)
  TurnPrints-continue asks P w (err f, w') next e p rest = e

module _ (V : Services) (C : Codec) (S : Session) (exposed : List (Bytes × ToolDefinition))
    (total : ℕ) where
  send_call-OnlyCalls :
      (id : Bytes) (tool : ToolDefinition) (raw : Bytes) (client : Option ℕ) (w : World)
      → OnlyCalls w (send_call V C S id tool raw client w).1
  unfolding send_call
  send_call-OnlyCalls id tool raw none w = (refl, [], sym (append-nil w.history), refl)
  send_call-OnlyCalls id tool raw (some client) w =
      finish (V.call_tool (emit (called client tool.name raw) w).history)
    where
      one : OnlyCalls w (emit (called client tool.name raw) w)
      one = unfold emit in (refl, called client tool.name raw ∷ [], refl, refl)

      finish :
          (o : Outcome)
          → OnlyCalls w (finish_call V C S id tool o (emit (called client tool.name raw) w)).1
      finish (answered r) = one
      finish failed = one
      finish cancelled = one

  answer_call-OnlyCalls :
      (id : Bytes) (call : ToolCall) (r : Result Rejection (Bytes × ToolDefinition)) (w : World)
      → OnlyCalls w (answer_call V C S id call r w).1
  unfolding answer_call
  answer_call-OnlyCalls id call (err e) w = (refl, [], sym (append-nil w.history), refl)
  answer_call-OnlyCalls id call (ok (raw, tool)) w =
      send_call-OnlyCalls id tool raw (find S.clients tool.name)
        (record w { tool_calls = suc w.tool_calls })

  run_tool_call-OnlyCalls :
      (call : ToolCall) (round index : ℕ) (w : World)
      → OnlyCalls w (run_tool_call V C S exposed call round index w).1
  unfolding run_tool_call
  run_tool_call-OnlyCalls call round index w = elim (Bool-cases (same (trim_space call.id) [])) [
    | inl e ↦ rw e (refl, [], sym (append-nil w.history), refl)
    | inr e ↦ rw e (answer_call-OnlyCalls (trim_space call.id) call _ w)
  ]

  Holds-any :
      {A : Type 0} (P : World → Type 0) (r : Result LoopError A × World)
      → P r.1
      → Holds (λ a w. P w) r
  Holds-any P (ok a, w) p = p
  Holds-any P (err f, w) p = tt

  run_calls-TurnPrints :
      (asks : ℕ) (reply : Message) (past calls : List ToolCall) (round index : ℕ)
      (seen : List Bytes) (messages : List Message) (w : World)
      → IsMidway V reply past calls index seen asks w
      → TurnPrints V S total asks w (run_calls V C S exposed calls round index seen messages w)
  unfolding run_calls print
  run_calls-TurnPrints asks reply past [] round index seen messages w m =
      (refl, (m.count, (reply, m.has_reply, m.wanted)))
  run_calls-TurnPrints asks reply past (call ∷ calls) round index seen messages w m =
      elim (Bool-cases (leb (per_turn_limit S.per_turn) index)) [
        | inl over ↦
            rw (over, run_calls) (_, refl, limit-IsFinal V S total call m (ground (arith, over)))
        | inr within ↦ elim (Bool-cases (member seen (duplicate_key call))) [
          | inl again ↦
              rw (within, again, run_calls) (_, refl, repeated-IsFinal V S total call m again)
          | inr new ↦
              let step = run_tool_call V C S exposed call round index w in
              let only = run_tool_call-OnlyCalls call round index w in
              let after : World → Type 0 =
                IsMidway V reply (past ++ call ∷ []) calls (suc index) (duplicate_key call ∷ seen)
                  asks in
              rw (within, new, run_calls)
                (TurnPrints-continue V S total asks (λ message w'. after w') w step _ only.0
                  (Holds-any after step (next-IsMidway call m only))
                  (λ message w' p.
                    run_calls-TurnPrints asks reply (past ++ call ∷ []) calls round (suc index)
                      (duplicate_key call ∷ seen) (messages ++ message ∷ []) w' p))
        ]
      ]

  ask-out :
      (tools : List Tool) (r : Result PruneError (List Message)) (w : World)
      → (ask V C S exposed tools r w).1.out ≡ w.out
  unfolding ask
  ask-out tools (err e) w = refl
  ask-out tools (ok pruned) w =
      elim (Option-cases (V.complete (emit (asked pruned tools) w).history)) [
        | inl e ↦ rw (e, ask)
        | inr (reply, e) ↦ rw (e, ask)
      ]

  -- The model has been asked once more, and the reply is its last.
  abbrev Answered : ℕ → Message → World → Type 0
  Answered asks reply w = HasReply V w.history reply × (count_asked w.history ≡ asks)

  ask-Answered :
      (asks : ℕ) (tools : List Tool) (r : Result PruneError (List Message)) (w : World)
      → suc (count_asked w.history) ≡ asks
      → Holds (Answered asks) (ask V C S exposed tools r w)
  unfolding ask
  ask-Answered asks tools (err e) w h = tt
  ask-Answered asks tools (ok pruned) w h =
      elim (Option-cases (V.complete (emit (asked pruned tools) w).history)) [
        | inl e ↦ rw (e, ask) tt
        | inr (reply, e) ↦ rw (e, ask) (got reply e)
      ]
    where
      got :
          (reply : Message)
          → V.complete (emit (asked pruned tools) w).history ≡ some reply
          → Answered asks reply (emit (asked pruned tools) w)
      got reply e =
          unfold emit in
          (
            record {
              before = w.history;
              after = [];
              pruned = pruned;
              tools = tools;
              splits = refl;
              is_last = refl;
              replied = e;
            },
            omega (arith, h, count_asked-append w.history (asked pruned tools ∷ [])),
          )

  use_reply-TurnPrints :
      (asks round : ℕ) (messages : List Message) (reply : Message) (calls : List ToolCall)
      (w : World)
      → reply.tool_calls ≡ calls
      → Answered asks reply w
      → TurnPrints V S total asks w (use_reply V C S exposed round messages reply w)
  unfolding use_reply print
  use_reply-TurnPrints asks round messages reply [] w e (has, count) =
      rw (e, use_reply) (_, refl, (reply, has, inl (e, refl)))
  use_reply-TurnPrints asks round messages reply (call ∷ calls) w e (has, count) =
      rw (e, use_reply)
        (run_calls-TurnPrints asks reply [] (call ∷ calls) round 0 [] (messages ++ reply ∷ []) w
          (record {
            has_reply = has;
            count = count;
            wanted = λ none. cc (e, none);
            splits = e;
            counted = refl;
            known = λ key h. h;
          }))

  -- What the loop knows with `left` rounds left: the last reply, if there are none.
  abbrev IsReady : ℕ → World → Type 0
  IsReady zero w = IsAsked V total w.history
  IsReady (suc left) w = count_asked w.history + suc left ≡ total

  IsAsked-IsReady :
      (left asks : ℕ) (w : World) → asks + left ≡ total → IsAsked V asks w.history → IsReady left w
  IsAsked-IsReady zero asks w h (count, reply) = (omega (arith, h, count), reply)
  IsAsked-IsReady (suc left) asks w h (count, reply) = omega (arith, h, count)

  run_rounds-RunPrints :
      (tools : List Tool) (left round : ℕ) (messages : List Message) (w : World)
      → IsReady left w
      → RunPrints V S total w (run_rounds V C S exposed tools left round messages w)
  unfolding run_rounds print
  run_rounds-RunPrints tools zero round messages w (count, (reply, has, wanted)) =
      (_, refl, (reply, has, inr (inr (inr (wanted, count, refl)))))
  run_rounds-RunPrints tools (suc left) round messages w ready =
      after (run_round V C S exposed tools round messages w) turn
        (run_rounds-RunPrints tools left (suc round))
    where
      asks : ℕ
      asks = suc (count_asked w.history)

      turn : TurnPrints V S total asks w (run_round V C S exposed tools round messages w)
      turn =
          TurnPrints-continue V S total asks (Answered asks) w
            (ask V C S exposed tools (prune_messages messages tools) w)
            (use_reply V C S exposed round messages)
            (ask-out tools (prune_messages messages tools) w)
            (ask-Answered asks tools (prune_messages messages tools) w refl)
            (λ reply w' a.
              use_reply-TurnPrints asks round messages reply reply.tool_calls w' refl a)

      after :
          (r : Result LoopError Turn × World)
          → TurnPrints V S total asks w r
          → ((ms : List Message) (w' : World)
              → IsReady left w'
              → RunPrints V S total w' (run_rounds V C S exposed tools left (suc round) ms w'))
          → RunPrints V S total w (
              continue r
                (after_turn V C S exposed (run_rounds V C S exposed tools left (suc round))))
      after (ok stopped, w') p rest = p
      after (ok (next_round ms), w') (p, a) rest =
          RunPrints-from V S total w w' (run_rounds V C S exposed tools left (suc round) ms w') p
            (rest ms w' (IsAsked-IsReady left asks w' (omega (arith, ready)) a))
      after (err e, w') p rest = p

-- A run prints exactly one line if it succeeds, and nothing if it ends with an error. The line is for
-- the reply that the model gave to the last request. If that reply asks for no tool, the line is its
-- text without the spaces around it. Else the line is one of three messages: that of the limit of
-- calls, where the reply has more calls than the per-turn limit; that of a repeated call, where one
-- of its calls has the name and arguments of an earlier one; or that of the limit of rounds, where
-- the run has asked the model three times.
pub loop-RunPrints :
    (V : Services) (C : Codec) (S : Session) (w : World)
    → RunPrints V S (count_asked w.history + max_model_rounds) w (loop V C S w)
unfolding loop loop_over
loop-RunPrints V C S w =
    go (expose_profile C S.discovered (select_profile V.unicode_lower S.prompt))
  where
    go :
        (e : List (Bytes × ToolDefinition) × List Tool)
        → RunPrints V S (count_asked w.history + max_model_rounds) w (loop_over V C S e w)
    go ([], tools) = refl
    go (e ∷ exposed, tools) =
        run_rounds-RunPrints V C S (e ∷ exposed) (count_asked w.history + max_model_rounds) tools
          max_model_rounds 1 (first_messages S.prompt) w refl
