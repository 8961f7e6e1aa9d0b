-- ===== src/Agent/Session/Permitted.antt =====
-- What a session does to the outside, whatever the model and the servers answer.
use groovy_agent.Base.{
  member, ℕ, zero, suc, ◌+◌, ◌≤◌, ◌<◌, ◌-◌, ◌*◌, ◌≡◌, refl, Bytes, List, [], ◌∷◌, ◌++◌, Option,
  none, some, All, All-append, Bool-cases, Option-cases, same, Result, ok, err, inl, inr, arith,
  sym, leb, leb_false→lt,
}
use mathlib.Core.Path.{subst}
use groovy_agent.Strings.{trim_space}
use groovy_agent.McpProto.{ToolDefinition}
use groovy_agent.Llm.{Message, Tool, ToolCall}
use groovy_agent.Agent.Context.{PruneError, prune_messages, tools_tokens, messages_tokens}
use groovy_agent.Agent.Context.Bounds.{available_tokens, prune_messages-fits}
use groovy_agent.Agent.Profiles.{select_profile}
use groovy_agent.Agent.ToolCall.{Codec, Rejection, find, validate_call, max_total_tool_calls}
use groovy_agent.Agent.ToolCall.Checks.{Accepted, validate_call-Accepted}
use groovy_agent.Agent.Session.Rounds.{IsPaced, run_rounds-IsPaced}
use groovy_agent.Agent.Session.{
  Event, asked, called, Outcome, answered, failed, cancelled, Services, Session, World, LoopError,
  Act, emit, print, finish_call, send_call, answer_call, run_tool_call, run_calls, ask, use_reply,
  run_round, run_rounds, after_turn, continue, loop, loop_over, per_turn_limit, max_model_rounds,
  first_messages, expose_profile, duplicate_key, Turn, stopped, next_round,
}

abbrev pub count_asked : List Event → ℕ
count_asked [] = 0
count_asked (asked _ _ ∷ rest) = suc (count_asked rest)
count_asked (called _ _ _ ∷ rest) = count_asked rest

abbrev pub count_called : List Event → ℕ
count_called [] = 0
count_called (asked _ _ ∷ rest) = count_called rest
count_called (called _ _ _ ∷ rest) = suc (count_called rest)

pub count_asked-append :
    (xs ys : List Event) → count_asked (xs ++ ys) ≡ count_asked xs + count_asked ys
count_asked-append [] ys = omega arith
count_asked-append (asked _ _ ∷ xs) ys = omega (arith, count_asked-append xs ys)
count_asked-append (called _ _ _ ∷ xs) ys = omega (arith, count_asked-append xs ys)

count_called-append :
    (xs ys : List Event) → count_called (xs ++ ys) ≡ count_called xs + count_called ys
count_called-append [] ys = omega arith
count_called-append (asked _ _ ∷ xs) ys = omega (arith, count_called-append xs ys)
count_called-append (called _ _ _ ∷ xs) ys = omega (arith, count_called-append xs ys)

-- A request to the model fits into its context. A call goes to the server that the tool came from,
-- for an exposed tool, with arguments that passed the checks.
abbrev pub IsPermitted :
    Codec → Session → List (Bytes × ToolDefinition) → List Tool → Event → Type 0
IsPermitted C S exposed tools (asked pruned offered) =
    (offered ≡ tools) × (tools_tokens tools + messages_tokens pruned ≤ available_tokens)
IsPermitted C S exposed tools (called client name raw) =
    (key : Bytes) × (tool : ToolDefinition) × (name ≡ tool.name)
    × Accepted C exposed key raw tool
    × (find S.clients name ≡ some client)

module _ (V : Services) (C : Codec) (S : Session) (exposed : List (Bytes × ToolDefinition))
    (tools : List Tool) where
  record IsBounded (w : World) : Type 0 where
    spent : count_called w.history ≤ w.tool_calls
    budget : w.tool_calls ≤ max_total_tool_calls
    permitted : All (IsPermitted C S exposed tools) w.history

  -- From `w` to `w'` at most `n` tools are called and the model is asked at most `k` times.
  record Advances (n k : ℕ) (w w' : World) : Type 0 where
    bounded : IsBounded w'
    calls : count_called w'.history ≤ count_called w.history + n
    asks : count_asked w'.history ≤ count_asked w.history + k

  Advances-none : {w : World} → IsBounded w → Advances 0 0 w w
  Advances-none b = record { bounded = b; calls = omega arith; asks = omega arith }

  Advances-trans :
      {n m k l : ℕ} {w w' w'' : World}
      → Advances n k w w'
      → Advances m l w' w''
      → Advances (n + m) (k + l) w w''
  Advances-trans a b = record {
    bounded = b.bounded;
    calls = omega (arith, a.calls, b.calls);
    asks = omega (arith, a.asks, b.asks);
  }

  emit_called :
      {w : World} (client : ℕ) (name raw : Bytes)
      → IsBounded w
      → count_called w.history < w.tool_calls
      → IsPermitted C S exposed tools (called client name raw)
      → IsBounded (emit (called client name raw) w)
  unfolding emit
  emit_called {w} client name raw b room p = record {
    spent = omega (arith, count_called-append w.history (called client name raw ∷ []));
    budget = b.budget;
    permitted = All-append _ w.history _ (p, tt) b.permitted;
  }

  emit_asked :
      {w : World} (pruned : List Message)
      → IsBounded w
      → IsPermitted C S exposed tools (asked pruned tools)
      → IsBounded (emit (asked pruned tools) w)
  unfolding emit
  emit_asked {w} pruned b p = record {
    spent = omega (arith, b.spent, count_called-append w.history (asked pruned tools ∷ []));
    budget = b.budget;
    permitted = All-append _ w.history _ (p, tt) b.permitted;
  }

  Advances-more :
      {n m k l : ℕ} {w w' : World} → n ≤ m → k ≤ l → Advances n k w w' → Advances m l w w'
  Advances-more h j a = record {
    bounded = a.bounded;
    calls = omega (arith, a.calls);
    asks = omega (arith, a.asks);
  }

  finish_call-world :
      (id : Bytes) (tool : ToolDefinition) (o : Outcome) (w : World)
      → (finish_call V C S id tool o w).1 ≡ w
  unfolding finish_call
  finish_call-world id tool (answered r) w = refl
  finish_call-world id tool failed w = refl
  finish_call-world id tool cancelled w = refl

  send_call-Advances :
      (id : Bytes) (tool : ToolDefinition) (raw key : Bytes) (client : Option ℕ) (w : World)
      → IsBounded w
      → count_called w.history < w.tool_calls
      → Accepted C exposed key raw tool
      → find S.clients tool.name ≡ client
      → Advances 1 0 w (send_call V C S id tool raw client w).1
  unfolding send_call
  send_call-Advances id tool raw key none w b room a e =
      Advances-more (omega arith) (omega arith) (Advances-none b)
  send_call-Advances id tool raw key (some client) w b room a e =
      let w' = emit (called client tool.name raw) w in
      subst (Advances 1 0 w) (sym (finish_call-world id tool (V.call_tool w'.history) w')) (
        unfold emit in
        record {
          bounded = emit_called client tool.name raw b room (key, tool, refl, a, e);
          calls = omega (arith, count_called-append w.history (called client tool.name raw ∷ []));
          asks = omega (arith, count_asked-append w.history (called client tool.name raw ∷ []));
        })

  answer_call-Advances :
      (id : Bytes) (call : ToolCall) (r : Result Rejection (Bytes × ToolDefinition)) (w : World)
      → IsBounded w
      → validate_call C exposed w.tool_calls call ≡ r
      → Advances 1 0 w (answer_call V C S id call r w).1
  unfolding answer_call
  answer_call-Advances id call (err e) w b h =
      Advances-more (omega arith) (omega arith) (Advances-none b)
  answer_call-Advances id call (ok (raw, tool)) w b h =
      let (left, accepted) = validate_call-Accepted C exposed w.tool_calls call raw tool h in
      let counted = record w { tool_calls = suc w.tool_calls } in
      let a =
        send_call-Advances id tool raw call.function.name (find S.clients tool.name) counted
          (record { spent = omega (arith, b.spent); budget = omega arith; permitted = b.permitted })
          (omega (arith, b.spent)) accepted refl in
      record { bounded = a.bounded; calls = a.calls; asks = a.asks }

  run_tool_call-Advances :
      (call : ToolCall) (round index : ℕ) (w : World)
      → IsBounded w
      → Advances 1 0 w (run_tool_call V C S exposed call round index w).1
  unfolding run_tool_call
  run_tool_call-Advances call round index w b = elim (Bool-cases (same (trim_space call.id) [])) [
    | inl e ↦ rw e (Advances-more (omega arith) (omega arith) (Advances-none b))
    | inr e ↦ rw e (answer_call-Advances (trim_space call.id) call _ w b refl)
  ]

  Advances-print :
      {n k : ℕ} {w w' : World} (line : Bytes) → Advances n k w w' → Advances n k w (print line w')
  unfolding print
  Advances-print line a = record {
    bounded = record {
      spent = a.bounded.spent;
      budget = a.bounded.budget;
      permitted = a.bounded.permitted;
    };
    calls = a.calls;
    asks = a.asks;
  }

  Advances-continue :
      {A B : Type 0} {n m k l : ℕ} {w : World} (r : Result LoopError A × World) (next : A → Act B)
      → Advances n k w r.1
      → ((a : A) (w' : World) → IsBounded w' → Advances m l w' (next a w').1)
      → Advances (n + m) (k + l) w (continue r next).1
  unfolding continue
  Advances-continue (ok a, w') next first rest = Advances-trans first (rest a w' first.bounded)
  Advances-continue (err e, w') next first rest = Advances-more (omega arith) (omega arith) first

  -- A turn calls no more tools than are left under the limit.
  run_calls-Advances :
      (calls : List ToolCall) (round index : ℕ) (seen : List Bytes) (messages : List Message)
      (w : World)
      → IsBounded w
      → Advances
          (per_turn_limit S.per_turn - index)
          0
          w
          (run_calls V C S exposed calls round index seen messages w).1
  unfolding run_calls
  run_calls-Advances [] round index seen messages w b =
      Advances-more (omega arith) (omega arith) (Advances-none b)
  run_calls-Advances (call ∷ calls) round index seen messages w b =
      elim (Bool-cases (leb (per_turn_limit S.per_turn) index)) [
        | inl over ↦
            rw over (Advances-print _ (Advances-more (omega arith) (omega arith) (Advances-none b)))
        | inr within ↦ elim (Bool-cases (member seen (duplicate_key call))) [
          | inl again ↦
              rw (within, again)
                (Advances-print _ (Advances-more (omega arith) (omega arith) (Advances-none b)))
          | inr new ↦
              rw (within, new)
                (Advances-more (omega (arith, leb_false→lt _ _ within)) (omega arith) (
                  Advances-continue (run_tool_call V C S exposed call round index w) _
                    (run_tool_call-Advances call round index w b)
                    (λ message w'.
                      run_calls-Advances calls round (suc index) (duplicate_key call ∷ seen)
                        (messages ++ message ∷ []) w')))
        ]
      ]

  ask-Advances :
      (messages : List Message) (r : Result PruneError (List Message)) (w : World)
      → IsBounded w
      → prune_messages messages tools ≡ r
      → Advances 0 1 w (ask V C S exposed tools r w).1
  unfolding ask
  ask-Advances messages (err e) w b h = Advances-more (omega arith) (omega arith) (Advances-none b)
  ask-Advances messages (ok pruned) w b h =
      elim (Option-cases (V.complete (emit (asked pruned tools) w).history)) [
        | inl e ↦ rw (e, ask) asked_once
        | inr (reply, e) ↦ rw (e, ask) asked_once
      ]
    where
      asked_once : Advances 0 1 w (emit (asked pruned tools) w)
      asked_once =
          unfold emit in
          record {
            bounded = emit_asked pruned b (refl, prune_messages-fits messages pruned tools h);
            calls = omega (arith, count_called-append w.history (asked pruned tools ∷ []));
            asks = omega (arith, count_asked-append w.history (asked pruned tools ∷ []));
          }

  use_reply-Advances :
      (round : ℕ) (messages : List Message) (reply : Message) (calls : List ToolCall) (w : World)
      → reply.tool_calls ≡ calls
      → IsBounded w
      → Advances (per_turn_limit S.per_turn) 0 w (use_reply V C S exposed round messages reply w).1
  unfolding use_reply
  use_reply-Advances round messages reply [] w e b =
      rw (e, use_reply)
        (Advances-print _ (Advances-more (omega arith) (omega arith) (Advances-none b)))
  use_reply-Advances round messages reply (call ∷ calls) w e b =
      rw (e, use_reply)
        (Advances-more (omega arith) (omega arith)
          (run_calls-Advances (call ∷ calls) round 0 [] (messages ++ reply ∷ []) w b))

  run_round-Advances :
      (round : ℕ) (messages : List Message) (w : World)
      → IsBounded w
      → Advances (per_turn_limit S.per_turn) 1 w (run_round V C S exposed tools round messages w).1
  unfolding run_round
  run_round-Advances round messages w b = Advances-more (omega arith) (omega arith) (
      Advances-continue (ask V C S exposed tools (prune_messages messages tools) w)
        (use_reply V C S exposed round messages)
        (ask-Advances messages (prune_messages messages tools) w b refl)
        (λ reply w' b'. use_reply-Advances round messages reply reply.tool_calls w' refl b'))

  after_turn-Advances :
      {n k : ℕ} (next : List Message → Act (Unit {0}))
      → ((messages : List Message) (w : World) → IsBounded w → Advances n k w (next messages w).1)
      → (turn : Turn) (w : World) → IsBounded w
      → Advances n k w (after_turn V C S exposed next turn w).1
  unfolding after_turn
  after_turn-Advances next h stopped w b =
      Advances-more (omega arith) (omega arith) (Advances-none b)
  after_turn-Advances next h (next_round messages) w b = h messages w b

  run_rounds-Advances :
      (left round : ℕ) (messages : List Message) (w : World)
      → IsBounded w
      → Advances
          (left * per_turn_limit S.per_turn)
          left
          w
          (run_rounds V C S exposed tools left round messages w).1
  unfolding run_rounds
  run_rounds-Advances zero round messages w b =
      Advances-print _ (Advances-more (omega arith) (omega arith) (Advances-none b))
  run_rounds-Advances (suc left) round messages w b = Advances-more (grind arith) (omega arith) (
      Advances-continue (run_round V C S exposed tools round messages w) _
        (run_round-Advances round messages w b)
        (after_turn-Advances _ (run_rounds-Advances left (suc round))))

abbrev pub fresh : World
fresh = record { tool_calls = 0; out = []; history = [] }

-- What a whole run does to the outside.
pub record IsBoundedRun (C : Codec) (S : Session) (exposed : List (Bytes × ToolDefinition))
    (tools : List Tool) (w : World) : Type 0 where
  pub asks : count_asked w.history ≤ max_model_rounds
  pub calls : count_called w.history ≤ max_total_tool_calls
  pub calls_by_turns : count_called w.history ≤ max_model_rounds * per_turn_limit S.per_turn
  pub calls_by_round : IsPaced (per_turn_limit S.per_turn) 0 w.history
  pub permitted : All (IsPermitted C S exposed tools) w.history

loop_over-IsBoundedRun :
    (V : Services) (C : Codec) (S : Session) (e : List (Bytes × ToolDefinition) × List Tool)
    → IsBoundedRun C S e.0 e.1 (loop_over V C S e fresh).1
unfolding loop_over
loop_over-IsBoundedRun V C S ([], tools) = record {
  asks = omega arith;
  calls = omega arith;
  calls_by_turns = omega arith;
  calls_by_round = tt;
  permitted = tt;
}
loop_over-IsBoundedRun V C S (e ∷ exposed, tools) =
    let a =
      run_rounds-Advances V C S (e ∷ exposed) tools max_model_rounds 1 (first_messages S.prompt)
        fresh (record { spent = omega arith; budget = omega arith; permitted = tt }) in
    record {
      asks = omega (arith, a.asks);
      calls = omega (arith, a.bounded.spent, a.bounded.budget);
      calls_by_turns = omega (arith, a.calls);
      calls_by_round =
          run_rounds-IsPaced V C S (e ∷ exposed) tools max_model_rounds 1 (first_messages S.prompt)
            fresh refl;
      permitted = a.bounded.permitted;
    }

-- Whatever the model and the servers answer, a run from a fresh session asks the model three times
-- at most and calls five tools at most, and between one request and the next no more than the
-- per-turn limit. Every request fits, with the exposed tools, into the context less the tokens kept
-- for the reply. Every call is of an exposed tool, goes to the client bound to that name, and has
-- arguments that passed the schema of the tool, the limits on amounts and the check of the path,
-- which the tools basename and dirname are free of.
pub loop-IsBoundedRun :
    (V : Services) (C : Codec) (S : Session)
    → let (exposed, tools) =
        expose_profile C S.discovered (select_profile V.unicode_lower S.prompt) in
      IsBoundedRun C S exposed tools (loop V C S fresh).1
unfolding loop
loop-IsBoundedRun V C S =
    loop_over-IsBoundedRun V C S
      (expose_profile C S.discovered (select_profile V.unicode_lower S.prompt))
