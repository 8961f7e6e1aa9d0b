-- ===== src/Agent/Session/Rounds.antt =====
-- The calls of one round of a session: those between two requests to the model.
use groovy_agent.Base.{
  member, ℕ, zero, suc, ◌≤◌, ◌<◌, ◌≡◌, refl, Bytes, List, [], ◌∷◌, ◌++◌, Option, none, some,
  Bool-cases, Option-cases, same, Result, ok, err, inl, inr, arith, leb, leb_false→lt,
}
use groovy_agent.Strings.{trim_space}
use groovy_agent.McpProto.{ToolDefinition}
use groovy_agent.Llm.{Message, Tool, ToolCall}
use groovy_agent.Agent.Context.{PruneError, prune_messages}
use groovy_agent.Agent.ToolCall.{Codec, Rejection, find}
use groovy_agent.Agent.Session.{
  Event, asked, called, Outcome, answered, failed, cancelled, Services, Session, World, LoopError,
  Act, emit, print, finish_call, send_call, answer_call, run_tool_call, run_calls, ask, use_reply,
  run_round, run_rounds, after_turn, continue, per_turn_limit, duplicate_key, Turn, stopped,
  next_round,
}

-- No more than `limit` calls follow one request: `n` is the number of calls since the last one.
abbrev pub IsPaced : ℕ → ℕ → List Event → Type 0
IsPaced limit n [] = Unit
IsPaced limit n (asked _ _ ∷ rest) = IsPaced limit 0 rest
IsPaced limit n (called _ _ _ ∷ rest) = (suc n ≤ limit) × IsPaced limit (suc n) rest

abbrev calls_since : ℕ → List Event → ℕ
calls_since n [] = n
calls_since n (asked _ _ ∷ rest) = calls_since 0 rest
calls_since n (called _ _ _ ∷ rest) = calls_since (suc n) rest

calls_since-append :
    (n : ℕ) (xs ys : List Event) → calls_since n (xs ++ ys) ≡ calls_since (calls_since n xs) ys
calls_since-append n [] ys = refl
calls_since-append n (asked _ _ ∷ xs) ys = calls_since-append 0 xs ys
calls_since-append n (called _ _ _ ∷ xs) ys = calls_since-append (suc n) xs ys

append-IsPaced :
    (limit n : ℕ) (xs ys : List Event)
    → IsPaced limit n xs
    → IsPaced limit (calls_since n xs) ys
    → IsPaced limit n (xs ++ ys)
append-IsPaced limit n [] ys p q = q
append-IsPaced limit n (asked _ _ ∷ xs) ys p q = append-IsPaced limit 0 xs ys p q
append-IsPaced limit n (called _ _ _ ∷ xs) ys p q = (p.0, append-IsPaced limit (suc n) xs ys p.1 q)

module _ (V : Services) (C : Codec) (S : Session) (exposed : List (Bytes × ToolDefinition))
    (limit : ℕ) where
  -- Every round so far is paced, and the last has `n` calls at most.
  record IsPacedAt (n : ℕ) (w : World) : Type 0 where
    paced : IsPaced limit 0 w.history
    recent : calls_since 0 w.history ≤ n

  IsPacedAt-more : {n m : ℕ} {w : World} → n ≤ m → IsPacedAt n w → IsPacedAt m w
  IsPacedAt-more h b = record { paced = b.paced; recent = omega (arith, b.recent) }

  IsPacedAt-print : {n : ℕ} {w : World} (line : Bytes) → IsPacedAt n w → IsPacedAt n (print line w)
  unfolding print
  IsPacedAt-print line b = record { paced = b.paced; recent = b.recent }

  emit_called-IsPacedAt :
      {n : ℕ} {w : World} (client : ℕ) (name raw : Bytes)
      → n < limit
      → IsPacedAt n w
      → IsPacedAt (suc n) (emit (called client name raw) w)
  unfolding emit
  emit_called-IsPacedAt {n} {w} client name raw h b = record {
    paced =
        append-IsPaced limit 0 w.history (called client name raw ∷ []) b.paced
          (omega (arith, b.recent), tt);
    recent = omega (arith, b.recent, calls_since-append 0 w.history (called client name raw ∷ []));
  }

  emit_asked-IsPacedAt :
      {n : ℕ} {w : World} (pruned : List Message) (tools : List Tool)
      → IsPacedAt n w
      → IsPacedAt 0 (emit (asked pruned tools) w)
  unfolding emit
  emit_asked-IsPacedAt {n} {w} pruned tools b = record {
    paced = append-IsPaced limit 0 w.history (asked pruned tools ∷ []) b.paced tt;
    recent = omega (arith, calls_since-append 0 w.history (asked pruned tools ∷ []));
  }

  send_call-IsPacedAt :
      {n : ℕ} {w : World} (id : Bytes) (tool : ToolDefinition) (raw : Bytes) (client : Option ℕ)
      → n < limit
      → IsPacedAt n w
      → IsPacedAt (suc n) (send_call V C S id tool raw client w).1
  unfolding send_call
  send_call-IsPacedAt id tool raw none h b = IsPacedAt-more (omega arith) b
  send_call-IsPacedAt {n} {w} id tool raw (some client) h b =
      go (V.call_tool (emit (called client tool.name raw) w).history)
    where
      go :
          (o : Outcome)
          → IsPacedAt (suc n) (finish_call V C S id tool o (emit (called client tool.name raw) w)).1
      go (answered r) = emit_called-IsPacedAt client tool.name raw h b
      go failed = emit_called-IsPacedAt client tool.name raw h b
      go cancelled = emit_called-IsPacedAt client tool.name raw h b

  answer_call-IsPacedAt :
      {n : ℕ} {w : World} (id : Bytes) (call : ToolCall)
      (r : Result Rejection (Bytes × ToolDefinition))
      → n < limit
      → IsPacedAt n w
      → IsPacedAt (suc n) (answer_call V C S id call r w).1
  unfolding answer_call
  answer_call-IsPacedAt id call (err e) h b = IsPacedAt-more (omega arith) b
  answer_call-IsPacedAt id call (ok (raw, tool)) h b =
      send_call-IsPacedAt id tool raw (find S.clients tool.name) h
        (record { paced = b.paced; recent = b.recent })

  run_tool_call-IsPacedAt :
      {n : ℕ} {w : World} (call : ToolCall) (round index : ℕ)
      → n < limit
      → IsPacedAt n w
      → IsPacedAt (suc n) (run_tool_call V C S exposed call round index w).1
  unfolding run_tool_call
  run_tool_call-IsPacedAt {n} {w} call round index h b =
      elim (Bool-cases (same (trim_space call.id) [])) [
        | inl e ↦ rw e (IsPacedAt-more (omega arith) b)
        | inr e ↦ rw e (answer_call-IsPacedAt (trim_space call.id) call _ h b)
      ]

  -- After a step: `n` calls at most if there is no error, and the limit at most if there is.
  abbrev Leaves : {A : Type 0} → ℕ → Result LoopError A × World → Type 0
  Leaves n (ok a, w) = IsPacedAt n w
  Leaves n (err e, w) = IsPacedAt limit w

  Leaves-any :
      {A : Type 0} {n : ℕ} (r : Result LoopError A × World)
      → n ≤ limit
      → IsPacedAt n r.1
      → Leaves n r
  Leaves-any (ok a, w) h b = b
  Leaves-any (err e, w) h b = IsPacedAt-more h b

  IsPacedAt-continue :
      {A B : Type 0} {n : ℕ} (r : Result LoopError A × World) (next : A → Act B)
      → Leaves n r
      → ((a : A) (w : World) → IsPacedAt n w → IsPacedAt limit (next a w).1)
      → IsPacedAt limit (continue r next).1
  unfolding continue
  IsPacedAt-continue (ok a, w) next b rest = rest a w b
  IsPacedAt-continue (err e, w) next b rest = b

  -- The calls of a reply, of which `index` have been run: no more than the limit.
  run_calls-IsPacedAt :
      (calls : List ToolCall) (round index : ℕ) (seen : List Bytes) (messages : List Message)
      (w : World)
      → limit ≡ per_turn_limit S.per_turn
      → index ≤ limit
      → IsPacedAt index w
      → IsPacedAt limit (run_calls V C S exposed calls round index seen messages w).1
  unfolding run_calls
  run_calls-IsPacedAt [] round index seen messages w l h b = IsPacedAt-more h b
  run_calls-IsPacedAt (call ∷ calls) round index seen messages w l h b =
      elim (Bool-cases (leb (per_turn_limit S.per_turn) index)) [
        | inl over ↦ rw over (IsPacedAt-print _ (IsPacedAt-more h b))
        | inr within ↦ elim (Bool-cases (member seen (duplicate_key call))) [
          | inl again ↦ rw (within, again) (IsPacedAt-print _ (IsPacedAt-more h b))
          | inr new ↦
              let room : index < limit = omega (arith, leb_false→lt _ _ within, l) in
              rw (within, new)
                (IsPacedAt-continue {n = suc index} (run_tool_call V C S exposed call round index w)
                  _
                  (Leaves-any (run_tool_call V C S exposed call round index w) (omega arith)
                    (run_tool_call-IsPacedAt call round index room b))
                  (λ message w'.
                    run_calls-IsPacedAt calls round (suc index) (duplicate_key call ∷ seen)
                      (messages ++ message ∷ []) w' l (omega arith)))
        ]
      ]

  ask-Leaves :
      (tools : List Tool) (r : Result PruneError (List Message)) (w : World)
      → IsPacedAt limit w
      → Leaves 0 (ask V C S exposed tools r w)
  unfolding ask
  ask-Leaves tools (err e) w b = b
  ask-Leaves tools (ok pruned) w b =
      elim (Option-cases (V.complete (emit (asked pruned tools) w).history)) [
        | inl e ↦ rw (e, ask) (IsPacedAt-more (omega arith) (emit_asked-IsPacedAt pruned tools b))
        | inr (reply, e) ↦ rw (e, ask) (emit_asked-IsPacedAt pruned tools b)
      ]

  use_reply-IsPacedAt :
      (round : ℕ) (messages : List Message) (reply : Message) (calls : List ToolCall) (w : World)
      → limit ≡ per_turn_limit S.per_turn
      → reply.tool_calls ≡ calls
      → IsPacedAt 0 w
      → IsPacedAt limit (use_reply V C S exposed round messages reply w).1
  unfolding use_reply
  use_reply-IsPacedAt round messages reply [] w l e b =
      rw (e, use_reply) (IsPacedAt-print _ (IsPacedAt-more (omega arith) b))
  use_reply-IsPacedAt round messages reply (call ∷ calls) w l e b =
      rw (e, use_reply)
        (run_calls-IsPacedAt (call ∷ calls) round 0 [] (messages ++ reply ∷ []) w l (omega arith) b)

  after_turn-IsPacedAt :
      (next : List Message → Act (Unit {0}))
      → ((messages : List Message) (w : World)
          → IsPacedAt limit w
          → IsPacedAt limit (next messages w).1)
      → (turn : Turn) (w : World) → IsPacedAt limit w
      → IsPacedAt limit (after_turn V C S exposed next turn w).1
  unfolding after_turn
  after_turn-IsPacedAt next h stopped w b = b
  after_turn-IsPacedAt next h (next_round messages) w b = h messages w b

  run_rounds-IsPacedAt :
      (tools : List Tool) (left round : ℕ) (messages : List Message) (w : World)
      → limit ≡ per_turn_limit S.per_turn
      → IsPacedAt limit w
      → IsPacedAt limit (run_rounds V C S exposed tools left round messages w).1
  unfolding run_rounds run_round
  run_rounds-IsPacedAt tools zero round messages w l b = IsPacedAt-print _ b
  run_rounds-IsPacedAt tools (suc left) round messages w l b =
      let answer = ask V C S exposed tools (prune_messages messages tools) w in
      let turn = continue answer (use_reply V C S exposed round messages) in
      IsPacedAt-continue turn _
        (Leaves-any turn (omega arith) (
          IsPacedAt-continue answer (use_reply V C S exposed round messages)
            (ask-Leaves tools (prune_messages messages tools) w b)
            (λ reply w'. use_reply-IsPacedAt round messages reply reply.tool_calls w' l refl)))
        (after_turn-IsPacedAt _ (λ ms w'. run_rounds-IsPacedAt tools left (suc round) ms w' l))

-- From an empty history, no more calls than the per-turn limit follow one request to the model.
pub run_rounds-IsPaced :
    (V : Services) (C : Codec) (S : Session) (exposed : List (Bytes × ToolDefinition))
    (tools : List Tool) (left round : ℕ) (messages : List Message) (w : World)
    → w.history ≡ []
    → IsPaced
        (per_turn_limit S.per_turn)
        0
        (run_rounds V C S exposed tools left round messages w).1.history
run_rounds-IsPaced V C S exposed tools left round messages w e =
    let limit = per_turn_limit S.per_turn in
    (run_rounds-IsPacedAt V C S exposed limit tools left round messages w refl
      (record { paced = rw e tt; recent = rw e (omega arith) })).paced
