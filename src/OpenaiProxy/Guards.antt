-- ===== src/OpenaiProxy/Guards.antt =====
-- internal/openaiproxy/proxy.go: the guards on the tool calls of a reply.
pub mod Kept
use groovy_agent.Base.{
  member, ℕ, Bool, true, false, not, ◌&&◌, ◌||◌, Bytes, List, [], ◌∷◌, ◌++◌, Option, none, some,
  same, codes, length, leb, if◌then◌else◌,
}
use groovy_agent.Strings.{trim_space, is_empty, decimal}
use groovy_agent.Json.{
  Value, null, bool, float, number, int, str, arr, obj, Items, nil, cons, Fields, end, field, get,
  as_object, as_array, as_text, text_or_empty, fields_or_empty,
}
use groovy_agent.OpenaiProxy.{set, delete, object_items}

-- The settings of `Proxy` for the guards.
pub record Settings : Type 0 where
  pub max_tool_calls_per_turn : ℕ
  pub disable_duplicate_tool_calls : Bool

-- `toolCallKey`
unfoldable pub tool_call_key : Fields → Bytes
tool_call_key call =
    let function = fields_or_empty (get call (codes "function")) in
    text_or_empty (get function (codes "name"))
    ++ (b'\n' ∷ trim_space (text_or_empty (get function (codes "arguments"))))

or_first : Option Bytes → Bytes → Option Bytes
or_first none reason = some reason
or_first (some first) reason = some first

module _ (s : Settings) where
  limit_reason : Bytes
  limit_reason =
      codes "partial completion: limited to "
      ++ (decimal s.max_tool_calls_per_turn ++ codes " tool calls per assistant turn")

  duplicate_reason : Bytes
  duplicate_reason =
      codes "partial completion: duplicate tool call detected in the same assistant turn"

  abbrev Filtered : Type 0
  Filtered = List Fields × Option Bytes

  -- The body of the loop of `applyToolCallGuards`, with what goes on behind it.
  keep_call :
      (List Bytes → List Fields → Option Bytes → Filtered)
      → Option Fields
      → List Bytes
      → List Fields
      → Option Bytes
      → Filtered
  unfolding limit_reason duplicate_reason member or_first
  keep_call next none seen kept reason = next seen kept reason
  keep_call next (some call) seen kept reason =
      let key = tool_call_key call in
      let now_seen = if s.disable_duplicate_tool_calls then key ∷ seen else seen in
      if leb s.max_tool_calls_per_turn (length kept)
      then (kept, some limit_reason)
      else if s.disable_duplicate_tool_calls && member seen key
      then next seen kept (or_first reason duplicate_reason)
      else next now_seen (kept ++ (call ∷ [])) reason

  -- The loop, with the keys seen, the calls kept and the reason so far.
  unfoldable pub filter_calls : Items → List Bytes → List Fields → Option Bytes → Filtered
  unfolding keep_call
  filter_calls nil seen kept reason = (kept, reason)
  filter_calls (cons raw rest) seen kept reason =
      keep_call (filter_calls rest) (as_object (some raw)) seen kept reason

  with_content : Bytes → Bytes → Bytes
  with_content content reason =
      let note = reason ++ codes ". Continuing with the remaining distinct tool calls." in
      if is_empty (trim_space content) then note else trim_space content ++ (codes "\n\n" ++ note)

  -- The message behind the guards, and the reason why the model finished.
  guarded_message : Fields → List Fields → Bytes → Fields × Bytes
  unfolding with_content object_items
  guarded_message message [] reason = (
    set (codes "content") (str (reason ++ codes ". Retry with a narrower request."))
        (delete (codes "tool_calls") message),
    codes "stop",
  )
  guarded_message message (call ∷ calls) reason = (
    set (codes "content")
        (str (with_content (text_or_empty (get message (codes "content"))) reason))
        (set (codes "tool_calls") (arr (object_items (call ∷ calls))) message),
    codes "tool_calls",
  )

  guarded_choice : Fields → Fields × Bytes → Fields
  guarded_choice choice (message, finish) =
      set (codes "finish_reason") (str finish) (set (codes "message") (obj message) choice)

  guard_calls : Fields → Fields → List Fields × Option Bytes → Option Fields
  unfolding guarded_message guarded_choice
  guard_calls choice message (kept, none) = none
  guard_calls choice message (kept, some reason) =
      some (guarded_choice choice (guarded_message message kept reason))

  guard_message : Fields → Option Fields → Option Fields
  unfolding guard_calls
  guard_message choice none = none
  guard_message choice (some message) = elim (as_array (get message (codes "tool_calls"))) [
    | none ↦ none
    | some nil ↦ none
    | some (cons call calls) ↦
        guard_calls choice message (filter_calls (cons call calls) [] [] none)
  ]

  with_choice : Fields → Items → Option Fields → Option Fields
  with_choice payload rest none = none
  with_choice payload rest (some choice) =
      some (set (codes "choices") (arr (cons (obj choice) rest)) payload)

  -- The payload behind the guards, if they changed it.
  guard_choices : Fields → Option Items → Option Fields
  unfolding guard_message with_choice
  guard_choices payload none = none
  guard_choices payload (some nil) = none
  guard_choices payload (some (cons (obj choice) rest)) =
      with_choice payload rest (guard_message choice (as_object (get choice (codes "message"))))
  guard_choices payload (some (cons _ rest)) = none

  guard_payload : Option Fields → Option Fields
  unfolding guard_choices
  guard_payload none = none
  guard_payload (some payload) = guard_choices payload (as_array (get payload (codes "choices")))

  encoded_or : (Fields → Option Bytes) → Bytes → Option Fields → Bytes × Bool
  encoded_or encode body none = (body, false)
  encoded_or encode body (some payload) = elim (encode payload) [
    | none ↦ (body, false)
    | some text ↦ (text, true)
  ]

  -- `applyToolCallGuards`, with the decoder and the encoder
  unfoldable pub apply_tool_call_guards :
      (Bytes → Option Fields) → (Fields → Option Bytes) → Bytes → Bytes × Bool
  unfolding guard_payload encoded_or
  apply_tool_call_guards decode encode body = encoded_or encode body (guard_payload (decode body))
