-- ===== src/Agent/ToolCall/Checks.antt =====
-- What holds of a tool call that `validateCall` lets through.
use groovy_agent.Base.{
  ℕ, ◌<◌, ◌≡◌, refl, true, false, ◌||◌, Bytes, List, [], Option, none, some, same, codes, Result,
  ok, err, bind-eq-ok, err-ne-ok, >>-eq-ok, gtb_ℤ, ◌⊎◌, ap, ok-injective, not, ◌&&◌, leb_false→lt,
  ℤ, arith, leb, same_iff, Bool-cases, inl, inr,
}
use groovy_agent.Strings.{trim_space}
use groovy_agent.Paths.{elements}
use groovy_agent.Paths.Clean.{walk, Inside}
use groovy_agent.Paths.Clean.Stays.Spaces.{trim_space-Inside}
use groovy_agent.Json.{Value, str, Fields, end, field, Floats}
use groovy_agent.JsonSchema.{to_number, RawError, validate_raw}
use groovy_agent.McpProto.{ToolDefinition}
use groovy_agent.Llm.{ToolCall}
use groovy_agent.Agent.ToolCall.{
  Codec, find, max_total_tool_calls, validate_workspace_path, check_argument, check_arguments,
  check_limit, check_path, within_limit, requested_limits, admit_call, Rejection, validate_call,
  known_tool, usable_schema, valid_arguments, object_text, or_empty_object,
}

-- A path that `validateWorkspacePath` lets through leads, as it is sent, with the spaces around it that
-- the check leaves out, from any directory and without symbolic links to a place inside that
-- directory.
pub validate_workspace_path-Inside :
    (path : Bytes) (dir : List Bytes)
    → validate_workspace_path path ≡ ok tt
    → Inside dir (walk dir (elements path))
unfolding validate_workspace_path
validate_workspace_path-Inside path dir h = trim_space-Inside path dir (ground arith) (ground arith)

-- A requested amount that has a limit is a whole number, and is no more than the limit.
abbrev KeepsLimit : Floats → Bytes → Value → Type 0
KeepsLimit F key value =
    (limit : ℕ)
    → find requested_limits key ≡ some limit
    → (n : ℤ) × (to_number F value ≡ some n) × (gtb_ℤ n limit ≡ false)

-- A path is a text that leads to a place inside the workspace, but for the two tools that only
-- read its text.
abbrev KeepsPath : Bytes → Bytes → Value → Type 0
KeepsPath tool_name key value =
    key ≡ codes "path"
    → (path : Bytes) × (value ≡ str path)
      × (((same tool_name (codes "basename") || same tool_name (codes "dirname")) ≡ true)
          ⊎ ((dir : List Bytes) → Inside dir (walk dir (elements path))))

abbrev KeepsBounds : Floats → Bytes → Fields → Type 0
KeepsBounds F tool_name end = Unit
KeepsBounds F tool_name (field key value rest) =
    KeepsLimit F key value × KeepsPath tool_name key value × KeepsBounds F tool_name rest

check_limit-KeepsLimit :
    (F : Floats) (key : Bytes) (value : Value)
    → check_limit F key value (find requested_limits key) ≡ ok tt
    → KeepsLimit F key value
unfolding check_limit
check_limit-KeepsLimit F key value h limit found = within (to_number F value) refl (rw found at h)
  where
    within :
        (o : Option ℤ)
        → to_number F value ≡ o
        → within_limit key limit o ≡ ok tt
        → (n : ℤ) × (to_number F value ≡ some n) × (gtb_ℤ n limit ≡ false)
    within none e k = absurd (err-ne-ok k)
    within (some n) e k = (n, e, ground arith)

check_path-KeepsPath :
    (tool_name : Bytes) (value : Value)
    → check_path tool_name value ≡ ok tt
    → (path : Bytes) × (value ≡ str path)
      × (((same tool_name (codes "basename") || same tool_name (codes "dirname")) ≡ true)
          ⊎ ((dir : List Bytes) → Inside dir (walk dir (elements path))))
unfolding check_path
check_path-KeepsPath tool_name (str path) h =
    elim (Bool-cases (same tool_name (codes "basename") || same tool_name (codes "dirname"))) [
      | inl e ↦ (path, refl, inl e)
      | inr e ↦ (path, refl, inr (λ dir. validate_workspace_path-Inside path dir (rw e at h)))
    ]
check_path-KeepsPath tool_name v h = absurd (err-ne-ok h)

check_argument-KeepsBounds :
    (F : Floats) (tool_name key : Bytes) (value : Value)
    → check_argument F tool_name key value ≡ ok tt
    → KeepsLimit F key value × KeepsPath tool_name key value
unfolding check_argument
check_argument-KeepsBounds F tool_name key value h =
    let (limit_ok, path_ok) = >>-eq-ok (check_limit F key value (find requested_limits key)) _ h in
    (
      check_limit-KeepsLimit F key value limit_ok,
      λ is_path.
          check_path-KeepsPath tool_name value
            (rw ((same_iff key (codes "path")).1 is_path) at path_ok),
    )

check_arguments-KeepsBounds :
    (F : Floats) (tool_name : Bytes) (arguments : Fields)
    → check_arguments F tool_name arguments ≡ ok tt
    → KeepsBounds F tool_name arguments
unfolding check_arguments
check_arguments-KeepsBounds F tool_name end h = tt
check_arguments-KeepsBounds F tool_name (field key value rest) h =
    let (here, later) = >>-eq-ok (check_argument F tool_name key value) _ h in
    let (l, p) = check_argument-KeepsBounds F tool_name key value here in
    (l, p, check_arguments-KeepsBounds F tool_name rest later)

-- A call that the agent may send to a server.
pub record Accepted (C : Codec) (exposed : List (Bytes × ToolDefinition)) (name : Bytes)
    (raw : Bytes) (tool : ToolDefinition) : Type 0 where
  pub schema : Fields
  pub arguments : Fields
  pub exposed_tool : find exposed name ≡ some tool
  pub known_schema : C.decode tool.input_schema ≡ some schema
  pub read : validate_raw C.floats C.decode_numbers schema raw ≡ ok arguments
  pub bounds : KeepsBounds C.floats tool.name arguments

known_tool-eq-ok :
    (o : Option ToolDefinition) {tool : ToolDefinition} → known_tool o ≡ ok tool → o ≡ some tool
unfolding known_tool
known_tool-eq-ok none h = absurd (err-ne-ok h)
known_tool-eq-ok (some t) h = cc

usable_schema-eq-ok :
    (o : Option Fields) {schema : Fields} → usable_schema o ≡ ok schema → o ≡ some schema
unfolding usable_schema
usable_schema-eq-ok none h = absurd (err-ne-ok h)
usable_schema-eq-ok (some t) h = cc

valid_arguments-eq-ok :
    (r : Result RawError Fields) {arguments : Fields}
    → valid_arguments r ≡ ok arguments
    → r ≡ ok arguments
unfolding valid_arguments
valid_arguments-eq-ok (ok t) h = cc
valid_arguments-eq-ok (err e) h = absurd (err-ne-ok h)

pair-eq :
    {a a' : Bytes} {b b' : ToolDefinition}
    → ◌≡◌ {A = Result Rejection (Bytes × ToolDefinition)} (ok (a, b)) (ok (a', b'))
    → (a ≡ a') × (b ≡ b')
pair-eq h = (ap (λ p. p.0) (ok-injective h), ap (λ p. p.1) (ok-injective h))

admit_call-Accepted :
    (C : Codec) (exposed : List (Bytes × ToolDefinition)) (name raw raw' : Bytes)
    (tool : ToolDefinition)
    → admit_call C exposed name raw ≡ ok (raw', tool)
    → Accepted C exposed name raw' tool
unfolding admit_call
admit_call-Accepted C exposed name raw raw' tool h =
    let (t, known, h₁) = bind-eq-ok (known_tool (find exposed name)) _ h in
    let (_, h₂) = >>-eq-ok (object_text raw) _ h₁ in
    let (schema, usable, h₃) = bind-eq-ok (usable_schema (C.decode t.input_schema)) _ h₂ in
    let (arguments, read, h₄) =
      bind-eq-ok (valid_arguments (validate_raw C.floats C.decode_numbers schema raw)) _ h₃ in
    let (kept, h₅) = >>-eq-ok (check_arguments C.floats t.name arguments) _ h₄ in
    let (same_raw, same_tool) = pair-eq h₅ in
    rw (← same_raw, ← same_tool)
      (record {
        schema = schema;
        arguments = arguments;
        exposed_tool = known_tool-eq-ok _ known;
        known_schema = usable_schema-eq-ok _ usable;
        read = valid_arguments-eq-ok _ read;
        bounds = check_arguments-KeepsBounds C.floats t.name arguments kept;
      })

-- A call that `validateCall` lets through is made below the budget of calls, its tool is one of the
-- exposed tools, its arguments are valid against the tool's schema, and no bounded amount passes its
-- limit. An argument named path is a text which, as it is sent and without symbolic links, leads from
-- any directory to a place inside it, but for the tools basename and dirname, whose path may be any
-- text.
pub validate_call-Accepted :
    (C : Codec) (exposed : List (Bytes × ToolDefinition)) (calls : ℕ) (call : ToolCall)
    (raw : Bytes) (tool : ToolDefinition)
    → validate_call C exposed calls call ≡ ok (raw, tool)
    → (calls < max_total_tool_calls) × Accepted C exposed call.function.name raw tool
unfolding validate_call
validate_call-Accepted C exposed calls call raw tool h =
    elim (Bool-cases (not (same call.type []) && not (same call.type (codes "function")))) [
      | inl typed ↦ absurd (err-ne-ok (rw typed at h))
      | inr untyped ↦ elim (Bool-cases (leb max_total_tool_calls calls)) [
        | inl spent ↦ absurd (err-ne-ok (rw (untyped, spent) at h))
        | inr left ↦ (
          leb_false→lt _ _ left,
          admit_call-Accepted C exposed call.function.name
              (or_empty_object (trim_space call.function.arguments)) raw tool
              (rw (untyped, left) at h),
        )
      ]
    ]
