-- ===== src/McpServer/Tools/Changes.antt =====
-- Rules for the changes that a handler asks for, step by step.
use groovy_agent.Base.{
  ◌≡◌, refl, Bool, true, false, Bytes, Bool-cases, inl, inr, ltb, length, Option, none, some, codes,
  All, All-append, Result, ok, err, ◌++◌,
}
use groovy_agent.Json.{Value, null, bool, float, number, int, str, arr, obj, Fields, get}
use groovy_agent.McpProto.{Category}
use groovy_agent.McpServer.Workspace.{ToolError}
use groovy_agent.McpServer.Tools.{
  Limits, Fault, Effect, Refusal, System, Runtime, Done, ◌>>=◌, ◌>>◌, checked, unless, attempt,
  string_or, require_string, bounded_text, require_text,
}

module _ (P : Effect → Type 0) where
  -- Every change of a handler satisfies the predicate.
  abbrev pub Changes {ℓ} : {A : Type ℓ} → Done A → Type 0
  Changes d = All P d.1

  -- The changes of a chain are those of its parts; the rest may rely on the value of the first.
  pub first_then {ℓ κ} :
      {A : Type ℓ} {B : Type κ} (first : Done A) (next : A → Done B)
      → Changes first
      → ((a : A) → first.0 ≡ ok a → Changes (next a))
      → Changes (first >>= next)
  first_then (ok a, effects) next here later = All-append P effects (next a).1 (later a refl) here
  first_then (err fault, effects) next here later = here

  pub both {κ} :
      {B : Type κ} (first : Done (Unit {0})) (second : Done B)
      → Changes first
      → Changes second
      → Changes (first >> second)
  both first second h k = first_then first (λ _. second) h (λ a e. k)

  pub unless-none :
      (b : Bool) (category : Category) (message : Bytes) → Changes (unless b category message)
  unfolding unless
  unless-none true category message = tt
  unless-none false category message = tt

  pub quietly {κ} :
      {B : Type κ} (b : Bool) (category : Category) (message : Bytes) (second : Done B)
      → Changes second
      → Changes (unless b category message >> second)
  quietly b category message second = both _ second (unless-none b category message)

  -- What follows a check may rely on it.
  pub guarded {κ} :
      {B : Type κ} (b : Bool) (category : Category) (message : Bytes) (second : Done B)
      → (b ≡ true → Changes second)
      → Changes (unless b category message >> second)
  unfolding unless
  guarded true category message second k = both (unless true category message) second tt (k refl)
  guarded false category message second k = tt

  pub attempting {κ} :
      {B : Type κ} (S : System) (effect : Effect) (error : Refusal → ToolError) (second : Done B)
      → P effect
      → Changes second
      → Changes (attempt S effect error >> second)
  unfolding attempt
  attempting S effect error second h = both (attempt S effect error) second (h, tt)

  checked-none {ℓ} : {A : Type ℓ} (r : Result ToolError A) → Changes (checked r)
  checked-none (ok a) = tt
  checked-none (err e) = tt

  checked-ok {ℓ} :
      {A : Type ℓ} (r : Result ToolError A) (a : A)
      → ◌≡◌ {A = Result Fault A} (checked r).0 (ok a)
      → r ≡ ok a
  checked-ok (ok b) a h = cc
  checked-ok (err e) a h = cc

  pub checking {ℓ κ} :
      {A : Type ℓ} {B : Type κ} (r : Result ToolError A) (next : A → Done B)
      → ((a : A) → r ≡ ok a → Changes (next a))
      → Changes (checked r >>= next)
  checking r next k = first_then (checked r) next (checked-none r) (λ a e. k a (checked-ok r a e))

  string_or-none : (message : Bytes) (value : Option Value) → Changes (string_or message value)
  unfolding string_or
  string_or-none message none = tt
  string_or-none message (some null) = tt
  string_or-none message (some (bool b)) = tt
  string_or-none message (some (float x)) = tt
  string_or-none message (some (number text)) = tt
  string_or-none message (some (int n)) = tt
  string_or-none message (some (str text)) = tt
  string_or-none message (some (arr items)) = tt
  string_or-none message (some (obj fields)) = tt

  require_string-none :
      (R : Runtime) (arguments : Fields) (key : Bytes) → Changes (require_string R arguments key)
  unfolding require_string
  require_string-none R arguments key =
      string_or-none (R.quote key ++ codes " must be a string") (get arguments key)

  pub reading {κ} :
      {B : Type κ} (R : Runtime) (arguments : Fields) (key : Bytes) (next : Bytes → Done B)
      → ((text : Bytes) → Changes (next text))
      → Changes (require_string R arguments key >>= next)
  reading R arguments key next k =
      first_then (require_string R arguments key) next (require_string-none R arguments key)
        (λ text e. k text)

  bounded_text-none : (L : Limits) (text : Bytes) → Changes (bounded_text L text)
  unfolding bounded_text
  bounded_text-none L text = elim (Bool-cases (ltb L.max_file_read_bytes (length text))) [
    | inl e ↦ rw e tt
    | inr e ↦ rw e tt
  ]

  pub require_text-none :
      (R : Runtime) (L : Limits) (arguments : Fields) (key : Bytes)
      → Changes (require_text R L arguments key)
  unfolding require_text
  require_text-none R L arguments key =
      reading R arguments key (bounded_text L) (bounded_text-none L)
