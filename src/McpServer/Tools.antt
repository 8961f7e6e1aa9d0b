-- ===== src/McpServer/Tools.antt =====
-- internal/mcpserver/tools.go: what its handlers share. A handler gives its result and the list of
-- what it asked the operating system to change; the answers of the system are a parameter. Times,
-- modes of files and the errors' own texts are left out.
pub mod Changes
pub mod Reading
pub mod Find
pub mod Writing
pub mod Texts
pub mod Names
pub mod Registry
use groovy_agent.Base.{
  ℕ, Bool, true, false, not, ◌&&◌, Bytes, List, [], ◌∷◌, ◌++◌, Option, none, some, same, codes,
  length, ltb, if◌then◌else◌, Result, ok, err, ℤ, pos, ◌*◌,
}
use groovy_agent.Json.{Value, bool, int, str, Fields, end, field, get, as_text, Floats}
use groovy_agent.JsonSchema.{to_number}
use groovy_agent.McpProto.{Category, invalid_arguments}
use groovy_agent.Coreutils.Search.{Library}
use groovy_agent.McpServer.Workspace.{SysError, FileKind, FileSystem, ToolError}

-- `Limits`, less the time limit; `default_limits` is `DefaultLimits`.
pub record Limits : Type 0 where
  pub max_result_bytes : ℕ
  pub max_file_read_bytes : ℕ
  pub max_file_write_bytes : ℕ
  pub max_grep_matches : ℕ
  pub max_find_results : ℕ
  pub max_line_bytes : ℕ

abbrev pub default_limits : Limits
default_limits = record {
  max_result_bytes = 16 * 1024;
  max_file_read_bytes = 12 * 1024;
  max_file_write_bytes = 64 * 1024;
  max_grep_matches = 20;
  max_find_results = 200;
  max_line_bytes = 2 * 1024;
}

-- `payload`
pub record Payload : Type 0 where
  pub output : Bytes
  pub truncated : Bool
  pub metadata : Fields
  pub result : Option Fields

-- An error of a handler: a `toolError`, or any other.
pub data Fault : Type 0 where
  typed : ToolError → Fault
  plain : Fault

-- How a file is opened for writing.
pub data WriteMode : Type 0 where
  keep_content append_content truncate_content : WriteMode

-- What a handler asks the operating system to change: `os.OpenFile` for writing, a write to the
-- opened file, `io.Copy` into it, `os.Chtimes`, `os.Mkdir`, `os.Rename` and `os.Remove`.
pub data Effect : Type 0 where
  opened_for_writing : WriteMode → Bytes → Effect
  wrote : Bytes → Bytes → Effect
  copied : Bytes → Bytes → Effect
  retimed : Bytes → Effect
  made_directory : Bytes → Effect
  moved : Bytes → Bytes → Effect
  removed : Bytes → Effect

-- Why a change is refused; `exists` is what `os.IsExist` finds.
pub data Refusal : Type 0 where
  exists not_allowed other_refusal : Refusal

-- `fs.DirEntry`, with its path and the error that comes with it.
pub record Visit : Type 0 where
  pub path : Bytes
  pub name : Bytes
  pub kind : FileKind
  pub fails : Bool

-- The operating system as a handler meets it: its files, the reason why `Lstat` fails, `os.ReadDir`,
-- the entries that `filepath.WalkDir` visits, the outcome of each change, and whether closing a
-- written file fails.
pub record System : Type 0 where
  pub files : FileSystem
  pub lstat_error : Bytes → SysError
  pub read_dir : Bytes → Option (List Visit)
  pub walk : Bytes → List Visit
  pub perform : Effect → Option Refusal
  pub close_fails : Bytes → Bool

-- What Go provides besides: JSON numbers, the verb %q, `regexp`, `filepath.Match`, and whether the
-- context is done before and after a text is read and when a walk comes to a path.
pub record Runtime : Type 0 where
  pub floats : Floats
  pub quote : Bytes → Bytes
  pub search : Library
  pub glob_match : Bytes → Bytes → Option Bool
  pub done_before : Bool
  pub done_after : Bool
  pub done_at : Bytes → Bool

-- What a handler has done: its result, and the changes it asked for in order.
abbrev pub Done {ℓ} : Type ℓ → Type ℓ
Done A = Result Fault A × List Effect

infixl 5 ◌>>=◌ ◌>>◌
abbrev ◌>>=◌ {ℓ κ} : {A : Type ℓ} {B : Type κ} → Done A → (A → Done B) → Done B
(ok a, effects) >>= next = let (result, more) = next a in (result, effects ++ more)
(err fault, effects) >>= next = (err fault, effects)

abbrev ◌>>◌ {ℓ} : {B : Type ℓ} → Done (Unit {0}) → Done B → Done B
first >> second = first >>= λ _. second

-- A step that changes nothing.
abbrev checked {ℓ} : {A : Type ℓ} → Result ToolError A → Done A
checked (ok a) = (ok a, [])
checked (err e) = (err (typed e), [])

-- `return payload{}, fail(…)`
abbrev refuse {ℓ} : {A : Type ℓ} → Category → Bytes → Done A
refuse category message = (err (typed (record { category = category; message = message })), [])

abbrev done {ℓ} : {A : Type ℓ} → A → Done A
done a = (ok a, [])

pub unless : Bool → Category → Bytes → Done (Unit {0})
unless true category message = done tt
unless false category message = refuse category message

performed : Option Refusal → (Refusal → ToolError) → Result Fault (Unit {0})
performed none error = ok tt
performed (some why) error = err (typed (error why))

-- A change, and the error that its refusal gives.
unfoldable pub attempt : System → Effect → (Refusal → ToolError) → Done (Unit {0})
unfolding performed
attempt S effect error = (performed (S.perform effect) error, effect ∷ [])

abbrev always : Category → Bytes → Refusal → ToolError
always category message why = record { category = category; message = message }

is_true : Option Value → Bool
is_true (some (bool b)) = b
is_true _ = false

-- `optionalBool`
unfoldable pub optional_bool : Fields → Bytes → Bool
unfolding is_true
optional_bool arguments key = is_true (get arguments key)

number_or : Floats → ℤ → Option Value → ℤ
number_or F fallback none = fallback
number_or F fallback (some value) = elim (to_number F value) [ none ↦ fallback | some n ↦ n ]

-- `optionalInt`
unfoldable pub optional_int : Floats → Fields → Bytes → ℤ → ℤ
unfolding number_or
optional_int F arguments key fallback = number_or F fallback (get arguments key)

string_or : Bytes → Option Value → Done Bytes
string_or message (some (str text)) = done text
string_or message _ = refuse invalid_arguments message

-- `requireString`
unfoldable pub require_string : Runtime → Fields → Bytes → Done Bytes
unfolding string_or
require_string R arguments key =
    string_or (R.quote key ++ codes " must be a string") (get arguments key)

bounded_text : Limits → Bytes → Done Bytes
bounded_text L text =
    if ltb L.max_file_read_bytes (length text)
    then refuse invalid_arguments (codes "input text exceeds the allowed size")
    else done text

-- `Server.requireText`
unfoldable pub require_text : Runtime → Limits → Fields → Bytes → Done Bytes
unfolding bounded_text
require_text R L arguments key = require_string R arguments key >>= bounded_text L

-- `_, has := arguments[key]`
has_value : Option Value → Bool
has_value none = false
has_value (some v) = true

unfoldable pub has_key : Fields → Bytes → Bool
unfolding has_value
has_key arguments key = has_value (get arguments key)

text_of : Option Bytes → Bytes → Bytes
text_of none fallback = fallback
text_of (some []) fallback = fallback
text_of (some (c ∷ text)) fallback = c ∷ text

-- `value, _ := arguments[key].(string)`, and the fallback where it is empty
unfoldable pub text_or : Fields → Bytes → Bytes → Bytes
unfolding text_of
text_or arguments key fallback = text_of (as_text (get arguments key)) fallback

abbrev number_field : ℕ → Value
number_field n = int (pos n)

-- A payload with nothing special in it.
abbrev plain_payload : Bytes → Bool → Fields → Payload
plain_payload output truncated metadata = record {
  output = output;
  truncated = truncated;
  metadata = metadata;
  result = none;
}
