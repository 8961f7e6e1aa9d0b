-- ===== src/McpServer/Tools/Texts.antt =====
-- internal/mcpserver/tools.go: the tools that work on supplied text. All but `coreutils_run` are in
-- no tool definition. The texts of the errors of coreutils are left out.
pub mod Quiet
use groovy_agent.Base.{
  ℕ, ◌+◌, ◌*◌, Bool, true, false, not, ◌&&◌, ◌||◌, Bytes, List, [], ◌∷◌, ◌++◌, Option, none, some,
  codes, length, take, leb, ltb, if◌then◌else◌, Result, ok, err, ℤ,
}
use groovy_agent.Json.{
  Value, str, bool, arr, Items, nil, cons, Fields, end, field, get, as_text, as_array, Floats,
}
use groovy_agent.JsonSchema.{to_number}
use groovy_agent.McpProto.{invalid_arguments, permission_denied}
use groovy_agent.Coreutils.Text.{CutError, sort, uniq, cut, paste}
use groovy_agent.Coreutils.Translate.{TrError, tr}
use groovy_agent.Coreutils.Command.{Command, Streams, Failure, Check, lookup_command}
use groovy_agent.McpServer.Tools.{
  Limits, Payload, Fault, plain, Runtime, Done, ◌>>=◌, ◌>>◌, refuse, done, unless, optional_bool,
  require_string, require_text, plain_payload, text_or,
}

-- A payload of a text and nothing else.
abbrev text_payload : Bytes → Payload
text_payload output = plain_payload output false end

strings_of : Option Items → Done (List Bytes)
strings_of none = done []
strings_of (some nil) = done []
strings_of (some (cons (str argument) rest)) = do
  arguments ← strings_of (some rest)
  done (argument ∷ arguments)
strings_of (some (cons _ rest)) = refuse invalid_arguments (codes "args must contain only strings")

-- `clampResult`
unfoldable pub clamp_result : Bytes → ℕ → Bytes × Bool
clamp_result output limit =
    if leb (length output) limit then (output, false) else (take limit output, true)

permitted : Option Command → Done Command
permitted none = refuse permission_denied (codes "command is not permitted")
permitted (some command) =
    if command.expose_to_mcp && command.read_only
    then done command
    else refuse permission_denied (codes "command is not permitted")

valid_args : Check → Done (Unit {0})
valid_args (ok _) = done tt
valid_args (err why) = refuse invalid_arguments (codes "invalid arguments")

abbrev max_stdout_bytes : ℕ
max_stdout_bytes = 256 * 1024

ran : Bytes → Result Failure Bytes → Done Payload
unfolding clamp_result
ran name (err why) = (err plain, [])
ran name (ok out) =
    let (output, truncated) = clamp_result out max_stdout_bytes in
    done (record {
      output = [];
      truncated = truncated;
      metadata = end;
      result = some (
          field (codes "success") (bool true) (
            field (codes "command") (str name) (
              field (codes "stdout") (str output) (
                field (codes "stderr") (str [])
                  (field (codes "truncated") (bool truncated) end)))));
    })

-- The streams of a command: its input is in memory, and its output takes every text.
streams_of : Runtime → Bytes → Streams
streams_of R stdin = record {
  cancelled_before = R.done_before;
  input = some stdin;
  cancelled_after = R.done_after;
  writes = λ text. true;
}

-- `runCoreutils`
unfoldable pub run_coreutils : Runtime → Fields → Done Payload
unfolding strings_of permitted valid_args ran streams_of
run_coreutils R arguments = do
  name ← require_string R arguments (codes "command")
  command ← permitted (lookup_command R.floats name)
  args ← strings_of (as_array (get arguments (codes "args")))
  valid_args (command.validate_args args)
  ran name (command.run (streams_of R (text_or arguments (codes "stdin") [])) args)

numbers_of : Floats → Items → Done (List ℤ)
numbers_of F nil = done []
numbers_of F (cons raw rest) = elim (to_number F raw) [
  | none ↦ refuse invalid_arguments (codes "\"fields\" must contain integers")
  | some n ↦ numbers_of F rest >>= λ numbers. done (n ∷ numbers)
]

fields_of : Floats → Option Items → Done (List ℤ)
unfolding numbers_of
fields_of F none = refuse invalid_arguments (codes "\"fields\" must be an array of integers")
fields_of F (some items) = numbers_of F items

cut_done : Result CutError Bytes → Done Payload
cut_done (ok out) = done (text_payload out)
cut_done (err why) = refuse invalid_arguments (codes "invalid fields")

tr_done : Result TrError Bytes → Done Payload
tr_done (ok out) = done (text_payload out)
tr_done (err why) = refuse invalid_arguments (codes "invalid character set")

paste_done : Option Bytes → Done Payload
paste_done (some out) = done (text_payload out)
paste_done none = refuse invalid_arguments (codes "no inputs")

module _ (L : Limits) (R : Runtime) where
  -- `runCut`
  unfoldable pub run_cut_tool : Fields → Done Payload
  unfolding fields_of cut_done
  run_cut_tool arguments = do
    text ← require_text R L arguments (codes "text")
    delimiter ← require_string R arguments (codes "delimiter")
    fields ← fields_of R.floats (as_array (get arguments (codes "fields")))
    cut_done (cut text delimiter fields)

  -- The loop over the inputs of `runPaste`, with the bytes read so far.
  inputs_from : ℕ → Items → Done (List Bytes)
  inputs_from total nil = done []
  inputs_from total (cons (str text) rest) =
      let more = inputs_from (total + length text) rest >>= λ inputs. done (text ∷ inputs) in
      if ltb L.max_file_read_bytes (total + length text)
      then refuse invalid_arguments (codes "input text exceeds the allowed size")
      else more
  inputs_from total (cons _ rest) =
      refuse invalid_arguments (codes "\"inputs\" must contain strings")

  inputs_of : Option Items → Done (List Bytes)
  unfolding inputs_from
  inputs_of none = refuse invalid_arguments (codes "\"inputs\" must be an array of strings")
  inputs_of (some items) = inputs_from 0 items

  -- `runPaste`
  unfoldable pub run_paste_tool : Fields → Done Payload
  unfolding inputs_of paste_done
  run_paste_tool arguments = do
    inputs ← inputs_of (as_array (get arguments (codes "inputs")))
    paste_done (paste inputs (text_or arguments (codes "delimiter") []))

  -- `runSort`
  unfoldable pub run_sort_tool : Fields → Done Payload
  run_sort_tool arguments = do
    text ← require_text R L arguments (codes "text")
    done (
        text_payload (
          sort R.floats text (optional_bool arguments (codes "reverse"))
            (optional_bool arguments (codes "numeric")) (optional_bool arguments (codes "unique"))))

  -- `runTr`
  unfoldable pub run_tr_tool : Fields → Done Payload
  unfolding tr_done
  run_tr_tool arguments = do
    text ← require_text R L arguments (codes "text")
    from ← require_string R arguments (codes "from")
    tr_done (
        tr text from (text_or arguments (codes "to") []) (optional_bool arguments (codes "delete")))

  -- `runUniq`
  unfoldable pub run_uniq_tool : Fields → Done Payload
  run_uniq_tool arguments = do
    text ← require_text R L arguments (codes "text")
    done (text_payload (uniq text (optional_bool arguments (codes "count"))))
