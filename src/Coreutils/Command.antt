-- ===== src/Coreutils/Command.antt =====
-- coreutils/command.go: the commands, the checks of their arguments and their runs. What `%q` and
-- the texts of errors say is left out.
pub mod Checked
use groovy_agent.Base.{
  ℕ, ◌≡◌, Bool, true, false, not, ◌&&◌, ◌||◌, Bytes, List, [], ◌∷◌, ◌++◌, map, Option, none, some,
  length, same, ltb, leb, ◌==◌, codes, if◌then◌else◌, Result, ok, err, ◌>>=◌, ℤ, pos, negsuc, gtb_ℤ,
  ltb_ℤ,
}
use groovy_agent.Strings.{split_byte, join_with, decimal}
use groovy_agent.Numbers.{atoi}
use groovy_agent.Json.{Floats}
use groovy_agent.Coreutils.Lines.{newline}
use groovy_agent.Coreutils.Text.{Counts, CutError, head, tail, word_count, sort, uniq, cut}
use groovy_agent.Coreutils.Translate.{TrError, tr}

pub data ArgsError : Type 0 where
  unsupported : Bytes → ArgsError
  wrong_arguments bad_count bad_fields : ArgsError

abbrev pub Check : Type 0
Check = Result ArgsError (Unit {0})

-- A run fails where its input or its output does, with the error of `Cut` or `Tr`, or panics where
-- an argument is missing.
pub data Failure : Type 0 where
  cancelled unreadable unwritable out_of_range : Failure
  cut_failed : CutError → Failure
  tr_failed : TrError → Failure

-- The context, the input and the output of a run.
pub record Streams : Type 0 where
  pub cancelled_before : Bool
  pub input : Option Bytes
  pub cancelled_after : Bool
  pub writes : Bytes → Bool

-- `Command`
pub record Command : Type 0 where
  pub name : Bytes
  pub description : Bytes
  pub expose_to_mcp : Bool
  pub read_only : Bool
  pub validate_args : List Bytes → Check
  pub run : Streams → List Bytes → Result Failure Bytes

read_input : Bool → Option Bytes → Result Failure Bytes
read_input cancelled_after none = err unreadable
read_input cancelled_after (some text) = if cancelled_after then err cancelled else ok text

-- `readText`
read_text : Streams → Result Failure Bytes
unfolding read_input
read_text s = if s.cancelled_before then err cancelled else read_input s.cancelled_after s.input

-- `writeText`; the result is the text that is written.
write_text : Streams → Bytes → Result Failure Bytes
write_text s text = if s.writes text then ok text else err unwritable

-- `args[i]`
with_first : List Bytes → (Bytes → Result Failure Bytes) → Result Failure Bytes
with_first [] use_it = err out_of_range
with_first (a ∷ args) use_it = use_it a

with_second : List Bytes → (Bytes → Result Failure Bytes) → Result Failure Bytes
unfolding with_first
with_second [] use_it = err out_of_range
with_second (a ∷ args) use_it = with_first args use_it

with_fourth : List Bytes → (Bytes → Result Failure Bytes) → Result Failure Bytes
unfolding with_second
with_fourth [] use_it = err out_of_range
with_fourth (a ∷ []) use_it = err out_of_range
with_fourth (a ∷ b ∷ args) use_it = with_second args use_it

is_reverse : Bytes → Bool
is_reverse arg = same arg (codes "-r") || same arg (codes "--reverse")

is_numeric : Bytes → Bool
is_numeric arg = same arg (codes "-n") || same arg (codes "--numeric-sort")

any_arg : (Bytes → Bool) → List Bytes → Bool
any_arg test [] = false
any_arg test (arg ∷ args) = test arg || any_arg test args

-- `validateSort`
unfoldable pub validate_sort : List Bytes → Check
unfolding is_reverse is_numeric
validate_sort [] = ok tt
validate_sort (arg ∷ args) =
    if is_reverse arg || is_numeric arg then validate_sort args else err (unsupported arg)

-- `runSort`
pub run_sort : Floats → Streams → List Bytes → Result Failure Bytes
unfolding any_arg is_reverse is_numeric
run_sort F s args = read_text s >>= λ text.
    write_text s (sort F text (any_arg is_reverse args) (any_arg is_numeric args) false)

-- `validateUniq`
unfoldable pub validate_uniq : List Bytes → Check
validate_uniq [] = ok tt
validate_uniq (arg ∷ []) =
    if same arg (codes "-c") || same arg (codes "--count") then ok tt else err wrong_arguments
validate_uniq (arg ∷ next ∷ args) = err wrong_arguments

-- `runUniq`
pub run_uniq : Streams → List Bytes → Result Failure Bytes
run_uniq s args = read_text s >>= λ text. write_text s (uniq text (length args == 1))

-- `validateWC`
unfoldable pub validate_wc : List Bytes → Check
validate_wc [] = ok tt
validate_wc (arg ∷ args) =
    if same arg (codes "-l") || same arg (codes "-w") || same arg (codes "-c")
    then validate_wc args
    else err (unsupported arg)

-- The values that are asked for; another argument adds none.
count_values : Counts → List Bytes → List Bytes
count_values counts [] = []
count_values counts (arg ∷ args) =
    let rest = count_values counts args in
    if same arg (codes "-l")
    then decimal counts.lines ∷ rest
    else if same arg (codes "-w")
    then decimal counts.words ∷ rest
    else if same arg (codes "-c")
    then decimal counts.bytes ∷ rest
    else rest

wc_values : Counts → List Bytes → List Bytes
unfolding count_values
wc_values counts [] = decimal counts.lines ∷ decimal counts.words ∷ decimal counts.bytes ∷ []
wc_values counts (arg ∷ args) = count_values counts (arg ∷ args)

-- `runWC`
pub run_wc : Streams → List Bytes → Result Failure Bytes
unfolding wc_values
run_wc s args = read_text s >>= λ text.
    write_text s (join_with (b' ' ∷ []) (wc_values (word_count text) args) ++ newline ∷ [])

-- `validateTr`, whose second test never matters
pub validate_tr : List Bytes → Check
validate_tr args = if length args == 2 then ok tt else err wrong_arguments

written : Streams → Result TrError Bytes → Result Failure Bytes
written s (ok text) = write_text s text
written s (err e) = err (tr_failed e)

-- `runTr`
pub run_tr : Streams → List Bytes → Result Failure Bytes
unfolding with_first with_second written
run_tr s args = read_text s >>= λ text. with_first args (λ from. with_second args (λ to.
    written s (if same from (codes "-d") then tr text to [] true else tr text from to false)))

count_in_range : ℤ × Bool → Check
count_in_range (count, valid) =
    if not valid || ltb_ℤ count 0 || gtb_ℤ count 10000 then err bad_count else ok tt

-- `validateLineCount`
unfoldable pub validate_line_count : List Bytes → Check
unfolding count_in_range
validate_line_count (flag ∷ count ∷ []) =
    if same flag (codes "-n") then count_in_range (atoi count) else err wrong_arguments
validate_line_count _ = err wrong_arguments

-- `runHead`
pub run_head : Streams → List Bytes → Result Failure Bytes
unfolding with_second
run_head s args =
    read_text s >>= λ text. with_second args (λ count. write_text s (head text (atoi count).0).0)

-- `runTail`
pub run_tail : Streams → List Bytes → Result Failure Bytes
unfolding with_second
run_tail s args =
    read_text s >>= λ text. with_second args (λ count. write_text s (tail text (atoi count).0).0)

field_in_range : ℤ × Bool → Bool
field_in_range (field, valid) = valid && not (ltb_ℤ field 1) && not (gtb_ℤ field 1024)

check_fields : List Bytes → Check
unfolding field_in_range
check_fields [] = ok tt
check_fields (field ∷ fields) =
    if field_in_range (atoi field) then check_fields fields else err bad_fields

-- `validateCut`
unfoldable pub validate_cut : List Bytes → Check
unfolding check_fields
validate_cut (d ∷ delimiter ∷ f ∷ fields ∷ []) =
    if same d (codes "-d") && same f (codes "-f") && not (same delimiter [])
    then check_fields (split_byte b',' fields)
    else err wrong_arguments
validate_cut _ = err wrong_arguments

cut_written : Streams → Result CutError Bytes → Result Failure Bytes
cut_written s (ok text) = write_text s text
cut_written s (err e) = err (cut_failed e)

-- `runCut`
pub run_cut : Streams → List Bytes → Result Failure Bytes
unfolding with_second with_fourth cut_written
run_cut s args = read_text s >>= λ text. with_fourth args (λ fields. with_second args (λ delimiter.
    cut_written s (cut text delimiter (map (λ field. (atoi field).0) (split_byte b',' fields)))))

-- `textCommand`
abbrev pub text_command :
    Bytes → Bytes → (List Bytes → Check) → (Streams → List Bytes → Result Failure Bytes) → Command
text_command name description validate run = record {
  name = name;
  description = description;
  expose_to_mcp = true;
  read_only = true;
  validate_args = validate;
  run = run;
}

-- `Commands`
abbrev pub commands : Floats → List Command
commands F =
    text_command (codes "sort") (codes "Sort newline-delimited text.") validate_sort (run_sort F)
    ∷ text_command (codes "uniq") (codes "Remove adjacent duplicate lines.") validate_uniq run_uniq
    ∷ text_command (codes "wc") (codes "Count lines, words, or bytes.") validate_wc run_wc
    ∷ text_command (codes "tr") (codes "Translate or delete characters.") validate_tr run_tr
    ∷ text_command (codes "head") (codes "Select leading lines.") validate_line_count run_head
    ∷ text_command (codes "tail") (codes "Select trailing lines.") validate_line_count run_tail
    ∷ text_command (codes "cut") (codes "Select delimiter-separated fields.") validate_cut run_cut
    ∷ []

find_command : List Command → Bytes → Option Command
find_command [] name = none
find_command (command ∷ rest) name =
    if same command.name name then some command else find_command rest name

-- `LookupCommand`
unfoldable pub lookup_command : Floats → Bytes → Option Command
unfolding find_command
lookup_command F name = find_command (commands F) name
