-- ===== src/Coreutils/Text.antt =====
-- coreutils/text.go: head, tail, wc, sort, uniq, cut and paste. The base64 helpers are not modelled.

pub mod Select
pub mod Order
pub mod Runs
use mathlib.Core.List.{reverse}
use groovy_agent.Base.{
  ℕ, zero, suc, ◌+◌, ◌-◌, Bool, true, false, not, ◌&&◌, ◌||◌, Bytes, List, [], ◌∷◌, ◌++◌, map,
  Option, none, some, length, take, drop, replicate, get_elem?, same, ltb, leb, ◌==◌, codes,
  if◌then◌else◌, Result, ok, err, ℤ, pos, negsuc,
}
use groovy_agent.Strings.{space_width, ends_with, count_byte, split, join_with, trim_space, decimal}
use groovy_agent.Json.{Floats}
use groovy_agent.Coreutils.Lines.{newline, split_lines, join_lines, clamp_lines}

-- What `Head` and `Tail` do to the lines that they select.
render : List Bytes → Bool → Bytes × Bool
render lines truncated =
    let (clamped, cut) = clamp_lines lines in (join_lines clamped, truncated || cut)

-- `n >= 0 && len(lines) > n`
exceeds : ℕ → ℤ → Bool
exceeds size (pos n) = ltb n size
exceeds size (negsuc n) = false

magnitude : ℤ → ℕ
magnitude (pos n) = n
magnitude (negsuc n) = 0

-- `Head`
pub head : Bytes → ℤ → Bytes × Bool
unfolding render magnitude exceeds
head text n =
    let lines = split_lines text in
    if exceeds (length lines) n then render (take (magnitude n) lines) true else render lines false

-- `Tail`
pub tail : Bytes → ℤ → Bytes × Bool
unfolding render magnitude exceeds
tail text n =
    let lines = split_lines text in
    if exceeds (length lines) n
    then render (drop (length lines - magnitude n) lines) true
    else render lines false

-- `len(strings.Fields(text))`: `inside` says that the last byte belongs to a word, `skip` counts
-- the bytes left of a white space character.
count_words : Bool → ℕ → Bytes → ℕ
count_words inside skip [] = 0
count_words inside (suc skip) (c ∷ text) = count_words inside skip text
count_words inside zero (c ∷ text) =
    let in_word = count_words true 0 text in
    elim (space_width (c ∷ text)) [
      | zero ↦ (if inside then 0 else 1) + in_word
      | suc n ↦ count_words false n text
    ]

-- `Counts`
pub record Counts : Type 0 where
  pub lines : ℕ
  pub words : ℕ
  pub bytes : ℕ

is_empty : Bytes → Bool
is_empty [] = true
is_empty (c ∷ text) = false

-- `WordCount`
pub word_count : Bytes → Counts
unfolding count_words space_width is_empty ends_with count_byte
word_count text = record {
  lines =
      count_byte newline text
      + (if not (is_empty text) && not (ends_with newline text) then 1 else 0);
  words = count_words false 0 text;
  bytes = length text;
}

-- `<` on Go strings
unfoldable pub less_text : Bytes → Bytes → Bool
less_text a [] = false
less_text [] (y ∷ b) = true
less_text (x ∷ a) (y ∷ b) = if ltb x y then true else x == y && less_text a b

less_parsed : Floats → Option ℕ → Option ℕ → Bool → Bool
less_parsed F (some left) (some right) as_text = F.lt left right
less_parsed F _ _ as_text = as_text

-- the comparison of a numeric sort
less_numeric : Floats → Bytes → Bytes → Bool
unfolding less_parsed
less_numeric F a b = less_parsed F (F.parse (trim_space a)) (F.parse (trim_space b)) (less_text a b)

-- One round of the insertion sort that `sort.SliceStable` runs, on the sorted part from its end.
insert_back : (Bytes → Bytes → Bool) → Bytes → List Bytes → List Bytes
insert_back less x [] = x ∷ []
insert_back less x (y ∷ sorted) = if less x y then y ∷ insert_back less x sorted else x ∷ y ∷ sorted

sort_onto : (Bytes → Bytes → Bool) → List Bytes → List Bytes → List Bytes
sort_onto less sorted [] = sorted
sort_onto less sorted (line ∷ lines) = sort_onto less (insert_back less line sorted) lines

-- `sort.SliceStable`: insertion for up to 20 elements; beyond that Go merges blocks, with the same
-- result wherever the comparison is a strict weak order.
unfoldable pub slice_stable : (Bytes → Bytes → Bool) → List Bytes → List Bytes
unfolding sort_onto insert_back
slice_stable less lines = reverse (sort_onto less [] lines)

drop_repeats : Bytes → List Bytes → List Bytes
drop_repeats last [] = []
drop_repeats last (line ∷ lines) =
    if same line last then drop_repeats line lines else line ∷ drop_repeats line lines

-- `uniqueAdjacent`
pub unique_adjacent : List Bytes → List Bytes
unfolding drop_repeats
unique_adjacent [] = []
unique_adjacent (line ∷ lines) = line ∷ drop_repeats line lines

-- `Sort`
pub sort : Floats → Bytes → Bool → Bool → Bool → Bytes
unfolding slice_stable less_text less_numeric unique_adjacent
sort F text reversed numeric unique =
    let sorted = slice_stable (if numeric then less_numeric F else less_text) (split_lines text) in
    let ordered = if reversed then reverse sorted else sorted in
    join_lines (if unique then unique_adjacent ordered else ordered)

-- The inner loop of `Uniq`: how many of the next lines repeat `line`, and what follows them.
count_run : Bytes → List Bytes → ℕ × List Bytes
count_run line [] = (0, [])
count_run line (next ∷ lines) =
    let (run, rest) = count_run line lines in
    if same next line then (suc run, rest) else (0, next ∷ lines)

-- The runs of equal lines, on fuel; a unit for each line is enough.
runs_from : ℕ → List Bytes → List (ℕ × Bytes)
runs_from zero lines = []
runs_from (suc fuel) [] = []
runs_from (suc fuel) (line ∷ lines) =
    let (run, rest) = count_run line lines in (suc run, line) ∷ runs_from fuel rest

pub runs : List Bytes → List (ℕ × Bytes)
unfolding runs_from count_run
runs lines = runs_from (length lines) lines

-- `fmt.Sprintf("%7d %s", run, line)`
unfoldable pub counted_line : ℕ × Bytes → Bytes
counted_line (run, line) =
    let digits = decimal run in replicate (7 - length digits) b' ' ++ (digits ++ (b' ' ∷ line))

pub plain_line : ℕ × Bytes → Bytes
plain_line (run, line) = line

-- `Uniq`
pub uniq : Bytes → Bool → Bytes
unfolding plain_line
uniq text count =
    join_lines (map (if count then counted_line else plain_line) (runs (split_lines text)))

pub data CutError : Type 0 where
  no_delimiter no_fields field_not_positive : CutError

unfoldable pub is_positive : ℤ → Bool
is_positive (pos zero) = false
is_positive (pos (suc n)) = true
is_positive (negsuc n) = false

unfoldable pub all_positive : List ℤ → Bool
unfolding is_positive
all_positive [] = true
all_positive (n ∷ fields) = is_positive n && all_positive fields

-- `parts[field-1]`, where the line has that many parts
select_part : List Bytes → ℤ → List Bytes → List Bytes
select_part parts (pos (suc n)) rest = elim (get_elem? parts n) [
  | none ↦ rest
  | some part ↦ part ∷ rest
]
select_part parts (pos zero) rest = rest
select_part parts (negsuc n) rest = rest

select_parts : List Bytes → List ℤ → List Bytes
unfolding select_part
select_parts parts [] = []
select_parts parts (n ∷ fields) = select_part parts n (select_parts parts fields)

cut_line : Bytes → List ℤ → Bytes → Bytes
unfolding split join_with select_parts
cut_line delimiter fields line = join_with delimiter (select_parts (split line delimiter) fields)

-- `Cut`
unfoldable pub cut : Bytes → Bytes → List ℤ → Result CutError Bytes
unfolding cut_line all_positive
cut text [] fields = err no_delimiter
cut text (d ∷ delimiter) [] = err no_fields
cut text (d ∷ delimiter) (n ∷ fields) =
    if all_positive (n ∷ fields)
    then ok (join_lines (map (cut_line (d ∷ delimiter) (n ∷ fields)) (split_lines text)))
    else err field_not_positive

longest : List (List Bytes) → ℕ
longest [] = 0
longest (column ∷ columns) =
    if ltb (longest columns) (length column) then length column else longest columns

or_empty : Option Bytes → Bytes
or_empty none = []
or_empty (some cell) = cell

paste_row : Bytes → List (List Bytes) → ℕ → Bytes
unfolding or_empty join_with
paste_row delimiter columns row =
    join_with delimiter (map (λ column. or_empty (get_elem? column row)) columns)

-- The loop over the rows, by the number of rows left.
paste_rows : Bytes → List (List Bytes) → ℕ → ℕ → List Bytes
paste_rows delimiter columns row zero = []
paste_rows delimiter columns row (suc left) =
    paste_row delimiter columns row ∷ paste_rows delimiter columns (suc row) left

or_tab : Bytes → Bytes
or_tab [] = b'\t' ∷ []
or_tab (c ∷ delimiter) = c ∷ delimiter

-- `Paste`; `none` is the error on no inputs.
unfoldable pub paste : List Bytes → Bytes → Option Bytes
unfolding paste_rows paste_row longest or_tab join_with
paste [] delimiter = none
paste (input ∷ inputs) delimiter =
    let columns = map split_lines (input ∷ inputs) in
    some (join_lines (paste_rows (or_tab delimiter) columns 0 (longest columns)))
