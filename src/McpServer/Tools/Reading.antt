-- ===== src/McpServer/Tools/Reading.antt =====
-- internal/mcpserver/tools.go: the tools that read the workspace, but for `find`. The handlers
-- `runHead`, `runTail` and `runWC` are in no tool definition.
pub mod Quiet
use groovy_agent.Base.{
  ℕ, Bool, true, false, not, ◌&&◌, ◌||◌, ◌==◌, Bytes, List, [], ◌∷◌, ◌++◌, map, Option, none, some,
  same, codes, length, take, ltb, if◌then◌else◌, Result, ok, err, ℤ, pos, gtb_ℤ,
}
use groovy_agent.Strings.{decimal}
use groovy_agent.Json.{Value, int, str, Fields, end, field}
use groovy_agent.McpProto.{invalid_arguments, tool_error}
use groovy_agent.Coreutils.Lines.{split_lines, join_lines, clamp_lines, clamp}
use groovy_agent.Coreutils.Text.{Counts, head, tail, word_count, slice_stable, less_text}
use groovy_agent.Coreutils.Search.{
  Match, GrepError, empty_pattern, pattern_too_long, invalid_pattern, grep,
}
use groovy_agent.McpServer.Workspace.{
  FileKind, directory, regular, special, ToolError, base_name, resolve_path, read_file,
  read_file_tail,
}
use groovy_agent.McpServer.Tools.{
  Limits, Payload, Visit, System, Runtime, Done, ◌>>=◌, ◌>>◌, checked, refuse, done, unless,
  optional_bool, optional_int, require_string, require_text, has_key, text_or, number_field,
  plain_payload,
}

-- An entry's name, with a slash behind a directory's.
entry_name : FileKind → Bytes → Bytes
entry_name directory name = name ++ b'/' ∷ []
entry_name _ name = name

listed_names : List Visit → List Bytes
unfolding entry_name
listed_names [] = []
listed_names (entry ∷ rest) = entry_name entry.kind entry.name ∷ listed_names rest

listed : Option (List Visit) → Done Payload
unfolding listed_names slice_stable less_text
listed none = refuse tool_error (codes "directory could not be listed")
listed (some entries) =
    let kept = take 200 entries in
    done (
      plain_payload (join_lines (slice_stable less_text (listed_names kept))) (length kept == 200)
        end)

grep_message : GrepError → Bytes
grep_message empty_pattern = codes "pattern must not be empty"
grep_message pattern_too_long = codes "pattern is too long"
grep_message invalid_pattern = codes "invalid pattern"

-- `fmt.Sprintf("%d:%s", match.Line, match.Text)`
match_line : Match → Bytes
match_line m = decimal m.line ++ (b':' ∷ m.text)

source_name : Bool → Bytes
source_name true = codes "path"
source_name false = codes "text"

-- What `Grep` found, or its error.
matched : Bytes → Bool → Bool → Result GrepError (List Match × Bool) → Done Payload
unfolding grep_message match_line source_name
matched path from_path truncated (err why) = refuse invalid_arguments (grep_message why)
matched path from_path truncated (ok (matches, cut)) = done (
    plain_payload (join_lines (map match_line matches)) (truncated || cut) (
      field (codes "path") (str path) (
        field (codes "source") (str (source_name from_path))
          (field (codes "matches") (number_field (length matches)) end))))

-- `min(n, limit)` for a limit that is not negative
at_most : ℕ → ℤ → ℤ
at_most limit n = if gtb_ℤ n limit then pos limit else n

is_both_or_neither : Bool → Bool → Bool
is_both_or_neither true b = b
is_both_or_neither false b = not b

-- How a file is shown by `cat`.
pub data View : Type 0 where
  from_head from_tail whole_file : View

view_of : Bytes → View
view_of name =
    if same name (codes "head")
    then from_head
    else if same name (codes "tail")
    then from_tail
    else whole_file

max_bytes_field : Bool → ℤ → Fields
max_bytes_field true limit = field (codes "max_bytes") (int limit) end
max_bytes_field false limit = end

module _ (workspace : Bytes) (L : Limits) (S : System) (R : Runtime) where
  -- `runPwd`
  unfoldable pub run_pwd : Fields → Done Payload
  run_pwd arguments =
      let logical = b'/' ∷ base_name workspace in
      done (
        plain_payload logical false (
          field (codes "workspace") (str logical)
            (field (codes "relative_root") (str (codes ".")) end)))

  -- `runLS`
  unfoldable pub run_ls : Fields → Done Payload
  unfolding listed
  run_ls arguments = do
    path ← checked (resolve_path workspace S.files (text_or arguments (codes "path") (codes ".")))
    listed (S.read_dir path)

  -- The part of `runCat` for a view, with the file's text.
  viewed : View → Bytes → Bytes → ℤ → ℤ → Bool → Bytes × Bool → Done Payload
  unfolding max_bytes_field
  viewed from_head path view limit count has_max (content, truncated) =
      let (output, cut) = head content count in
      done (
        plain_payload output (truncated || cut) (
          field (codes "path") (str path) (
            field (codes "view") (str view) (
              field (codes "lines") (int count) (
                field (codes "bytes") (number_field (length content))
                  (max_bytes_field has_max limit))))))
  viewed from_tail path view limit count has_max (content, truncated) =
      let (output, cut) = tail content count in
      done (
        plain_payload output (truncated || cut) (
          field (codes "path") (str path) (
            field (codes "view") (str view) (
              field (codes "lines") (int count) (
                field (codes "bytes") (number_field (length content))
                  (max_bytes_field has_max limit))))))
  viewed whole_file path view limit count has_max (content, truncated) =
      let (lines, clamped) = clamp_lines (split_lines content) in
      let (output, cut) = clamp (join_lines lines) limit in
      done (
        plain_payload output (truncated || clamped || cut) (
          field (codes "path") (str path) (
            field (codes "view") (str view)
              (field (codes "bytes") (number_field (length content)) end))))

  view_file : View → Bytes → ℤ → Result ToolError (Bytes × Bool)
  view_file from_tail path limit = read_file_tail workspace S.files L.max_file_read_bytes path limit
  view_file _ path limit = read_file workspace S.files L.max_file_read_bytes path limit

  -- `runCat`
  unfoldable pub run_cat : Fields → Done Payload
  unfolding viewed view_file view_of
  run_cat arguments = do
    path ← require_string R arguments (codes "path")
    let view = text_or arguments (codes "view") (codes "full")
    unless (not (same view (codes "full") && has_key arguments (codes "lines"))) invalid_arguments
        (codes "\"lines\" requires view \"head\" or \"tail\"")
    let limit = optional_int R.floats arguments (codes "max_bytes") (pos L.max_file_read_bytes)
    let count = optional_int R.floats arguments (codes "lines") (pos 20)
    read ← checked (view_file (view_of view) path limit)
    viewed (view_of view) path view limit count (has_key arguments (codes "max_bytes")) read

  -- `runHead` and `runTail`, which differ in the selection
  select_lines : (Bytes → ℤ → Bytes × Bool) → Fields → Done Payload
  select_lines select arguments = do
    path ← require_string R arguments (codes "path")
    let count = optional_int R.floats arguments (codes "lines") (pos 20)
    read ←
        checked (read_file workspace S.files L.max_file_read_bytes path (pos L.max_file_read_bytes))
    let (content, truncated) = read
    let (output, cut) = select content count
    done (
        plain_payload output (truncated || cut)
          (field (codes "path") (str path) (field (codes "lines") (int count) end)))

  unfoldable pub run_head_tool : Fields → Done Payload
  unfolding select_lines
  run_head_tool = select_lines head

  unfoldable pub run_tail_tool : Fields → Done Payload
  unfolding select_lines
  run_tail_tool = select_lines tail

  -- The text of `wc` and `grep`: of a file, or supplied; with the path, which is empty for the
  -- latter.
  source_text : Bool → Fields → Done (Bytes × Bytes × Bool)
  source_text true arguments = do
    path ← require_string R arguments (codes "path")
    read ←
        checked (read_file workspace S.files L.max_file_read_bytes path (pos L.max_file_read_bytes))
    done (path, read.0, read.1)
  source_text false arguments = do
    text ← require_text R L arguments (codes "text")
    done ([], text, false)

  -- `runWC`
  unfoldable pub run_wc_tool : Fields → Done Payload
  unfolding source_text is_both_or_neither
  run_wc_tool arguments = do
    unless
        (not (
          is_both_or_neither (has_key arguments (codes "path")) (has_key arguments (codes "text"))))
        invalid_arguments (codes "provide exactly one of \"path\" or \"text\"")
    source ← source_text (has_key arguments (codes "path")) arguments
    let (path, content, truncated) = source
    let counts = word_count content
    done (
        plain_payload
          (decimal counts.lines
            ++ (codes " lines "
                ++ (decimal counts.words
                    ++ (codes " words " ++ (decimal counts.bytes ++ codes " bytes")))))
          truncated
          (field (codes "lines") (number_field counts.lines) (
            field (codes "words") (number_field counts.words)
              (field (codes "bytes") (number_field counts.bytes) end))))

  -- `runGrep`
  unfoldable pub run_grep : Fields → Done Payload
  unfolding source_text is_both_or_neither matched at_most
  run_grep arguments = do
    unless
        (not (
          is_both_or_neither (has_key arguments (codes "path")) (has_key arguments (codes "text"))))
        invalid_arguments (codes "provide exactly one of \"path\" or \"text\"")
    pattern_text ← require_string R arguments (codes "pattern")
    let most =
        at_most L.max_grep_matches
          (optional_int R.floats arguments (codes "max_matches") (pos L.max_grep_matches))
    source ← source_text (has_key arguments (codes "path")) arguments
    let (path, content, truncated) = source
    matched path (has_key arguments (codes "path")) truncated (
        grep R.search content (record {
          pattern = pattern_text;
          ignore_case = optional_bool arguments (codes "ignore_case");
          fixed_text = optional_bool arguments (codes "fixed");
          max_matches = most;
        }))
