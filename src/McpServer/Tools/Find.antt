-- ===== src/McpServer/Tools/Find.antt =====
-- internal/mcpserver/tools.go: `find`. The entries that `filepath.WalkDir` visits are a parameter,
-- with the errors that it passes on; the walk ends with the callback's first error.
pub mod Results
pub mod Quiet
use groovy_agent.Base.{
  ℕ, zero, suc, ◌+◌, Bool, true, false, not, ◌&&◌, ◌||◌, Bytes, List, [], ◌∷◌, ◌++◌, map, Option,
  none, some, same, codes, length, if◌then◌else◌, Result, ok, err, ℤ, pos, gtb_ℤ,
}
use groovy_agent.Strings.{trim_space, contains, to_lower}
use groovy_agent.Paths.{is_abs, dot, dot_dot, join_slash, clean_elements}
use groovy_agent.Json.{Value, str, Fields, end, field}
use groovy_agent.McpProto.{invalid_arguments, workspace_violation, tool_error}
use groovy_agent.Coreutils.Lines.{join_lines}
use groovy_agent.McpServer.Workspace.{
  is_directory_kind, is_directory, FileInfo, FileKind, directory, regular, special, ToolError,
  base_name, inside, resolve_path,
}
use groovy_agent.McpServer.Tools.{
  Limits, Payload, Visit, System, Runtime, Done, ◌>>=◌, ◌>>◌, checked, refuse, done, unless,
  optional_bool, optional_int, require_string, text_or, number_field, plain_payload,
}

-- `filepath.Rel` on elements: up from the base, and down to the target.
rel_elements : List Bytes → List Bytes → List Bytes
rel_elements [] target = target
rel_elements (b ∷ base) [] = map (λ e. dot_dot) (b ∷ base)
rel_elements (b ∷ base) (t ∷ target) =
    let deeper = rel_elements base target in
    if same b t then deeper else map (λ e. dot_dot) (b ∷ base) ++ (t ∷ target)

or_dot : List Bytes → Bytes
or_dot [] = dot
or_dot (e ∷ elements) = join_slash (e ∷ elements)

-- `Server.relativePath`, for the absolute path of the workspace
relative_path : Bytes → Bytes → Bytes
unfolding rel_elements or_dot
relative_path workspace path =
    if is_abs path
    then or_dot (rel_elements (clean_elements workspace) (clean_elements path))
    else base_name path

-- How names are compared.
pub data MatchMode : Type 0 where
  substring glob other_mode : MatchMode

mode_of : Bytes → MatchMode
mode_of name =
    if same name (codes "substring")
    then substring
    else if same name (codes "glob")
    then glob
    else other_mode

-- An error that ends the walk.
pub data Stop : Type 0 where
  limit_reached : Stop
  tool_stop : ToolError → Stop
  other_stop : Stop

glob_result : Option Bool → Result Stop Bool
glob_result (some matched) = ok matched
glob_result none =
    err (
      tool_stop
        (record { category = invalid_arguments; message = codes "glob pattern is invalid" }))

match_names : Runtime → MatchMode → Bytes → Bytes → Result Stop Bool
unfolding glob_result
match_names R substring left right = ok (contains left right)
match_names R glob left right = glob_result (R.glob_match right left)
match_names R other_mode left right = err (
    tool_stop (record {
      category = invalid_arguments;
      message = codes "\"match_mode\" must be \"substring\" or \"glob\"";
    }))

lowered : Runtime → Bool → Bytes → Bytes
lowered R true text = to_lower R.search.unicode_lower text
lowered R false text = text

-- `findNameMatches`
find_name_matches : Runtime → Bytes → Bytes → MatchMode → Bool → Result Stop Bool
unfolding match_names lowered
find_name_matches R candidate name mode ignore_case =
    match_names R mode (lowered R ignore_case candidate) (lowered R ignore_case name)

-- What the callback has collected.
pub record Found : Type 0 where
  pub lines : List Bytes
  pub files : ℕ
  pub directories : ℕ

pub nothing_found : Found
nothing_found = record { lines = []; files = 0; directories = 0 }

-- What is looked for.
pub record Query : Type 0 where
  pub root : Bytes
  pub name : Bytes
  pub mode : MatchMode
  pub ignore_case : Bool
  pub max_results : ℤ

module _ (workspace : Bytes) (R : Runtime) (q : Query) where
  add_entry : FileKind → Bytes → Found → Found
  add_entry directory path f = record f {
    lines = f.lines ++ (path ++ b'/' ∷ []) ∷ [];
    directories = f.directories + 1;
  }
  add_entry regular path f = record f { lines = f.lines ++ path ∷ []; files = f.files + 1 }
  add_entry special path f = f

  -- The end of the callback, for an entry that matches: `none` goes on.
  limited : Found → Found × Option Stop
  limited f =
      if not (gtb_ℤ q.max_results (length f.lines)) then (f, some limit_reached) else (f, none)

  collect : Visit → FileKind → Result Stop Bool → Found → Found × Option Stop
  unfolding limited add_entry relative_path
  collect v kind (err stop) f = (f, some stop)
  collect v kind (ok false) f = (f, none)
  collect v kind (ok true) f = limited (add_entry kind (relative_path workspace v.path) f)

  by_kind : Visit → FileKind → Found → Found × Option Stop
  unfolding collect find_name_matches
  by_kind v special f = (f, none)
  by_kind v directory f =
      collect v directory (find_name_matches R v.name q.name q.mode q.ignore_case) f
  by_kind v regular f = collect v regular (find_name_matches R v.name q.name q.mode q.ignore_case) f

  -- The callback of `runFind`.
  pub visit : Visit → Found → Found × Option Stop
  unfolding by_kind
  visit v f =
      if v.fails || R.done_at v.path
      then (f, some other_stop)
      else if same v.path q.root
      then (f, none)
      else if not (inside workspace v.path)
      then (
        f,
        some (
            tool_stop (record {
              category = workspace_violation;
              message = codes "path escapes the workspace";
            })),
      )
      else by_kind v v.kind f

  go_on : Found × Option Stop → (Found → Found × Option Stop) → Found × Option Stop
  go_on (f, some stop) next = (f, some stop)
  go_on (f, none) next = next f

  -- `filepath.WalkDir`
  pub walk_all : List Visit → Found → Found × Option Stop
  unfolding go_on
  walk_all [] f = (f, none)
  walk_all (v ∷ visits) f = go_on (visit v f) (walk_all visits)

module _ (relative name mode : Bytes) where
  found_payload : Found → Bool → Payload
  found_payload f truncated = plain_payload (join_lines f.lines) truncated (
      field (codes "path") (str relative) (
        field (codes "name") (str name) (
          field (codes "match_mode") (str mode) (
            field (codes "files") (number_field f.files) (
              field (codes "directories") (number_field f.directories)
                (field (codes "matches") (number_field (length f.lines)) end))))))

  found_or_failed : Found × Option Stop → Done Payload
  unfolding found_payload
  found_or_failed (f, none) = done (found_payload f false)
  found_or_failed (f, some limit_reached) = done (found_payload f true)
  found_or_failed (f, some (tool_stop e)) = checked (err e)
  found_or_failed (f, some other_stop) = refuse tool_error (codes "path could not be searched")

module _ (workspace : Bytes) (L : Limits) (S : System) (R : Runtime) where
  max_results_of : ℤ → ℤ
  max_results_of n = if gtb_ℤ n L.max_find_results then pos L.max_find_results else n

  -- `runFind`
  unfoldable pub run_find : Fields → Done Payload
  unfolding found_or_failed walk_all mode_of is_directory max_results_of
  run_find arguments = do
    name ← require_string R arguments (codes "name")
    unless (not (same (trim_space name) [])) invalid_arguments (codes "\"name\" must not be empty")
    let relative = text_or arguments (codes "path") (codes ".")
    let mode = text_or arguments (codes "match_mode") (codes "substring")
    root ← checked (resolve_path workspace S.files relative)
    unless (is_directory (S.files.stat root)) invalid_arguments (codes "path is not a directory")
    found_or_failed relative name mode (
        walk_all workspace R
          (record {
            root = root;
            name = name;
            mode = mode_of mode;
            ignore_case = optional_bool arguments (codes "ignore_case");
            max_results =
                max_results_of
                  (optional_int R.floats arguments (codes "max_results") (pos L.max_find_results));
          })
          (S.walk root) nothing_found)
