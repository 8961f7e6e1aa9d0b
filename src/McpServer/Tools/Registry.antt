-- ===== src/McpServer/Tools/Registry.antt =====
-- internal/mcpserver/tools.go: the tool definitions with their schemas.
pub mod Confined
use groovy_agent.Base.{
  ℕ, ◌*◌, Bool, true, false, Bytes, List, [], ◌∷◌, Option, none, some, same, codes, ℤ, pos,
  if◌then◌else◌,
}
use groovy_agent.Json.{Value, bool, int, str, arr, obj, Items, nil, cons, Fields, end, field}
use groovy_agent.McpServer.Tools.{Limits, Payload, System, Runtime, Done}
use groovy_agent.McpServer.Tools.Reading.{run_pwd, run_ls, run_cat, run_grep}
use groovy_agent.McpServer.Tools.Find.{run_find}
use groovy_agent.McpServer.Tools.Writing.{
  run_touch, run_write_file, run_mkdir, run_copy, run_move, run_remove, run_remove_directory,
}
use groovy_agent.McpServer.Tools.Texts.{run_coreutils}

-- `tool`
pub record Tool : Type 0 where
  pub name : Bytes
  pub description : Bytes
  pub schema : Fields
  pub run : Fields → Done Payload

name_items : List Bytes → Items
name_items [] = nil
name_items (name ∷ names) = cons (str name) (name_items names)

required_field : List Bytes → Fields
unfolding name_items
required_field [] = end
required_field (name ∷ names) = field (codes "required") (arr (name_items (name ∷ names))) end

-- `object`
unfoldable pub object : Fields → List Bytes → Fields
unfolding required_field
object properties required = field (codes "type") (str (codes "object")) (
    field (codes "properties") (obj properties)
      (field (codes "additionalProperties") (bool false) (required_field required)))

-- `stringField`
string_field : Bytes → ℕ → Value
string_field description max_length = obj (
    field (codes "type") (str (codes "string")) (
      field (codes "description") (str description)
        (field (codes "maxLength") (int (pos max_length)) end)))

-- `boolField`
bool_field : Bytes → Value
bool_field description = obj (
    field (codes "type") (str (codes "boolean"))
      (field (codes "description") (str description) end))

-- `intField`
int_field : Bytes → ℕ → ℕ → Value
int_field description minimum maximum = obj (
    field (codes "type") (str (codes "integer")) (
      field (codes "description") (str description) (
        field (codes "minimum") (int (pos minimum))
          (field (codes "maximum") (int (pos maximum)) end))))

-- `pathField`
path_field : Value
unfolding string_field
path_field = string_field (codes "Workspace-relative path.") 512

enum_field : Bytes → List Bytes → Value
unfolding name_items
enum_field description names = obj (
    field (codes "type") (str (codes "string")) (
      field (codes "description") (str description)
        (field (codes "enum") (arr (name_items names)) end)))

only_path : Fields
unfolding path_field
only_path = field (codes "path") path_field end

grep_schema : Fields
unfolding object string_field bool_field int_field path_field
grep_schema =
    object
      (field (codes "path") path_field (
        field (codes "text")
          (string_field
            (codes "Supplied UTF-8 text to search. Provide exactly one of path or text.")
            (12 * 1024))
          (field (codes "pattern") (string_field (codes "Pattern to search for.") 256) (
            field (codes "ignore_case") (bool_field (codes "Case-insensitive search.")) (
              field (codes "fixed") (bool_field (codes "Treat the pattern as literal text."))
                (field (codes "max_matches") (int_field (codes "Maximum matches.") 1 20) end))))))
      (codes "pattern" ∷ [])

cat_schema : Fields
unfolding object int_field path_field enum_field
cat_schema =
    object
      (field (codes "path") path_field (
        field (codes "max_bytes")
          (int_field
            (codes
              "Maximum bytes to read. For view=head/tail this limit is applied before line selection.")
            1 (12 * 1024))
          (field (codes "view")
            (enum_field (codes "Read mode.") (codes "full" ∷ codes "head" ∷ codes "tail" ∷ []))
            (field (codes "lines") (int_field (codes "Number of lines for head/tail mode.") 1 200)
              end))))
      (codes "path" ∷ [])

find_schema : Fields
unfolding object string_field bool_field int_field path_field enum_field
find_schema =
    object
      (field (codes "path") path_field (
        field (codes "name")
          (string_field (codes "Name pattern to match against each entry base name.") 256)
          (field (codes "match_mode")
            (enum_field (codes "Match mode.") (codes "substring" ∷ codes "glob" ∷ []))
            (field (codes "ignore_case") (bool_field (codes "Case-insensitive matching.")) (
              field (codes "max_results") (int_field (codes "Maximum number of results.") 1 200)
                end)))))
      (codes "name" ∷ [])

write_schema : Fields
unfolding object string_field bool_field path_field
write_schema =
    object
      (field (codes "path") path_field (
        field (codes "content") (string_field (codes "UTF-8 content to write.") (64 * 1024)) (
          field (codes "overwrite")
            (bool_field (codes "Replace an existing file (truncate before writing)."))
            (field (codes "append")
              (bool_field (codes "Append to an existing file instead of replacing it.")) end))))
      (codes "path" ∷ codes "content" ∷ [])

move_schema : Bytes → Fields
unfolding object bool_field path_field
move_schema overwrite =
    object
      (field (codes "source") path_field (
        field (codes "destination") path_field
          (field (codes "overwrite") (bool_field overwrite) end)))
      (codes "source" ∷ codes "destination" ∷ [])

args_field : Value
unfolding string_field
args_field = obj (
    field (codes "type") (str (codes "array")) (
      field (codes "description")
        (str (codes "Validated utility arguments; shell syntax is not supported."))
        (field (codes "items") (string_field (codes "Argument.") 4096)
          (field (codes "maxItems") (int (pos 32)) end))))

coreutils_schema : Fields
unfolding object string_field args_field
coreutils_schema =
    object
      (field (codes "command") (string_field (codes "Name of an approved core utility.") 32) (
        field (codes "args") args_field (
          field (codes "stdin")
            (string_field (codes "Optional UTF-8 text supplied to standard input.") (64 * 1024))
            end)))
      (codes "command" ∷ [])

abbrev tool : Bytes → Bytes → Fields → (Fields → Done Payload) → Tool
tool name description schema run = record {
  name = name;
  description = description;
  schema = schema;
  run = run;
}

module _ (workspace : Bytes) (L : Limits) (S : System) (R : Runtime) where
  -- `definitions`
  unfoldable pub definitions : List Tool
  unfolding grep_schema cat_schema find_schema write_schema move_schema coreutils_schema only_path
  definitions =
      tool (codes "pwd")
        (codes "Return the logical workspace path. This does not inspect the host filesystem.")
        (object end []) (run_pwd workspace L S R)
      ∷ tool (codes "ls") (codes "List entries in a workspace directory.") (object only_path [])
          (run_ls workspace L S R)
      ∷ tool (codes "cat") (codes "Print bounded workspace file content to the console output.")
          cat_schema (run_cat workspace L S R)
      ∷ tool (codes "grep") (codes "Search a workspace file or supplied text for matching lines.")
          grep_schema (run_grep workspace L S R)
      ∷ tool (codes "find")
          (codes
            "Recursively find files and directories under a workspace path by name substring or glob.")
          find_schema (run_find workspace L S R)
      ∷ tool (codes "touch")
          (codes "Create an empty workspace file or update its modification time.")
          (object only_path (codes "path" ∷ [])) (run_touch workspace L S R)
      ∷ tool (codes "write_file")
          (codes
            "Write bounded UTF-8 text to a workspace file. Existing files require overwrite:true or append:true.")
          write_schema (run_write_file workspace L S R)
      ∷ tool (codes "mkdir")
          (codes "Create one workspace directory; parent directories must already exist.")
          (object only_path (codes "path" ∷ [])) (run_mkdir workspace L S R)
      ∷ tool (codes "cp") (codes "Copy a bounded regular file within the workspace.")
          (move_schema (codes "Replace an existing regular destination file."))
          (run_copy workspace L S R)
      ∷ tool (codes "mv") (codes "Move or rename a file or empty directory within the workspace.")
          (move_schema (codes "Replace an existing destination.")) (run_move workspace L S R)
      ∷ tool (codes "rm")
          (codes
            "Remove one regular file or symbolic link in the workspace. Directories are not removed.")
          (object only_path (codes "path" ∷ [])) (run_remove workspace L S R)
      ∷ tool (codes "rmdir")
          (codes "Remove one empty workspace directory. Recursive deletion is not supported.")
          (object only_path (codes "path" ∷ [])) (run_remove_directory workspace L S R)
      ∷ tool (codes "coreutils_run")
          (codes
            "Run an approved, read-only text utility on supplied stdin. Shell syntax and file paths are not supported.")
          coreutils_schema (run_coreutils R)
      ∷ []

find_tool : List Tool → Bytes → Option Tool
find_tool [] name = none
find_tool (tool ∷ rest) name = if same tool.name name then some tool else find_tool rest name

-- `s.tools[name]`; no two definitions have one name, so `New` does not fail on them.
unfoldable pub lookup_tool : Bytes → Limits → System → Runtime → Bytes → Option Tool
unfolding find_tool
lookup_tool workspace L S R name = find_tool (definitions workspace L S R) name
