-- ===== src/McpServer/Tools/Writing.antt =====
-- internal/mcpserver/tools.go: the tools that change the workspace.
pub mod Confined
pub mod Guards
use groovy_agent.Base.{
  ℕ, Bool, true, false, not, ◌&&◌, ◌||◌, Bytes, List, [], ◌∷◌, Option, none, some, same, codes,
  length, ltb, if◌then◌else◌, Result, ok, err, ◌*◌,
}
use groovy_agent.Json.{Value, bool, str, Fields, end, field}
use groovy_agent.McpProto.{
  Category, invalid_arguments, workspace_violation, permission_denied, tool_error,
}
use groovy_agent.McpServer.Workspace.{
  is_regular_kind, is_directory_kind, is_directory, SysError, not_exist, FileInfo, FileKind,
  directory, regular, special, ToolError, resolve_path, resolve_touch_path, OpenFile,
}
use groovy_agent.McpServer.Tools.{
  Limits, Payload, Fault, WriteMode, keep_content, append_content, truncate_content, Effect,
  opened_for_writing, wrote, copied, retimed, made_directory, moved, removed, Refusal, exists,
  not_allowed, other_refusal, System, Runtime, Done, ◌>>=◌, ◌>>◌, checked, refuse, done, unless,
  attempt, always, optional_bool, require_string, number_field, plain_payload,
}

-- `maxCopyBytes`
abbrev max_copy_bytes : ℕ
max_copy_bytes = 1024 * 1024

abbrev path_payload : Bytes → Payload
path_payload path = plain_payload path false (field (codes "path") (str path) end)

abbrev moved_payload : Bytes → Bytes → Payload
moved_payload source destination =
    plain_payload destination false
      (field (codes "source") (str source) (field (codes "destination") (str destination) end))

is_regular_file : Option FileInfo → Bool
unfolding is_regular_kind
is_regular_file none = false
is_regular_file (some info) = is_regular_kind info.kind

is_copyable : Option FileInfo → Bool
unfolding is_regular_kind
is_copyable none = false
is_copyable (some info) = is_regular_kind info.kind && not (ltb max_copy_bytes info.size)

is_there : Option FileInfo → Bool
is_there none = false
is_there (some info) = true

module _ (workspace : Bytes) (L : Limits) (S : System) (R : Runtime) where
  -- `runTouch`
  unfoldable pub run_touch : Fields → Done Payload
  run_touch arguments = do
    relative ← require_string R arguments (codes "path")
    path ← checked (resolve_touch_path workspace S.files relative)
    attempt S (opened_for_writing keep_content path)
        (always permission_denied (codes "file could not be touched"))
    unless (not (S.close_fails path)) tool_error (codes "file could not be touched")
    attempt S (retimed path) (always tool_error (codes "file timestamp could not be updated"))
    done (path_payload relative)

  mkdir_error : Refusal → ToolError
  mkdir_error exists = record {
    category = invalid_arguments;
    message = codes "path already exists";
  }
  mkdir_error _ = record { category = tool_error; message = codes "directory could not be created" }

  -- `runMkdir`
  unfoldable pub run_mkdir : Fields → Done Payload
  unfolding mkdir_error
  run_mkdir arguments = do
    relative ← require_string R arguments (codes "path")
    path ← checked (resolve_touch_path workspace S.files relative)
    attempt S (made_directory path) mkdir_error
    done (path_payload relative)

  input_file : Result SysError OpenFile → Done OpenFile
  input_file (ok file) = done file
  input_file (err why) = refuse tool_error (codes "source could not be read")

  -- `runCopy`
  unfoldable pub run_copy : Fields → Done Payload
  unfolding is_copyable is_there input_file
  run_copy arguments = do
    source ← require_string R arguments (codes "source")
    destination ← require_string R arguments (codes "destination")
    source_path ← checked (resolve_path workspace S.files source)
    unless (is_copyable (S.files.stat source_path)) invalid_arguments
        (codes "source must be a regular file no larger than 1 MiB")
    destination_path ← checked (resolve_touch_path workspace S.files destination)
    unless (not (same source_path destination_path)) invalid_arguments
        (codes "source and destination must differ")
    unless
        (not (is_there (S.files.stat destination_path))
          || optional_bool arguments (codes "overwrite"))
        invalid_arguments (codes "destination already exists; set overwrite to replace it")
    input ← input_file (S.files.open_file source_path)
    attempt S (opened_for_writing truncate_content destination_path)
        (always tool_error (codes "destination could not be written"))
    attempt S (copied source_path destination_path)
        (always tool_error (codes "file could not be copied"))
    unless (not (input.read_fails || S.close_fails destination_path)) tool_error
        (codes "file could not be copied")
    done (moved_payload source destination)

  -- A path that a tool may move or remove: any failure to resolve it is one error.
  below_workspace : Bytes → Result ToolError Bytes → Done Bytes
  below_workspace message (err e) = refuse workspace_violation message
  below_workspace message (ok path) =
      if same path workspace then refuse workspace_violation message else done path

  -- `runMove`
  unfoldable pub run_move : Fields → Done Payload
  unfolding below_workspace is_there
  run_move arguments = do
    source ← require_string R arguments (codes "source")
    destination ← require_string R arguments (codes "destination")
    source_path ←
        below_workspace (codes "source path is not allowed") (resolve_path workspace S.files source)
    destination_path ← checked (resolve_touch_path workspace S.files destination)
    unless
        (not (is_there (S.files.lstat destination_path))
          || optional_bool arguments (codes "overwrite"))
        invalid_arguments (codes "destination already exists; set overwrite to replace it")
    attempt S (moved source_path destination_path)
        (always tool_error (codes "path could not be moved"))
    done (moved_payload source destination)

  -- `runRemove`
  unfoldable pub run_remove : Fields → Done Payload
  unfolding below_workspace is_regular_file
  run_remove arguments = do
    relative ← require_string R arguments (codes "path")
    path ← below_workspace (codes "path is not allowed") (resolve_path workspace S.files relative)
    unless (is_regular_file (S.files.lstat path)) invalid_arguments
        (codes "path is not a regular file")
    attempt S (removed path) (always tool_error (codes "file could not be removed"))
    done (path_payload relative)

  -- `runRemoveDirectory`
  unfoldable pub run_remove_directory : Fields → Done Payload
  unfolding below_workspace is_directory
  run_remove_directory arguments = do
    relative ← require_string R arguments (codes "path")
    path ← below_workspace (codes "path is not allowed") (resolve_path workspace S.files relative)
    unless (is_directory (S.files.stat path)) invalid_arguments (codes "path is not a directory")
    attempt S (removed path) (always invalid_arguments (codes "directory must be empty"))
    done (path_payload relative)

  kind_allows : FileKind → Bool → Done (Unit {0})
  kind_allows directory may_exist =
      refuse invalid_arguments (codes "path is a directory, not a file")
  kind_allows regular may_exist =
      unless may_exist invalid_arguments (codes "file exists; set overwrite or append explicitly")
  kind_allows special may_exist = refuse invalid_arguments (codes "path is not a regular file")

  if_missing : SysError → Done (Unit {0})
  if_missing not_exist = done tt
  if_missing _ = refuse tool_error (codes "path could not be inspected")

  may_write : Option FileInfo → SysError → Bool → Done (Unit {0})
  unfolding kind_allows if_missing
  may_write none why may_exist = if_missing why
  may_write (some info) why may_exist = kind_allows info.kind may_exist

  write_mode : Bool → WriteMode
  write_mode true = append_content
  write_mode false = truncate_content

  write_error : Refusal → ToolError
  write_error not_allowed = record {
    category = permission_denied;
    message = codes "file could not be written";
  }
  write_error _ = record { category = tool_error; message = codes "file could not be written" }

  -- The writing part of `runWriteFile`, behind the checks of its arguments.
  write_to : Bytes → Bytes → Bool → Bool → Done Payload
  unfolding may_write write_mode write_error
  write_to relative content append_mode overwrite = do
    path ← checked (resolve_touch_path workspace S.files relative)
    may_write (S.files.lstat path) (S.lstat_error path) (append_mode || overwrite)
    attempt S (opened_for_writing (write_mode append_mode) path) write_error
    attempt S (wrote path content) (always tool_error (codes "file could not be written"))
    unless (not (S.close_fails path)) tool_error (codes "file could not be written")
    done (
        plain_payload relative false (
          field (codes "path") (str relative) (
            field (codes "bytes") (number_field (length content)) (
              field (codes "append") (bool append_mode)
                (field (codes "overwrite") (bool overwrite) end)))))

  -- `runWriteFile`
  unfoldable pub run_write_file : Fields → Done Payload
  unfolding write_to
  run_write_file arguments = do
    relative ← require_string R arguments (codes "path")
    content ← require_string R arguments (codes "content")
    unless (not (ltb L.max_file_write_bytes (length content))) invalid_arguments
        (codes "content exceeds the allowed size")
    unless
        (not
          (optional_bool arguments (codes "append") && optional_bool arguments (codes "overwrite")))
        invalid_arguments (codes "set only one of overwrite or append")
    write_to relative content (optional_bool arguments (codes "append"))
        (optional_bool arguments (codes "overwrite"))
