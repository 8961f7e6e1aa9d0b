-- ===== src/McpServer/Workspace.antt =====
-- internal/mcpserver/workspace.go: the paths and files of the workspace. The operating system's
-- file system is a parameter.
pub mod Inside
pub mod Reads
use groovy_agent.Base.{
  ℕ, ◌+◌, ◌-◌, Bool, true, false, not, ◌&&◌, ◌||◌, Bytes, List, [], ◌∷◌, ◌++◌, Option, none, some,
  length, take, drop, same, ltb, leb, ◌==◌, codes, if◌then◌else◌, Result, ok, err, ◌>>=◌, ℤ, pos,
  negsuc,
}
use groovy_agent.Strings.{trim_space, has_prefix, contains_byte}
use groovy_agent.Paths.{clean, is_abs, dot}
use groovy_agent.Paths.Clean.{climbs}
use groovy_agent.McpProto.{
  Category, invalid_arguments, workspace_violation, permission_denied, tool_error,
}

-- What `os.IsNotExist` and `os.IsPermission` tell apart.
pub data SysError : Type 0 where
  not_exist not_permitted other_error : SysError

pub data FileKind : Type 0 where
  directory regular special : FileKind

-- `os.FileInfo`
pub record FileInfo : Type 0 where
  pub kind : FileKind
  pub size : ℕ

-- An opened file: what it holds when it is read, and whether seeking and reading fail.
pub record OpenFile : Type 0 where
  pub content : Bytes
  pub seek_fails : Bool
  pub read_fails : Bool

-- `filepath.EvalSymlinks`, `os.Stat`, `os.Lstat` and `os.Open`
pub record FileSystem : Type 0 where
  pub eval_symlinks : Bytes → Result SysError Bytes
  pub stat : Bytes → Option FileInfo
  pub lstat : Bytes → Option FileInfo
  pub open_file : Bytes → Result SysError OpenFile

-- `toolError`
pub record ToolError : Type 0 where
  pub category : Category
  pub message : Bytes

-- `fail`
abbrev fail {ℓ} : {A : Type ℓ} → Category → Bytes → Result ToolError A
fail category message = err (record { category = category; message = message })

-- `filepath.Join` of two elements
unfoldable pub join_path : Bytes → Bytes → Bytes
join_path [] [] = []
join_path [] (c ∷ below) = clean (c ∷ below)
join_path (d ∷ dir) [] = clean (d ∷ dir)
join_path (d ∷ dir) (c ∷ below) = clean ((d ∷ dir) ++ (b'/' ∷ c ∷ below))

-- A path up to its last slash, and the rest.
attach : ℕ → Bytes × Bytes → Bytes × Bytes
attach c ([], base) = if c == b'/' then (c ∷ [], base) else ([], c ∷ base)
attach c (d ∷ dir, base) = (c ∷ d ∷ dir, base)

split_last : Bytes → Bytes × Bytes
unfolding attach
split_last [] = ([], [])
split_last (c ∷ path) = attach c (split_last path)

-- `filepath.Dir`
unfoldable pub dir_name : Bytes → Bytes
unfolding split_last clean
dir_name path = clean (split_last path).0

or_slash : Bytes → Bytes
or_slash [] = b'/' ∷ []
or_slash (c ∷ name) = c ∷ name

strip_slashes : Bytes → Bytes
strip_slashes [] = []
strip_slashes (c ∷ path) =
    let rest = strip_slashes path in if same rest [] && c == b'/' then [] else c ∷ rest

-- `filepath.Base`
unfoldable pub base_name : Bytes → Bytes
unfolding split_last or_slash strip_slashes
base_name [] = dot
base_name (c ∷ path) = or_slash (split_last (strip_slashes (c ∷ path))).1

unfoldable pub is_regular_kind : FileKind → Bool
is_regular_kind regular = true
is_regular_kind _ = false

pub is_directory_kind : FileKind → Bool
is_directory_kind directory = true
is_directory_kind _ = false

-- The answer of `os.Stat`, and whether it is a directory.
unfoldable pub is_directory : Option FileInfo → Bool
unfolding is_directory_kind
is_directory none = false
is_directory (some info) = is_directory_kind info.kind

-- Why the server does not start.
pub data StartError : Type 0 where
  workspace_empty workspace_unresolved workspace_missing workspace_no_directory : StartError

if_directory : Bytes → FileKind → Result StartError Bytes
if_directory path directory = ok path
if_directory path _ = err workspace_no_directory

stated_root : Bytes → Option FileInfo → Result StartError Bytes
unfolding if_directory
stated_root path none = err workspace_no_directory
stated_root path (some info) = if_directory path info.kind

root_of : FileSystem → Result SysError Bytes → Result StartError Bytes
unfolding stated_root
root_of F (err why) = err workspace_missing
root_of F (ok path) = stated_root path (F.stat path)

absolute_root : FileSystem → Option Bytes → Result StartError Bytes
unfolding root_of
absolute_root F none = err workspace_unresolved
absolute_root F (some path) = root_of F (F.eval_symlinks path)

-- `canonicalWorkspace`, with `filepath.Abs`
unfoldable pub canonical_workspace :
    (Bytes → Option Bytes) → FileSystem → Bytes → Result StartError Bytes
unfolding absolute_root
canonical_workspace make_absolute F path =
    if same (trim_space path) [] then err workspace_empty else absolute_root F (make_absolute path)

module _ (workspace : Bytes) where
  -- `Server.inside`
  unfoldable pub inside : Bytes → Bool
  unfolding same has_prefix
  inside path = if same path workspace then true else has_prefix path (workspace ++ b'/' ∷ [])

  module _ (F : FileSystem) where
    missing_or_broken : SysError → Result ToolError Bytes
    missing_or_broken not_exist = fail tool_error (codes "path does not exist")
    missing_or_broken not_permitted = fail permission_denied (codes "path is not accessible")
    missing_or_broken other_error =
        fail workspace_violation (codes "path could not be resolved inside the workspace")

    check_resolved : Result SysError Bytes → Result ToolError Bytes
    unfolding missing_or_broken
    check_resolved (err why) = missing_or_broken why
    check_resolved (ok resolved) =
        if inside resolved
        then ok resolved
        else fail workspace_violation (codes "path resolves outside the workspace")

    -- `Server.resolvePath`
    unfoldable pub resolve_path : Bytes → Result ToolError Bytes
    unfolding check_resolved inside join_path climbs clean contains_byte is_abs trim_space
    resolve_path relative =
        if same (trim_space relative) []
        then fail invalid_arguments (codes "path must not be empty")
        else if contains_byte relative 0
        then fail invalid_arguments (codes "path contains an invalid character")
        else if is_abs relative
            || has_prefix relative (codes "/")
            || has_prefix relative (b'\\' ∷ [])
        then fail workspace_violation
            (codes "absolute paths are not allowed; use workspace-relative paths")
        else if climbs (clean relative)
        then fail workspace_violation (codes "path escapes the workspace")
        else if not (inside (clean (join_path workspace (clean relative))))
        then fail workspace_violation (codes "path escapes the workspace")
        else check_resolved (F.eval_symlinks (clean (join_path workspace (clean relative))))

    is_missing_as : Category → Bytes → Bool
    is_missing_as tool_error message = same message (codes "path does not exist")
    is_missing_as _ message = false

    in_kind : FileKind → Bytes → Bytes → Result ToolError Bytes
    in_kind directory parent name =
        if inside (join_path parent name)
        then ok (join_path parent name)
        else fail workspace_violation (codes "path escapes the workspace")
    in_kind _ parent name = fail invalid_arguments (codes "parent directory is not available")

    in_directory : Option FileInfo → Bytes → Bytes → Result ToolError Bytes
    unfolding in_kind
    in_directory none parent name =
        fail invalid_arguments (codes "parent directory is not available")
    in_directory (some info) parent name = in_kind info.kind parent name

    -- The new file of `resolveTouchPath`, beneath a directory that exists.
    new_path : Bytes → Result ToolError Bytes
    unfolding in_directory resolve_path dir_name base_name
    new_path relative =
        let cleaned = clean relative in
        if same (trim_space relative) [] || contains_byte relative 0 || is_abs relative
        then fail workspace_violation (codes "path is not allowed")
        else if same cleaned dot || climbs cleaned
        then fail workspace_violation (codes "path escapes the workspace")
        else resolve_path (dir_name cleaned) >>= λ parent.
            in_directory (F.stat parent) parent (base_name cleaned)

    or_new : Bytes → Result ToolError Bytes → Result ToolError Bytes
    unfolding is_missing_as new_path
    or_new relative (ok path) = ok path
    or_new relative (err e) =
        if is_missing_as e.category e.message then new_path relative else err e

    -- `Server.resolveTouchPath`
    unfoldable pub resolve_touch_path : Bytes → Result ToolError Bytes
    unfolding or_new
    resolve_touch_path relative = or_new relative (resolve_path relative)

    -- The checks in front of a read: the file is regular and can be opened.
    opened : Result SysError OpenFile → Result ToolError OpenFile
    opened (ok file) = ok file
    opened (err not_permitted) = fail permission_denied (codes "file is not readable")
    opened (err _) = fail tool_error (codes "file could not be opened")

    only_regular : FileKind → FileInfo → Result ToolError FileInfo
    only_regular directory info = fail invalid_arguments (codes "path is a directory, not a file")
    only_regular regular info = ok info
    only_regular special info = fail invalid_arguments (codes "path is not a regular file")

    inspected : Option FileInfo → Result ToolError FileInfo
    unfolding only_regular
    inspected none = fail tool_error (codes "file could not be inspected")
    inspected (some info) = only_regular info.kind info

    open_regular : Bytes → Result ToolError (FileInfo × OpenFile)
    unfolding opened inspected
    open_regular relative = resolve_path relative >>= λ path.
        inspected (F.lstat path) >>= λ info. opened (F.open_file path) >>= λ file. ok (info, file)

    -- `limit <= 0 || limit > max` gives the server's own limit.
    unfoldable pub read_limit : ℕ → ℤ → ℕ
    read_limit most (pos n) = if n == 0 || ltb most n then most else n
    read_limit most (negsuc n) = most

    -- `io.ReadFull` into a buffer of one byte more than the limit, from an offset.
    bounded : Bool → Bytes → ℕ → Bytes × Bool
    bounded cut bytes limit =
        if ltb limit (length bytes) then (take limit bytes, true) else (bytes, cut)

    read_at : Bool → ℕ → ℕ → OpenFile → Result ToolError (Bytes × Bool)
    unfolding bounded
    read_at cut offset limit file =
        if file.read_fails
        then fail tool_error (codes "file could not be read")
        else ok (bounded cut (take (limit + 1) (drop offset file.content)) limit)

    -- `Server.readFile`, with `limits.MaxFileReadBytes`
    unfoldable pub read_file : ℕ → Bytes → ℤ → Result ToolError (Bytes × Bool)
    unfolding open_regular read_at read_limit
    read_file most relative limit = open_regular relative >>= λ opened_file.
        read_at false 0 (read_limit most limit) opened_file.1

    sought : ℕ → FileInfo → OpenFile → Result ToolError (Bytes × Bool)
    unfolding read_at
    sought limit info file =
        if file.seek_fails
        then fail tool_error (codes "file could not be read")
        else read_at (ltb limit info.size) (info.size - limit) limit file

    -- `Server.readFileTail`: the offset is the size less the limit, and 0 for a smaller file.
    unfoldable pub read_file_tail : ℕ → Bytes → ℤ → Result ToolError (Bytes × Bool)
    unfolding open_regular sought read_limit
    read_file_tail most relative limit = open_regular relative >>= λ opened_file.
        sought (read_limit most limit) opened_file.0 opened_file.1
