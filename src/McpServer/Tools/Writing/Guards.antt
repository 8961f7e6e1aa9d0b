-- ===== src/McpServer/Tools/Writing/Guards.antt =====
-- What the tools that write, copy and move check before they change a file.
use groovy_agent.Base.{
  ◌≡◌, refl, ◌≤◌, Bool, true, false, not, ◌||◌, ◌&&◌, ltb, arith, length, Bytes, Option, none, some,
  All, ok, codes, inl, inr, ◌⊎◌,
}
use groovy_agent.Json.{Fields}
use groovy_agent.McpServer.Workspace.{
  resolve_touch_path, SysError, not_exist, not_permitted, other_error, FileInfo, FileKind,
  directory, regular, special,
}
use groovy_agent.McpServer.Tools.{
  Limits, Payload, WriteMode, append_content, truncate_content, Effect, opened_for_writing, wrote,
  System, Runtime, unless, optional_bool,
}
use groovy_agent.McpServer.Tools.Changes.{
  first_then, quietly, guarded, attempting, checking, reading,
}
use groovy_agent.McpServer.Tools.Writing.{
  run_write_file, write_to, write_mode, may_write, kind_allows,
}

-- A regular file is there, and the flag for this way of opening it is set.
IsAllowed : Fields → WriteMode → Type 0
IsAllowed arguments append_content = optional_bool arguments (codes "append") ≡ true
IsAllowed arguments truncate_content = optional_bool arguments (codes "overwrite") ≡ true
IsAllowed arguments _ = ⊥

module _ (L : Limits) (S : System) (arguments : Fields) where
  IsAbsent : Bytes → Type 0
  IsAbsent path = (S.files.lstat path ≡ none) × (S.lstat_error path ≡ not_exist)

  IsFile : Option FileInfo → Type 0
  IsFile none = ⊥
  IsFile (some info) = info.kind ≡ regular

  -- What `write_file` may do.
  pub IsGuarded : Effect → Type 0
  unfolding IsAbsent IsAllowed IsFile
  IsGuarded (opened_for_writing mode path) =
      IsAbsent path ⊎ (IsFile (S.files.lstat path) × IsAllowed arguments mode)
  IsGuarded (wrote path content) = length content ≤ L.max_file_write_bytes
  IsGuarded _ = ⊥

  module _ (workspace : Bytes) (R : Runtime) where
    regular-allowed :
        (kind : FileKind) (may_exist : Bool)
        → (kind_allows workspace L S R kind may_exist).0 ≡ ok tt
        → (kind ≡ regular) × (may_exist ≡ true)
    unfolding kind_allows unless
    regular-allowed directory b h = cc
    regular-allowed special b h = cc
    regular-allowed regular true h = (refl, refl)
    regular-allowed regular false h = cc

    if_allowed :
        (info : Option FileInfo) (why : SysError) (may_exist : Bool)
        → (may_write workspace L S R info why may_exist).0 ≡ ok tt
        → ((info ≡ none) × (why ≡ not_exist)) ⊎ (IsFile info × (may_exist ≡ true))
    unfolding may_write IsFile
    if_allowed none not_exist b h = inl (refl, refl)
    if_allowed none not_permitted b h = cc
    if_allowed none other_error b h = cc
    if_allowed (some info) why b h = inr (regular-allowed info.kind b h)

    may_write-none :
        (info : Option FileInfo) (why : SysError) (may_exist : Bool)
        → All IsGuarded (may_write workspace L S R info why may_exist).1
    unfolding may_write kind_allows unless
    may_write-none none not_exist may_exist = tt
    may_write-none none not_permitted may_exist = tt
    may_write-none none other_error may_exist = tt
    may_write-none (some info) why may_exist = kind_allows-none info.kind may_exist
      where
        kind_allows-none :
            (kind : FileKind) (may_exist : Bool)
            → All IsGuarded (kind_allows workspace L S R kind may_exist).1
        kind_allows-none directory b = tt
        kind_allows-none regular true = tt
        kind_allows-none regular false = tt
        kind_allows-none special b = tt

    flagged :
        (append_mode overwrite : Bool)
        → optional_bool arguments (codes "append") ≡ append_mode
        → optional_bool arguments (codes "overwrite") ≡ overwrite
        → (append_mode || overwrite) ≡ true
        → IsAllowed arguments (write_mode workspace L S R append_mode)
    unfolding IsAllowed write_mode
    flagged true overwrite e f h = e
    flagged false true e f h = f
    flagged false false e f h = cc

    opened :
        (append_mode overwrite : Bool) (path : Bytes)
        → optional_bool arguments (codes "append") ≡ append_mode
        → optional_bool arguments (codes "overwrite") ≡ overwrite
        → ((S.files.lstat path ≡ none) × (S.lstat_error path ≡ not_exist))
          ⊎ (IsFile (S.files.lstat path) × ((append_mode || overwrite) ≡ true))
        → IsGuarded (opened_for_writing (write_mode workspace L S R append_mode) path)
    unfolding IsGuarded IsAbsent
    opened append_mode overwrite path e f (inl absent) = inl absent
    opened append_mode overwrite path e f (inr (file, set)) =
        inr (file, flagged append_mode overwrite e f set)

    write_to-IsGuarded :
        (relative content : Bytes) (append_mode overwrite : Bool)
        → optional_bool arguments (codes "append") ≡ append_mode
        → optional_bool arguments (codes "overwrite") ≡ overwrite
        → length content ≤ L.max_file_write_bytes
        → All IsGuarded (write_to workspace L S R relative content append_mode overwrite).1
    unfolding write_to IsGuarded
    write_to-IsGuarded relative content append_mode overwrite e f short =
        let P = IsGuarded in
        checking P (resolve_touch_path workspace S.files relative) _ λ path g.
          first_then P
            (may_write workspace L S R (S.files.lstat path) (S.lstat_error path)
              (append_mode || overwrite))
            _ (may_write-none (S.files.lstat path) (S.lstat_error path) (append_mode || overwrite))
            λ u h.
              attempting P S (opened_for_writing (write_mode workspace L S R append_mode) path) _ _
                (opened append_mode overwrite path e f (
                  if_allowed (S.files.lstat path) (S.lstat_error path) (append_mode || overwrite)
                    h))
                (attempting P S (wrote path content) _ _ short
                  (quietly P {B = Payload} (not (S.close_fails path)) _ _ _ tt))

-- Whatever the arguments and the operating system, `write_file` changes nothing but in these two
-- ways: it opens a path where nothing is, or where a regular file is and the argument is set that
-- allows this way of opening it; and it writes a content no longer than the limit.
pub run_write_file-IsGuarded :
    (workspace : Bytes) (L : Limits) (S : System) (R : Runtime) (arguments : Fields)
    → All (IsGuarded L S arguments) (run_write_file workspace L S R arguments).1
unfolding run_write_file
run_write_file-IsGuarded workspace L S R arguments =
    let P = IsGuarded L S arguments in
    let append_mode = optional_bool arguments (codes "append") in
    let overwrite = optional_bool arguments (codes "overwrite") in
    reading P R arguments _ _ λ relative. reading P R arguments _ _ λ content.
      guarded P {B = Payload} (not (ltb L.max_file_write_bytes (length content))) _ _ _ λ short.
        quietly P {B = Payload} (not (append_mode && overwrite)) _ _ _ (
          write_to-IsGuarded L S arguments workspace R relative content append_mode overwrite refl
            refl (ground arith))
