-- ===== src/McpServer/Tools/Writing/Confined.antt =====
-- The tools that change the workspace change nothing outside it.
use groovy_agent.Base.{
  ◌≡◌, Bool, not, ◌||◌, ◌&&◌, ltb, length, Bytes, Option, none, some, same, All, Result, ok, err,
  Bool-cases, codes, inl, inr,
}
use groovy_agent.Json.{Fields}
use groovy_agent.McpServer.Workspace.{
  ToolError, resolve_path, resolve_touch_path, SysError, not_exist, not_permitted, other_error,
  OpenFile, FileInfo, FileKind, directory, regular, special,
}
use groovy_agent.McpServer.Workspace.Inside.{
  IsInside, resolve_path-Resolved, resolve_touch_path-IsInside,
}
use groovy_agent.McpServer.Tools.{
  Limits, Payload, Effect, opened_for_writing, wrote, copied, retimed, made_directory, moved,
  removed, System, Runtime, Done, ◌>>=◌, checked, optional_bool,
}
use groovy_agent.McpServer.Tools.Changes.{
  first_then, both, quietly, attempting, checking, reading, unless-none,
}
use groovy_agent.McpServer.Tools.Writing.{
  run_touch, run_mkdir, run_copy, run_move, run_remove, run_remove_directory, run_write_file,
  write_to, below_workspace, input_file, may_write, kind_allows, is_there,
}

-- Every path of a change is the workspace or lies beneath it.
abbrev pub IsConfined : Bytes → Effect → Type 0
IsConfined workspace (opened_for_writing mode path) = IsInside workspace path
IsConfined workspace (wrote path content) = IsInside workspace path
IsConfined workspace (copied source destination) =
    IsInside workspace source × IsInside workspace destination
IsConfined workspace (retimed path) = IsInside workspace path
IsConfined workspace (made_directory path) = IsInside workspace path
IsConfined workspace (moved source destination) =
    IsInside workspace source × IsInside workspace destination
IsConfined workspace (removed path) = IsInside workspace path

module _ (workspace : Bytes) (S : System) where
  abbrev Within : Effect → Type 0
  Within = IsConfined workspace

  abbrev Confines {ℓ} : {A : Type ℓ} → Done A → Type 0
  Confines d = All Within d.1

  -- A path to write to, and what follows it.
  touching {κ} :
      {B : Type κ} (relative : Bytes) (next : Bytes → Done B)
      → ((path : Bytes) → IsInside workspace path → Confines (next path))
      → Confines (checked (resolve_touch_path workspace S.files relative) >>= next)
  touching relative next k =
      checking Within (resolve_touch_path workspace S.files relative) next
        (λ path e. k path (resolve_touch_path-IsInside workspace S.files relative path e).1)

  resolving {κ} :
      {B : Type κ} (relative : Bytes) (next : Bytes → Done B)
      → ((path : Bytes) → IsInside workspace path → Confines (next path))
      → Confines (checked (resolve_path workspace S.files relative) >>= next)
  resolving relative next k =
      checking Within (resolve_path workspace S.files relative) next
        (λ path e. k path (resolve_path-Resolved workspace S.files relative path e).place)

  module _ (R : Runtime) (L : Limits) where
    pub run_touch-Confines : (arguments : Fields) → Confines (run_touch workspace L S R arguments)
    unfolding run_touch
    run_touch-Confines arguments = reading Within R arguments _ _ λ relative.
        touching relative _ λ path place.
          attempting Within S _ _ _ place
            (quietly Within _ _ _ _ (attempting Within S _ _ _ place tt))

    pub run_mkdir-Confines : (arguments : Fields) → Confines (run_mkdir workspace L S R arguments)
    unfolding run_mkdir
    run_mkdir-Confines arguments =
        reading Within R arguments _ _
          λ relative. touching relative _ λ path place. attempting Within S _ _ _ place tt

    input_file-none : (r : Result SysError OpenFile) → Confines (input_file workspace L S R r)
    unfolding input_file
    input_file-none (ok file) = tt
    input_file-none (err why) = tt

    opening {κ} :
        {B : Type κ} (path : Bytes) (next : OpenFile → Done B)
        → ((input : OpenFile) → Confines (next input))
        → Confines (input_file workspace L S R (S.files.open_file path) >>= next)
    opening path next k =
        first_then Within (input_file workspace L S R (S.files.open_file path)) next
          (input_file-none (S.files.open_file path)) (λ input e. k input)

    pub run_copy-Confines : (arguments : Fields) → Confines (run_copy workspace L S R arguments)
    unfolding run_copy
    run_copy-Confines arguments = reading Within R arguments _ _ λ source.
        reading Within R arguments _ _ λ destination. resolving source _ λ source_path from.
          quietly Within _ _ _ _ (
            touching destination _ λ path to.
              quietly Within {B = Payload} (not (same source_path path)) _ _ _ (
                quietly Within {B = Payload}
                  (not (is_there (S.files.stat path))
                    || optional_bool arguments (codes "overwrite"))
                  _ _ _
                  (opening source_path _ λ input. attempting Within S _ _ _ to (
                    attempting Within S (copied source_path path) _ _ (from, to)
                      (quietly Within {B = Payload} (not (input.read_fails || S.close_fails path)) _
                        _ _ tt)))))

    below_workspace-none :
        (message : Bytes) (r : Result ToolError Bytes)
        → Confines (below_workspace workspace L S R message r)
    unfolding below_workspace
    below_workspace-none message (err e) = tt
    below_workspace-none message (ok path) = elim (Bool-cases (same path workspace)) [
      | inl e ↦ rw e tt
      | inr e ↦ rw e tt
    ]

    below_workspace-ok :
        (message : Bytes) (r : Result ToolError Bytes) (path : Bytes)
        → (below_workspace workspace L S R message r).0 ≡ ok path
        → r ≡ ok path
    unfolding below_workspace
    below_workspace-ok message (err e) path h = cc
    below_workspace-ok message (ok found) path h = elim (Bool-cases (same found workspace)) [
      | inl e ↦ cc (rw e at h)
      | inr e ↦ cc (rw e at h)
    ]

    descending {κ} :
        {B : Type κ} (message relative : Bytes) (next : Bytes → Done B)
        → ((path : Bytes) → IsInside workspace path → Confines (next path))
        → Confines (
            below_workspace workspace L S R message (resolve_path workspace S.files relative)
            >>= next)
    descending message relative next k =
        first_then Within _ next
          (below_workspace-none message (resolve_path workspace S.files relative))
          (λ path e.
            k path
              (resolve_path-Resolved workspace S.files relative path
                (below_workspace-ok message _ path e)).place)

    pub run_move-Confines : (arguments : Fields) → Confines (run_move workspace L S R arguments)
    unfolding run_move
    run_move-Confines arguments = reading Within R arguments _ _ λ source.
        reading Within R arguments _ _ λ destination. descending _ source _ λ source_path from.
          touching destination _ λ path to.
            quietly Within _ _ _ _ (attempting Within S (moved source_path path) _ _ (from, to) tt)

    pub run_remove-Confines : (arguments : Fields) → Confines (run_remove workspace L S R arguments)
    unfolding run_remove
    run_remove-Confines arguments = reading Within R arguments _ _ λ relative.
        descending _ relative _
          λ path place. quietly Within _ _ _ _ (attempting Within S _ _ _ place tt)

    pub run_remove_directory-Confines :
        (arguments : Fields) → Confines (run_remove_directory workspace L S R arguments)
    unfolding run_remove_directory
    run_remove_directory-Confines arguments = reading Within R arguments _ _ λ relative.
        descending _ relative _
          λ path place. quietly Within _ _ _ _ (attempting Within S _ _ _ place tt)

    may_write-none :
        (info : Option FileInfo) (why : SysError) (may_exist : Bool)
        → Confines (may_write workspace L S R info why may_exist)
    unfolding may_write
    may_write-none none not_exist may_exist = tt
    may_write-none none not_permitted may_exist = tt
    may_write-none none other_error may_exist = tt
    may_write-none (some info) why may_exist = kind_allows-none info.kind may_exist
      where
        kind_allows-none :
            (kind : FileKind) (may_exist : Bool)
            → Confines (kind_allows workspace L S R kind may_exist)
        kind_allows-none directory b = tt
        kind_allows-none regular b = unless-none Within b _ _
        kind_allows-none special b = tt

    write_to-Confines :
        (relative content : Bytes) (append_mode overwrite : Bool)
        → Confines (write_to workspace L S R relative content append_mode overwrite)
    unfolding write_to
    write_to-Confines relative content append_mode overwrite = touching relative _ λ path place.
        both Within
          (may_write workspace L S R (S.files.lstat path) (S.lstat_error path)
            (append_mode || overwrite))
          _ (may_write-none (S.files.lstat path) (S.lstat_error path) (append_mode || overwrite))
          (attempting Within S _ _ _ place (
            attempting Within S (wrote path content) _ _ place
              (quietly Within {B = Payload} (not (S.close_fails path)) _ _ _ tt)))

    pub run_write_file-Confines :
        (arguments : Fields) → Confines (run_write_file workspace L S R arguments)
    unfolding run_write_file
    run_write_file-Confines arguments =
        let append_mode = optional_bool arguments (codes "append") in
        let overwrite = optional_bool arguments (codes "overwrite") in
        reading Within R arguments _ _ λ relative. reading Within R arguments _ _ λ content.
          quietly Within {B = Payload} (not (ltb L.max_file_write_bytes (length content))) _ _ _ (
            quietly Within {B = Payload} (not (append_mode && overwrite)) _ _ _
              (write_to-Confines relative content append_mode overwrite))
