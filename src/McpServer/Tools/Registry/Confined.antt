-- ===== src/McpServer/Tools/Registry/Confined.antt =====
-- No tool of the registry changes anything outside the workspace.
use mathlib.Core.Path.{subst}
use groovy_agent.Base.{◌≡◌, Bytes, List, [], ◌∷◌, some, same, All, Bool-cases, inl, inr, some-eq}
use groovy_agent.Json.{Fields}
use groovy_agent.McpServer.Tools.{Limits, System, Runtime}
use groovy_agent.McpServer.Tools.Changes.{Changes}
use groovy_agent.McpServer.Tools.Writing.Confined.{
  IsConfined, run_touch-Confines, run_mkdir-Confines, run_copy-Confines, run_move-Confines,
  run_remove-Confines, run_remove_directory-Confines, run_write_file-Confines,
}
use groovy_agent.McpServer.Tools.Registry.{Tool, definitions, find_tool, lookup_tool}
use groovy_agent.McpServer.Tools.Reading.Quiet.{
  run_pwd-none, run_ls-none, run_cat-none, run_grep-none,
}
use groovy_agent.McpServer.Tools.Find.Quiet.{run_find-none}
use groovy_agent.McpServer.Tools.Texts.Quiet.{run_coreutils-none}

module _ (workspace : Bytes) (L : Limits) (S : System) (R : Runtime) where
  RunsInside : Tool → Type 0
  RunsInside tool = (arguments : Fields) → Changes (IsConfined workspace) (tool.run arguments)

  all_within : All RunsInside (definitions workspace L S R)
  unfolding RunsInside definitions
  all_within =
      let P = IsConfined workspace in
      (
        run_pwd-none P workspace L S R,
        (
          run_ls-none P workspace L S R,
          (
            run_cat-none P workspace L S R,
            (
              run_grep-none P workspace L S R,
              (
                run_find-none P workspace L S R,
                (
                  run_touch-Confines workspace S R L,
                  (
                    run_write_file-Confines workspace S R L,
                    (
                      run_mkdir-Confines workspace S R L,
                      (
                        run_copy-Confines workspace S R L,
                        (
                          run_move-Confines workspace S R L,
                          (
                            run_remove-Confines workspace S R L,
                            (
                              run_remove_directory-Confines workspace S R L,
                              (run_coreutils-none P R, tt),
                            ),
                          ),
                        ),
                      ),
                    ),
                  ),
                ),
              ),
            ),
          ),
        ),
      )

find_tool-All :
    (P : Tool → Type 0) (tools : List Tool) (name : Bytes) (tool : Tool)
    → All P tools
    → find_tool tools name ≡ some tool
    → P tool
unfolding find_tool
find_tool-All P [] name tool all h = cc
find_tool-All P (first ∷ rest) name tool all h = elim (Bool-cases (same first.name name)) [
  | inl e ↦ subst P (some-eq (rw e at h)) all.0
  | inr e ↦ find_tool-All P rest name tool all.1 (rw e at h)
]

-- Whatever the arguments and however the operating system answers, each change that a tool of the
-- server asks for is of paths that are the workspace or lie beneath it.
pub lookup_tool-IsConfined :
    (workspace : Bytes) (L : Limits) (S : System) (R : Runtime) (name : Bytes) (tool : Tool)
    (arguments : Fields)
    → lookup_tool workspace L S R name ≡ some tool
    → All (IsConfined workspace) (tool.run arguments).1
unfolding lookup_tool RunsInside
lookup_tool-IsConfined workspace L S R name tool arguments h =
    find_tool-All (RunsInside workspace L S R) (definitions workspace L S R) name tool
      (all_within workspace L S R) h arguments
