-- ===== src/McpServer/Tools/Find/Quiet.antt =====
-- `find` asks for no change.
use groovy_agent.Base.{Bytes, Option, none, some, codes}
use groovy_agent.Json.{Fields}
use groovy_agent.McpServer.Tools.{Limits, Payload, Effect, System, Runtime, text_or}
use groovy_agent.McpServer.Workspace.{resolve_path}
use groovy_agent.McpServer.Tools.Changes.{Changes, quietly, checking, reading}
use groovy_agent.McpServer.Tools.Find.{
  Stop, limit_reached, tool_stop, other_stop, Found, run_find, found_or_failed,
}

module _ (P : Effect → Type 0) (workspace : Bytes) (L : Limits) (S : System) (R : Runtime) where
  found_or_failed-none :
      (relative name mode : Bytes) (r : Found × Option Stop)
      → Changes P (found_or_failed relative name mode r)
  unfolding found_or_failed
  found_or_failed-none relative name mode (f, none) = tt
  found_or_failed-none relative name mode (f, some limit_reached) = tt
  found_or_failed-none relative name mode (f, some (tool_stop e)) = tt
  found_or_failed-none relative name mode (f, some other_stop) = tt

  pub run_find-none : (arguments : Fields) → Changes P (run_find workspace L S R arguments)
  unfolding run_find
  run_find-none arguments = reading P R arguments _ _ λ name. quietly P {B = Payload} _ _ _ _ (
      checking P (resolve_path workspace S.files (text_or arguments (codes "path") (codes "."))) _
        λ root e. quietly P {B = Payload} _ _ _ _ (found_or_failed-none _ _ _ _))
