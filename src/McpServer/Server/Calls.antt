-- ===== src/McpServer/Server/Calls.antt =====
-- What a tool call leads to.
use groovy_agent.Base.{
  ◌≡◌, refl, true, Bytes, List, [], Option, none, some, Result, ok, err, ◌⊎◌, inl, inr, All,
}
use groovy_agent.Json.{Fields}
use groovy_agent.JsonSchema.{RawError, validate_raw}
use groovy_agent.McpProto.{CallToolParams, CallToolResult}
use groovy_agent.McpServer.Tools.{Effect}
use groovy_agent.McpServer.Tools.Registry.{Tool, lookup_tool}
use groovy_agent.McpServer.Tools.Registry.Confined.{lookup_tool-IsConfined}
use groovy_agent.McpServer.Tools.Writing.Confined.{IsConfined}
use groovy_agent.McpServer.Server.{
  Server, Turn, call_tool, call_decoded, call_found, run_tool, finished, error_result,
}

module _ (s : Server) (t : Turn) (raw : Bytes) where
  -- The call is of a tool of the registry, with arguments that its schema allows, and does what the
  -- tool's handler does with them.
  pub record Ran (result : CallToolResult) (effects : List Effect) : Type 0 where
    pub params : CallToolParams
    pub tool : Tool
    pub arguments : Fields
    pub decoded : s.wire.call_params.decode raw ≡ some params
    pub known : lookup_tool s.workspace s.limits t.system t.runtime params.name ≡ some tool
    pub allowed :
        validate_raw t.runtime.floats s.wire.object.decode tool.schema params.arguments
        ≡ ok arguments
    pub handled : result ≡ finished s t.too_late (tool.run arguments).0
    pub changed : effects ≡ (tool.run arguments).1

  -- The call is refused, and nothing is changed.
  pub record Denied (result : CallToolResult) (effects : List Effect) : Type 0 where
    pub flagged : result.is_error ≡ true
    pub unchanged : effects ≡ []

  validated :
      (params : CallToolParams) (tool : Tool) (r : Result RawError Fields)
      → s.wire.call_params.decode raw ≡ some params
      → lookup_tool s.workspace s.limits t.system t.runtime params.name ≡ some tool
      → validate_raw t.runtime.floats s.wire.object.decode tool.schema params.arguments ≡ r
      → let done = run_tool s t tool r in Ran done.0 done.1 ⊎ Denied done.0 done.1
  unfolding run_tool error_result
  validated params tool (err e) d k v = inr (record { flagged = refl; unchanged = refl })
  validated params tool (ok arguments) d k v = inl (record {
    params = params;
    tool = tool;
    arguments = arguments;
    decoded = d;
    known = k;
    allowed = v;
    handled = refl;
    changed = refl;
  })

  found :
      (params : CallToolParams) (r : Option Tool)
      → s.wire.call_params.decode raw ≡ some params
      → lookup_tool s.workspace s.limits t.system t.runtime params.name ≡ r
      → let done = call_found s t r params.arguments in Ran done.0 done.1 ⊎ Denied done.0 done.1
  unfolding call_found error_result
  found params none d k = inr (record { flagged = refl; unchanged = refl })
  found params (some tool) d k = validated params tool _ d k refl

  decoded :
      (r : Option CallToolParams)
      → s.wire.call_params.decode raw ≡ r
      → let done = call_decoded s t r in Ran done.0 done.1 ⊎ Denied done.0 done.1
  unfolding call_decoded error_result
  decoded none d = inr (record { flagged = refl; unchanged = refl })
  decoded (some params) d = found params _ d refl

-- A tool call does one of two things. Its parameters decode to the name of a tool of the registry
-- and arguments that the tool's schema allows, and then its result and its changes are those of the
-- tool's handler; or it gives a result that is marked as an error and changes nothing.
pub call_tool-Ran :
    (s : Server) (t : Turn) (raw : Bytes)
    → Ran s t raw (call_tool s t raw).0 (call_tool s t raw).1
      ⊎ Denied s t raw (call_tool s t raw).0 (call_tool s t raw).1
unfolding call_tool
call_tool-Ran s t raw = decoded s t raw _ refl

ran-IsConfined :
    (s : Server) (t : Turn) (raw : Bytes) (result : CallToolResult) (effects : List Effect)
    → Ran s t raw result effects ⊎ Denied s t raw result effects
    → All (IsConfined s.workspace) effects
ran-IsConfined s t raw result effects (inl ran) = rw ran.changed (
    lookup_tool-IsConfined s.workspace s.limits t.system t.runtime ran.params.name ran.tool
      ran.arguments ran.known)
ran-IsConfined s t raw result effects (inr denied) = rw denied.unchanged tt

pub call_tool-IsConfined :
    (s : Server) (t : Turn) (raw : Bytes) → All (IsConfined s.workspace) (call_tool s t raw).1
call_tool-IsConfined s t raw = ran-IsConfined s t raw _ _ (call_tool-Ran s t raw)
