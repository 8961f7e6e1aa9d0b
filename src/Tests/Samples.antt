-- ===== src/Tests/Samples.antt =====
-- A codec, a conversation and outside services for the tests.
use groovy_agent.Base.{ℕ, Bool, [], ◌∷◌, none, some, codes, ltb, ◌==◌, ℤ, pos, negsuc}
use groovy_agent.Json.{str, Fields, end, field, Floats}
use groovy_agent.McpProto.{ToolDefinition}
use groovy_agent.Llm.{Message, ToolCall}
use groovy_agent.Agent.ToolCall.{Codec}
use groovy_agent.Agent.Session.{answered, Services, Session, plain_message}
use groovy_agent.Agent.Run.{Config, Startup}

-- Whole numbers in place of floats.
abbrev whole : ℤ → ℕ
whole (pos n) = n
whole (negsuc n) = 0

abbrev pub whole_floats : Floats
whole_floats = record { lt = ltb; eq = ◌==◌; of_int = whole; to_int = pos; parse = λ text. none }

abbrev pub object_schema : Fields
object_schema = field (codes "type") (str (codes "object")) end

-- Every schema decodes to `object_schema`, and all arguments to one path.
abbrev pub sample_codec : Codec
sample_codec = record {
  decode = λ text. some object_schema;
  decode_numbers = λ text. some (field (codes "path") (str (codes "src/main.go")) end);
  encode = λ fields. none;
  quote = λ text. text;
  floats = whole_floats;
}

abbrev pub cat_tool : ToolDefinition
cat_tool = record { name = codes "cat"; description = []; input_schema = codes "{}" }

abbrev pub cat_call : ToolCall
cat_call = record {
  id = codes "c1";
  type = codes "function";
  function = record { name = codes "cat"; arguments = codes "{}" };
}

abbrev pub asks_for_cat : Message
asks_for_cat = record {
  role = codes "assistant";
  content = [];
  tool_calls = cat_call ∷ [];
  tool_call_id = [];
  name = [];
}

-- The model asks for a file, always.
abbrev pub busy_services : Services
busy_services = record {
  complete = λ events. some asks_for_cat;
  call_tool = λ events. answered (record {
    content = record { type = codes "text"; text = codes "hello" } ∷ [];
    is_error = Bool.false;
  });
  unicode_lower = λ text. text;
}

abbrev pub sample_session : Session
sample_session = record {
  prompt = codes "show a file";
  per_turn = pos 3;
  clients = (codes "cat", 0) ∷ [];
  discovered = (codes "cat", cat_tool) ∷ [];
}

abbrev pub sample_config : Config
sample_config = record {
  llama_url = codes "http://localhost:8080";
  model = codes "phi";
  mcp_command = codes "coreutils-mcp";
  web_mcp_command = [];
  workspace = [];
  prompt = codes "show a file";
  max_tool_calls_per_turn = pos 0;
}

abbrev pub sample_startup : Startup
sample_startup = record {
  model_reachable = Bool.true;
  core_tools = some (cat_tool ∷ record cat_tool { name = codes "shell" } ∷ []);
  web_tools = none;
}

abbrev pub user_message : Message
user_message = plain_message (codes "user") (codes "show a file")

abbrev pub system_message : Message
system_message = plain_message (codes "system") (codes "be brief")
