-- ===== src/Llm.antt =====
-- internal/llm/llm.go: the chat messages and the function tools that the agent exchanges with the
-- model.
pub mod Client
use groovy_agent.Base.{Bytes, List}
use groovy_agent.Json.{Fields}

-- `FunctionCall`
pub record FunctionCall : Type 0 where
  pub name : Bytes
  pub arguments : Bytes

-- `ToolCall`
pub record ToolCall : Type 0 where
  pub id : Bytes
  pub type : Bytes
  pub function : FunctionCall

-- `Message`
pub record Message : Type 0 where
  pub role : Bytes
  pub content : Bytes
  pub tool_calls : List ToolCall
  pub tool_call_id : Bytes
  pub name : Bytes

-- `Function`
pub record Function : Type 0 where
  pub name : Bytes
  pub description : Bytes
  pub parameters : Fields

-- `Tool`
pub record Tool : Type 0 where
  pub type : Bytes
  pub function : Function
