-- ===== src/McpProto.antt =====
-- internal/mcpproto/mcpproto.go: the MCP messages that the agent and the servers share.
use groovy_agent.Json.{Fields}
use groovy_agent.Base.{
  Bool, Bytes, List, [], ◌∷◌, ◌++◌, Option, same, codes, if◌then◌else◌, ℤ, negsuc,
}

-- `Tool`
pub record ToolDefinition : Type 0 where
  pub name : Bytes
  pub description : Bytes
  pub input_schema : Bytes

-- `Content`, less the image fields, which nothing here reads
pub record Content : Type 0 where
  pub type : Bytes
  pub text : Bytes

-- `CallToolResult`
pub record CallToolResult : Type 0 where
  pub content : List Content
  pub is_error : Bool

text_blocks : List Content → Bytes
text_blocks [] = []
text_blocks (block ∷ rest) =
    if same block.type (codes "text") then block.text ++ text_blocks rest else text_blocks rest

content_text : List Content → Bytes
unfolding text_blocks
content_text (block ∷ []) = if same block.type (codes "text") then block.text else []
content_text blocks = text_blocks blocks

-- `CallToolResult.Text`
unfoldable pub result_text : CallToolResult → Bytes
unfolding content_text
result_text result = content_text result.content

-- The tool error categories.
pub data Category : Type 0 where
  unknown_tool invalid_arguments workspace_violation permission_denied : Category
  timeout result_too_large tool_error : Category

unfoldable pub category_name : Category → Bytes
category_name unknown_tool = codes "unknown_tool"
category_name invalid_arguments = codes "invalid_arguments"
category_name workspace_violation = codes "workspace_violation"
category_name permission_denied = codes "permission_denied"
category_name timeout = codes "timeout"
category_name result_too_large = codes "result_too_large"
category_name tool_error = codes "tool_error"

-- `Version`
abbrev pub version : Bytes
version = codes "2024-11-05"

-- `CodeParseError`, `CodeMethodNotFound` and `CodeInternalError`: -32700, -32601 and -32603
abbrev pub code_parse_error : ℤ
code_parse_error = negsuc 32699

abbrev pub code_method_not_found : ℤ
code_method_not_found = negsuc 32600

abbrev pub code_internal_error : ℤ
code_internal_error = negsuc 32602

-- `Error`
pub record RpcError : Type 0 where
  pub code : ℤ
  pub message : Bytes

-- `Message`, whose raw members are empty where they are absent
pub record Message : Type 0 where
  pub jsonrpc : Bytes
  pub id : Bytes
  pub method : Bytes
  pub params : Bytes
  pub result : Bytes
  pub error : Option RpcError

-- `Implementation`
pub record Implementation : Type 0 where
  pub name : Bytes
  pub version : Bytes

-- `ToolsCapability`
pub record ToolsCapability : Type 0 where
  pub list_changed : Bool

-- `InitializeParams`, less the client's capabilities, which are always empty
pub record InitializeParams : Type 0 where
  pub protocol_version : Bytes
  pub client_info : Implementation

-- `InitializeResult`, whose capabilities are those for tools
pub record InitializeResult : Type 0 where
  pub protocol_version : Bytes
  pub tools : Option ToolsCapability
  pub server_info : Implementation

-- `ListToolsResult`
pub record ListToolsResult : Type 0 where
  pub tools : List ToolDefinition
  pub next_cursor : Bytes

-- `CallToolParams`
pub record CallToolParams : Type 0 where
  pub name : Bytes
  pub arguments : Bytes

-- What `encoding/json` does with a type; an error has no text here.
pub record Codec (A : Type 0) : Type 0 where
  pub encode : A → Option Bytes
  pub decode : Bytes → Option A

-- `encoding/json` on the types of the protocol; a cursor stands for `ListToolsParams`,
-- and `object` decodes numbers as they stand, where `read_schema` reads them.
pub record Wire : Type 0 where
  pub message : Codec Message
  pub initialize_params : Codec InitializeParams
  pub initialize_result : Codec InitializeResult
  pub list_params : Codec Bytes
  pub list_result : Codec ListToolsResult
  pub call_params : Codec CallToolParams
  pub call_result : Codec CallToolResult
  pub object : Codec Fields
  pub read_schema : Bytes → Option Fields
