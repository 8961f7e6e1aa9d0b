-- ===== src/Lib.antt =====
-- A model of groovy-agent, a command line agent that answers a request by asking a language model and
-- by calling tools of MCP servers, and of the tool server it is shipped with, the clients that talk to
-- both, and a proxy for OpenAI requests.
--
-- How the parts interact. `Run` (internal/agent/agent.go) checks the configuration, asks the servers
-- for their tools and keeps those on its allowlists; the session's `Loop` chooses a profile of tools
-- for the request, prunes the conversation to the context of the model, asks the model, checks each
-- tool call (internal/agent/toolcall.go, with internal/jsonschema/jsonschema.go) and sends it to the
-- client of the tool. The tool server keeps the paths of its tools inside a workspace
-- (internal/mcpserver/workspace.go) and bounds what they read and return (coreutils); a
-- policy on URLs stands in front of the web tools (webutils/policy.go).
--
-- Files, with the code they stand for:
-- - Base, Strings, Paths, Json: lists and membership, texts as lists of bytes, Go's strings and
--   filepath functions on slash paths, JSON values. Paths/Clean compares the cleaned path with a walk
--   over its elements, and Clean/Stays/Spaces does so for a path with spaces around it.
-- - JsonSchema: internal/jsonschema/jsonschema.go, `Validate` and what it calls; errors are reasons
--   without their texts. JsonSchema/Fuel is about the fuel.
-- - McpProto: internal/mcpproto/mcpproto.go. Llm: the types of internal/llm/llm.go; Llm/Client is its
--   client, with the proofs in Client/Replies.
-- - Agent/Context: internal/agent/context.go, with the proofs in Context/Bounds and
--   Context/Exchanges.
-- - Agent/ToolCall: internal/agent/toolcall.go, with the proofs in ToolCall/Checks.
-- - Agent/Profiles: internal/agent/profiles.go, with the proofs in Profiles/Choice.
-- - Agent/Session: `Session` and `Loop` of internal/agent/agent.go. What a run does is kept as a
--   history of events (`World`). The proofs stand in Session/Permitted, with Session/Rounds
--   on the calls of one round, and in Session/Output
--   with Session/Replies.
-- - Agent/Run: `Config`, `Run` and `FilterDiscovered` of internal/agent/agent.go, with the proofs in
--   Run/Allowlist.
-- - Coreutils/Lines: coreutils/coreutils.go. Coreutils/Text: coreutils/text.go, with proofs by what
--   they are about in Text/Select, Text/Order and Text/Runs.
-- - Coreutils/Translate: `Tr` of coreutils/text.go. Coreutils/Command: coreutils/command.go with the
--   proofs in Command/Checked. Coreutils/Search: coreutils/search.go with the proofs in
--   Search/Matches. Numbers: strconv.Atoi, which the commands use.
-- - McpServer/Workspace: internal/mcpserver/workspace.go over a file system that is a parameter
--   (`FileSystem`), with the proofs in Workspace/Inside and Workspace/Reads.
-- - McpServer/Tools: internal/mcpserver/tools.go. A handler takes its arguments and gives its result
--   with the list of the changes it asked the operating system for (`Done`, `Effect`); the answers of
--   the system are a parameter (`System`). Tools/Reading, Tools/Find, Tools/Writing and Tools/Texts
--   hold the handlers, Tools/Names those on names and digests with coreutils/path.go, Tools/Registry
--   the definitions with their schemas. Tools/Changes has rules for
--   the changes of a handler; the proofs stand in Reading/Quiet, Find/Quiet, Texts/Quiet,
--   Writing/Confined, Writing/Guards, Find/Results and Registry/Confined.
-- - McpServer/Server: internal/mcpserver/server.go. A session is a list of lines, each with the system
--   as its handler meets it; the proofs stand in Server/Calls, Server/Answers and Server/Sessions.
-- - McpClient: internal/mcpclient/client.go. What the select of a call comes upon is a list of events;
--   the proofs stand in McpClient/Answers, McpClient/Discovery and, for the client at the server of
--   this repository, McpClient/Served.
-- - OpenaiProxy: internal/openaiproxy/proxy.go. OpenaiProxy/Tools fetches, translates and caches the
--   tools, OpenaiProxy/Requests handles a chat request, OpenaiProxy/Guards filters the tool calls of
--   a reply, with the proofs in Guards/Kept.
-- - WebUtils/Policy: webutils/policy.go with the proofs in Policy/Public; an address is a number.
-- - Tests: small runs, and the theorems at concrete inputs.
--
-- Parameters. The model, the MCP clients and the outcome of a call are functions of the events so far
-- (`Services`, `Startup`); JSON decoding and encoding are a `Codec`; floats are a record of operations
-- (`Floats`), so that nothing depends on their rounding; the lower case of letters beyond ASCII is a
-- function on bytes. Regular expressions, URL parsing, name resolution and the file system are
-- parameters of the components that use them. For the server and the client encoding/json is a
-- record of encoders and decoders (`Wire`).
--
-- Fuel. `Validate` gets one unit more than the nesting of the schema, since each call descends into a
-- part of the schema; the loop that drops exchanges gets a unit for each message; loops over rounds,
-- lines and calls are structural. `runs` takes a unit of fuel for each line, and a run has
-- one line at least.
--
-- Not modelled: logging, timeouts and cancellation other than as an outcome of a call, the HTTP and
-- process transports (the processes of internal/mcpclient, internal/mcpserver/http.go, headers and
-- streams of internal/openaiproxy), the browser (webutils/browser.go) and the command line programs,
-- which are I/O and third-party calls. Digests, base64 and the clock are parameters. How files change
-- between two calls is not modelled either: each line of a session meets any operating system.
mod Base
pub mod Strings
pub mod Paths
pub mod Numbers
pub mod Json
pub mod JsonSchema
pub mod McpProto
pub mod Llm
pub mod Agent
pub mod McpServer
pub mod McpClient
pub mod OpenaiProxy
pub mod Coreutils
pub mod WebUtils
mod Tests
