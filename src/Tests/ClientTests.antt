-- ===== src/Tests/ClientTests.antt =====
-- The theorems about the clients and the proxy, at concrete inputs.
use groovy_agent.Base.{
  IsUnique, ◌≡◌, ◌↔◌, refl, true, false, Bytes, List, [], ◌∷◌, ◌++◌, none, some, same, codes, All,
  ok, ◌≤◌,
}
use groovy_agent.Json.{str, obj, Items, nil, cons, Fields, end, field, get}
use groovy_agent.Strings.{trim_space, is_empty, decimal}
use groovy_agent.McpProto.{ToolDefinition}
use groovy_agent.McpServer.Server.{call_tool, handle_line}
use groovy_agent.McpClient.{
  Client, receive, request, encoded_id, is_other, call, list_tools, max_pages,
}
use groovy_agent.McpClient.Answers.{Returned, call-Returned}
use groovy_agent.McpClient.Discovery.{IsComplete, list_tools-IsUnique}
use groovy_agent.McpClient.Served.{Passes, call_tool-served}
use groovy_agent.McpClient
use groovy_agent.Llm
use groovy_agent.OpenaiProxy.Guards.{Settings, filter_calls, tool_call_key}
use groovy_agent.OpenaiProxy.Guards.Kept
use groovy_agent.OpenaiProxy.Guards.Kept.{objects_in, filter_calls-IsGuarded}
use groovy_agent.Llm.Client.{Http, new_client, complete}
use groovy_agent.Llm.Client.Replies.{Replied, complete-Replied}
use groovy_agent.Strings.{trim_right}
use groovy_agent.Tests.ToolTests.{
  empty_result, sample_answer, sample_wire, sample_server, sample_turn, pwd_called,
}

abbrev sample_client : Client
sample_client = record { next_id = 0; events = McpClient.received sample_answer ∷ []; sent = [] }

abbrev later_client : Client
later_client = record { next_id = 1; events = []; sent = codes "request\n" ∷ [] }

call_returns :
    call sample_wire
      (λ line. true)
      sample_wire.call_result.decode
      (codes "tools/call")
      (some (codes "pwd"))
      sample_client
    ≡ (ok empty_result, later_client)
unfolding call McpClient.write receive encoded_id is_other is_empty same decimal
call_returns = refl

call-Returned_example :
    Returned sample_wire
      (λ line. true)
      sample_wire.call_result.decode
      (codes "tools/call")
      (some (codes "pwd"))
      sample_client
      empty_result
      later_client
call-Returned_example =
    call-Returned sample_wire (λ line. true) sample_wire.call_result.decode (codes "tools/call")
      (some (codes "pwd")) sample_client later_client empty_result call_returns

abbrev one_tool : List ToolDefinition
one_tool = record { name = codes "pwd"; description = []; input_schema = codes "{}" } ∷ []

tools_listed : list_tools sample_wire (λ line. true) sample_client ≡ (ok one_tool, later_client)
unfolding list_tools McpClient.list_pages McpClient.add_page call McpClient.write receive encoded_id
    is_other is_empty same decimal
tools_listed = refl

list_tools-IsUnique_example :
    IsUnique (λ tool. tool.name) one_tool × All (IsComplete sample_wire) one_tool × (1 ≤ 10)
list_tools-IsUnique_example =
    list_tools-IsUnique sample_wire (λ line. true) sample_client later_client one_tool tools_listed

sample_passes : Passes sample_server (λ line. true) sample_turn sample_client (codes "pwd") []
unfolding encoded_id is_empty same decimal McpClient.read_loop
sample_passes = record {
  params = codes "pwd";
  asked = codes "request";
  result = codes "result";
  answered = codes "answer";
  others = [];
  rest = [];
  params_encoded = refl;
  asked_encoded = refl;
  asked_decoded = refl;
  asked_full = refl;
  asked_accepted = refl;
  result_encoded = refl;
  result_decoded = rw pwd_called refl;
  answer_encoded = refl;
  answer_decoded = refl;
  answer_full = refl;
  unrelated = tt;
  in_order = refl;
}

call_tool-served_example :
    let h = sample_passes in
    (handle_line sample_server sample_turn h.asked
      ≡ ((h.answered ++ (b'\n' ∷ [])) ∷ [], (call_tool sample_server sample_turn h.params).1))
    × (McpClient.call_tool sample_wire (λ line. true) (codes "pwd") [] sample_client ≡ (
      ok (call_tool sample_server sample_turn h.params).0,
      record { next_id = 1; events = h.rest; sent = [] ++ ((h.asked ++ (b'\n' ∷ [])) ∷ []) },
    ))
call_tool-served_example =
    call_tool-served sample_server (λ line. true) sample_turn sample_client (codes "pwd") []
      sample_passes

abbrev greeting : Llm.Message
greeting = record { role = []; content = codes "hi"; tool_calls = []; tool_call_id = []; name = [] }

-- A server that answers each request with one choice.
abbrev sample_http : Http
sample_http = record {
  accepts = λ url. true;
  get = λ url. none;
  post = λ url body. some (record { status = 200; body = some [] });
  encode_request = λ request. some [];
  decode_response = λ text. some (record { choices = greeting ∷ []; error = none });
  encode_call = λ f. none;
  is_json = λ text. false;
  decode_any = λ text. none;
}

complete-Replied_example :
    (complete sample_http (new_client (codes "http://m/") []) [] [] ≡ ok greeting)
    ↔ Replied sample_http
        ((new_client (codes "http://m/") []).base_url ++ codes "/v1/chat/completions")
        []
        greeting
complete-Replied_example =
    complete-Replied sample_http (new_client (codes "http://m/") []) [] [] [] greeting refl

base_url_trimmed : (new_client (codes "http://m//") []).base_url ≡ codes "http://m"
unfolding new_client trim_right
base_url_trimmed = refl

abbrev two_calls : Settings
two_calls = record { max_tool_calls_per_turn = 2; disable_duplicate_tool_calls = true }

abbrev call_of : Bytes → Fields
call_of name = field (codes "function") (obj (field (codes "name") (str name) end)) end

-- A call twice, and two others.
abbrev four_calls : Items
four_calls = cons (obj (call_of (codes "ls"))) (
    cons (obj (call_of (codes "ls")))
      (cons (obj (call_of (codes "pwd"))) (cons (obj (call_of (codes "cat"))) nil)))

filter_calls-IsGuarded_example :
    Kept.IsGuarded two_calls
      (objects_in four_calls)
      none
      (filter_calls two_calls four_calls [] [] none)
filter_calls-IsGuarded_example = filter_calls-IsGuarded two_calls four_calls

two_kept :
    (filter_calls two_calls four_calls [] [] none).0
    ≡ call_of (codes "ls") ∷ call_of (codes "pwd") ∷ []
unfolding filter_calls tool_call_key get same trim_space
two_kept = refl
