-- ===== src/Tests/ToolTests.antt =====
-- The theorems about the server's tools and sessions, at concrete inputs.
use groovy_agent.Base.{
  ◌≡◌, ◌⊎◌, refl, false, Bytes, List, [], ◌∷◌, Option, none, some, same, codes, All, ok, err, pos,
  arith, if◌then◌else◌,
}
use groovy_agent.Json.{str, Fields, end, field}
use groovy_agent.Strings.{trim_space, is_empty}
use groovy_agent.McpProto.{CallToolResult, Message, Wire}
use groovy_agent.McpServer.Workspace.{
  resolve_touch_path, not_exist, FileSystem, OpenFile, regular, directory,
}
use groovy_agent.McpServer.Tools.{
  System, Runtime, Visit, default_limits, made_directory, require_string, attempt,
}
use groovy_agent.McpServer.Tools.Writing.Confined.{IsConfined}
use groovy_agent.McpServer.Tools.Writing.Guards.{IsGuarded, run_write_file-IsGuarded}
use groovy_agent.McpServer.Tools.Writing.{run_write_file, run_mkdir}
use groovy_agent.McpServer.Tools.Find.{Query, substring, nothing_found, walk_all}
use groovy_agent.McpServer.Tools.Find.Results.{IsEnded, walk_all-IsEnded}
use groovy_agent.McpServer.Tools.Registry.{lookup_tool, definitions, object}
use groovy_agent.McpServer.Tools.Reading.{run_pwd}
use groovy_agent.McpServer.Server.{
  Server, Turn, Event, call_tool, serve, finished, handle_line, dispatch,
}
use groovy_agent.McpServer.Server.Calls.{Ran, Denied, call_tool-Ran}
use groovy_agent.McpServer.Server.Answers.{AreAnswers, Marshals, awaited}
use groovy_agent.McpServer.Server.Sessions.{awaited_in, serve-AreAnswers, serve-IsConfined}
use groovy_agent.JsonSchema.{validate_raw, validate}
use groovy_agent.McpClient.{request}
use groovy_agent.Tests.Samples.{whole_floats}
use groovy_agent.McpServer.Tools.Names.{basename}
use groovy_agent.McpServer.Workspace.{base_name}
use groovy_agent.Strings.{has_prefix}
use groovy_agent.Strings.{trim_right}

abbrev hello_file : OpenFile
hello_file = record { content = codes "hello"; seek_fails = false; read_fails = false }

-- No symbolic links; nothing is at any path but directories above it.
abbrev empty_files : FileSystem
empty_files = record {
  eval_symlinks = λ path. if same path (codes "/w/new") then err not_exist else ok path;
  stat = λ path. some (record { kind = directory; size = 0 });
  lstat = λ path. none;
  open_file = λ path. ok hello_file;
}

abbrev entry : Bytes → Bytes → Visit
entry path name = record { path = path; name = name; kind = regular; fails = false }

abbrev two_entries : List Visit
two_entries =
    entry (codes "/w/a.txt") (codes "a.txt") ∷ entry (codes "/w/b.txt") (codes "b.txt") ∷ []

abbrev sample_system : System
sample_system = record {
  files = empty_files;
  lstat_error = λ path. not_exist;
  read_dir = λ path. some two_entries;
  walk = λ path. two_entries;
  perform = λ effect. none;
  close_fails = λ path. false;
}

abbrev sample_runtime : Runtime
sample_runtime = record {
  floats = whole_floats;
  quote = λ text. text;
  search = record { compile = λ pattern. none; unicode_lower = λ text. text };
  glob_match = λ pattern name. none;
  done_before = false;
  done_after = false;
  done_at = λ path. false;
}

abbrev new_file : Fields
new_file =
    field (codes "path") (str (codes "new")) (field (codes "content") (str (codes "hello")) end)

run_write_file-IsGuarded_example :
    All
      (IsGuarded default_limits sample_system new_file)
      (run_write_file (codes "/w") default_limits sample_system sample_runtime new_file).1
run_write_file-IsGuarded_example =
    run_write_file-IsGuarded (codes "/w") default_limits sample_system sample_runtime new_file

abbrev txt_query : Query
txt_query = record {
  root = codes "/w";
  name = codes "txt";
  mode = substring;
  ignore_case = false;
  max_results = pos 1;
}

walk_all-IsEnded_example :
    IsEnded 1 (walk_all (codes "/w") sample_runtime txt_query two_entries nothing_found)
walk_all-IsEnded_example =
    walk_all-IsEnded (codes "/w") sample_runtime txt_query two_entries 1 refl (ground arith)

abbrev pub empty_result : CallToolResult
empty_result = record {
  content = record { type = codes "text"; text = codes "{}" } ∷ [];
  is_error = false;
}

abbrev call_id : Bytes
call_id = codes "\"1\""

abbrev sample_request : Message
sample_request = request call_id (codes "tools/call") (codes "pwd")

abbrev pub sample_answer : Message
sample_answer = record {
  jsonrpc = codes "2.0";
  id = call_id;
  method = [];
  params = [];
  result = codes "result";
  error = none;
}

abbrev read_message : Bytes → Option Message
read_message text =
    if same text (codes "request")
    then some sample_request
    else if same text (codes "answer")
    then some sample_answer
    else none

abbrev message_text : Message → Option Bytes
message_text m = if is_empty m.method then some (codes "answer") else some (codes "request")

-- Encoders that know one call of `pwd`, and its answer.
abbrev pub sample_wire : Wire
sample_wire = record {
  message = record { encode = message_text; decode = read_message };
  initialize_params = record { encode = λ p. some []; decode = λ text. none };
  initialize_result = record { encode = λ r. some (codes "result"); decode = λ text. none };
  list_params = record { encode = λ cursor. some []; decode = λ text. none };
  list_result = record {
    encode = λ r. some (codes "result");
    decode = λ text. some (record {
      tools = record { name = codes "pwd"; description = []; input_schema = codes "{}" } ∷ [];
      next_cursor = [];
    });
  };
  call_params = record {
    encode = λ p. some p.name;
    decode = λ text. some (record { name = text; arguments = [] });
  };
  call_result = record { encode = λ r. some (codes "result"); decode = λ text. some empty_result };
  object = record { encode = λ fields. some (codes "{}"); decode = λ text. some end };
  read_schema = λ text. some end;
}

abbrev pub sample_server : Server
sample_server = record { workspace = codes "/w"; limits = default_limits; wire = sample_wire }

abbrev pub sample_turn : Turn
sample_turn = record { system = sample_system; runtime = sample_runtime; too_late = false }

pub pwd_called : call_tool sample_server sample_turn (codes "pwd") ≡ (empty_result, [])
unfolding call_tool lookup_tool definitions same validate_raw validate trim_space run_pwd finished
    object
pwd_called = refl

call_tool-Ran_example :
    let done = call_tool sample_server sample_turn (codes "pwd") in
    Ran sample_server sample_turn (codes "pwd") done.0 done.1
    ⊎ Denied sample_server sample_turn (codes "pwd") done.0 done.1
call_tool-Ran_example = call_tool-Ran sample_server sample_turn (codes "pwd")

abbrev sample_session : List Event
sample_session =
    record { cancelled = false; line = codes "request"; turn = sample_turn }
    ∷ record { cancelled = false; line = codes "?"; turn = sample_turn }
    ∷ []

IsAnyText : Bytes → Type 0
IsAnyText text = Unit

sample_marshals : Marshals sample_server IsAnyText
unfolding IsAnyText is_empty
sample_marshals = record {
  null_json = tt;
  raw_json = λ line m e f. tt;
  initialize_json = λ r text e. tt;
  object_json = λ r text e. tt;
  list_json = λ r text e. tt;
  call_json = λ r text e. tt;
  encodes_result = λ id result j k e. cc;
  encodes_error = λ id code message j e. cc;
}

serve-AreAnswers_example :
    AreAnswers sample_server
      (awaited_in sample_wire sample_session)
      (serve sample_server sample_session).0
serve-AreAnswers_example = serve-AreAnswers sample_server IsAnyText sample_session sample_marshals

awaited_ids : awaited_in sample_wire sample_session ≡ call_id ∷ codes "null" ∷ []
unfolding awaited_in awaited same is_empty
awaited_ids = refl

abbrev new_path : Fields
new_path = field (codes "path") (str (codes "new")) end

-- As before, but the call is of `mkdir`, and its argument is the path `new`.
abbrev mkdir_wire : Wire
mkdir_wire = record sample_wire {
  call_params = record {
    encode = λ p. some p.name;
    decode = λ text. some (record { name = codes "mkdir"; arguments = codes "path" });
  };
  object = record { encode = λ fields. some (codes "{}"); decode = λ text. some new_path };
}

abbrev mkdir_server : Server
mkdir_server = record { workspace = codes "/w"; limits = default_limits; wire = mkdir_wire }

mkdir_called : (serve mkdir_server sample_session).1 ≡ made_directory (codes "/w/new") ∷ []
unfolding serve handle_line dispatch call_tool lookup_tool definitions same validate_raw validate
    trim_space run_mkdir finished object is_empty require_string resolve_touch_path attempt
mkdir_called = refl

serve-IsConfined_example : All (IsConfined (codes "/w")) (serve mkdir_server sample_session).1
serve-IsConfined_example = serve-IsConfined mkdir_server sample_session

suffix_dropped : basename (codes "/a/notes.txt/") (codes ".txt") ≡ codes "notes"
unfolding basename base_name trim_right has_prefix is_empty same
suffix_dropped = refl

suffix_kept : basename (codes ".txt") (codes ".txt") ≡ codes ".txt"
unfolding basename base_name trim_right has_prefix is_empty same
suffix_kept = refl
