-- ===== src/Agent/Profiles.antt =====
-- internal/agent/profiles.go: the tools that a request exposes, chosen by counting keywords.
pub mod Choice
use groovy_agent.Base.{
  ℕ, zero, suc, ◌+◌, Bool, true, false, Bytes, List, [], ◌∷◌, map, codes, take, ltb, leb, length,
  ◌==◌, if◌then◌else◌,
}
use groovy_agent.Strings.{contains, to_lower}

-- `Profile`
pub record Profile : Type 0 where
  pub name : Bytes
  pub tools : List Bytes

-- An entry of `profiles`
pub record Candidate : Type 0 where
  pub profile : Profile
  pub keywords : List Bytes

abbrev pub max_exposed_tools : ℕ
max_exposed_tools = 6

abbrev fallback_profile : Profile
fallback_profile = record {
  name = codes "fallback";
  tools =
      codes "pwd"
      ∷ codes "ls"
      ∷ codes "cat"
      ∷ codes "grep"
      ∷ codes "find"
      ∷ codes "coreutils_run"
      ∷ [];
}

-- the table, in the order of the source
abbrev web_browse : Candidate
web_browse = record {
  profile = record {
    name = codes "web_browse";
    tools = codes "search_web" ∷ codes "browse_url" ∷ [];
  };
  keywords =
      codes "browse"
      ∷ codes "web"
      ∷ codes "website"
      ∷ codes "url"
      ∷ codes "https://"
      ∷ codes "http://"
      ∷ codes "page"
      ∷ codes "search web"
      ∷ codes "search online"
      ∷ codes "current information"
      ∷ codes "latest"
      ∷ [];
}

abbrev date : Candidate
date = record {
  profile = record { name = codes "date"; tools = codes "coreutils_run" ∷ [] };
  keywords =
      codes "date"
      ∷ codes "time"
      ∷ codes "clock"
      ∷ codes "timestamp"
      ∷ codes "today"
      ∷ codes "utc"
      ∷ codes "current time"
      ∷ [];
}

abbrev text_search : Candidate
text_search = record {
  profile = record { name = codes "text_search"; tools = codes "grep" ∷ [] };
  keywords =
      codes "search text"
      ∷ codes "grep text"
      ∷ codes "supplied text"
      ∷ codes "input text"
      ∷ codes "string search"
      ∷ codes "search this text"
      ∷ codes "matching lines"
      ∷ [];
}

abbrev file_search : Candidate
file_search = record {
  profile = record {
    name = codes "file_search";
    tools = codes "find" ∷ codes "grep" ∷ codes "ls" ∷ codes "cat" ∷ [];
  };
  keywords =
      codes "grep"
      ∷ codes "search"
      ∷ codes "find occurrences"
      ∷ codes "occurrence"
      ∷ codes "occurrences"
      ∷ codes "matches"
      ∷ codes "matching"
      ∷ codes "pattern"
      ∷ codes "todo"
      ∷ codes "look for"
      ∷ codes "contains"
      ∷ [];
}

abbrev filesystem_find : Candidate
filesystem_find = record {
  profile = record {
    name = codes "filesystem_find";
    tools = codes "find" ∷ codes "ls" ∷ codes "cat" ∷ codes "grep" ∷ [];
  };
  keywords =
      codes "find file"
      ∷ codes "find files"
      ∷ codes "find directory"
      ∷ codes "find directories"
      ∷ codes "locate"
      ∷ codes "recursive"
      ∷ codes "under"
      ∷ codes "walk"
      ∷ [];
}

abbrev file_inspection : Candidate
file_inspection = record {
  profile = record {
    name = codes "file_inspection";
    tools = codes "pwd" ∷ codes "ls" ∷ codes "cat" ∷ codes "coreutils_run" ∷ [];
  };
  keywords =
      codes "read"
      ∷ codes "show"
      ∷ codes "workspace"
      ∷ codes "readme"
      ∷ codes "file"
      ∷ codes "beginning"
      ∷ codes "summarize"
      ∷ codes "summary"
      ∷ codes "content"
      ∷ codes "contents"
      ∷ codes "checksum"
      ∷ codes "sha256"
      ∷ codes "hash"
      ∷ codes "inspect"
      ∷ codes "lines of"
      ∷ codes "print"
      ∷ [];
}

abbrev path_processing : Candidate
path_processing = record {
  profile = record { name = codes "path_processing"; tools = codes "coreutils_run" ∷ [] };
  keywords =
      codes "basename"
      ∷ codes "dirname"
      ∷ codes "base name"
      ∷ codes "directory name"
      ∷ codes "path component"
      ∷ codes "strip the directory"
      ∷ codes "file extension"
      ∷ [];
}

abbrev text_processing : Candidate
text_processing = record {
  profile = record { name = codes "text_processing"; tools = codes "coreutils_run" ∷ [] };
  keywords =
      codes "sort"
      ∷ codes "unique"
      ∷ codes "uniq"
      ∷ codes "duplicate"
      ∷ codes "base64"
      ∷ codes "encode"
      ∷ codes "decode"
      ∷ codes "translate characters"
      ∷ codes "fields"
      ∷ codes "column"
      ∷ codes "columns"
      ∷ codes "cut"
      ∷ codes "merge lines"
      ∷ [];
}

abbrev file_write : Candidate
file_write = record {
  profile = record {
    name = codes "file_write";
    tools = codes "ls" ∷ codes "cat" ∷ codes "write_file" ∷ codes "mkdir" ∷ codes "touch" ∷ [];
  };
  keywords =
      codes "write"
      ∷ codes "append"
      ∷ codes "overwrite"
      ∷ codes "save"
      ∷ codes "write to"
      ∷ codes "update file"
      ∷ codes "write file"
      ∷ codes "edit file"
      ∷ [];
}

abbrev file_management : Candidate
file_management = record {
  profile = record {
    name = codes "file_management";
    tools =
        codes "ls"
        ∷ codes "mkdir"
        ∷ codes "touch"
        ∷ codes "write_file"
        ∷ codes "cp"
        ∷ codes "mv"
        ∷ [];
  };
  keywords =
      codes "touch"
      ∷ codes "create"
      ∷ codes "new"
      ∷ codes "empty"
      ∷ codes "mkdir"
      ∷ codes "directory"
      ∷ codes "copy"
      ∷ codes "move"
      ∷ codes "rename"
      ∷ codes "create file"
      ∷ codes "new file"
      ∷ codes "empty file"
      ∷ [];
}

abbrev file_cleanup : Candidate
file_cleanup = record {
  profile = record {
    name = codes "file_cleanup";
    tools = codes "ls" ∷ codes "rm" ∷ codes "rmdir" ∷ [];
  };
  keywords = codes "remove" ∷ codes "delete" ∷ [];
}

abbrev pub profiles : List Candidate
profiles =
    web_browse ∷ date ∷ text_search ∷ file_search ∷ filesystem_find ∷ file_inspection
    ∷ path_processing ∷ text_processing ∷ file_write ∷ file_management ∷ file_cleanup ∷ []

-- How many of the keywords stand in the request.
unfoldable pub score : Bytes → List Bytes → ℕ
score lowered [] = 0
score lowered (keyword ∷ rest) =
    let later = score lowered rest in if contains lowered keyword then suc later else later

-- The loop over the candidates: a later one wins only with a higher score.
best_of : Bytes → Profile → ℕ → List Candidate → Profile × ℕ
best_of lowered best best_score [] = (best, best_score)
best_of lowered best best_score (c ∷ rest) =
    let s = score lowered c.keywords in
    best_of lowered (if ltb best_score s then c.profile else best)
      (if ltb best_score s then s else best_score) rest

abbrev no_profile : Profile
no_profile = record { name = []; tools = [] }

choose : Profile × ℕ → Profile
choose (best, best_score) =
    if best_score == 0
    then fallback_profile
    else if ltb max_exposed_tools (length best.tools)
    then record best { tools = take max_exposed_tools best.tools }
    else best

-- `SelectProfile`; `unicode_lower` lowers a text that is not ASCII.
unfoldable pub select_profile : (Bytes → Bytes) → Bytes → Profile
unfolding best_of choose
select_profile unicode_lower request =
    choose (best_of (to_lower unicode_lower request) no_profile 0 profiles)
