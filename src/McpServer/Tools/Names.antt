-- ===== src/McpServer/Tools/Names.antt =====
-- coreutils/path.go and the base64 functions of coreutils/text.go, with the handlers of
-- internal/mcpserver/tools.go on them and on the time, which are in no tool definition. Digests,
-- base64 and the clock are parameters.
use groovy_agent.Base.{
  ℕ, ◌*◌, ◌-◌, Bool, true, false, not, ◌&&◌, Bytes, [], ◌∷◌, Option, none, some, same, codes,
  length, take, ltb, if◌then◌else◌, Result, ok, err,
}
use groovy_agent.Strings.{trim_space, trim_right, has_prefix, is_empty}
use groovy_agent.Json.{str, Fields, end, field}
use groovy_agent.McpProto.{invalid_arguments, tool_error, permission_denied, result_too_large}
use groovy_agent.McpServer.Workspace.{
  is_regular_kind, SysError, not_permitted, FileInfo, OpenFile, base_name, dir_name, resolve_path,
}
use groovy_agent.McpServer.Tools.{
  Limits, Payload, System, Runtime, Done, ◌>>=◌, ◌>>◌, checked, refuse, done, unless, optional_bool,
  require_string, require_text, text_or, number_field, plain_payload,
}

-- What the libraries provide: SHA-256 in hexadecimal, base64, the test for UTF-8 and the formatted
-- time, which is in UTC or local.
pub record Codes : Type 0 where
  pub sha256_hex : Bytes → Bytes
  pub base64_encode : Bytes → Bytes
  pub base64_decode : Bytes → Option Bytes
  pub is_utf8 : Bytes → Bool
  pub formatted_time : Bool → Bytes

-- `strings.HasSuffix`
has_suffix : Bytes → Bytes → Bool
has_suffix [] suffix = is_empty suffix
has_suffix (c ∷ text) suffix = if same (c ∷ text) suffix then true else has_suffix text suffix

-- `strings.TrimSuffix`
trim_suffix : Bytes → Bytes → Bytes
unfolding has_suffix
trim_suffix text suffix =
    if has_suffix text suffix then take (length text - length suffix) text else text

without_suffix : Bytes → Bytes → Bytes
unfolding trim_suffix
without_suffix name suffix =
    if not (is_empty suffix) && not (same suffix name) then trim_suffix name suffix else name

root_or_dot : Bytes → Bytes
root_or_dot input = if has_prefix input (codes "/") then codes "/" else codes "."

-- `Basename`
unfoldable pub basename : Bytes → Bytes → Bytes
unfolding without_suffix root_or_dot
basename input suffix =
    let trimmed = trim_right b'/' input in
    if is_empty trimmed then root_or_dot input else without_suffix (base_name trimmed) suffix

-- `Dirname`
unfoldable pub dirname : Bytes → Bytes
dirname input = dir_name input

pub data DecodeError : Type 0 where
  not_base64 not_text : DecodeError

decoded_text : Codes → Option Bytes → Result DecodeError Bytes
decoded_text K none = err not_base64
decoded_text K (some text) = if K.is_utf8 text then ok text else err not_text

-- `Base64Decode`
unfoldable pub base64_decode_text : Codes → Bytes → Result DecodeError Bytes
unfolding decoded_text
base64_decode_text K text = decoded_text K (K.base64_decode (trim_space text))

decode_message : DecodeError → Bytes
decode_message not_base64 = codes "input is not valid base64"
decode_message not_text = codes "decoded data is not valid UTF-8 text"

abbrev name_payload : Bytes → Payload
name_payload output = plain_payload output false end

-- `runDate`
unfoldable pub run_date : Codes → Fields → Done Payload
run_date K arguments = done (
    plain_payload (K.formatted_time (optional_bool arguments (codes "utc"))) false
      (field (codes "format") (str (codes "RFC3339")) end))

-- `runBasename`
unfoldable pub run_basename : Runtime → Fields → Done Payload
run_basename R arguments = do
  path ← require_string R arguments (codes "path")
  done (name_payload (basename path (text_or arguments (codes "suffix") [])))

-- `runDirname`
unfoldable pub run_dirname : Runtime → Fields → Done Payload
run_dirname R arguments = do
  path ← require_string R arguments (codes "path")
  done (name_payload (dirname path))

decode_done : Result DecodeError Bytes → Done Payload
unfolding decode_message
decode_done (ok text) = done (name_payload text)
decode_done (err e) = refuse invalid_arguments (decode_message e)

-- `runBase64`
unfoldable pub run_base64 : Codes → Limits → Runtime → Fields → Done Payload
unfolding decode_done
run_base64 K L R arguments = do
  text ← require_text R L arguments (codes "text")
  if optional_bool arguments (codes "decode")
      then decode_done (base64_decode_text K text)
      else done (name_payload (K.base64_encode text))

-- `maxHashBytes`
abbrev max_hash_bytes : ℕ
max_hash_bytes = 1024 * 1024

inspected : Option FileInfo → Done FileInfo
inspected none = refuse tool_error (codes "file could not be inspected")
inspected (some info) = done info

whole_content : Result SysError OpenFile → Done Bytes
whole_content (err not_permitted) = refuse permission_denied (codes "file is not readable")
whole_content (err _) = refuse tool_error (codes "file could not be read")
whole_content (ok file) =
    if file.read_fails
    then refuse tool_error (codes "file could not be read")
    else done file.content

-- `runSha256Sum`
unfoldable pub run_sha256_sum : Codes → Bytes → System → Runtime → Fields → Done Payload
unfolding inspected whole_content is_regular_kind
run_sha256_sum K workspace S R arguments = do
  relative ← require_string R arguments (codes "path")
  path ← checked (resolve_path workspace S.files relative)
  info ← inspected (S.files.lstat path)
  unless (is_regular_kind info.kind) invalid_arguments (codes "path is not a regular file")
  unless (not (ltb max_hash_bytes info.size)) result_too_large
      (codes "file is too large to hash within the execution budget")
  content ← whole_content (S.files.open_file path)
  done (
      plain_payload (K.sha256_hex content) false (
        field (codes "path") (str relative)
          (field (codes "bytes") (number_field (length content)) end)))
