-- ===== src/OpenaiProxy.antt =====
-- internal/openaiproxy/proxy.go: the tools that the proxy adds to a chat request, and the guards on
-- the tool calls of a reply. `net/http` and `encoding/json` are parameters; headers, the log and the
-- copy of a streamed body are left out.
pub mod Tools
pub mod Guards
pub mod Requests
use groovy_agent.Base.{
  Bool, true, false, Bytes, List, [], ◌∷◌, Option, none, some, same, if◌then◌else◌,
}
use groovy_agent.Json.{Value, arr, obj, Items, nil, cons, Fields, end, field}

-- `fields[key] = value`, the first field with a key being the one that counts
unfoldable pub set : Bytes → Value → Fields → Fields
set key value end = field key value end
set key value (field name old rest) =
    let more = set key value rest in
    if same name key then field name value rest else field name old more

-- `delete(fields, key)`
unfoldable pub delete : Bytes → Fields → Fields
delete key end = end
delete key (field name value rest) =
    let more = delete key rest in if same name key then more else field name value more

pub object_items : List Fields → Items
object_items [] = nil
object_items (fields ∷ rest) = cons (obj fields) (object_items rest)
