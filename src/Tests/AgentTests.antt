-- ===== src/Tests/AgentTests.antt =====
-- The agent's theorems at concrete inputs.
use groovy_agent.Base.{
  member, ◌+◌, ◌≤◌, ◌<◌, ◌≡◌, ◌≢◌, refl, [], ◌∷◌, none, some, codes, same, if◌then◌else◌, ok, err,
}
use groovy_agent.Strings.{
  trim_space, split_byte, to_lower, contains, has_prefix, contains_byte, decimal,
}
use groovy_agent.Paths.{elements, clean, is_abs}
use groovy_agent.Paths.Clean.{walk, climbs, Inside}
use groovy_agent.Json.{obj, end, get}
use groovy_agent.McpProto.{result_text}
use groovy_agent.JsonSchema.{validate, out_of_fuel, validate_raw, depth}
use groovy_agent.JsonSchema.Fuel.{validate-fuel_suffices}
use groovy_agent.Agent.Context.{
  prune_messages, tools_tokens, messages_tokens, message_tokens, fit, clamp_message, last_user,
  is_role, fixed_tokens, estimate_tokens, keys_tokens, calls_tokens, clamp_text,
}
use groovy_agent.Agent.Context.Bounds.{available_tokens, prune_messages-fits}
use groovy_agent.Agent.Context.Exchanges.{IsLastUser, Pruned, prune_messages-Pruned}
use groovy_agent.Agent.Profiles.{profiles, select_profile, score}
use groovy_agent.Agent.Profiles.Choice.{Chosen, select_profile-Chosen}
use groovy_agent.Agent.ToolCall.{
  find, check_arguments, error_payload, normalize_result, tool_message, validate_call,
  max_total_tool_calls, validate_workspace_path,
}
use groovy_agent.Agent.ToolCall.Checks.{
  Accepted, validate_call-Accepted, validate_workspace_path-Inside,
}
use groovy_agent.Agent.Session.{
  loop, expose_profile, run_calls, World, round_limit_message, run_rounds, run_tool_call,
  per_turn_limit, duplicate_key,
}
use groovy_agent.Agent.Session.Permitted.{
  IsBoundedRun, fresh, count_asked, count_called, loop-IsBoundedRun,
}
use groovy_agent.Agent.Session.Output.{RunPrints, loop-RunPrints}
use groovy_agent.Agent.Run.{filter_discovered, run}
use groovy_agent.Agent.Run.Allowlist.{
  IsAllowedRun, run-IsAllowedRun, last_named, find-filter_discovered,
}
use groovy_agent.Tests.Samples.{
  whole_floats, object_schema, sample_codec, cat_tool, cat_call, asks_for_cat, busy_services,
  sample_session, sample_config, sample_startup, user_message, system_message,
}

-- A whole run, with all that it calls open.
busy_world : World
unfolding loop expose_profile select_profile score contains to_lower same run_rounds prune_messages
    last_user is_role fixed_tokens tools_tokens estimate_tokens keys_tokens message_tokens
    calls_tokens messages_tokens fit clamp_message clamp_text run_calls run_tool_call validate_call
    trim_space has_prefix validate_raw validate get check_arguments validate_workspace_path
    contains_byte climbs clean split_byte is_abs error_payload normalize_result result_text
    tool_message per_turn_limit duplicate_key member decimal depth
busy_world = (loop busy_services sample_codec sample_session fresh).1

-- A busy model is asked three times, its one call a round is made, and the run gives up.
busy_run :
    (count_asked busy_world.history ≡ 3)
    × (count_called busy_world.history ≡ 3)
    × (busy_world.out ≡ round_limit_message ∷ [])
unfolding busy_world
busy_run = (refl, refl, refl)

loop-IsBoundedRun_example :
    let (exposed, tools) =
      expose_profile sample_codec sample_session.discovered
        (select_profile busy_services.unicode_lower sample_session.prompt) in
    IsBoundedRun sample_codec sample_session exposed tools
      (loop busy_services sample_codec sample_session fresh).1
loop-IsBoundedRun_example = loop-IsBoundedRun busy_services sample_codec sample_session

run-IsAllowedRun_example :
    IsAllowedRun sample_config
      (run busy_services sample_codec some sample_startup sample_config fresh).1
run-IsAllowedRun_example =
    run-IsAllowedRun busy_services sample_codec some sample_startup sample_config

loop-RunPrints_example :
    RunPrints busy_services sample_session 3 fresh
      (loop busy_services sample_codec sample_session fresh)
loop-RunPrints_example = loop-RunPrints busy_services sample_codec sample_session fresh

cat_is_valid :
    validate_call sample_codec sample_session.discovered 4 cat_call ≡ ok (codes "{}", cat_tool)
unfolding validate_call same trim_space has_prefix validate_raw validate get depth check_arguments
    validate_workspace_path contains_byte climbs clean split_byte is_abs find
cat_is_valid = refl

validate_call-Accepted_example :
    (4 < max_total_tool_calls)
    × Accepted sample_codec sample_session.discovered (codes "cat") (codes "{}") cat_tool
validate_call-Accepted_example =
    validate_call-Accepted sample_codec sample_session.discovered 4 cat_call (codes "{}") cat_tool
      cat_is_valid

src_is_valid : validate_workspace_path (codes " src/../doc ") ≡ ok tt
unfolding validate_workspace_path contains_byte climbs clean split_byte is_abs same trim_space
    has_prefix
src_is_valid = refl

validate_workspace_path-Inside_example :
    Inside (codes "work" ∷ []) (walk (codes "work" ∷ []) (elements (codes " src/../doc ")))
validate_workspace_path-Inside_example =
    validate_workspace_path-Inside (codes " src/../doc ") (codes "work" ∷ []) src_is_valid

request_is_last :
    IsLastUser (system_message ∷ user_message ∷ asks_for_cat ∷ []) user_message (asks_for_cat ∷ [])
unfolding is_role same
request_is_last = record {
  before = system_message ∷ [];
  splits = refl;
  is_user = refl;
  latest = (refl, tt);
}

prune_messages-Pruned_example :
    Pruned [] system_message user_message
      (asks_for_cat ∷ [])
      (prune_messages (system_message ∷ user_message ∷ asks_for_cat ∷ []) [])
prune_messages-Pruned_example =
    prune_messages-Pruned system_message (user_message ∷ asks_for_cat ∷ []) [] user_message
      (asks_for_cat ∷ []) request_is_last

short_is_kept :
    prune_messages (system_message ∷ user_message ∷ []) [] ≡ ok (system_message ∷ user_message ∷ [])
unfolding prune_messages last_user is_role same fixed_tokens tools_tokens message_tokens
    calls_tokens estimate_tokens fit messages_tokens
short_is_kept = refl

prune_messages-fits_example :
    tools_tokens [] + messages_tokens (system_message ∷ user_message ∷ []) ≤ available_tokens
prune_messages-fits_example =
    prune_messages-fits (system_message ∷ user_message ∷ []) (system_message ∷ user_message ∷ []) []
      short_is_kept

select_profile-Chosen_example :
    Chosen
      (to_lower (λ text. text) (codes "Show the README"))
      profiles
      (select_profile (λ text. text) (codes "Show the README"))
select_profile-Chosen_example = select_profile-Chosen (λ text. text) (codes "Show the README")

find-filter_discovered_example :
    find (filter_discovered (cat_tool ∷ []) (codes "cat" ∷ [])) (codes "cat") ≡ (
      if member (codes "cat" ∷ []) (codes "cat")
      then last_named (cat_tool ∷ []) (codes "cat")
      else none)
find-filter_discovered_example =
    find-filter_discovered (cat_tool ∷ []) (codes "cat" ∷ []) (codes "cat")

validate-fuel_suffices_example : validate whole_floats object_schema (obj end) ≢ err out_of_fuel
validate-fuel_suffices_example = validate-fuel_suffices whole_floats object_schema (obj end)
