-- ===== src/McpServer/Tools/Texts/Quiet.antt =====
-- `coreutils_run` asks for no change.
use groovy_agent.Base.{
  ◌&&◌, Bytes, Option, none, some, codes, Bool-cases, inl, inr, Result, ok, err,
}
use groovy_agent.Json.{
  null, bool, float, number, int, str, arr, obj, Items, nil, cons, Fields, get, as_array,
}
use groovy_agent.Coreutils.Command.{Command, Check, Failure, lookup_command}
use groovy_agent.McpServer.Tools.{Effect, Runtime}
use groovy_agent.McpServer.Tools.Changes.{Changes, first_then, both, reading}
use groovy_agent.McpServer.Tools.Texts.{run_coreutils, permitted, strings_of, valid_args, ran}

module _ (P : Effect → Type 0) (R : Runtime) where
  permitted-none : (c : Option Command) → Changes P (permitted c)
  unfolding permitted
  permitted-none none = tt
  permitted-none (some c) = elim (Bool-cases (c.expose_to_mcp && c.read_only)) [
    | inl e ↦ rw e tt
    | inr e ↦ rw e tt
  ]

  strings_of-none : (items : Items) → Changes P (strings_of (some items))
  unfolding strings_of
  strings_of-none nil = tt
  strings_of-none (cons null rest) = tt
  strings_of-none (cons (bool b) rest) = tt
  strings_of-none (cons (float x) rest) = tt
  strings_of-none (cons (number text) rest) = tt
  strings_of-none (cons (int n) rest) = tt
  strings_of-none (cons (str text) rest) =
      first_then P (strings_of (some rest)) _ (strings_of-none rest) λ more e. tt
  strings_of-none (cons (arr items) rest) = tt
  strings_of-none (cons (obj fields) rest) = tt

  all_strings_of-none : (items : Option Items) → Changes P (strings_of items)
  all_strings_of-none none = unfold strings_of in tt
  all_strings_of-none (some items) = strings_of-none items

  valid_args-none : (c : Check) → Changes P (valid_args c)
  unfolding valid_args
  valid_args-none (ok done) = tt
  valid_args-none (err why) = tt

  ran-none : (name : Bytes) (r : Result Failure Bytes) → Changes P (ran name r)
  unfolding ran
  ran-none name (ok out) = tt
  ran-none name (err why) = tt

  pub run_coreutils-none : (arguments : Fields) → Changes P (run_coreutils R arguments)
  unfolding run_coreutils
  run_coreutils-none arguments = reading P R arguments _ _ λ name.
      first_then P (permitted (lookup_command R.floats name)) _
        (permitted-none (lookup_command R.floats name))
        λ (command : Command) e.
          first_then P (strings_of (as_array (get arguments (codes "args")))) _
            (all_strings_of-none (as_array (get arguments (codes "args"))))
            λ args f.
              both P (valid_args (command.validate_args args)) _
                (valid_args-none (command.validate_args args)) (ran-none name _)
