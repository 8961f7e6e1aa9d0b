-- ===== src/McpServer/Tools/Reading/Quiet.antt =====
-- `pwd`, `ls`, `cat` and `grep` ask for no change.
use groovy_agent.Base.{
  Bool, true, false, not, ◌&&◌, Bytes, List, Option, none, some, same, codes, Result, ok, err, ℤ,
  pos,
}
use groovy_agent.Json.{Fields}
use groovy_agent.Coreutils.Search.{GrepError, Match}
use groovy_agent.McpServer.Tools.{
  Limits, Payload, Visit, Effect, System, Runtime, text_or, has_key, optional_int, require_text,
}
use groovy_agent.McpServer.Workspace.{read_file}
use groovy_agent.McpServer.Tools.Changes.{
  Changes, first_then, quietly, checking, reading, require_text-none,
}
use groovy_agent.McpServer.Tools.Reading.{
  View, from_head, from_tail, whole_file, run_pwd, run_ls, run_cat, run_grep, listed, viewed,
  view_file, view_of, source_text, matched,
}

module _ (P : Effect → Type 0) (workspace : Bytes) (L : Limits) (S : System) (R : Runtime) where
  listed-none : (entries : Option (List Visit)) → Changes P (listed entries)
  unfolding listed
  listed-none none = tt
  listed-none (some entries) = tt

  pub run_pwd-none : (arguments : Fields) → Changes P (run_pwd workspace L S R arguments)
  unfolding run_pwd
  run_pwd-none arguments = tt

  pub run_ls-none : (arguments : Fields) → Changes P (run_ls workspace L S R arguments)
  unfolding run_ls
  run_ls-none arguments = checking P _ _ λ path e. listed-none (S.read_dir path)

  viewed-none :
      (view : View) (path name : Bytes) (limit count : ℤ) (has_max : Bool) (read : Bytes × Bool)
      → Changes P (viewed workspace L S R view path name limit count has_max read)
  unfolding viewed
  viewed-none from_head path name limit count has_max (content, truncated) = tt
  viewed-none from_tail path name limit count has_max (content, truncated) = tt
  viewed-none whole_file path name limit count has_max (content, truncated) = tt

  pub run_cat-none : (arguments : Fields) → Changes P (run_cat workspace L S R arguments)
  unfolding run_cat
  run_cat-none arguments = reading P R arguments _ _ λ path.
      quietly P {B = Payload}
        (not (
          same (text_or arguments (codes "view") (codes "full")) (codes "full")
          && has_key arguments (codes "lines")))
        _ _ _
        (checking P
          (view_file workspace L S R (view_of (text_or arguments (codes "view") (codes "full")))
            path (optional_int R.floats arguments (codes "max_bytes") (pos L.max_file_read_bytes)))
          _ λ read e. viewed-none _ _ _ _ _ _ read)

  matched-none :
      (path : Bytes) (from_path truncated : Bool) (r : Result GrepError (List Match × Bool))
      → Changes P (matched path from_path truncated r)
  unfolding matched
  matched-none path from_path truncated (err why) = tt
  matched-none path from_path truncated (ok (matches, cut)) = tt

  source_text-none :
      (from_path : Bool) (arguments : Fields)
      → Changes P (source_text workspace L S R from_path arguments)
  unfolding source_text
  source_text-none true arguments = reading P R arguments _ _ λ path.
      checking P
        (read_file workspace S.files L.max_file_read_bytes path (pos L.max_file_read_bytes)) _
        λ read e. tt
  source_text-none false arguments =
      first_then P (require_text R L arguments (codes "text")) _
        (require_text-none P R L arguments (codes "text")) λ text e. tt

  pub run_grep-none : (arguments : Fields) → Changes P (run_grep workspace L S R arguments)
  unfolding run_grep
  run_grep-none arguments = quietly P {B = Payload} _ _ _ _ (
      reading P R arguments _ _ λ pattern_text.
        first_then P _ _ (source_text-none (has_key arguments (codes "path")) arguments)
          λ source e. matched-none _ _ _ _)
