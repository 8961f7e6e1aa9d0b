-- ===== src/McpServer/Tools/Find/Results.antt =====
-- What `find` counts, and how many lines it gives.
use groovy_agent.Base.{
  ◌≡◌, refl, ℕ, ◌+◌, ◌<◌, ◌≤◌, Bool, true, false, ◌||◌, Bytes, List, [], ◌∷◌, ◌++◌, Option, none,
  some, same, Result, ok, err, Bool-cases, inl, inr, length, pos, arith, length-append, ltb,
}
use groovy_agent.McpServer.Workspace.{FileKind, directory, regular, special, inside}
use groovy_agent.McpServer.Tools.{Visit, Runtime}
use groovy_agent.McpServer.Tools.Find.{
  Stop, limit_reached, tool_stop, other_stop, Found, nothing_found, Query, visit, walk_all,
  add_entry, limited, collect, by_kind, match_names, glob_result, MatchMode, substring, glob,
  other_mode, go_on, find_name_matches,
}

-- The lines are counted as files or directories.
IsCounted : Found → Type 0
IsCounted f = f.files + f.directories ≡ length f.lines

-- The walk ends at the limit just when it has that many lines, and has fewer otherwise.
IsWithin : ℕ → Found → Option Stop → Type 0
IsWithin m f (some limit_reached) = length f.lines ≡ m
IsWithin m f _ = length f.lines < m

pub IsEnded : ℕ → Found × Option Stop → Type 0
unfolding IsCounted IsWithin
IsEnded m (f, stop) = IsCounted f × IsWithin m f stop

module _ (workspace : Bytes) (R : Runtime) (q : Query) (m : ℕ) (most : q.max_results ≡ pos m) where
  limited-IsEnded :
      (f : Found) → IsCounted f → length f.lines ≤ m → IsEnded m (limited workspace R q f)
  unfolding limited IsEnded
  limited-IsEnded f counted h = elim (Bool-cases (ltb (length f.lines) m)) [
    | inl e ↦ rw (most, e) (counted, ground arith)
    | inr e ↦ rw (most, e) (counted, ground arith)
  ]

  one_more : (lines : List Bytes) (line : Bytes) → length (lines ++ line ∷ []) ≡ length lines + 1
  one_more lines line = length-append lines (line ∷ [])

  add_entry-IsEnded :
      (kind : FileKind) (path : Bytes) (f : Found)
      → IsEnded m (f, none)
      → IsEnded m (limited workspace R q (add_entry workspace R q kind path f))
  unfolding add_entry IsEnded IsCounted
  add_entry-IsEnded directory path f (counted, h) =
      limited-IsEnded _ (omega (arith, counted, one_more f.lines (path ++ b'/' ∷ [])))
        (omega (arith, h, one_more f.lines (path ++ b'/' ∷ [])))
  add_entry-IsEnded regular path f (counted, h) =
      limited-IsEnded _ (omega (arith, counted, one_more f.lines path))
        (omega (arith, h, one_more f.lines path))
  add_entry-IsEnded special path f (counted, h) = limited-IsEnded f counted (omega (arith, h))

  collect-IsEnded :
      (v : Visit) (kind : FileKind) (answer : Result Stop Bool) (f : Found)
      → ¬ (answer ≡ err limit_reached)
      → IsEnded m (f, none)
      → IsEnded m (collect workspace R q v kind answer f)
  unfolding collect IsEnded
  collect-IsEnded v kind (err limit_reached) f k h = elim (k refl) [ ]
  collect-IsEnded v kind (err (tool_stop e)) f k h = h
  collect-IsEnded v kind (err other_stop) f k h = h
  collect-IsEnded v kind (ok false) f k h = h
  collect-IsEnded v kind (ok true) f k h = add_entry-IsEnded kind _ f h

  glob_result-fails : (answer : Option Bool) → ¬ (glob_result answer ≡ err limit_reached)
  unfolding glob_result
  glob_result-fails none e = cc
  glob_result-fails (some b) e = cc

  match_names-fails :
      (mode : MatchMode) (left right : Bytes)
      → ¬ (match_names R mode left right ≡ err limit_reached)
  unfolding match_names
  match_names-fails substring left right e = cc
  match_names-fails glob left right e = glob_result-fails (R.glob_match right left) e
  match_names-fails other_mode left right e = cc

  by_kind-IsEnded :
      (v : Visit) (kind : FileKind) (f : Found)
      → IsEnded m (f, none)
      → IsEnded m (by_kind workspace R q v kind f)
  unfolding by_kind find_name_matches
  by_kind-IsEnded v special f h = h
  by_kind-IsEnded v directory f h = collect-IsEnded v directory _ f (match_names-fails q.mode _ _) h
  by_kind-IsEnded v regular f h = collect-IsEnded v regular _ f (match_names-fails q.mode _ _) h

  visit-IsEnded :
      (v : Visit) (f : Found) → IsEnded m (f, none) → IsEnded m (visit workspace R q v f)
  unfolding visit IsEnded
  visit-IsEnded v f h = elim (Bool-cases (v.fails || R.done_at v.path)) [
    | inl e ↦ rw e h
    | inr e ↦ elim (Bool-cases (same v.path q.root)) [
      | inl g ↦ rw (e, g) h
      | inr g ↦ elim (Bool-cases (inside workspace v.path)) [
        | inl i ↦ rw (e, g, i) (by_kind-IsEnded v v.kind f h)
        | inr i ↦ rw (e, g, i) h
      ]
    ]
  ]

  go_on-IsEnded :
      (r : Found × Option Stop) (next : Found → Found × Option Stop)
      → IsEnded m r
      → ((f : Found) → IsEnded m (f, none) → IsEnded m (next f))
      → IsEnded m (go_on workspace R q r next)
  unfolding go_on
  go_on-IsEnded (f, none) next h k = k f h
  go_on-IsEnded (f, some stop) next h k = h

  walk_all-IsEnded_from :
      (visits : List Visit) (f : Found)
      → IsEnded m (f, none)
      → IsEnded m (walk_all workspace R q visits f)
  unfolding walk_all
  walk_all-IsEnded_from [] f h = h
  walk_all-IsEnded_from (v ∷ visits) f h =
      go_on-IsEnded (visit workspace R q v f) _ (visit-IsEnded v f h) (walk_all-IsEnded_from visits)

-- However the tree looks, a walk for at least one result counts each of its lines once, as a file or
-- as a directory. It reports that the limit is reached just when it has exactly as many lines as
-- asked for, and otherwise ends with fewer.
pub walk_all-IsEnded :
    (workspace : Bytes) (R : Runtime) (q : Query) (visits : List Visit) (m : ℕ)
    → q.max_results ≡ pos m
    → 0 < m
    → IsEnded m (walk_all workspace R q visits nothing_found)
unfolding nothing_found IsEnded IsCounted IsWithin
walk_all-IsEnded workspace R q visits m most some_result =
    walk_all-IsEnded_from workspace R q m most visits nothing_found (refl, some_result)
