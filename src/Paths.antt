-- ===== src/Paths.antt =====
-- What the source uses of Go's path/filepath on Unix: `Clean`, `Join`, `Base`, `Dir` and `IsAbs`,
-- over the elements of a path between its slashes.
pub mod Clean
use mathlib.Core.List.{reverse}
use groovy_agent.Base.{
  ℕ, zero, suc, Bool, true, false, not, ◌&&◌, ◌||◌, Bytes, List, [], ◌∷◌, ◌++◌, Option, none, some,
  same, codes, ◌==◌, if◌then◌else◌, ◌≡◌, refl,
}
use groovy_agent.Strings.{has_prefix, split_byte, join_with}

-- `strings.Split(text, "/")`
abbrev pub elements : Bytes → List Bytes
elements = split_byte b'/'

-- `strings.Join(parts, "/")`
abbrev pub join_slash : List Bytes → Bytes
join_slash = join_with (codes "/")

abbrev pub dot : Bytes
dot = b'.' ∷ []

abbrev pub dot_dot : Bytes
dot_dot = b'.' ∷ b'.' ∷ []

-- One element of `Clean`, with what is kept so far from its end. An element ".." takes back the
-- last one unless that is "..", and is dropped at the root.
back : Bool → List Bytes → List Bytes
back true [] = []
back false [] = dot_dot ∷ []
back rooted (e ∷ kept) = if same e dot_dot then dot_dot ∷ e ∷ kept else kept

clean_step : Bool → List Bytes → Bytes → List Bytes
unfolding back
clean_step rooted kept e =
    if same e [] || same e dot then kept else if same e dot_dot then back rooted kept else e ∷ kept

clean_onto : Bool → List Bytes → List Bytes → List Bytes
unfolding clean_step
clean_onto rooted kept [] = kept
clean_onto rooted kept (e ∷ rest) = clean_onto rooted (clean_step rooted kept e) rest

-- `filepath.IsAbs`
unfoldable pub is_abs : Bytes → Bool
unfolding has_prefix
is_abs path = has_prefix path (codes "/")

relative_or_dot : Bytes → Bytes
relative_or_dot [] = dot
relative_or_dot (c ∷ text) = c ∷ text

pub clean_elements : Bytes → List Bytes
unfolding clean_onto split_byte is_abs
clean_elements path = reverse (clean_onto (is_abs path) [] (elements path))

-- `filepath.Clean`
unfoldable pub clean : Bytes → Bytes
unfolding clean_elements join_with relative_or_dot
clean path =
    if is_abs path
    then b'/' ∷ join_slash (clean_elements path)
    else relative_or_dot (join_slash (clean_elements path))

clean_runs :
    (clean (codes "a/./b//../c/") ≡ codes "a/c")
    × (clean (codes "a/../../b") ≡ codes "../b")
    × (clean (codes "/../a/..") ≡ codes "/")
    × (clean (codes "") ≡ codes ".")
unfolding clean same
clean_runs = (refl, refl, refl, refl)
