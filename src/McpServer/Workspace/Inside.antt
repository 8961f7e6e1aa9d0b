-- ===== src/McpServer/Workspace/Inside.antt =====
-- The paths that the workspace gives out lie inside it.
use groovy_agent.Base.{
  ◌≡◌, refl, ap, ◌∙◌, ◌⊎◌, inl, inr, true, ==_iff, Bytes, List, [], ◌∷◌, ◌++◌, Option, none, some,
  same, same_iff, Bool-cases, Result, ok, err, ok-injective, bind-eq-ok, arith,
}
use groovy_agent.Strings.{has_prefix}
use groovy_agent.Paths.{clean, elements}
use groovy_agent.Paths.Clean.{climbs, walk, clean-Inside}
use groovy_agent.Paths.Clean as Clean
use groovy_agent.McpServer.Workspace.{
  SysError, FileInfo, FileKind, directory, regular, special, FileSystem, ToolError, inside,
  join_path, check_resolved, missing_or_broken, resolve_path, resolve_touch_path, or_new, new_path,
  in_directory, dir_name, base_name, not_exist, not_permitted, other_error, in_kind,
}

-- The workspace, or a path that begins with it and a slash.
abbrev pub IsInside : Bytes → Bytes → Type 0
IsInside workspace path =
    (path ≡ workspace) ⊎ ((below : Bytes) × (path ≡ workspace ++ b'/' ∷ below))

has_prefix-split :
    (text prefix : Bytes) → has_prefix text prefix ≡ true → (rest : Bytes) × (text ≡ prefix ++ rest)
unfolding has_prefix
has_prefix-split text [] h = (text, refl)
has_prefix-split [] (p ∷ prefix) h = cc
has_prefix-split (c ∷ text) (p ∷ prefix) h =
    let (rest, e) = has_prefix-split text prefix (ground arith) in
    let first : c ≡ p = (==_iff c p).0 (ground arith) in (rest, cc (e, first))

slash-append : (dir rest : Bytes) → (dir ++ b'/' ∷ []) ++ rest ≡ dir ++ b'/' ∷ rest
slash-append [] rest = refl
slash-append (d ∷ dir) rest = ap (◌∷◌ d) (slash-append dir rest)

module _ (workspace : Bytes) where
  inside-IsInside : (path : Bytes) → inside workspace path ≡ true → IsInside workspace path
  unfolding inside
  inside-IsInside path h = elim (Bool-cases (same path workspace)) [
    | inl e ↦ inl ((same_iff path workspace).0 e)
    | inr e ↦
        let (rest, split) = has_prefix-split path (workspace ++ b'/' ∷ []) (rw e at h) in
        inr (rest, split ∙ slash-append workspace rest)
  ]

  module _ (F : FileSystem) where
    -- What a path is that `resolvePath` gives out: the workspace or beneath it, and so is the path
    -- whose symbolic links it resolves; the path asked for never leaves a directory it is read in.
    pub record Resolved (relative path : Bytes) : Type 0 where
      pub place : IsInside workspace path
      pub real : F.eval_symlinks (clean (join_path workspace (clean relative))) ≡ ok path
      pub joined : IsInside workspace (clean (join_path workspace (clean relative)))
      pub stays : (dir : List Bytes) → Clean.Inside dir (walk dir (elements relative))

    check_resolved-ok :
        (found : Result SysError Bytes) (path : Bytes)
        → check_resolved workspace F found ≡ ok path
        → (found ≡ ok path) × IsInside workspace path
    unfolding check_resolved missing_or_broken
    check_resolved-ok (err not_exist) path h = cc
    check_resolved-ok (err not_permitted) path h = cc
    check_resolved-ok (err other_error) path h = cc
    check_resolved-ok (ok resolved) path h = elim (Bool-cases (inside workspace resolved)) [
      | inl e ↦
          let same_path : resolved ≡ path = ok-injective (rw e at h) in
          (cc same_path, inside-IsInside path (cc (e, same_path)))
      | inr e ↦ cc (h, e)
    ]

    -- Whatever the file system and its symbolic links, a path that `resolvePath` gives out is the
    -- workspace or lies beneath it.
    pub resolve_path-Resolved :
        (relative path : Bytes)
        → resolve_path workspace F relative ≡ ok path
        → Resolved relative path
    unfolding resolve_path
    resolve_path-Resolved relative path h =
        let (real, place) =
          check_resolved-ok (F.eval_symlinks (clean (join_path workspace (clean relative)))) path
            (ground arith) in
        record {
          place = place;
          real = real;
          joined = inside-IsInside (clean (join_path workspace (clean relative))) (ground arith);
          stays = λ dir. clean-Inside relative dir (ground arith) (ground arith);
        }

    in_kind-IsInside :
        (kind : FileKind) (parent name path : Bytes)
        → in_kind workspace F kind parent name ≡ ok path
        → (path ≡ join_path parent name) × IsInside workspace path
    unfolding in_kind
    in_kind-IsInside regular parent name path h = cc
    in_kind-IsInside special parent name path h = cc
    in_kind-IsInside directory parent name path h =
        elim (Bool-cases (inside workspace (join_path parent name))) [
          | inl e ↦
              let same_path : join_path parent name ≡ path = ok-injective (rw e at h) in
              (cc same_path, inside-IsInside path (cc (e, same_path)))
          | inr e ↦ cc (h, e)
        ]

    in_directory-IsInside :
        (info : Option FileInfo) (parent name path : Bytes)
        → in_directory workspace F info parent name ≡ ok path
        → (path ≡ join_path parent name) × IsInside workspace path
    unfolding in_directory
    in_directory-IsInside none parent name path h = cc
    in_directory-IsInside (some info) parent name path h =
        in_kind-IsInside info.kind parent name path h

    -- A path for a new file: its name beneath a directory that `resolvePath` gives out.
    pub record IsNew (relative path : Bytes) : Type 0 where
      pub parent : Bytes
      pub parent_place : Resolved (dir_name (clean relative)) parent
      pub named : path ≡ join_path parent (base_name (clean relative))

    new_path-IsNew :
        (relative path : Bytes)
        → new_path workspace F relative ≡ ok path
        → IsNew relative path × IsInside workspace path
    unfolding new_path
    new_path-IsNew relative path h =
        let (parent, found, last) =
          bind-eq-ok (resolve_path workspace F (dir_name (clean relative)))
            (λ parent. in_directory workspace F (F.stat parent) parent (base_name (clean relative)))
            (ground arith) in
        let (named, place) =
          in_directory-IsInside (F.stat parent) parent (base_name (clean relative)) path last in
        (
          record {
            parent = parent;
            parent_place = resolve_path-Resolved (dir_name (clean relative)) parent found;
            named = named;
          },
          place,
        )

    or_new-Touches :
        (relative path : Bytes) (r : Result ToolError Bytes)
        → resolve_path workspace F relative ≡ r
        → or_new workspace F relative r ≡ ok path
        → (Resolved relative path ⊎ IsNew relative path) × IsInside workspace path
    unfolding or_new
    or_new-Touches relative path (ok found) e h =
        let resolved = resolve_path-Resolved relative path (e ∙ h) in (inl resolved, resolved.place)
    or_new-Touches relative path (err why) e h =
        let (fresh, place) = new_path-IsNew relative path (ground arith) in (inr fresh, place)

    -- Whatever the file system and its symbolic links, a path that `resolveTouchPath` gives out lies
    -- inside the workspace, and is one that `resolvePath` gives out or a name in such a directory.
    pub resolve_touch_path-IsInside :
        (relative path : Bytes)
        → resolve_touch_path workspace F relative ≡ ok path
        → (Resolved relative path ⊎ IsNew relative path) × IsInside workspace path
    unfolding resolve_touch_path
    resolve_touch_path-IsInside relative path h =
        or_new-Touches relative path (resolve_path workspace F relative) refl h
