-- ===== src/McpServer/Workspace/Reads.antt =====
-- What `readFile` and `readFileTail` return of a file.
use groovy_agent.Base.{
  ℕ, zero, suc, ◌+◌, ◌-◌, ◌≤◌, ◌<◌, ◌≡◌, refl, sym, ap, ◌∙◌, inl, inr, Bool, true, false, ◌||◌,
  ◌==◌, Bytes, List, [], ◌∷◌, Option, none, some, length, take, drop, length-take, length-drop,
  take_all, min, ltb, ltb→lt, ltb_false→le, Bool-cases, Result, ok, err, ok-injective, err-ne-ok,
  bind-eq-ok, ℤ, pos, negsuc, arith,
}
use groovy_agent.McpServer.Workspace.{
  SysError, FileInfo, FileKind, directory, regular, special, OpenFile, FileSystem, resolve_path,
  open_regular, inspected, only_regular, opened, read_limit, bounded, read_at, sought, read_file,
  read_file_tail, not_exist, not_permitted, other_error,
}
use groovy_agent.McpServer.Workspace.Inside.{Resolved, resolve_path-Resolved}

take-take {ℓ} : {A : Type ℓ} (n m : ℕ) (xs : List A) → n ≤ m → take n (take m xs) ≡ take n xs
take-take zero m xs h = refl
take-take (suc n) zero xs h = absurd (omega arith)
take-take (suc n) (suc m) [] h = refl
take-take (suc n) (suc m) (x ∷ xs) h = ap (◌∷◌ x) (take-take n m xs (omega arith))

or_false : (b : Bool) → (b || false) ≡ b
or_false true = refl
or_false false = refl

lt→ltb : (a b : ℕ) → a < b → ltb a b ≡ true
lt→ltb a b h = ground arith

le→ltb_false : (a b : ℕ) → b ≤ a → ltb a b ≡ false
le→ltb_false a b h = ground arith

module _ (workspace : Bytes) (F : FileSystem) where
  -- The file that a path leads to: regular, inside the workspace, and opened.
  pub record Leads (relative : Bytes) (info : FileInfo) (file : OpenFile) : Type 0 where
    pub path : Bytes
    pub resolved : Resolved workspace F relative path
    pub inspects : F.lstat path ≡ some info
    pub is_regular : info.kind ≡ regular
    pub opens : F.open_file path ≡ ok file

  only_regular-ok :
      (kind : FileKind) (info got : FileInfo)
      → only_regular workspace F kind info ≡ ok got
      → (kind ≡ regular) × (info ≡ got)
  unfolding only_regular
  only_regular-ok directory info got h = cc
  only_regular-ok regular info got h = (refl, ok-injective h)
  only_regular-ok special info got h = cc

  inspected-ok :
      (found : Option FileInfo) (info : FileInfo)
      → inspected workspace F found ≡ ok info
      → (found ≡ some info) × (info.kind ≡ regular)
  unfolding inspected
  inspected-ok none info h = cc
  inspected-ok (some other) info h =
      let (kind, e) = only_regular-ok other.kind other info h in
      (ap some e, ap (λ (i : FileInfo). i.kind) (sym e) ∙ kind)

  opened-ok :
      (found : Result SysError OpenFile) (file : OpenFile)
      → opened workspace F found ≡ ok file
      → found ≡ ok file
  unfolding opened
  opened-ok (ok other) file h = ap ok (ok-injective h)
  opened-ok (err not_permitted) file h = cc
  opened-ok (err not_exist) file h = cc
  opened-ok (err other_error) file h = cc

  open_regular-Leads :
      (relative : Bytes) (info : FileInfo) (file : OpenFile)
      → open_regular workspace F relative ≡ ok (info, file)
      → Leads relative info file
  unfolding open_regular
  open_regular-Leads relative info file h =
      let (path, found, h₁) = bind-eq-ok (resolve_path workspace F relative) _ h in
      let (info', seen, h₂) = bind-eq-ok (inspected workspace F (F.lstat path)) _ h₁ in
      let (file', open_now, h₃) = bind-eq-ok (opened workspace F (F.open_file path)) _ h₂ in
      let same_info : info' ≡ info = ap (λ p. p.0) (ok-injective h₃) in
      let same_file : file' ≡ file = ap (λ p. p.1) (ok-injective h₃) in
      let (inspects, kind) = inspected-ok (F.lstat path) info (seen ∙ ap ok same_info) in
      record {
        path = path;
        resolved = resolve_path-Resolved workspace F relative path found;
        inspects = inspects;
        is_regular = kind;
        opens = opened-ok (F.open_file path) file (open_now ∙ ap ok same_file);
      }

  read_limit-le : (most : ℕ) (limit : ℤ) → read_limit workspace F most limit ≤ most
  unfolding read_limit
  read_limit-le most (pos n) = elim (Bool-cases (n == 0 || ltb most n)) [
    | inl e ↦ rw e (omega arith)
    | inr e ↦ rw e (ltb_false→le most n (ground arith))
  ]
  read_limit-le most (negsuc n) = omega arith

  -- What is read from an offset: at most `limit` bytes, and whether there is more.
  bounded-eq :
      (cut : Bool) (limit : ℕ) (bytes : Bytes)
      → bounded workspace F cut (take (limit + 1) bytes) limit
        ≡ (take limit bytes, ltb limit (length bytes) || cut)
  unfolding bounded
  bounded-eq cut limit bytes =
      let taken : length (take (limit + 1) bytes) ≡ min (limit + 1) (length bytes) =
        length-take (limit + 1) bytes in
      elim (Bool-cases (ltb limit (length bytes))) [
        | inl e ↦
            let more : ltb limit (length (take (limit + 1) bytes)) ≡ true =
              lt→ltb limit _ (omega (arith, taken, ltb→lt limit _ e)) in
            rw (more, e) (ap (λ b. (b, true)) (take-take limit (limit + 1) bytes (omega arith)))
        | inr e ↦
            let all : length bytes ≤ limit = ltb_false→le limit _ e in
            let kept : take (limit + 1) bytes ≡ bytes =
              take_all (limit + 1) bytes (omega (arith, all)) in
            rw (kept, e, take_all limit bytes all)
      ]

  read_at-eq :
      (cut : Bool) (offset limit : ℕ) (file : OpenFile) (out : Bytes × Bool)
      → read_at workspace F cut offset limit file ≡ ok out
      → out ≡ (
        take limit (drop offset file.content),
        ltb limit (length (drop offset file.content)) || cut,
      )
  unfolding read_at
  read_at-eq cut offset limit file out h = elim (Bool-cases file.read_fails) [
    | inl e ↦ absurd (err-ne-ok (rw e at h))
    | inr e ↦ sym (ok-injective (rw e at h)) ∙ bounded-eq cut limit (drop offset file.content)
  ]

  sought-read_at :
      (limit : ℕ) (info : FileInfo) (file : OpenFile) (out : Bytes × Bool)
      → sought workspace F limit info file ≡ ok out
      → read_at workspace F (ltb limit info.size) (info.size - limit) limit file ≡ ok out
  unfolding sought
  sought-read_at limit info file out h = elim (Bool-cases file.seek_fails) [
    | inl e ↦ absurd (err-ne-ok (rw e at h))
    | inr e ↦ rw e at h
  ]

  -- What a bounded read of the start of a file returns, with whether it was cut.
  pub record Reads (most : ℕ) (relative : Bytes) (limit : ℤ) (out : Bytes × Bool) : Type 0 where
    pub info : FileInfo
    pub file : OpenFile
    pub leads : Leads relative info file
    pub text : out.0 ≡ take (read_limit workspace F most limit) file.content
    pub cut : out.1 ≡ ltb (read_limit workspace F most limit) (length file.content)
    pub bounded_by : length out.0 ≤ most

  -- `readFile` returns the start of a regular file inside the workspace, as far as the limit, which
  -- is never above the server's own, and says that it is cut exactly when the file holds more.
  pub read_file-Reads :
      (most : ℕ) (relative : Bytes) (limit : ℤ) (out : Bytes × Bool)
      → read_file workspace F most relative limit ≡ ok out
      → Reads most relative limit out
  unfolding read_file
  read_file-Reads most relative limit out h =
      let ((info, file), seen, last) = bind-eq-ok (open_regular workspace F relative) _ h in
      let bound = read_limit workspace F most limit in
      let e = read_at-eq false 0 bound file out last in
      let text : out.0 ≡ take bound file.content = ap (λ p. p.0) e in
      record {
        info = info;
        file = file;
        leads = open_regular-Leads relative info file seen;
        text = text;
        cut = ap (λ p. p.1) e ∙ or_false _;
        bounded_by =
            omega (arith, ap length text, length-take bound file.content, read_limit-le most limit);
      }

  pub record ReadsEnd (most : ℕ) (relative : Bytes) (limit : ℤ) (out : Bytes × Bool) : Type 0 where
    pub info : FileInfo
    pub file : OpenFile
    pub leads : Leads relative info file
    pub text : out.0 ≡ drop (length file.content - read_limit workspace F most limit) file.content
    pub cut : out.1 ≡ ltb (read_limit workspace F most limit) (length file.content)

  -- Where the size of every file is the number of its bytes, `readFileTail` returns the end of a
  -- regular file inside the workspace, as far as the limit, and says that it is cut exactly when the
  -- file holds more.
  pub read_file_tail-ReadsEnd :
      ((path : Bytes) (info : FileInfo) (file : OpenFile)
        → F.lstat path ≡ some info
        → F.open_file path ≡ ok file
        → info.size ≡ length file.content)
      → (most : ℕ) (relative : Bytes) (limit : ℤ) (out : Bytes × Bool)
      → read_file_tail workspace F most relative limit ≡ ok out
      → ReadsEnd most relative limit out
  unfolding read_file_tail sought
  read_file_tail-ReadsEnd sized most relative limit out h =
      let ((info, file), seen, last) = bind-eq-ok (open_regular workspace F relative) _ h in
      let leads = open_regular-Leads relative info file seen in
      let bound = read_limit workspace F most limit in
      let size : info.size ≡ length file.content =
        sized leads.path info file leads.inspects leads.opens in
      let e =
        read_at-eq (ltb bound info.size) (info.size - bound) bound file out
          (sought-read_at bound info file out last) in
      let left : length (drop (info.size - bound) file.content) ≤ bound =
        omega (arith, length-drop (info.size - bound) file.content, size) in
      record {
        info = info;
        file = file;
        leads = leads;
        text =
            ap (λ p. p.0) e ∙ take_all bound _ left ∙ ap (λ n. drop (n - bound) file.content) size;
        cut =
            ap (λ p. p.1) e
            ∙ ap (λ b. b || ltb bound info.size) (le→ltb_false bound _ left)
            ∙ ap (ltb bound) size;
      }
