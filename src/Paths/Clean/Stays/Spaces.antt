-- ===== src/Paths/Clean/Stays/Spaces.antt =====
-- What spaces around a relative path do to where it leads: a path that stays inside a directory
-- without them stays inside with them, since they make names of its first and last element.
use mathlib.Core.List.{reverse, reverse-cons, reverse-reverse}
use groovy_agent.Base.{
  ℕ, zero, suc, true, false, ◌||◌, ◌==◌, Bytes, List, [], ◌∷◌, ◌++◌, same, ◌≡◌, ◌≢◌, refl, ap, sym,
  ◌∙◌, All, Bool-cases, inl, inr, length, take, drop, take-append-drop, All-append, arith,
}
use mathlib.Core.List.{append_assoc}
use mathlib.Core.Path.{subst}
use groovy_agent.Strings.{
  trim_space, space_width, space_width_back, split_byte, push_onto, trim_by, is_space_byte,
  is_space_pair, is_space_triple,
}
use groovy_agent.Paths.{dot, dot_dot, elements, is_abs, clean}
use groovy_agent.Paths.Clean.{walk, climbs, Inside, not_climbs-escapes}
use groovy_agent.Paths.Clean.Stays.{stays, stays-deeper, clean_onto-stays, stays-Inside}

-- A byte that is neither a slash nor a dot, as the bytes of white space.
abbrev IsPlain : ℕ → Type 0
IsPlain c = ((c == b'/') ≡ false) × ((c == b'.') ≡ false)

stays-name :
    (depth : ℕ) (e : Bytes) (es : List Bytes)
    → (same e [] || same e dot) ≡ false
    → same e dot_dot ≡ false
    → stays (suc depth) es ≡ true
    → stays depth (e ∷ es) ≡ true
unfolding stays
stays-name zero e es h k s = rw (h, k) s
stays-name (suc depth) e es h k s = rw (h, k) s

-- In front of the first element.
stays-front :
    (c : ℕ) (e : Bytes) (es : List Bytes)
    → (c == b'.') ≡ false
    → stays 0 (e ∷ es) ≡ true
    → stays 0 ((c ∷ e) ∷ es) ≡ true
unfolding stays same
stays-front c e es p h =
    let deeper = stays-deeper 0 es in
    let below : stays 1 es ≡ true = ground (arith, deeper) in rw p below

elements-front :
    (c : ℕ) (path : Bytes)
    → IsPlain c
    → stays 0 (elements path) ≡ true
    → stays 0 (elements (c ∷ path)) ≡ true
unfolding split_byte push_onto stays same
elements-front c path (slash, point) h = rw slash (pushed (elements path) h)
  where
    pushed : (es : List Bytes) → stays 0 es ≡ true → stays 0 (push_onto c es) ≡ true
    pushed [] k = stays-front c [] [] point refl
    pushed (e ∷ es) k = stays-front c e es point k

front :
    (spaces path : Bytes)
    → All IsPlain spaces
    → stays 0 (elements path) ≡ true
    → stays 0 (elements (spaces ++ path)) ≡ true
front [] path p h = h
front (c ∷ spaces) path p h = elements-front c (spaces ++ path) p.0 (front spaces path p.1 h)

-- A byte at the end of the last element.
extend_last : ℕ → List Bytes → List Bytes
extend_last c [] = (c ∷ []) ∷ []
extend_last c (e ∷ []) = (e ++ c ∷ []) ∷ []
extend_last c (e ∷ f ∷ es) = e ∷ extend_last c (f ∷ es)

push_onto-extend_last :
    (a c : ℕ) (es : List Bytes)
    → es ≢ []
    → push_onto a (extend_last c es) ≡ extend_last c (push_onto a es)
unfolding push_onto extend_last
push_onto-extend_last a c [] h = absurd (h refl)
push_onto-extend_last a c (e ∷ []) h = refl
push_onto-extend_last a c (e ∷ f ∷ es) h = refl

extend_last-cons :
    (c : ℕ) (e : Bytes) (es : List Bytes) → es ≢ [] → extend_last c (e ∷ es) ≡ e ∷ extend_last c es
unfolding extend_last
extend_last-cons c e [] h = absurd (h refl)
extend_last-cons c e (f ∷ es) h = refl

elements-ne-nil : (path : Bytes) → elements path ≢ []
unfolding split_byte push_onto
elements-ne-nil [] = λ e. cc
elements-ne-nil (a ∷ path) = elim (Bool-cases (a == b'/')) [
  | inl e ↦ rw e (λ k. cc)
  | inr e ↦ rw e (pushed (elements path))
]
  where
    pushed : (es : List Bytes) → push_onto a es ≢ []
    pushed [] = λ e. cc
    pushed (x ∷ es) = λ e. cc

elements-extend_last :
    (c : ℕ) (path : Bytes)
    → (c == b'/') ≡ false
    → elements (path ++ c ∷ []) ≡ extend_last c (elements path)
unfolding split_byte
elements-extend_last c [] h = rw h (unfold push_onto in unfold extend_last in refl)
elements-extend_last c (a ∷ path) h = elim (Bool-cases (a == b'/')) [
  | inl e ↦
      rw (e, elements-extend_last c path h)
        (sym (extend_last-cons c [] (elements path) (elements-ne-nil path)))
  | inr e ↦
      rw (e, elements-extend_last c path h)
        (push_onto-extend_last a c (elements path) (elements-ne-nil path))
]

snoc-name :
    (c : ℕ) (e : Bytes)
    → (c == b'.') ≡ false
    → ((same (e ++ c ∷ []) [] || same (e ++ c ∷ []) dot) ≡ false)
      × (same (e ++ c ∷ []) dot_dot ≡ false)
unfolding same
snoc-name c [] p = (rw p refl, rw p refl)
snoc-name c (a ∷ []) p = (ground arith, ground arith)
snoc-name c (a ∷ b ∷ []) p = (ground arith, ground arith)
snoc-name c (a ∷ b ∷ d ∷ e) p = (ground arith, ground arith)

stays-extend_last :
    (c depth : ℕ) (es : List Bytes)
    → (c == b'.') ≡ false
    → stays depth es ≡ true
    → stays depth (extend_last c es) ≡ true
unfolding extend_last stays
stays-extend_last c depth [] p h =
    let (some_name, up) = snoc-name c [] p in stays-name depth (c ∷ []) [] some_name up refl
stays-extend_last c depth (e ∷ []) p h =
    let (some_name, up) = snoc-name c e p in stays-name depth (e ++ c ∷ []) [] some_name up refl
stays-extend_last c zero (e ∷ f ∷ es) p h =
    let here = stays-extend_last c zero (f ∷ es) p in
    let below = stays-extend_last c 1 (f ∷ es) p in ground (arith, here, below)
stays-extend_last c (suc depth) (e ∷ f ∷ es) p h =
    let above = stays-extend_last c depth (f ∷ es) p in
    let here = stays-extend_last c (suc depth) (f ∷ es) p in
    let below = stays-extend_last c (suc (suc depth)) (f ∷ es) p in
    ground (arith, above, here, below)

-- The spaces at the end are met from the end.
end :
    (spaces back : Bytes)
    → All IsPlain spaces
    → stays 0 (elements (reverse back)) ≡ true
    → stays 0 (elements (reverse (spaces ++ back))) ≡ true
end [] back p h = h
end (c ∷ spaces) back p h =
    let inner = reverse (spaces ++ back) in
    rw (reverse-cons c (spaces ++ back), elements-extend_last c inner p.0.0)
      (stays-extend_last c 0 (elements inner) p.0.1 (end spaces back p.1 h))

trim_by-IsPlain :
    (width : Bytes → ℕ)
    → ((text : Bytes) → All IsPlain (take (width text) text))
    → (fuel : ℕ) (text : Bytes)
    → (spaces : Bytes) × (text ≡ spaces ++ trim_by width fuel text) × All IsPlain spaces
unfolding trim_by
trim_by-IsPlain width plain zero text = ([], refl, tt)
trim_by-IsPlain width plain (suc fuel) text =
    step (width text) (plain text) (trim_by-IsPlain width plain fuel (drop (width text) text))
  where
    step :
        (n : ℕ)
        → All IsPlain (take n text)
        → ((spaces : Bytes) × (drop n text ≡ spaces ++ trim_by width fuel (drop n text))
            × All IsPlain spaces)
        → (spaces : Bytes) × (text
            ≡ spaces ++ elim n [ zero ↦ text | suc n ↦ trim_by width fuel (drop (suc n) text) ])
          × All IsPlain spaces
    step zero p rest = ([], refl, tt)
    step (suc n) p (spaces, e, q) = (
      take (suc n) text ++ spaces,
      sym (take-append-drop (suc n) text)
          ∙ ap (λ l. take (suc n) text ++ l) e
          ∙ sym (append_assoc (take (suc n) text) spaces _),
      All-append IsPlain (take (suc n) text) spaces q p,
    )

byte-IsPlain : (a : ℕ) → is_space_byte a ≡ true → IsPlain a
byte-IsPlain a h = (ground arith, ground arith)

pair-IsPlain : (a b : ℕ) → is_space_pair a b ≡ true → IsPlain a × IsPlain b
pair-IsPlain a b h = ((ground arith, ground arith), (ground arith, ground arith))

triple-IsPlain : (a b c : ℕ) → is_space_triple a b c ≡ true → IsPlain a × IsPlain b × IsPlain c
triple-IsPlain a b c h =
    ((ground arith, ground arith), (ground arith, ground arith), (ground arith, ground arith))

space_width-IsPlain : (text : Bytes) → All IsPlain (take (space_width text) text)
unfolding space_width
space_width-IsPlain [] = tt
space_width-IsPlain (a ∷ []) = elim (Bool-cases (is_space_byte a)) [
  | inl one ↦ rw one (byte-IsPlain a one, tt)
  | inr e ↦ rw e tt
]
space_width-IsPlain (a ∷ b ∷ []) = elim (Bool-cases (is_space_byte a)) [
  | inl one ↦ rw one (byte-IsPlain a one, tt)
  | inr e ↦ elim (Bool-cases (is_space_pair a b)) [
    | inl two ↦ let (p, q) = pair-IsPlain a b two in rw (e, two) (p, (q, tt))
    | inr f ↦ rw (e, f) tt
  ]
]
space_width-IsPlain (a ∷ b ∷ c ∷ rest) = elim (Bool-cases (is_space_byte a)) [
  | inl one ↦ rw one (byte-IsPlain a one, tt)
  | inr e ↦ elim (Bool-cases (is_space_pair a b)) [
    | inl two ↦ let (p, q) = pair-IsPlain a b two in rw (e, two) (p, (q, tt))
    | inr f ↦ elim (Bool-cases (is_space_triple a b c)) [
      | inl three ↦ let (p, q, r) = triple-IsPlain a b c three in rw (e, f, three) (p, (q, (r, tt)))
      | inr g ↦ rw (e, f, g) tt
    ]
  ]
]

-- The same for a text that is given from its end.
space_width_back-IsPlain : (text : Bytes) → All IsPlain (take (space_width_back text) text)
unfolding space_width_back
space_width_back-IsPlain [] = tt
space_width_back-IsPlain (a ∷ []) = elim (Bool-cases (is_space_byte a)) [
  | inl one ↦ rw one (byte-IsPlain a one, tt)
  | inr e ↦ rw e tt
]
space_width_back-IsPlain (a ∷ b ∷ []) = elim (Bool-cases (is_space_byte a)) [
  | inl one ↦ rw one (byte-IsPlain a one, tt)
  | inr e ↦ elim (Bool-cases (is_space_pair b a)) [
    | inl two ↦ let (q, p) = pair-IsPlain b a two in rw (e, two) (p, (q, tt))
    | inr f ↦ rw (e, f) tt
  ]
]
space_width_back-IsPlain (a ∷ b ∷ c ∷ rest) = elim (Bool-cases (is_space_byte a)) [
  | inl one ↦ rw one (byte-IsPlain a one, tt)
  | inr e ↦ elim (Bool-cases (is_space_pair b a)) [
    | inl two ↦ let (q, p) = pair-IsPlain b a two in rw (e, two) (p, (q, tt))
    | inr f ↦ elim (Bool-cases (is_space_triple c b a)) [
      | inl three ↦ let (r, q, p) = triple-IsPlain c b a three in rw (e, f, three) (p, (q, (r, tt)))
      | inr g ↦ rw (e, f, g) tt
    ]
  ]
]

trim_space-stays :
    (path : Bytes) → stays 0 (elements (trim_space path)) ≡ true → stays 0 (elements path) ≡ true
unfolding trim_space
trim_space-stays path h =
    let left = trim_by space_width (length path) path in
    let (spaces, splits, plain) =
      trim_by-IsPlain space_width space_width-IsPlain (length path) path in
    let (last, back, plain_last) =
      trim_by-IsPlain space_width_back space_width_back-IsPlain (length left) (reverse left) in
    let inner = end last (trim_by space_width_back (length left) (reverse left)) plain_last h in
    let whole : stays 0 (elements left) ≡ true =
      subst (λ l. stays 0 (elements l) ≡ true) (reverse-reverse left)
        (subst (λ l. stays 0 (elements (reverse l)) ≡ true) (sym back) inner) in
    subst (λ l. stays 0 (elements l) ≡ true) (sym splits) (front spaces left plain whole)

-- A path whose cleaned form, without the spaces around the path, is relative and does not climb leads,
-- with these spaces too, to a place inside the directory.
pub trim_space-Inside :
    (path : Bytes) (dir : List Bytes)
    → is_abs (trim_space path) ≡ false
    → climbs (clean (trim_space path)) ≡ false
    → Inside dir (walk dir (elements path))
trim_space-Inside path dir relative kept =
    let inner =
      clean_onto-stays (elements (trim_space path)) []
        (not_climbs-escapes (trim_space path) relative kept) tt in
    stays-Inside (elements path) [] dir (trim_space-stays path inner) tt
