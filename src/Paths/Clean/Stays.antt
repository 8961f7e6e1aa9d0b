-- ===== src/Paths/Clean/Stays.antt =====
-- Paths that never lead out of the directory they start from, by the depth that they have reached.
pub mod Spaces
use mathlib.Core.List.{reverse, reverse-cons, reverse-reverse}
use groovy_agent.Base.{
  ℕ, zero, suc, Bool, true, false, ◌||◌, ◌&&◌, ◌==◌, leb, Bytes, List, [], ◌∷◌, ◌++◌, same,
  same_iff, if◌then◌else◌, ◌≡◌, ◌≢◌, refl, ap, sym, ◌∙◌, All, Bool-cases, inl, inr, length, take,
  drop, take-append-drop, All-append, arith,
}
use mathlib.Core.List.{append_assoc}
use mathlib.Core.Path.{subst}
use groovy_agent.Strings.{
  trim_space, space_width, space_width_back, split_byte, push_onto, trim_by, is_space_byte,
  is_space_pair, is_space_triple,
}
use groovy_agent.Paths.{dot, dot_dot, elements, is_abs, clean, clean_onto, clean_step}
use groovy_agent.Paths.Clean.{
  walk, climbs, enter, parent, Inside, escapes, IsName, clean_onto-escapes, not_climbs-escapes,
}

-- From a place `depth` names below a directory, no element leads out of the directory.
stays : ℕ → List Bytes → Bool
stays depth [] = true
stays zero (e ∷ es) =
    let here = stays zero es in
    let below = stays 1 es in
    if same e [] || same e dot then here else if same e dot_dot then false else below
stays (suc depth) (e ∷ es) =
    let here = stays (suc depth) es in
    let below = stays (suc (suc depth)) es in
    let above = stays depth es in
    if same e [] || same e dot then here else if same e dot_dot then above else below

stays-deeper : (depth : ℕ) (es : List Bytes) → stays depth es ≡ true → stays (suc depth) es ≡ true
unfolding stays
stays-deeper depth [] h = refl
stays-deeper zero (e ∷ es) h = ground (arith, stays-deeper zero es, stays-deeper 1 es)
stays-deeper (suc depth) (e ∷ es) h =
    ground
      (arith, stays-deeper depth es, stays-deeper (suc depth) es, stays-deeper (suc (suc depth)) es)

other-IsName : (e : Bytes) → same e dot_dot ≡ false → IsName e
other-IsName e h p = cc (h, (same_iff e dot_dot).1 p)

name-other : (e : Bytes) → IsName e → same e dot_dot ≡ false
name-other e h = elim (Bool-cases (same e dot_dot)) [
  | inl up ↦ absurd (h ((same_iff e dot_dot).0 up))
  | inr other ↦ other
]

-- The test of `Clean` on a relative path keeps each element inside.
clean_onto-stays :
    (es kept : List Bytes)
    → escapes (clean_onto false kept es) ≡ false
    → All IsName kept
    → stays (length kept) es ≡ true
unfolding clean_onto clean_step stays
clean_onto-stays [] kept h names = refl
clean_onto-stays (e ∷ es) [] h names = elim (Bool-cases (same e [] || same e dot)) [
  | inl flat ↦ rw flat (clean_onto-stays es [] (rw flat at h) tt)
  | inr f ↦ elim (Bool-cases (same e dot_dot)) [
    | inl up ↦
        let out = clean_onto-escapes es (dot_dot ∷ []) (unfold escapes in unfold same in refl) in
        let in_vain : escapes (clean_onto false (dot_dot ∷ []) es) ≡ false = rw (f, up) at h in
        cc (out, in_vain)
    | inr other ↦
        rw (f, other) (clean_onto-stays es (e ∷ []) (rw (f, other) at h) (other-IsName e other, tt))
  ]
]
clean_onto-stays (e ∷ es) (k ∷ kept) h names = elim (Bool-cases (same e [] || same e dot)) [
  | inl flat ↦ rw flat (clean_onto-stays es (k ∷ kept) (rw flat at h) names)
  | inr f ↦ elim (Bool-cases (same e dot_dot)) [
    | inl up ↦ rw (f, up) (clean_onto-stays es kept (rw (f, up, name-other k names.0) at h) names.1)
    | inr other ↦
        rw (f, other)
          (clean_onto-stays es (e ∷ k ∷ kept) (rw (f, other) at h) (other-IsName e other, names))
  ]
]

stays-Inside :
    (es below dir : List Bytes)
    → stays (length below) es ≡ true
    → All IsName below
    → Inside dir (walk (below ++ dir) es)
unfolding walk stays enter
stays-Inside [] below dir h names = record { below = below; splits = refl; names = names }
stays-Inside (e ∷ es) [] dir h names = elim (Bool-cases (same e [] || same e dot)) [
  | inl flat ↦ rw flat (stays-Inside es [] dir (rw flat at h) tt)
  | inr f ↦ elim (Bool-cases (same e dot_dot)) [
    | inl up ↦ cc (rw (f, up) at h)
    | inr other ↦
        rw (f, other) (stays-Inside es (e ∷ []) dir (rw (f, other) at h) (other-IsName e other, tt))
  ]
]
stays-Inside (e ∷ es) (k ∷ below) dir h names = elim (Bool-cases (same e [] || same e dot)) [
  | inl flat ↦ rw flat (stays-Inside es (k ∷ below) dir (rw flat at h) names)
  | inr f ↦ elim (Bool-cases (same e dot_dot)) [
    | inl up ↦ rw (f, up) (stays-Inside es below dir (rw (f, up) at h) names.1)
    | inr other ↦
        rw (f, other)
          (stays-Inside es (e ∷ k ∷ below) dir (rw (f, other) at h) (other-IsName e other, names))
  ]
]
