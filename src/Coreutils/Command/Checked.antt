-- ===== src/Coreutils/Command/Checked.antt =====
-- Arguments that the check of a command accepts: its run does not fail on them.
use mathlib.Core.Path.{subst}
use groovy_agent.Base.{
  ℕ, zero, suc, ◌≤◌, ◌≡◌, ◌≢◌, refl, ◌⊎◌, inl, inr, Bool, true, false, Bytes, List, [], ◌∷◌, map,
  some, same, same_iff, All, Bool-cases, codes, if◌then◌else◌, Result, ok, err, ℤ, pos, negsuc,
  ltb_false→le, some-eq, ap, err-ne-ok, arith,
}
use groovy_agent.Strings.{split_byte}
use groovy_agent.Numbers.{atoi}
use groovy_agent.Json.{Floats}
use groovy_agent.Coreutils.Lines.RoundTrip.{split_byte-ne-nil}
use groovy_agent.Coreutils.Text.{CutError, head, tail, cut, all_positive, is_positive}
use groovy_agent.Coreutils.Translate.{TrError, empty_source, empty_target, tr}
use groovy_agent.Coreutils.Command.{
  Failure, tr_failed, Streams, Command, read_text, read_input, write_text, with_first, with_second,
  with_fourth, run_sort, run_uniq, run_wc, validate_tr, run_tr, validate_line_count, run_head,
  run_tail, validate_cut, run_cut, commands, find_command, lookup_command, written, cut_written,
  count_in_range, field_in_range, check_fields,
}

-- A run that nobody cancels, whose input can be read and whose output can be written.
abbrev pub working : Bytes → Streams
working text = record {
  cancelled_before = false;
  input = some text;
  cancelled_after = false;
  writes = λ out. true;
}

-- The run writes a text; only `tr` fails, for a set of characters that is empty.
abbrev pub Runs : Bytes → Result Failure Bytes → Type 0
Runs name result =
    ((out : Bytes) × (result ≡ ok out))
    ⊎ ((name ≡ codes "tr")
        × ((result ≡ err (tr_failed empty_source)) ⊎ (result ≡ err (tr_failed empty_target))))

IsGood : Command → Type 0
IsGood c =
    (text : Bytes) (args : List Bytes)
    → c.validate_args args ≡ ok tt
    → Runs c.name (c.run (working text) args)

written-Runs :
    (text : Bytes) (r : Result TrError Bytes) → Runs (codes "tr") (written (working text) r)
unfolding written write_text
written-Runs text (ok out) = inl (out, refl)
written-Runs text (err empty_source) = inr (refl, inl refl)
written-Runs text (err empty_target) = inr (refl, inr refl)

run_tr-Runs :
    (text : Bytes) (args : List Bytes)
    → validate_tr args ≡ ok tt
    → Runs (codes "tr") (run_tr (working text) args)
unfolding validate_tr run_tr read_text read_input with_first with_second
run_tr-Runs text [] h = cc
run_tr-Runs text (a ∷ []) h = cc
run_tr-Runs text (a ∷ b ∷ []) h =
    written-Runs text (if same a (codes "-d") then tr text b [] true else tr text a b false)
run_tr-Runs text (a ∷ b ∷ c ∷ args) h = absurd (ground arith)

count_in_range-le :
    (parsed : ℤ × Bool)
    → count_in_range parsed ≡ ok tt
    → (n : ℕ) × (n ≤ 10000) × (parsed ≡ (pos n, true))
unfolding count_in_range
count_in_range-le (pos n, true) h = (n, ltb_false→le 10000 n (ground arith), refl)
count_in_range-le (pos n, false) h = cc
count_in_range-le (negsuc n, valid) h = absurd (ground arith)

-- Arguments that `validateLineCount` accepts are -n and a text that Atoi reads, without an error, as
-- a count of at most 10000. For that count `runHead` writes what `Head`, and `runTail` what `Tail`,
-- gives.
pub run_head-run_tail :
    (text : Bytes) (args : List Bytes)
    → validate_line_count args ≡ ok tt
    → (count : Bytes) × (n : ℕ) × (args ≡ codes "-n" ∷ count ∷ [])
      × (atoi count ≡ (pos n, true))
      × (n ≤ 10000)
      × (run_head (working text) args ≡ ok (head text (pos n)).0)
      × (run_tail (working text) args ≡ ok (tail text (pos n)).0)
unfolding validate_line_count run_head run_tail read_text read_input write_text with_second
    with_first
run_head-run_tail text [] h = cc
run_head-run_tail text (a ∷ []) h = cc
run_head-run_tail text (flag ∷ count ∷ []) h = elim (Bool-cases (same flag (codes "-n"))) [
  | inl e ↦
      let (n, small, read) = count_in_range-le (atoi count) (rw e at h) in
      (
        count,
        n,
        ap (λ f. f ∷ count ∷ []) ((same_iff flag (codes "-n")).0 e),
        read,
        small,
        rw read,
        rw read,
      )
  | inr e ↦ absurd (err-ne-ok (rw e at h))
]
run_head-run_tail text (a ∷ b ∷ c ∷ args) h = cc

field_in_range-positive :
    (parsed : ℤ × Bool) → field_in_range parsed ≡ true → is_positive parsed.0 ≡ true
unfolding field_in_range is_positive
field_in_range-positive (pos zero, valid) h = ground arith
field_in_range-positive (pos (suc n), valid) h = refl
field_in_range-positive (negsuc n, valid) h = ground arith

check_fields-positive :
    (fields : List Bytes)
    → check_fields fields ≡ ok tt
    → all_positive (map (λ field. (atoi field).0) fields) ≡ true
unfolding check_fields all_positive
check_fields-positive [] h = refl
check_fields-positive (field ∷ fields) h = elim (Bool-cases (field_in_range (atoi field))) [
  | inl e ↦ rw (field_in_range-positive (atoi field) e, check_fields-positive fields (rw e at h))
  | inr e ↦ cc (h, e)
]

if-ok {ℓ κ} :
    {E : Type ℓ} {A : Type κ} (b : Bool) (out : A) (e : E)
    → b ≡ true
    → (got : A) × (◌≡◌ {A = Result E A} (if b then ok out else err e) (ok got))
if-ok true out e h = (out, refl)
if-ok false out e h = cc

cut-ok :
    (text delimiter : Bytes) (fields : List ℤ)
    → delimiter ≢ []
    → fields ≢ []
    → all_positive fields ≡ true
    → (out : Bytes) × (cut text delimiter fields ≡ ok out)
unfolding cut
cut-ok text [] fields d f h = absurd (d refl)
cut-ok text (c ∷ delimiter) [] d f h = absurd (f refl)
cut-ok text (c ∷ delimiter) (n ∷ fields) d f h = if-ok (all_positive (n ∷ fields)) _ _ h

map-ne-nil {ℓ κ} : {A : Type ℓ} {B : Type κ} (f : A → B) (l : List A) → l ≢ [] → map f l ≢ []
map-ne-nil f [] h = λ e. h refl
map-ne-nil f (x ∷ l) h = λ e. cc

cut_written-Runs :
    (text : Bytes) (r : Result CutError Bytes) (out : Bytes)
    → r ≡ ok out
    → Runs (codes "cut") (cut_written (working text) r)
unfolding cut_written write_text
cut_written-Runs text (ok done) out h = inl (done, refl)
cut_written-Runs text (err e) out h = cc

run_cut-Runs :
    (text : Bytes) (args : List Bytes)
    → validate_cut args ≡ ok tt
    → Runs (codes "cut") (run_cut (working text) args)
unfolding validate_cut run_cut read_text read_input with_second with_first with_fourth
run_cut-Runs text (d ∷ delimiter ∷ f ∷ fields ∷ []) h =
    let parts = split_byte b',' fields in
    let (out, e) =
      cut-ok text delimiter (map (λ field. (atoi field).0) parts)
        (λ e. absurd (ground (arith, (same_iff delimiter []).1 e)))
        (map-ne-nil (λ field. (atoi field).0) parts (split_byte-ne-nil b',' fields))
        (check_fields-positive parts (ground arith)) in
    cut_written-Runs text (cut text delimiter (map (λ field. (atoi field).0) parts)) out e
run_cut-Runs text [] h = cc
run_cut-Runs text (a ∷ []) h = cc
run_cut-Runs text (a ∷ b ∷ []) h = cc
run_cut-Runs text (a ∷ b ∷ c ∷ []) h = cc
run_cut-Runs text (a ∷ b ∷ c ∷ d ∷ e ∷ args) h = cc

head_or_tail-Runs :
    (name text : Bytes) (args : List Bytes)
    → validate_line_count args ≡ ok tt
    → Runs name (run_head (working text) args) × Runs name (run_tail (working text) args)
head_or_tail-Runs name text args h =
    let (count, n, spelled, read, small, at_start, at_end) = run_head-run_tail text args h in
    (inl (_, at_start), inl (_, at_end))

commands-IsGood : (F : Floats) → All IsGood (commands F)
unfolding IsGood run_sort run_uniq run_wc read_text read_input write_text
commands-IsGood F = (
  (λ text args h. inl (_, refl)),
  (
    (λ text args h. inl (_, refl)),
    (
      (λ text args h. inl (_, refl)),
      (
        run_tr-Runs,
        (
          (λ text args h. (head_or_tail-Runs (codes "head") text args h).0),
          ((λ text args h. (head_or_tail-Runs (codes "tail") text args h).1), (run_cut-Runs, tt)),
        ),
      ),
    ),
  ),
)

find_command-IsGood :
    (all : List Command) (name : Bytes) (c : Command)
    → All IsGood all
    → find_command all name ≡ some c
    → (c.name ≡ name) × IsGood c
unfolding find_command
find_command-IsGood [] name c good h = cc
find_command-IsGood (first ∷ all) name c good h = elim (Bool-cases (same first.name name)) [
  | inl e ↦
      let it : first ≡ c = some-eq (rw e at h) in
      subst (λ d. (d.name ≡ name) × IsGood d) it ((same_iff first.name name).0 e, good.0)
  | inr e ↦ find_command-IsGood all name c good.1 (rw e at h)
]

-- The run of each command that `LookupCommand` finds, on arguments that its check accepts, a readable
-- input and a writable output, writes a text: it neither fails on its arguments nor reaches for one
-- that is missing, but for `tr` with an empty set of characters.
pub lookup_command-Runs :
    (F : Floats) (name : Bytes) (c : Command) (text : Bytes) (args : List Bytes)
    → lookup_command F name ≡ some c
    → c.validate_args args ≡ ok tt
    → Runs name (c.run (working text) args)
unfolding lookup_command IsGood
lookup_command-Runs F name c text args found valid =
    let (named, good) = find_command-IsGood (commands F) name c (commands-IsGood F) found in
    subst (λ n. Runs n (c.run (working text) args)) named (good text args valid)
