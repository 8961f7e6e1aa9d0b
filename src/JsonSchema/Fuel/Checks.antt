-- ===== src/JsonSchema/Fuel/Checks.antt =====
-- Checks that do not recur, and how deep the parts of a schema are.
use Prim.Native.Nat.{max}
use groovy_agent.Base.{
  ℕ, suc, ◌≤◌, ◌<◌, ◌≡◌, ◌≢◌, refl, Bool, true, false, Bytes, Option, none, some, same,
  if◌then◌else◌, ok, err, ◌>>◌, Option-cases, ap, ◌⊎◌, Bool-cases, inl, inr, arith,
}
use groovy_agent.Json.{
  Value, bool, str, arr, obj, Items, nil, cons, Fields, end, field, get, as_object, as_array,
  fields_or_empty, Floats,
}
use groovy_agent.JsonSchema.{
  Check, Violation, violation, out_of_fuel, uncomparable, check_enum, must_be_integer, branch_names,
  Reason, retry, first_of_two, select_schema_branch, enum_names, check_required, check_required_of,
  check_declared, check_closed, check_most, check_least, check_string, check_integral, check_number,
  check_boolean, validate_range, depth, depth_items, depth_fields,
}

abbrev pub Returns : Check → Type 0
Returns c = c ≢ err out_of_fuel

pub Returns->> : (c d : Check) → Returns c → Returns d → Returns (c >> d)
Returns->> (ok u) d hc hd = hd
Returns->> (err e) d hc hd = hc

pub Returns-violation : (r : Reason) (p : Bytes) → Returns (err (violation r p))
Returns-violation r p h = cc

pub Returns-ok : Returns (ok tt)
Returns-ok h = cc

depth-end : depth_fields end ≡ 0
unfolding depth
depth-end = refl

-- The clauses of `depth`, which stays shut below.
depth-field :
    (key : Bytes) (v : Value) (rest : Fields)
    → depth_fields (field key v rest) ≡ max (depth v) (depth_fields rest)
unfolding depth
depth-field key v rest = refl

pub depth-cons :
    (v : Value) (rest : Items) → depth_items (cons v rest) ≡ max (depth v) (depth_items rest)
unfolding depth
depth-cons v rest = refl

pub depth-obj : (fields : Fields) → depth (obj fields) ≡ suc (depth_fields fields)
unfolding depth
depth-obj fields = refl

depth-arr : (items : Items) → depth (arr items) ≡ depth_items items
unfolding depth
depth-arr items = refl

depth-get :
    (fields : Fields) (key : Bytes) (v : Value)
    → get fields key ≡ some v
    → depth v ≤ depth_fields fields
unfolding get
depth-get end key v h = cc
depth-get (field k w rest) key v h = elim (Bool-cases (same k key)) [
  | inl e ↦ let p : w ≡ v = cc (rw e at h) in omega (arith, depth-field k w rest, ap depth p)
  | inr e ↦ omega (arith, depth-field k w rest, depth-get rest key v (rw e at h))
]

some_object : (o : Option Value) (s : Fields) → as_object o ≡ some s → o ≡ some (obj s)
some_object (some (obj t)) s h = cc
some_object none s h = cc
some_object (some v) s h = cc

some_array : (o : Option Value) (s : Items) → as_array o ≡ some s → o ≡ some (arr s)
some_array (some (arr t)) s h = cc
some_array none s h = cc
some_array (some v) s h = cc

pub depth-as_object :
    (fields : Fields) (key : Bytes) (s : Fields)
    → as_object (get fields key) ≡ some s
    → depth_fields s < depth_fields fields
depth-as_object fields key s h =
    omega (arith, depth-obj s, depth-get fields key (obj s) (some_object _ s h))

pub depth-as_array :
    (fields : Fields) (key : Bytes) (s : Items)
    → as_array (get fields key) ≡ some s
    → depth_items s ≤ depth_fields fields
depth-as_array fields key s h =
    omega (arith, depth-arr s, depth-get fields key (arr s) (some_array _ s h))

properties_of :
    (o : Option Value) → (fields_or_empty o ≡ end) ⊎ (o ≡ some (obj (fields_or_empty o)))
properties_of none = inl refl
properties_of (some (obj t)) = inr refl
properties_of (some v) = inl refl

pub depth-fields_or_empty :
    (fields : Fields) (key : Bytes)
    → depth_fields (fields_or_empty (get fields key)) ≤ depth_fields fields
depth-fields_or_empty fields key = elim (properties_of (get fields key)) [
  | inl e ↦ omega (arith, ap depth_fields e, depth-end)
  | inr e ↦ omega (arith, depth-obj (fields_or_empty (get fields key)), depth-get fields key _ e)
]

check_required-Returns :
    (names : Items) (object : Fields) (place : Bytes) → Returns (check_required names object place)
unfolding check_required
check_required-Returns nil object place h = cc
check_required-Returns (cons n names) object place h =
    ground (arith, check_required-Returns names object place)

check_declared-Returns :
    (object properties : Fields) (place : Bytes) → Returns (check_declared object properties place)
unfolding check_declared
check_declared-Returns end properties place h = cc
check_declared-Returns (field k v object) properties place h =
    ground (arith, check_declared-Returns object properties place)

pub check_enum-Returns :
    (F : Floats) (o : Option Items) (v : Value) (place : Bytes) → Returns (check_enum F o v place)
unfolding check_enum
check_enum-Returns F none v place h = cc
check_enum-Returns F (some names) v place h = ground arith

pub check_required_of-Returns :
    (o : Option Items) (object : Fields) (place : Bytes)
    → Returns (check_required_of o object place)
unfolding check_required_of
check_required_of-Returns none object place = λ x. cc
check_required_of-Returns (some names) object place = check_required-Returns names object place

pub check_closed-Returns :
    (b : Bool) (object properties : Fields) (place : Bytes)
    → Returns (check_closed b object properties place)
unfolding check_closed
check_closed-Returns true object properties place = check_declared-Returns object properties place
check_closed-Returns false object properties place = λ x. cc

pub retry-Returns :
    (c : Check) (next : Reason → Bytes → Check)
    → Returns c
    → ((r : Reason) (p : Bytes) → Returns (next r p))
    → Returns (retry c next)
unfolding retry
retry-Returns (ok u) next hc hn = λ x. cc
retry-Returns (err (violation r p)) next hc hn = hn r p
retry-Returns (err uncomparable) next hc hn = hc
retry-Returns (err out_of_fuel) next hc hn = hc

pub first_of_two-ne :
    (first : Option Violation) (r : Reason) (p : Bytes)
    → first ≢ some out_of_fuel
    → first_of_two first (violation r p) ≢ some out_of_fuel
unfolding first_of_two
first_of_two-ne none r p h = λ x. cc
first_of_two-ne (some first) r p h = h

pub depth-some_object :
    (v : Value) (s : Fields) → as_object (some v) ≡ some s → depth v ≡ depth (obj s)
depth-some_object v s e = let p : v ≡ obj s = cc (some_object (some v) s e) in ap depth p

pub depth-select_schema_branch :
    (branches : Items) (action : Bytes) (s : Fields)
    → select_schema_branch branches action ≡ some s
    → depth_fields s < depth_items branches
unfolding select_schema_branch
depth-select_schema_branch nil action s h = cc
depth-select_schema_branch (cons b branches) action s h = elim (Option-cases (branch_names b)) [
  | inl e ↦ omega (
    arith,
    depth-cons b branches,
    depth-select_schema_branch branches action s (rw (e, select_schema_branch) at h),
  )
  | inr (names, e) ↦ elim (Bool-cases (enum_names names action)) [
    | inl found ↦ omega (
      arith,
      depth-cons b branches,
      depth-obj s,
      depth-some_object b s (rw (e, found, select_schema_branch) at h),
    )
    | inr missing ↦ omega (
      arith,
      depth-cons b branches,
      depth-select_schema_branch branches action s (rw (e, missing, select_schema_branch) at h),
    )
  ]
]

pub Returns-if : (b : Bool) {c d : Check} → Returns c → Returns d → Returns (if b then c else d)
Returns-if true hc hd = hc
Returns-if false hc hd = hd

module _ (F : Floats) where
  pub check_most-Returns :
      (o : Option ℕ) (n : ℕ) (r : Reason) (p : Bytes) → Returns (check_most F o n r p)
  unfolding check_most
  check_most-Returns o n r p h = ground arith

  pub check_least-Returns :
      (o : Option ℕ) (n : ℕ) (r : Reason) (p : Bytes) → Returns (check_least F o n r p)
  unfolding check_least
  check_least-Returns o n r p h = ground arith

  pub check_string-Returns :
      (schema : Fields) (v : Value) (p : Bytes) → Returns (check_string F schema v p)
  unfolding check_string
  check_string-Returns schema (str text) p =
      Returns->> _ _ (check_most-Returns _ _ _ p) (check_least-Returns _ _ _ p)
  check_string-Returns schema v p = λ x. cc

  validate_range-Returns :
      (schema : Fields) (x : ℕ) (p : Bytes) → Returns (validate_range F schema x p)
  unfolding validate_range
  validate_range-Returns schema x p h = ground arith

  pub check_integral-Returns :
      (o : Option ℕ) (schema : Fields) (p : Bytes) → Returns (check_integral F o schema p)
  unfolding check_integral
  check_integral-Returns none schema p = λ x. cc
  check_integral-Returns (some x) schema p =
      Returns-if _ (validate_range-Returns schema x p) (Returns-violation must_be_integer p)

  pub check_number-Returns :
      (o : Option ℕ) (schema : Fields) (p : Bytes) → Returns (check_number F o schema p)
  unfolding check_number
  check_number-Returns none schema p = λ x. cc
  check_number-Returns (some x) schema p = validate_range-Returns schema x p

  pub check_boolean-Returns : (v : Value) (p : Bytes) → Returns (check_boolean F v p)
  unfolding check_boolean
  check_boolean-Returns (bool b) p = λ x. cc
  check_boolean-Returns v p = λ x. cc
