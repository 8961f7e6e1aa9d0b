-- ===== src/JsonSchema.antt =====
-- internal/jsonschema/jsonschema.go: validation of decoded JSON against the subset of JSON Schema
-- that the tools use. Error texts are a reason and the path to the value.
pub mod Fuel
use groovy_agent.Base.{
  ℕ, zero, suc, ◌+◌, Bool, true, false, not, ◌&&◌, Bytes, List, [], ◌∷◌, ◌++◌, Option, none, some,
  same, codes, length, ◌||◌, ◌>>◌, if◌then◌else◌, ℤ, pos, Result, ok, err, ◌>>=◌,
}
use Prim.Native.Nat.{max}
use groovy_agent.Json.{
  Value, null, bool, float, number, int, str, arr, obj, Items, nil, cons, Fields, end, field, get,
  count_items, as_object, as_array, as_text, text_or_empty, fields_or_empty, Floats,
}
use groovy_agent.Strings.{decimal, trim_space}

pub data Reason : Type 0 where
  not_allowed must_be_object must_be_array : Reason
  missing_property unknown_property : Bytes → Reason
  too_many_items too_few_items must_be_string too_long too_short must_be_integer : Reason
  must_be_number below_minimum above_maximum must_be_boolean unsupported_type : Reason
  matches_no_schema : Reason

-- The error text behind the path; `quote` is the verb %q.
reason_text : (Bytes → Bytes) → Reason → Bytes
reason_text quote not_allowed = codes " is not one of the allowed values"
reason_text quote must_be_object = codes " must be an object"
reason_text quote must_be_array = codes " must be an array"
reason_text quote (missing_property key) = codes " is missing required property " ++ quote key
reason_text quote (unknown_property key) = codes " has unknown property " ++ quote key
reason_text quote too_many_items = codes " has too many items"
reason_text quote too_few_items = codes " has too few items"
reason_text quote must_be_string = codes " must be a string"
reason_text quote too_long = codes " is too long"
reason_text quote too_short = codes " is too short"
reason_text quote must_be_integer = codes " must be an integer"
reason_text quote must_be_number = codes " must be a number"
reason_text quote below_minimum = codes " is below the allowed minimum"
reason_text quote above_maximum = codes " is above the allowed maximum"
reason_text quote must_be_boolean = codes " must be a boolean"
reason_text quote unsupported_type = codes " uses an unsupported schema type"
reason_text quote matches_no_schema = codes " does not match any allowed schema"

-- `uncomparable` is the run-time panic of `==` on two maps or two slices.
pub data Violation : Type 0 where
  violation : Reason → Bytes → Violation
  uncomparable : Violation
  out_of_fuel : Violation

unfoldable pub violation_text : (Bytes → Bytes) → Violation → Bytes
unfolding reason_text
violation_text quote (violation reason place) = place ++ reason_text quote reason
violation_text quote _ = []

abbrev Check : Type 0
Check = Result Violation (Unit {0})

unfoldable pub join : Bytes → Bytes → Bytes
join [] key = key
join (c ∷ path) key = (c ∷ path) ++ (b'.' ∷ key)

-- `fmt.Sprintf("%s[%d]", where, index)`
unfoldable pub index_path : Bytes → ℕ → Bytes
index_path place index = place ++ (b'[' ∷ (decimal index ++ b']' ∷ []))

where_of : Bytes → Bytes
where_of [] = codes "arguments"
where_of (c ∷ path) = c ∷ path

module _ (F : Floats) where
  pub number_of : Option Value → Option ℕ
  number_of (some (float x)) = some x
  number_of (some (int n)) = some (F.of_int n)
  number_of (some (number text)) = F.parse text
  number_of _ = none

  -- `==` on two `any` values; `none` is the panic
  unfoldable pub equal_any : Value → Value → Option Bool
  equal_any null null = some true
  equal_any (bool true) (bool b) = some b
  equal_any (bool false) (bool b) = some (not b)
  equal_any (str a) (str b) = some (same a b)
  equal_any (number a) (number b) = some (same a b)
  equal_any (arr a) (arr b) = none
  equal_any (obj a) (obj b) = none
  equal_any a b = some false

  equal_numbers : Option ℕ → Option ℕ → Option Bool → Option Bool
  equal_numbers (some a) (some b) other = some (F.eq a b)
  equal_numbers _ _ other = other

  pub equal : Value → Value → Option Bool
  unfolding equal_numbers
  equal a b = equal_numbers (number_of (some a)) (number_of (some b)) (equal_any a b)

  -- the search of `enum`; `none` is the panic
  unfoldable pub enum_has : Items → Value → Option Bool
  enum_has nil value = some false
  enum_has (cons candidate rest) value = elim (equal candidate value) [
    | none ↦ none
    | some true ↦ some true
    | some false ↦ enum_has rest value
  ]

  pub check_enum : Option Items → Value → Bytes → Check
  check_enum none value place = ok tt
  check_enum (some candidates) value place = elim (enum_has candidates value) [
    | none ↦ err uncomparable
    | some true ↦ ok tt
    | some false ↦ err (violation not_allowed place)
  ]

  check_maximum : Option ℕ → ℕ → Bytes → Check
  check_maximum none x place = ok tt
  check_maximum (some maximum) x place =
      if F.lt maximum x then err (violation above_maximum place) else ok tt

  check_minimum : Option ℕ → ℕ → Bytes → Check
  check_minimum none x place = ok tt
  check_minimum (some minimum) x place =
      if F.lt x minimum then err (violation below_minimum place) else ok tt

  unfoldable pub validate_range : Fields → ℕ → Bytes → Check
  unfolding check_minimum check_maximum
  validate_range schema x place = do
    check_minimum (number_of (get schema (codes "minimum"))) x place
    check_maximum (number_of (get schema (codes "maximum"))) x place

  -- `float64(length) > limit`, where the schema has the limit
  pub check_most : Option ℕ → ℕ → Reason → Bytes → Check
  check_most none size reason place = ok tt
  check_most (some limit) size reason place =
      if F.lt limit (F.of_int (pos size)) then err (violation reason place) else ok tt

  -- `float64(length) < limit`
  pub check_least : Option ℕ → ℕ → Reason → Bytes → Check
  check_least none size reason place = ok tt
  check_least (some limit) size reason place =
      if F.lt (F.of_int (pos size)) limit then err (violation reason place) else ok tt

  unfoldable pub check_string : Fields → Value → Bytes → Check
  unfolding check_most check_least
  check_string schema (str text) place = do
    check_most (number_of (get schema (codes "maxLength"))) (length text) too_long place
    check_least (number_of (get schema (codes "minLength"))) (length text) too_short place
  check_string schema _ place = err (violation must_be_string place)

  pub check_integral : Option ℕ → Fields → Bytes → Check
  check_integral none schema place = err (violation must_be_integer place)
  check_integral (some x) schema place =
      if F.eq x (F.of_int (F.to_int x))
      then validate_range schema x place
      else err (violation must_be_integer place)

  pub check_number : Option ℕ → Fields → Bytes → Check
  check_number none schema place = err (violation must_be_number place)
  check_number (some x) schema place = validate_range schema x place

  pub check_boolean : Value → Bytes → Check
  check_boolean (bool b) place = ok tt
  check_boolean _ place = err (violation must_be_boolean place)

  -- `Number`
  unfoldable pub to_number : Value → Option ℤ
  to_number value = elim (number_of (some value)) [
    | none ↦ none
    | some x ↦ if F.eq x (F.of_int (F.to_int x)) then some (F.to_int x) else none
  ]

unfoldable pub check_required : Items → Fields → Bytes → Check
check_required nil object place = ok tt
check_required (cons name rest) object place = elim (get object (text_or_empty (some name))) [
  | none ↦ err (violation (missing_property (text_or_empty (some name))) place)
  | some _ ↦ check_required rest object place
]

unfoldable pub check_declared : Fields → Fields → Bytes → Check
check_declared end properties place = ok tt
check_declared (field key value rest) properties place = elim (get properties key) [
  | none ↦ err (violation (unknown_property key) place)
  | some _ ↦ check_declared rest properties place
]

-- `additionalProperties` is present and false
pub is_closed : Option Value → Bool
is_closed (some (bool false)) = true
is_closed _ = false

pub check_required_of : Option Items → Fields → Bytes → Check
check_required_of none object place = ok tt
check_required_of (some names) object place = check_required names object place

pub check_closed : Bool → Fields → Fields → Bytes → Check
check_closed true object properties place = check_declared object properties place
check_closed false object properties place = ok tt

enum_names : Items → Bytes → Bool
enum_names nil action = false
enum_names (cons candidate rest) action = elim candidate [
  | str name ↦ same name action || enum_names rest action
  | _ ↦ enum_names rest action
]

-- the candidates of `properties.type.enum` in one branch of an anyOf
branch_names : Value → Option Items
branch_names branch = elim (as_object (some branch)) [
  | none ↦ none
  | some schema ↦ elim (as_object (get schema (codes "properties"))) [
    | none ↦ none
    | some properties ↦ elim (as_object (get properties (codes "type"))) [
      | none ↦ none
      | some type_schema ↦ as_array (get type_schema (codes "enum"))
    ]
  ]
]

-- `if firstErr == nil { firstErr = err }`
pub first_of_two : Option Violation → Violation → Option Violation
first_of_two none e = some e
first_of_two (some first) e = some first

pub select_schema_branch : Items → Bytes → Option Fields
select_schema_branch nil action = none
select_schema_branch (cons branch rest) action = elim (branch_names branch) [
  | none ↦ select_schema_branch rest action
  | some names ↦
      let later = select_schema_branch rest action in
      if enum_names names action then as_object (some branch) else later
]

-- A branch that accepts ends the loop, and so does a panic; after a violation it goes on.
pub retry : Check → (Reason → Bytes → Check) → Check
retry (ok _) next = ok tt
retry (err (violation r p)) next = next r p
retry (err e) next = err e

-- The checks that recur take the recursive call as `check`.
module _ (check : Fields → Value → Bytes → Check) where
  unfoldable pub check_properties : Fields → Fields → Bytes → Check
  check_properties end properties path = ok tt
  check_properties (field key item rest) properties path = elim (as_object (get properties key)) [
    | none ↦ check_properties rest properties path
    | some property ↦ do check property item (join path key); check_properties rest properties path
  ]

  unfoldable pub check_items : Fields → Items → Bytes → ℕ → Check
  check_items schema nil place index = ok tt
  check_items schema (cons item rest) place index = do
    check schema item (index_path place index)
    check_items schema rest place (index + 1)

  -- the loop over the branches: the first that accepts, or else the first error
  try_branches : Items → Value → Bytes → Option Violation → Bytes → Check
  try_branches nil value path none place = err (violation matches_no_schema place)
  try_branches nil value path (some first) place = err first
  try_branches (cons branch rest) value path first place = elim (as_object (some branch)) [
    | none ↦ try_branches rest value path first place
    | some schema ↦
        retry (check schema value path)
          λ r p. try_branches rest value path (first_of_two first (violation r p)) place
  ]

  validate_any_of : Items → Value → Bytes → Bytes → Check
  validate_any_of branches value path place = elim (as_object (some value)) [
    | none ↦ try_branches branches value path none place
    | some typed ↦ elim (select_schema_branch branches (text_or_empty (get typed (codes "type")))) [
      | none ↦ try_branches branches value path none place
      | some branch ↦ check branch value path
    ]
  ]

  check_any_of : Option Items → Value → Bytes → Bytes → Check
  unfolding validate_any_of try_branches
  check_any_of none value path place = ok tt
  check_any_of (some branches) value path place = validate_any_of branches value path place

  unfoldable pub check_object : Fields → Value → Bytes → Bytes → Check
  unfolding check_required_of check_closed
  check_object schema (obj object) path place =
      let properties = fields_or_empty (get schema (codes "properties")) in
      do
        check_required_of (as_array (get schema (codes "required"))) object place
        check_closed (is_closed (get schema (codes "additionalProperties"))) object properties place
        check_properties object properties path
  check_object schema _ path place = err (violation must_be_object place)

  check_items_of : Option Fields → Items → Bytes → Check
  check_items_of none items place = ok tt
  check_items_of (some item_schema) items place = check_items item_schema items place 0

  check_array : Floats → Fields → Value → Bytes → Check
  check_array F schema (arr items) place = do
    check_most F (number_of F (get schema (codes "maxItems"))) (count_items items) too_many_items
        place
    check_least F (number_of F (get schema (codes "minItems"))) (count_items items) too_few_items
        place
    check_items_of (as_object (get schema (codes "items"))) items place
  check_array F schema _ place = err (violation must_be_array place)

  -- the switch on the schema's type
  check_type : Floats → Bytes → Fields → Value → Bytes → Bytes → Check
  check_type F type schema value path place =
      if same type (codes "object")
      then check_object schema value path place
      else if same type (codes "array")
      then check_array F schema value place
      else if same type (codes "string")
      then check_string F schema value place
      else if same type (codes "integer")
      then check_integral F (number_of F (some value)) schema place
      else if same type (codes "number")
      then check_number F (number_of F (some value)) schema place
      else if same type (codes "boolean")
      then check_boolean F value place
      else if same type []
      then ok tt
      else err (violation unsupported_type place)

-- `validate`, on fuel for the nesting of the schema.
unfoldable pub validate_at : Floats → ℕ → Fields → Value → Bytes → Check
unfolding check_type check_any_of check_enum check_array check_object check_properties check_items
    check_items_of check_most check_least check_integral check_number check_boolean check_string
    select_schema_branch branch_names enum_names first_of_two retry try_branches validate_any_of
    check_required check_declared validate_range number_of equal get is_closed where_of
validate_at F zero schema value path = err out_of_fuel
validate_at F (suc fuel) schema value path = do
  check_enum F (as_array (get schema (codes "enum"))) value (where_of path)
  check_any_of (validate_at F fuel) (as_array (get schema (codes "anyOf"))) value path
      (where_of path)
  check_type (validate_at F fuel) F (text_or_empty (get schema (codes "type"))) schema value path
      (where_of path)

-- The nesting of a schema.
unfoldable mutual
  pub depth : Value → ℕ
  depth (arr items) = depth_items items
  depth (obj fields) = suc (depth_fields fields)
  depth _ = 0

  pub depth_items : Items → ℕ
  depth_items nil = 0
  depth_items (cons value rest) = max (depth value) (depth_items rest)

  pub depth_fields : Fields → ℕ
  depth_fields end = 0
  depth_fields (field key value rest) = max (depth value) (depth_fields rest)

-- `Validate`
unfoldable pub validate : Floats → Fields → Value → Check
unfolding validate_at depth
validate F schema value = validate_at F (suc (depth_fields schema)) schema value []

-- `ValidateRaw`: `decode` is the decoder with UseNumber.
pub data RawError : Type 0 where
  not_an_object : RawError
  invalid : Violation → RawError

-- The error's text.
unfoldable pub raw_text : (Bytes → Bytes) → RawError → Bytes
raw_text quote not_an_object = codes "arguments must be a JSON object"
raw_text quote (invalid v) = violation_text quote v

checked : Fields → Check → Result RawError Fields
checked arguments (ok _) = ok arguments
checked arguments (err e) = err (invalid e)

unfoldable pub validate_raw :
    Floats → (Bytes → Option Fields) → Fields → Bytes → Result RawError Fields
unfolding checked
validate_raw F decode schema raw =
    let read = if same (trim_space raw) [] then some end else decode raw in
    elim read [
      | none ↦ err not_an_object
      | some arguments ↦ checked arguments (validate F schema (obj arguments))
    ]
