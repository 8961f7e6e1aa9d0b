-- ===== src/JsonSchema/Fuel.antt =====
-- The fuel of `validate` is enough for every schema and value.
mod Checks
use Prim.Native.Nat.{max}
use groovy_agent.Base.{
  ℕ, zero, suc, ◌≤◌, ◌<◌, ◌≡◌, ◌≢◌, refl, Bool, true, false, Bytes, [], Option, none, some, same,
  codes, if◌then◌else◌, err-injective, ok, err, ◌>>◌, Option-cases, ap, ◌+◌, ◌⊎◌, Bool-cases, inl,
  inr, arith,
}
use groovy_agent.Json.{
  Value, bool, str, arr, obj, Items, nil, cons, Fields, end, field, get, as_object, as_array,
  count_items, text_or_empty, fields_or_empty, Floats,
}
use groovy_agent.JsonSchema.{
  Check, Violation, violation, out_of_fuel, uncomparable, check_enum, check_any_of, number_of,
  must_be_integer, unsupported_type, too_many_items, too_few_items, branch_names, validate_any_of,
  Reason, retry, first_of_two, is_closed, try_branches, select_schema_branch, enum_names,
  check_properties, check_items, check_items_of, check_object, check_array, check_type,
  check_required, check_required_of, check_declared, check_closed, check_most, check_least,
  check_string, check_integral, check_number, check_boolean, validate_range, validate_at, validate,
  depth, depth_items, depth_fields, join, index_path, where_of,
}
use groovy_agent.JsonSchema.Fuel.Checks.{
  Returns, Returns->>, Returns-violation, Returns-ok, depth-cons, depth-obj, depth-as_object,
  depth-as_array, depth-fields_or_empty, check_enum-Returns, check_required_of-Returns,
  check_closed-Returns, retry-Returns, first_of_two-ne, depth-some_object,
  depth-select_schema_branch, Returns-if, check_most-Returns, check_least-Returns,
  check_string-Returns, check_integral-Returns, check_number-Returns, check_boolean-Returns,
}

-- The checks that recur, for a call that returns on every schema nested less deep than `d`.
module _ (check : Fields → Value → Bytes → Check) (d : ℕ)
    (returns : (s : Fields) (v : Value) (p : Bytes)
      → depth_fields s < d
      → Returns (check s v p)) where
  check_properties-Returns :
      (object properties : Fields) (path : Bytes)
      → depth_fields properties ≤ d
      → Returns (check_properties check object properties path)
  unfolding check_properties
  check_properties-Returns end properties path h = Returns-ok
  check_properties-Returns (field k v object) properties path h =
      elim (Option-cases (as_object (get properties k))) [
        | inl e ↦ rw (e, check_properties) (check_properties-Returns object properties path h)
        | inr (s, e) ↦
            rw (e, check_properties)
              (Returns->> (check s v (join path k)) _
                (returns s v _ (omega (arith, depth-as_object properties k s e)))
                (check_properties-Returns object properties path h))
      ]

  check_items-Returns :
      (s : Fields) (items : Items) (place : Bytes) (index : ℕ)
      → depth_fields s < d
      → Returns (check_items check s items place index)
  unfolding check_items
  check_items-Returns s nil place index h = Returns-ok
  check_items-Returns s (cons v items) place index h =
      Returns->> (check s v (index_path place index)) _ (returns s v _ h)
        (check_items-Returns s items place (index + 1) h)

  try_branches-Returns :
      (branches : Items) (v : Value) (path : Bytes) (first : Option Violation) (place : Bytes)
      → depth_items branches ≤ d
      → first ≢ some out_of_fuel
      → Returns (try_branches check branches v path first place)
  unfolding try_branches
  try_branches-Returns nil v path none place h f = λ x. cc
  try_branches-Returns nil v path (some first) place h f = λ e. f (ap some (err-injective e))
  try_branches-Returns (cons b branches) v path first place h f =
      elim (Option-cases (as_object (some b))) [
        | inl e ↦ rw (e, try_branches) (try_branches-Returns branches v path first place less f)
        | inr (s, e) ↦
            rw (e, try_branches)
              (retry-Returns (check s v path) _ (returns s v path (below s e)) λ r p.
                try_branches-Returns branches v path (first_of_two first (violation r p)) place less
                  (first_of_two-ne first r p f))
      ]
    where
      less : depth_items branches ≤ d
      less = omega (arith, depth-cons b branches)

      below : (s : Fields) → as_object (some b) ≡ some s → depth_fields s < d
      below s e = omega (arith, depth-cons b branches, depth-obj s, depth-some_object b s e)

  check_any_of-Returns :
      (o : Option Items) (v : Value) (path place : Bytes)
      → ((branches : Items) → o ≡ some branches → depth_items branches ≤ d)
      → Returns (check_any_of check o v path place)
  unfolding check_any_of
  check_any_of-Returns none v path place h = λ x. cc
  check_any_of-Returns (some branches) v path place h = elim (Option-cases (as_object (some v))) [
    | inl e ↦
        rw (e, validate_any_of)
          (try_branches-Returns branches v path none place (h branches refl) (λ p. cc))
    | inr (typed, e) ↦
        elim (Option-cases
          (select_schema_branch branches (text_or_empty (get typed (codes "type"))))) [
            | inl none_selected ↦
                rw (e, none_selected, validate_any_of)
                  (try_branches-Returns branches v path none place (h branches refl) (λ p. cc))
            | inr (s, selected) ↦
                rw (e, selected, validate_any_of)
                  (returns s v path (
                    omega (
                      arith,
                      h branches refl,
                      depth-select_schema_branch branches (text_or_empty (get typed (codes "type")))
                          s selected,
                    )))
          ]
  ]

  check_object-Returns :
      (schema : Fields) (v : Value) (path place : Bytes)
      → depth_fields schema ≤ d
      → Returns (check_object check schema v path place)
  unfolding check_object
  check_object-Returns schema (obj object) path place h =
      let properties = fields_or_empty (get schema (codes "properties")) in
      Returns->> _ _
        (check_required_of-Returns (as_array (get schema (codes "required"))) object place)
        (Returns->> _ _
          (check_closed-Returns (is_closed (get schema (codes "additionalProperties"))) object
            properties place)
          (check_properties-Returns object properties path
            (omega (arith, depth-fields_or_empty schema (codes "properties")))))
  check_object-Returns schema v path place h = λ x. cc

  check_items_of-Returns :
      (o : Option Fields) (items : Items) (place : Bytes)
      → ((s : Fields) → o ≡ some s → depth_fields s < d)
      → Returns (check_items_of check o items place)
  unfolding check_items_of
  check_items_of-Returns none items place h = λ x. cc
  check_items_of-Returns (some s) items place h = check_items-Returns s items place 0 (h s refl)

  check_array-Returns :
      (F : Floats) (schema : Fields) (v : Value) (place : Bytes)
      → depth_fields schema ≤ d
      → Returns (check_array check F schema v place)
  unfolding check_array
  check_array-Returns F schema (arr items) place h =
      let most = number_of F (get schema (codes "maxItems")) in
      let least = number_of F (get schema (codes "minItems")) in
      Returns->> (check_most F most (count_items items) too_many_items place) _
        (check_most-Returns F most (count_items items) too_many_items place)
        (Returns->> (check_least F least (count_items items) too_few_items place) _
          (check_least-Returns F least (count_items items) too_few_items place)
          (check_items_of-Returns (as_object (get schema (codes "items"))) items place
            (λ s e. omega (arith, depth-as_object schema (codes "items") s e))))
  check_array-Returns F schema v place h = λ x. cc

  check_type-Returns :
      (F : Floats) (type : Bytes) (schema : Fields) (v : Value) (path place : Bytes)
      → depth_fields schema ≤ d
      → Returns (check_type check F type schema v path place)
  unfolding check_type
  check_type-Returns F type schema v path place h =
      Returns-if _ (check_object-Returns schema v path place h) (
        Returns-if _ (check_array-Returns F schema v place h) (
          Returns-if _ (check_string-Returns F schema v place) (
            Returns-if _ (check_integral-Returns F (number_of F (some v)) schema place) (
              Returns-if _ (check_number-Returns F (number_of F (some v)) schema place) (
                Returns-if _ (check_boolean-Returns F v place)
                  (Returns-if _ Returns-ok (Returns-violation unsupported_type place)))))))

validate_at-Returns :
    (F : Floats) (fuel : ℕ) (schema : Fields) (v : Value) (path : Bytes)
    → depth_fields schema < fuel
    → Returns (validate_at F fuel schema v path)
unfolding validate_at
validate_at-Returns F zero schema v path h = absurd (omega arith)
validate_at-Returns F (suc fuel) schema v path h =
    Returns->> (check_enum F (as_array (get schema (codes "enum"))) v (where_of path)) _
      (check_enum-Returns F (as_array (get schema (codes "enum"))) v (where_of path))
      (Returns->>
        (check_any_of (validate_at F fuel) (as_array (get schema (codes "anyOf"))) v path
          (where_of path))
        _
        (check_any_of-Returns (validate_at F fuel) fuel (validate_at-Returns F fuel)
          (as_array (get schema (codes "anyOf"))) v path (where_of path)
          (λ branches e. omega (arith, depth-as_array schema (codes "anyOf") branches e)))
        (check_type-Returns (validate_at F fuel) fuel (validate_at-Returns F fuel) F
          (text_or_empty (get schema (codes "type"))) schema v path (where_of path) (omega arith)))

-- The nesting of the schema bounds the recursion of `Validate`: it does not run out of the fuel that
-- it is given, also where `anyOf` and `items` send the same value back to a part of the schema. It
-- accepts, finds a violation, or stops with the run-time panic of an enum that compares two maps or
-- two slices.
pub validate-fuel_suffices :
    (F : Floats) (schema : Fields) (v : Value) → validate F schema v ≢ err out_of_fuel
unfolding validate
validate-fuel_suffices F schema v =
    validate_at-Returns F (suc (depth_fields schema)) schema v [] (omega arith)
