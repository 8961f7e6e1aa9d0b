-- ===== src/Json.antt =====
-- Decoded JSON as Go's `any` holds it, and the float64 operations that the source applies to it.
use groovy_agent.Base.{ℕ, suc, Bool, Bytes, [], Option, none, some, same, if◌then◌else◌, ℤ}

-- `float` holds a float64 as its 64-bit word, `number` the text of a json.Number, `int` a Go int
-- that code puts into a schema. A map is a list of fields with distinct keys, in the order in which
-- one iteration visits it.
mutual
  pub data Value : Type 0 where
    null : Value
    bool : Bool → Value
    float : ℕ → Value
    number : Bytes → Value
    int : ℤ → Value
    str : Bytes → Value
    obj : Fields → Value
    arr : Items → Value

  pub data Fields : Type 0 where
    end : Fields
    field : Bytes → Value → Fields → Fields

  pub data Items : Type 0 where
    nil : Items
    cons : Value → Items → Items

-- `m[key]`
unfoldable pub get : Fields → Bytes → Option Value
get end key = none
get (field k v rest) key = if same k key then some v else get rest key

unfoldable pub count_items : Items → ℕ
count_items nil = 0
count_items (cons v rest) = suc (count_items rest)

abbrev pub as_object : Option Value → Option Fields
as_object (some (obj fields)) = some fields
as_object _ = none

abbrev pub as_array : Option Value → Option Items
as_array (some (arr items)) = some items
as_array _ = none

abbrev pub as_text : Option Value → Option Bytes
as_text (some (str text)) = some text
as_text _ = none

-- `value, _ := x.(string)` and `value, _ := x.(map[string]any)`
abbrev pub text_or_empty : Option Value → Bytes
text_or_empty (some (str text)) = text
text_or_empty _ = []

abbrev pub fields_or_empty : Option Value → Fields
fields_or_empty (some (obj fields)) = fields
fields_or_empty _ = end

-- IEEE 754 arithmetic on 64-bit words and strconv.ParseFloat, which the processor and Go provide.
pub record Floats : Type 0 where
  pub lt : ℕ → ℕ → Bool
  pub eq : ℕ → ℕ → Bool
  -- float64(n)
  pub of_int : ℤ → ℕ
  -- int64(x)
  pub to_int : ℕ → ℤ
  pub parse : Bytes → Option ℕ
