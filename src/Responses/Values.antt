-- ===== src/Responses/Values.antt =====
-- The values that `JSON.parse` gives: an object has each key once. A number is the bit pattern of a
-- double.
use sentinelmesh.Common.{String, Bool, List, [], ◌∷◌, Option, none, some, ◌==◌, ltb, if◌then◌else◌}
use sentinelmesh.Types.{Double}
use sentinelmesh.CircleLocation.{magnitude}

mutual
  pub data Value : Type 0 where
    null : Value
    boolean : Bool → Value
    number : Double → Value
    text : String → Value
    array : Values → Value
    object : Fields → Value

  pub data Values : Type 0 where
    nil : Values
    cons : Value → Values → Values

  pub data Fields : Type 0 where
    end : Fields
    field : String → Value → Fields → Fields

-- The elements of an array.
unfoldable pub items : Values → List Value
items nil = []
items (cons v vs) = v ∷ items vs

-- `record[key]`, where the key is there.
unfoldable pub lookup : String → Fields → Option Value
lookup key end = none
lookup key (field k v fs) = if k == key then some v else lookup key fs

-- The fields of an object; `isRecord` lets an array through too, which has none of the keys that are
-- asked for.
abbrev pub fields_of : Value → Option Fields
fields_of (object fs) = some fs
fields_of (array vs) = some end
fields_of _ = none

-- `typeof value === 'string'` and the like, of a field that may be missing.
abbrev pub as_text : Option Value → Option String
as_text (some (text s)) = some s
as_text _ = none

abbrev pub as_number : Option Value → Option Double
as_number (some (number d)) = some d
as_number _ = none

abbrev pub as_boolean : Option Value → Option Bool
as_boolean (some (boolean b)) = some b
as_boolean _ = none

-- `Array.isArray(value)`
abbrev pub as_array : Option Value → Option (List Value)
as_array (some (array vs)) = some (items vs)
as_array _ = none

-- `Number.isFinite(value)`: below the pattern of infinity.
abbrev pub is_finite_number : Double → Bool
is_finite_number d = ltb (magnitude d) 9218868437227405312
