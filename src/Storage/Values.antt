-- ===== src/Storage/Values.antt =====
-- services/shared/dynamo.py: the conversion of a Python value into an item and back. The serializer
-- of boto3 is a parameter. A decimal is an amount in millionths; a float comes with the decimal that
-- it prints as, a date or an instant with its ISO text, a member of an enumeration with its value.
pub mod Kept
use aera_be.Prelude.{
  String, ℕ, ◌*◌, ◌+◌, ◌-◌, ◌/◌, ◌%◌, ◌==◌, Bool, true, false, Option, none, some, List, [], ◌∷◌,
  if◌then◌else◌,
}
use aera_be.Prelude.Int.{ℤ, pos, negsuc}

mutual
  pub data PyValue : Type 0 where
    nothing : PyValue
    text : String → PyValue
    boolean : Bool → PyValue
    integer : ℤ → PyValue
    decimal : (millionths : ℤ) → PyValue
    floating : (printed : ℤ) → PyValue
    moment : (iso : String) → PyValue
    member : (value : String) → PyValue
    sequence tuple : PyValues → PyValue
    mapping : Fields → PyValue

  pub data PyValues : Type 0 where
    no_values : PyValues
    more_values : PyValue → PyValues → PyValues

  -- A dictionary, by its fields in order.
  pub data Fields : Type 0 where
    no_fields : Fields
    more_fields : String → PyValue → Fields → Fields

-- `Decimal(n)` of an integer.
abbrev pub to_millionths : ℤ → ℤ
to_millionths (pos n) = pos (n * 1000000)
to_millionths (negsuc n) = negsuc (n * 1000000 + 999999)

abbrev pub is_none : PyValue → Bool
is_none nothing = true
is_none _ = false

-- `_plain`: a tuple becomes a list.
unfoldable mutual
  pub plain : PyValue → PyValue
  plain nothing = nothing
  plain (text s) = text s
  plain (boolean b) = boolean b
  plain (integer n) = decimal (to_millionths n)
  plain (decimal d) = decimal d
  plain (floating d) = decimal d
  plain (moment iso) = text iso
  plain (member v) = text v
  plain (sequence vs) = sequence (plain_values vs)
  plain (tuple vs) = sequence (plain_values vs)
  plain (mapping fs) = mapping (plain_fields fs)

  pub plain_values : PyValues → PyValues
  plain_values no_values = no_values
  plain_values (more_values v vs) = more_values (plain v) (plain_values vs)

  -- A field without a value is dropped.
  pub plain_fields : Fields → Fields
  plain_fields no_fields = no_fields
  plain_fields (more_fields k v fs) =
      let rest = plain_fields fs in if is_none v then rest else more_fields k (plain v) rest

-- A decimal without a fraction is an integer.
abbrev pub shortened : ℤ → PyValue
shortened (pos n) = if n % 1000000 == 0 then integer (pos (n / 1000000)) else decimal (pos n)
shortened (negsuc n) =
    if (n + 1) % 1000000 == 0 then integer (negsuc ((n + 1) / 1000000 - 1)) else decimal (negsuc n)

-- `_python`
unfoldable mutual
  pub python : PyValue → PyValue
  python (decimal d) = shortened d
  python (sequence vs) = sequence (python_values vs)
  python (mapping fs) = mapping (python_fields fs)
  python v = v

  pub python_values : PyValues → PyValues
  python_values no_values = no_values
  python_values (more_values v vs) = more_values (python v) (python_values vs)

  pub python_fields : Fields → Fields
  python_fields no_fields = no_fields
  python_fields (more_fields k v fs) = more_fields k (python v) (python_fields fs)

module _ {Attribute : Type 0} (serialize : PyValue → Attribute)
    (deserialize : Attribute → PyValue) where
  abbrev pub serialized : Fields → List (String × Attribute)
  serialized no_fields = []
  serialized (more_fields k v fs) = (k, serialize v) ∷ serialized fs

  abbrev pub deserialized : List (String × Attribute) → Fields
  deserialized [] = no_fields
  deserialized ((k, a) ∷ rest) = more_fields k (deserialize a) (deserialized rest)

  unfoldable pub to_item : Fields → List (String × Attribute)
  unfolding plain_fields
  to_item fs = serialized (plain_fields fs)

  unfoldable pub to_value : PyValue → Attribute
  unfolding plain
  to_value v = serialize (plain v)

  unfoldable pub from_item : List (String × Attribute) → (keep_decimals : Bool) → Fields
  unfolding python_fields
  from_item item keep_decimals =
      let fs = deserialized item in if keep_decimals then fs else python_fields fs
