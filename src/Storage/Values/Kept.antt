-- ===== src/Storage/Values/Kept.antt =====
-- services/shared/dynamo.py: a record that is stored and read again.
use aera_be.Prelude.{◌≡◌, refl, ap, inl, inr, false, arith, Bool-cases}
use aera_be.Prelude.Int.{ℤ, pos, negsuc}
use aera_be.Storage.Values.{
  PyValue, nothing, text, boolean, integer, decimal, floating, moment, member, sequence, tuple,
  mapping, PyValues, no_values, more_values, Fields, no_fields, more_fields, plain, plain_values,
  plain_fields, python, python_values, python_fields, is_none, shortened, to_millionths, to_item,
  from_item, serialized, deserialized,
}

-- What a stored value is made of: no integer, float, instant, member or tuple is left.
mutual
  pub IsStored : PyValue → Type 0
  IsStored nothing = Unit
  IsStored (text s) = Unit
  IsStored (boolean b) = Unit
  IsStored (decimal d) = Unit
  IsStored (sequence vs) = AreStored vs
  IsStored (mapping fs) = FieldsStored fs
  IsStored (integer n) = ⊥
  IsStored (floating d) = ⊥
  IsStored (moment iso) = ⊥
  IsStored (member v) = ⊥
  IsStored (tuple vs) = ⊥

  AreStored : PyValues → Type 0
  AreStored no_values = Unit
  AreStored (more_values v vs) = IsStored v × AreStored vs

  FieldsStored : Fields → Type 0
  FieldsStored no_fields = Unit
  FieldsStored (more_fields k v fs) = IsStored v × FieldsStored fs

-- What comes back as it was: texts, truth values, integers, decimals with a fraction, and lists and
-- dictionaries of such, without a field that is None.
unfoldable mutual
  pub IsKept : PyValue → Type 0
  IsKept nothing = Unit
  IsKept (text s) = Unit
  IsKept (boolean b) = Unit
  IsKept (integer n) = Unit
  IsKept (decimal d) = shortened d ≡ decimal d
  IsKept (sequence vs) = AreKept vs
  IsKept (mapping fs) = FieldsKept fs
  IsKept (floating d) = ⊥
  IsKept (moment iso) = ⊥
  IsKept (member v) = ⊥
  IsKept (tuple vs) = ⊥

  AreKept : PyValues → Type 0
  AreKept no_values = Unit
  AreKept (more_values v vs) = IsKept v × AreKept vs

  pub FieldsKept : Fields → Type 0
  FieldsKept no_fields = Unit
  FieldsKept (more_fields k v fs) = (is_none v ≡ false) × IsKept v × FieldsKept fs

mutual
  unfolding plain IsStored

  plain-IsStored : (v : PyValue) → IsStored (plain v)
  plain-IsStored nothing = tt
  plain-IsStored (text s) = tt
  plain-IsStored (boolean b) = tt
  plain-IsStored (integer n) = tt
  plain-IsStored (decimal d) = tt
  plain-IsStored (floating d) = tt
  plain-IsStored (moment iso) = tt
  plain-IsStored (member v) = tt
  plain-IsStored (sequence vs) = plain-AreStored vs
  plain-IsStored (tuple vs) = plain-AreStored vs
  plain-IsStored (mapping fs) = plain-FieldsStored fs

  plain-AreStored : (vs : PyValues) → AreStored (plain_values vs)
  plain-AreStored no_values = tt
  plain-AreStored (more_values v vs) = (plain-IsStored v, plain-AreStored vs)

  plain-FieldsStored : (fs : Fields) → FieldsStored (plain_fields fs)
  plain-FieldsStored no_fields = tt
  plain-FieldsStored (more_fields k v fs) = elim (Bool-cases (is_none v)) [
    | inl y ↦ rw (y, plain_fields) (plain-FieldsStored fs)
    | inr n ↦ rw (n, plain_fields) (plain-IsStored v, plain-FieldsStored fs)
  ]

shortened-integer : (n : ℤ) → shortened (to_millionths n) ≡ integer n
shortened-integer (pos n) = ground arith
shortened-integer (negsuc n) = ground arith

mutual
  unfolding plain python IsKept

  python-plain : (v : PyValue) → IsKept v → python (plain v) ≡ v
  python-plain nothing h = refl
  python-plain (text s) h = refl
  python-plain (boolean b) h = refl
  python-plain (integer n) h = shortened-integer n
  python-plain (decimal d) h = h
  python-plain (floating d) h = absurd h
  python-plain (moment iso) h = absurd h
  python-plain (member v) h = absurd h
  python-plain (tuple vs) h = absurd h
  python-plain (sequence vs) h = ap sequence (python-plain_values vs h)
  python-plain (mapping fs) h = ap mapping (python-plain_fields fs h)

  python-plain_values : (vs : PyValues) → AreKept vs → python_values (plain_values vs) ≡ vs
  python-plain_values no_values h = refl
  python-plain_values (more_values v vs) h = cc (python-plain v h.0, python-plain_values vs h.1)

  python-plain_fields : (fs : Fields) → FieldsKept fs → python_fields (plain_fields fs) ≡ fs
  python-plain_fields no_fields h = refl
  python-plain_fields (more_fields k v fs) h =
      rw (h.0, plain_fields) (cc (python-plain v h.1, python-plain_fields fs h.2))

module _ {Attribute : Type 0} (serialize : PyValue → Attribute) (deserialize : Attribute → PyValue)
    (exact : (v : PyValue) → IsStored v → deserialize (serialize v) ≡ v) where
  deserialized-serialized :
      (fs : Fields)
      → FieldsStored fs
      → deserialized serialize deserialize (serialized serialize deserialize fs) ≡ fs
  unfolding IsStored
  deserialized-serialized no_fields h = refl
  deserialized-serialized (more_fields k v fs) h = cc (exact v h.0, deserialized-serialized fs h.1)

  -- With a serializer that gives texts, truth values, decimals, lists and dictionaries back, a
  -- record of values that have a place in an item comes back from its item as it was.
  pub from_item-to_item :
      (fs : Fields)
      → FieldsKept fs
      → from_item serialize deserialize (to_item serialize deserialize fs) false ≡ fs
  unfolding from_item to_item
  from_item-to_item fs h =
      rw (deserialized-serialized (plain_fields fs) (plain-FieldsStored fs))
        (python-plain_fields fs h)
