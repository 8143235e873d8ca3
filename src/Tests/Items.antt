-- ===== src/Tests/Items.antt =====
-- The items of the store at concrete inputs.
use aera_be.Prelude.{◌≡◌, refl, false}
use aera_be.Prelude.Int.{pos, negsuc}
use aera_be.Storage.Values.{
  PyValue, nothing, text, boolean, integer, decimal, sequence, mapping, no_values, more_values,
  Fields, no_fields, more_fields, from_item, to_item,
}
use aera_be.Storage.Values.Kept.{FieldsKept, from_item-to_item}

abbrev fields : Fields
fields = more_fields "revision" (integer (pos 3)) (
    more_fields "options" (sequence (more_values (text "A") (more_values nothing no_values))) (
      more_fields "balance" (mapping (more_fields "qty" (decimal (negsuc 1500000)) no_fields))
        (more_fields "sent" (boolean false) no_fields)))

abbrev as_it_is : PyValue → PyValue
as_it_is v = v

from_item-to_item_example :
    from_item as_it_is as_it_is (to_item as_it_is as_it_is fields) false ≡ fields
unfolding FieldsKept
from_item-to_item_example =
    from_item-to_item as_it_is as_it_is (λ v stored. refl) fields
      (refl, tt, (refl, (tt, (tt, tt)), (refl, (refl, refl, tt), (refl, tt, tt))))
