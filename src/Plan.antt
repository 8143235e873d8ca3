-- ===== src/Plan.antt =====
-- The plan of services/shared/models.py: the actions that an option runs, the options and the
-- proposal. Text fields, dates and references are only compared here, so they are texts; an amount
-- is an integer number of millionths.
use aera_be.Prelude.{String, ℕ, List}
use aera_be.Prelude.Int.{ℤ}

-- A part of a split schedule line (`SplitPoScheduleLine.Part`).
pub record LinePart : Type 0 where
  pub qty : ℤ
  pub delivery_date : ℕ

-- `Action`, one constructor for each `type`; dates are days.
pub data Action : Type 0 where
  create_sto : (from_plant to_plant material : String) (qty : ℤ) (delivery_date : ℕ) → Action
  change_po_date : (po_number po_item schedule_line : String) (new_date : ℕ) → Action
  split_po_schedule_line :
      (po_number po_item schedule_line : String) (parts : List LinePart) → Action
  book_air_freight : (supplier_id po_number po_item : String) (qty : ℤ) (arrival : ℕ) → Action
  create_po_alternate : (supplier_id material plant : String) (qty : ℤ) (delivery_date : ℕ) → Action
