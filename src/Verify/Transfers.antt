-- ===== src/Verify/Transfers.antt =====
-- services/verifier/logic.py, `_transfers`: what the options of a plan take from each donor.
use aera_be.Prelude.{String, str_eq, ◌≡◌, sym, ap, ◌∙◌, ◌&&◌, List, [], ◌∷◌, arith, if◌then◌else◌}
use aera_be.Prelude.Int.{ℤ, pos, ◌+ℤ◌, int_laws}
use aera_be.Plan.{
  Action, create_sto, change_po_date, split_po_schedule_line, book_air_freight, create_po_alternate,
}
use aera_be.Verify.{PlanOption, add_transfer, action_transfers, transfers_from, transfers}

abbrev Amounts : Type 0
Amounts = List ((String × String) × ℤ)

-- The amount under a key, 0 if there is none.
abbrev pub amount_at : String → String → Amounts → ℤ
amount_at m p [] = pos 0
amount_at m p (((n, r), q) ∷ rest) = if str_eq n m && str_eq r p then q else amount_at m p rest

-- What an action takes of a material from a plant.
abbrev pub taken : String → String → Action → ℤ
taken m p (create_sto from_plant _ material qty _) =
    if str_eq material m && str_eq from_plant p then qty else pos 0
taken m p _ = pos 0

abbrev pub taken_by : String → String → List Action → ℤ
taken_by m p [] = pos 0
taken_by m p (a ∷ rest) = taken m p a +ℤ taken_by m p rest

abbrev pub taken_in : String → String → List PlanOption → ℤ
taken_in m p [] = pos 0
taken_in m p (o ∷ rest) = taken_by m p o.actions +ℤ taken_in m p rest

add-zero : (a : ℤ) → a +ℤ pos 0 ≡ a
add-zero a = omega int_laws

zero-add : (a : ℤ) → pos 0 +ℤ a ≡ a
zero-add a = omega int_laws

add_assoc : (a b c : ℤ) → (a +ℤ b) +ℤ c ≡ a +ℤ (b +ℤ c)
add_assoc a b c = omega int_laws

amount_at-add_transfer :
    (m p n r : String) (q : ℤ) (out : Amounts)
    → amount_at m p (add_transfer n r q out)
      ≡ amount_at m p out +ℤ (if str_eq n m && str_eq r p then q else pos 0)
amount_at-add_transfer m p n r q [] = sym (zero-add (if str_eq n m && str_eq r p then q else pos 0))
amount_at-add_transfer m p n r q (((n', r'), q') ∷ rest) =
    ground
      (arith, add-zero q', add-zero (amount_at m p rest), amount_at-add_transfer m p n r q rest)

amount_at-action_transfers :
    (m p : String) (acts : List Action) (out : Amounts)
    → amount_at m p (action_transfers acts out) ≡ amount_at m p out +ℤ taken_by m p acts
unfolding action_transfers
amount_at-action_transfers m p [] out = sym (add-zero (amount_at m p out))
amount_at-action_transfers m p (create_sto n to_plant r q day ∷ rest) out =
    amount_at-action_transfers m p rest (add_transfer r n q out)
    ∙ ap (λ a. a +ℤ taken_by m p rest) (amount_at-add_transfer m p r n q out)
    ∙ add_assoc (amount_at m p out) (taken m p (create_sto n to_plant r q day)) (taken_by m p rest)
amount_at-action_transfers m p (change_po_date a b c d ∷ rest) out =
    amount_at-action_transfers m p rest out
    ∙ ap (λ x. amount_at m p out +ℤ x) (sym (zero-add (taken_by m p rest)))
amount_at-action_transfers m p (split_po_schedule_line a b c d ∷ rest) out =
    amount_at-action_transfers m p rest out
    ∙ ap (λ x. amount_at m p out +ℤ x) (sym (zero-add (taken_by m p rest)))
amount_at-action_transfers m p (book_air_freight a b c d e ∷ rest) out =
    amount_at-action_transfers m p rest out
    ∙ ap (λ x. amount_at m p out +ℤ x) (sym (zero-add (taken_by m p rest)))
amount_at-action_transfers m p (create_po_alternate a b c d e ∷ rest) out =
    amount_at-action_transfers m p rest out
    ∙ ap (λ x. amount_at m p out +ℤ x) (sym (zero-add (taken_by m p rest)))

amount_at-transfers_from :
    (m p : String) (os : List PlanOption) (out : Amounts)
    → amount_at m p (transfers_from os out) ≡ amount_at m p out +ℤ taken_in m p os
unfolding transfers_from
amount_at-transfers_from m p [] out = sym (add-zero (amount_at m p out))
amount_at-transfers_from m p (o ∷ rest) out =
    amount_at-transfers_from m p rest (action_transfers o.actions out)
    ∙ ap (λ a. a +ℤ taken_in m p rest) (amount_at-action_transfers m p o.actions out)
    ∙ add_assoc (amount_at m p out) (taken_by m p o.actions) (taken_in m p rest)

-- The amount that the transfers of some options list for a material and a donor plant is the sum of
-- what all stock transfers of these options take of that material from that plant.
pub amount_at-transfers :
    (m p : String) (os : List PlanOption) → amount_at m p (transfers os) ≡ taken_in m p os
unfolding transfers
amount_at-transfers m p os = amount_at-transfers_from m p os [] ∙ zero-add (taken_in m p os)
