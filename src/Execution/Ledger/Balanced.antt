-- ===== src/Execution/Ledger/Balanced.antt =====
-- services/execution/ledger.py: the balance of a material at a plant against the units that its
-- reservations hold.
use aera_be.Prelude.{
  String, String_discrete, ℕ, ◌+◌, ◌≡◌, ◌≢◌, sym, ap, ◌∙◌, inl, inr, Option, none, some, List, ◌∷◌,
  arith, Listed, Distinct, sum_by, sum_by_off, sum_by_at,
}
use mathlib.Core.Path.{fun_ext}
use aera_be.Execution.Ledger.{LedgerKey, bal, res, LedgerItem, balance, reservation, held, released}

abbrev pub units : Option LedgerItem → ℕ
units (some (reservation r)) = elim r.status [ held ↦ r.qty | released ↦ 0 ]
units _ = 0

abbrev pub total : Option LedgerItem → ℕ
total (some (balance b)) = b.allocated
total _ = 0

module _ (material plant : String) where
  -- `ids` lists the reservations, and the balance is the sum of what they hold.
  pub record IsBalanced (ids : List String) (view : LedgerKey → Option LedgerItem) : Type 0 where
    pub distinct : Distinct ids
    pub complete : (id : String) → view (res material plant id) ≢ none → Listed id ids
    pub present : (id : String) → Listed id ids → view (res material plant id) ≢ none
    pub balanced :
        total (view (bal material plant)) ≡ sum_by (λ id. units (view (res material plant id))) ids

  -- A reservation appears with its units, and the balance grows by as many.
  pub add_hold :
      (id : String) (q : ℕ) (ids : List String) (v v' : LedgerKey → Option LedgerItem)
      → v (res material plant id) ≡ none
      → ((j : String) → j ≢ id → v' (res material plant j) ≡ v (res material plant j))
      → v' (res material plant id) ≢ none
      → units (v' (res material plant id)) ≡ q
      → total (v' (bal material plant)) ≡ total (v (bal material plant)) + q
      → IsBalanced ids v
      → IsBalanced (id ∷ ids) v'
  add_hold id q ids v v' was agree now same grow b = record {
    distinct = (fresh, b.distinct);
    complete = λ j p. elim (String_discrete j id) [
      | yes e ↦ inl e
      | no n ↦ inr (b.complete j (λ e. p (agree j n ∙ e)))
    ];
    present = λ j m. elim (String_discrete j id) [
      | yes e ↦ (λ x. now (sym (ap (λ k. v' (res material plant k)) e) ∙ x))
      | no n ↦ (λ x. b.present j (listed_ne j n m) (sym (agree j n) ∙ x))
    ];
    balanced = omega (
      arith,
      b.balanced,
      sum_by_off (λ j. units (v (res material plant j))) (λ j. units (v' (res material plant j))) id
          (λ j n. ap units (agree j n)) ids fresh,
    );
  }
    where
      fresh : ¬ Listed id ids
      fresh m = b.present id m was

      listed_ne : (j : String) → j ≢ id → Listed j (id ∷ ids) → Listed j ids
      listed_ne j n (inl e) = absurd (n e)
      listed_ne j n (inr m) = m

  -- A reservation changes its units in place, and the balance changes by the difference.
  pub change_hold :
      (id : String) (ids : List String) (v v' : LedgerKey → Option LedgerItem)
      → v (res material plant id) ≢ none
      → ((j : String) → j ≢ id → v' (res material plant j) ≡ v (res material plant j))
      → v' (res material plant id) ≢ none
      → total (v' (bal material plant)) + units (v (res material plant id))
        ≡ total (v (bal material plant)) + units (v' (res material plant id))
      → IsBalanced ids v
      → IsBalanced ids v'
  change_hold id ids v v' was agree now move b = record {
    distinct = b.distinct;
    complete = λ j p. elim (String_discrete j id) [
      | yes e ↦ rw e (b.complete id was)
      | no n ↦ b.complete j (λ e. p (agree j n ∙ e))
    ];
    present = λ j m. elim (String_discrete j id) [
      | yes e ↦ (λ x. now (sym (ap (λ k. v' (res material plant k)) e) ∙ x))
      | no n ↦ (λ x. b.present j m (sym (agree j n) ∙ x))
    ];
    balanced = omega (
      arith,
      b.balanced,
      move,
      sum_by_at (λ j. units (v (res material plant j))) (λ j. units (v' (res material plant j))) id
          (λ j n. ap units (agree j n)) ids (b.complete id was) b.distinct,
    );
  }

  -- Nothing changes at this material and plant.
  pub keep_hold :
      (ids : List String) (v v' : LedgerKey → Option LedgerItem)
      → v' (bal material plant) ≡ v (bal material plant)
      → ((id : String) → v' (res material plant id) ≡ v (res material plant id))
      → IsBalanced ids v
      → IsBalanced ids v'
  keep_hold ids v v' e agree b = record {
    distinct = b.distinct;
    complete = λ id p. b.complete id (λ x. p (agree id ∙ x));
    present = λ id m. (λ x. b.present id m (sym (agree id) ∙ x));
    balanced = rw e (b.balanced ∙ ap (λ f. sum_by f ids) (fun_ext λ id. ap units (sym (agree id))));
  }
