-- ===== src/Routing/Route/Sets.antt =====
-- services/routing/logic.py: the picks of a plan, and the sets of picks that `route` forms of them.
use mathlib.Core.Path.{subst}
use aera_be.Prelude.{
  zero, suc, str_eq, ◌++◌, map, Listed, Option-cases, String, ◌≡◌, refl, sym, ◌∙◌, inl, inr, ℕ,
  Bool, some, List, [], ◌∷◌, arith, All, Bool-cases,
}
use aera_be.Verify.{PlanOption, Verification}
use aera_be.Routing.Logic.{find_option, combinations, Pick, best_from, better, satisfying, up_to}
use aera_be.Routing.Route.{picks}

-- A pick of the plan: the option and the evidence that the plan and its verification have under its
-- id, and that id is chosen.
abbrev pub Planned : Verification → Pick → Type 0
Planned v q =
    (find_option v.plan_record.plan.options q.option.id ≡ some q.option)
    × (v.evidence q.option.id ≡ some q.evidence)
    × Listed q.option.id v.plan_record.plan.chosen

find_option-id :
    (os : List PlanOption) (i : String) (o : PlanOption) → find_option os i ≡ some o → o.id ≡ i
unfolding find_option
find_option-id [] i o h = cc h
find_option-id (x ∷ os) i o h = elim (Option-cases (find_option os i)) [
  | inr (q, found) ↦ find_option-id os i o (found ∙ (rw (found, find_option) at h))
  | inl absent ↦ elim (Bool-cases (str_eq x.id i)) [
    | inl y ↦ let e : x ≡ o = cc (rw (absent, y, find_option) at h) in ground (arith, e, y)
    | inr n ↦ cc (rw (absent, n, find_option) at h)
  ]
]

each_Listed :
    (xs ys : List String) → ((i : String) → Listed i xs → Listed i ys) → All (λ i. Listed i ys) xs
each_Listed [] ys h = tt
each_Listed (x ∷ xs) ys h = (h x (inl refl), each_Listed xs ys (λ i m. h i (inr m)))

pub all_Listed : (xs : List String) → All (λ i. Listed i xs) xs
all_Listed xs = each_Listed xs xs (λ i m. m)

planned_at :
    (v : Verification) (q : Pick) (i : String)
    → q.option.id ≡ i
    → find_option v.plan_record.plan.options i ≡ some q.option
    → v.evidence i ≡ some q.evidence
    → Listed i v.plan_record.plan.chosen
    → Planned v q
planned_at v q i e x y m = (
  subst (λ j. find_option v.plan_record.plan.options j ≡ some q.option) (sym e) x,
  subst (λ j. v.evidence j ≡ some q.evidence) (sym e) y,
  subst (λ j. Listed j v.plan_record.plan.chosen) (sym e) m,
)

-- The picks of a plan are its options and evidence, under chosen ids.
pub picks-Planned :
    (v : Verification) (is : List String) (ps : List Pick)
    → All (λ i. Listed i v.plan_record.plan.chosen) is
    → picks v is ≡ some ps
    → All (Planned v) ps
unfolding picks
picks-Planned v [] ps a h = let e : [] ≡ ps = cc h in rw (sym e) tt
picks-Planned v (i ∷ is) ps a h = elim (Option-cases (find_option v.plan_record.plan.options i)) [
  | inl x ↦ cc (rw (x, picks) at h)
  | inr (o, x) ↦ elim (Option-cases (v.evidence i)) [
    | inl y ↦ cc (rw (x, y, picks) at h)
    | inr (e, y) ↦ elim (Option-cases (picks v is)) [
      | inl z ↦ cc (rw (x, y, z, picks) at h)
      | inr (qs, z) ↦
          let q : Pick = record { option = o; evidence = e } in
          let same : q ∷ qs ≡ ps = cc (rw (x, y, z, picks) at h) in
          let id : o.id ≡ i = find_option-id v.plan_record.plan.options i o x in
          rw (sym same) (planned_at v q i id x y a.0, picks-Planned v is qs a.1 z)
    ]
  ]
]

module _ (Q : Pick → Type 0) where
  append-All : (cs ds : List (List Pick)) → All (All Q) cs → All (All Q) ds → All (All Q) (cs ++ ds)
  append-All [] ds h k = k
  append-All (c ∷ cs) ds h k = (h.0, append-All cs ds h.1 k)

  cons-All :
      (x : Pick) (cs : List (List Pick)) → Q x → All (All Q) cs → All (All Q) (map (λ c. x ∷ c) cs)
  cons-All x [] q h = tt
  cons-All x (c ∷ cs) q h = ((q, h.0), cons-All x cs q h.1)

  combinations-All : (n : ℕ) (xs : List Pick) → All Q xs → All (All Q) (combinations n xs)
  unfolding combinations
  combinations-All zero xs h = (tt, tt)
  combinations-All (suc n) [] h = tt
  combinations-All (suc n) (x ∷ xs) h =
      append-All (map (λ c. x ∷ c) (combinations n xs)) (combinations (suc n) xs)
        (cons-All x (combinations n xs) h.0 (combinations-All n xs h.1))
        (combinations-All (suc n) xs h.1)

  pub up_to-All : (n : ℕ) (xs : List Pick) → All Q xs → All (All Q) (up_to n xs)
  unfolding up_to
  up_to-All zero xs h = tt
  up_to-All (suc n) xs h =
      append-All (up_to n xs) (combinations (suc n) xs) (up_to-All n xs h)
        (combinations-All (suc n) xs h)

  pub kept-All :
      (p : List Pick → Bool) (cs : List (List Pick))
      → All (All Q) cs
      → All (All Q) (satisfying p cs)
  unfolding satisfying
  kept-All p [] h = tt
  kept-All p (c ∷ cs) h = elim (Bool-cases (p c)) [
    | inl y ↦ rw (y, satisfying) (h.0, kept-All p cs h.1)
    | inr n ↦ rw (n, satisfying) (kept-All p cs h.1)
  ]

  pub chosen-All :
      (b : List Pick) (cs : List (List Pick)) → All Q b → All (All Q) cs → All Q (best_from b cs)
  unfolding best_from
  chosen-All b [] h a = h
  chosen-All b (c ∷ cs) h a = elim (Bool-cases (better b c)) [
    | inl y ↦ rw (y, best_from) (chosen-All c cs a.0 a.1)
    | inr n ↦ rw (n, best_from) (chosen-All b cs h a.1)
  ]
