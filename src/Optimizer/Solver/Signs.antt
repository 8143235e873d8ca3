-- ===== src/Optimizer/Solver/Signs.antt =====
-- services/optimizer/solver.py: no negative amount is read from an answer.
use mathlib.Core.Path.{subst}
use aera_be.Prelude.{
  String, ◌≡◌, refl, inl, inr, Bool, some, List, [], ◌∷◌, arith, All, Bool-cases, Option-cases, ◌∙◌,
  map, str_eq, Option, none,
}
use aera_be.Prelude.Int.{int_laws, ltb_ℤ, sum_ℤ, ℤ, ◌+ℤ◌, ◌≤ℤ◌}
use aera_be.Optimizer.Problem.{zero_ℤ, Need, Candidate, Capacity, SolverResult}
use aera_be.Optimizer.Check.{or_zero, last_of, covered_of}
use aera_be.Optimizer.Solver.{allocations_of, covers, reaches, found, Answer}

-- What is left and what is covered is not negative.
abbrev pub NoDebt : SolverResult → Type 0
NoDebt r =
    ((id : String) (left : ℤ) → last_of id r.uncovered ≡ some left → zero_ℤ ≤ℤ left)
    × ((id : String) → zero_ℤ ≤ℤ covered_of id r.allocations)

-- The last of several values that are not negative is not.
last-low :
    (x : Answer) (needs : List Need) (id : String) (left : ℤ)
    → All (λ n. zero_ℤ ≤ℤ x.uncovered n.id) needs
    → last_of id (map (λ n. (n.id, x.uncovered n.id)) needs) ≡ some left
    → zero_ℤ ≤ℤ left
unfolding last_of
last-low x [] id left a h = cc h
last-low x (n ∷ ns) id left a h =
    elim (Option-cases (last_of id (map (λ m. (m.id, x.uncovered m.id)) ns))) [
      | inr (b, later) ↦ last-low x ns id left a.1 (later ∙ (rw (later, last_of) at h))
      | inl absent ↦ elim (Bool-cases (str_eq n.id id)) [
        | inl y ↦
            let e : x.uncovered n.id ≡ left = cc (rw (absent, y, last_of) at h) in
            subst (λ q. zero_ℤ ≤ℤ q) e a.0
        | inr z ↦ cc (rw (absent, z, last_of) at h)
      ]
    ]

covers-low :
    (x : Answer) (a : Candidate) (ns : List Need) → All (λ c. zero_ℤ ≤ℤ c.1) (covers x a ns)
unfolding covers
covers-low x a [] = tt
covers-low x a (n ∷ ns) = elim (Bool-cases (ltb_ℤ zero_ℤ (x.covered a.id n.id))) [
  | inr z ↦ elim (Bool-cases (reaches a n)) [
    | inl y ↦ rw (y, z, covers) (covers-low x a ns)
    | inr w ↦ rw (w, covers) (covers-low x a ns)
  ]
  | inl p ↦ elim (Bool-cases (reaches a n)) [
    | inl y ↦ rw (y, p, covers) (ground arith, covers-low x a ns)
    | inr w ↦ rw (w, covers) (covers-low x a ns)
  ]
]

or_zero-low :
    (id : String) (cs : List (String × ℤ))
    → All (λ c. zero_ℤ ≤ℤ c.1) cs
    → zero_ℤ ≤ℤ or_zero (last_of id cs)
unfolding last_of
or_zero-low id [] h = omega arith
or_zero-low id ((k, q) ∷ cs) h = go (last_of id cs) refl (or_zero-low id cs h.1)
  where
    go :
        (o : Option ℤ)
        → last_of id cs ≡ o
        → zero_ℤ ≤ℤ or_zero o
        → zero_ℤ ≤ℤ or_zero (last_of id ((k, q) ∷ cs))
    go (some b) e low = rw (e, last_of) low
    go none e low = elim (Bool-cases (str_eq k id)) [
      | inl y ↦ rw (e, y, last_of) h.0
      | inr n ↦ rw (e, n, last_of) low
    ]

plus-low : (a b : ℤ) → zero_ℤ ≤ℤ a → zero_ℤ ≤ℤ b → zero_ℤ ≤ℤ a +ℤ b
plus-low a b h k = omega int_laws

allocations-low :
    (x : Answer) (needs : List Need) (cs : List Candidate) (id : String)
    → zero_ℤ ≤ℤ covered_of id (allocations_of x needs cs)
unfolding covered_of allocations_of sum_ℤ
allocations-low x needs [] id = omega arith
allocations-low x needs (a ∷ cs) id = elim (Bool-cases (x.chosen a.id)) [
  | inl y ↦
      rw (y, allocations_of)
        (plus-low (or_zero (last_of id (covers x a needs)))
          (covered_of id (allocations_of x needs cs))
          (or_zero-low id (covers x a needs) (covers-low x a needs))
          (allocations-low x needs cs id))
  | inr n ↦ rw (n, allocations_of) (allocations-low x needs cs id)
]

module _ (blank : String → Bool)
    (cp_sat : ℤ → List Need → List Candidate → List Capacity → Answer) where
  pub found-NoDebt :
      (x : Answer) (needs : List Need) (candidates : List Candidate)
      → All (λ n. zero_ℤ ≤ℤ x.uncovered n.id) needs
      → NoDebt (found blank cp_sat x needs candidates)
  unfolding found
  found-NoDebt x needs candidates a =
      ((λ id left h. last-low x needs id left a h), (λ id. allocations-low x needs candidates id))
