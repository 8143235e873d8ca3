-- ===== src/Optimizer/Portfolio/Apart.antt =====
-- services/optimizer/portfolio.py: the components of `detect`, and the resources between them.
use mathlib.Core.Path.{subst}
use aera_be.Prelude.{
  String, str_eq, ℕ, zero, suc, ◌≡◌, refl, sym, ◌∙◌, ap, inl, inr, Bool, true, false, ◌||◌, some,
  List, [], ◌∷◌, any, length, arith, All, Listed, Bool-cases, Option-cases,
}
use aera_be.Prelude.Int.{ℤ}
use aera_be.Optimizer.Portfolio.{
  Resource, stock_of, donor_of, freight_of, partial_of, same_resource, holds, overlap, any_left,
  resources, PortfolioCase, active_of, competes, walk, components,
}
use aera_be.Optimizer.Portfolio.Reach.{
  All-Listed, All-map, Apart, walk-Apart, walk-All, walk-Listed,
}

module _ {A : Type 0} (adjacent : A → A → Bool) where
  -- No edge from a component to a later one.
  abbrev Separate : List (List A) → Type 0
  Separate [] = Unit
  Separate (c ∷ cs) = All (λ x. All (λ d. Apart adjacent d x) cs) c × Separate cs

  split_root :
      (n : ℕ) (root : A) (unseen : List A) {cs : List (List A)}
      → components adjacent (suc n) (root ∷ unseen) ≡ some cs
      → (c : List A) × (left : List A) × (later : List (List A)) × (walk adjacent
            (suc (suc (length unseen)))
            (root ∷ [])
            (root ∷ [])
            unseen
          ≡ some (c, left))
        × (components adjacent n left ≡ some later)
        × (cs ≡ c ∷ later)
  unfolding components
  split_root n root unseen e =
      elim (Option-cases
        (walk adjacent (suc (suc (length unseen))) (root ∷ []) (root ∷ []) unseen)) [
          | inl out ↦ cc (rw (out, components) at e)
          | inr ((c, left), w) ↦ elim (Option-cases (components adjacent n left)) [
            | inl out ↦ cc (rw (w, components, out) at e)
            | inr (later, l) ↦ (c, left, later, w, l, cc (rw (w, components, l) at e))
          ]
        ]

  components-All :
      (P : A → Type 0) (n : ℕ) (unseen : List A) {cs : List (List A)}
      → components adjacent n unseen ≡ some cs
      → All P unseen
      → All (All P) cs
  unfolding components
  components-All P zero unseen e h = cc e
  components-All P (suc n) [] {cs} e h = let i : [] ≡ cs = cc e in subst (All (All P)) i tt
  components-All P (suc n) (root ∷ unseen) e h =
      let (c, left, later, w, l, i) = split_root n root unseen e in
      let (in_c, in_left) =
        walk-All adjacent P (suc (suc (length unseen))) (root ∷ []) (root ∷ []) unseen w (h.0, tt)
          h.1 in
      subst (All (All P)) (sym i) (in_c, components-All P n left l in_left)

  components-Separate :
      (n : ℕ) (unseen : List A) {cs : List (List A)}
      → components adjacent n unseen ≡ some cs
      → Separate cs
  unfolding components
  components-Separate zero unseen e = cc e
  components-Separate (suc n) [] {cs} e = let i : [] ≡ cs = cc e in subst Separate i tt
  components-Separate (suc n) (root ∷ unseen) e =
      let (c, left, later, w, l, i) = split_root n root unseen e in
      let apart : All (Apart adjacent left) c =
        walk-Apart adjacent (suc (suc (length unseen))) (root ∷ []) (root ∷ []) unseen w
          (inl (inl refl), tt) in
      subst Separate (sym i) (
        All-map adjacent (Apart adjacent left) (λ x. All (λ d. Apart adjacent d x) later) c
            (λ x a. components-All (λ u. adjacent x u ≡ false) n left l a) apart,
        components-Separate n left l,
      )

  components-Listed :
      (n : ℕ) (unseen : List A) {cs : List (List A)} (x : A)
      → components adjacent n unseen ≡ some cs
      → Listed x unseen
      → (c : List A) × Listed c cs × Listed x c
  unfolding components
  components-Listed zero unseen x e m = cc e
  components-Listed (suc n) [] x e m = absurd m
  components-Listed (suc n) (root ∷ unseen) x e m =
      let (c, left, later, w, l, i) = split_root n root unseen e in
      elim (walk-Listed adjacent (suc (suc (length unseen))) (root ∷ []) (root ∷ []) unseen x w
        (elim m [ inl r ↦ inl (inl r) | inr u ↦ inr u ])) [
          | inl here ↦ (c, subst (Listed c) (sym i) (inl refl), here)
          | inr there ↦
              let (d, in_later, in_d) = components-Listed n left x l there in
              (d, subst (Listed d) (sym i) (inr in_later), in_d)
        ]

  no_edge : (b : Bool) → b ≡ true → b ≡ false → ⊥
  no_edge true h k = cc k
  no_edge false h k = cc h

  one_component :
      (cs : List (List A)) (c d : List A) (a b : A)
      → Separate cs
      → Listed c cs
      → Listed d cs
      → Listed a c
      → Listed b d
      → adjacent a b ≡ true
      → adjacent b a ≡ true
      → c ≡ d
  one_component [] c d a b s m k p q h g = absurd m
  one_component (x ∷ xs) c d a b s (inl e) (inl f) p q h g = e ∙ sym f
  one_component (x ∷ xs) c d a b s (inl e) (inr k) p q h g = absurd (
      no_edge (adjacent a b) h (
        All-Listed (λ u. adjacent a u ≡ false) d b
          (All-Listed (λ y. Apart adjacent y a) xs d
            (All-Listed (λ z. All (λ y. Apart adjacent y z) xs) x a s.0 (subst (Listed a) e p)) k)
          q))
  one_component (x ∷ xs) c d a b s (inr m) (inl f) p q h g = absurd (
      no_edge (adjacent b a) g (
        All-Listed (λ u. adjacent b u ≡ false) c a
          (All-Listed (λ y. Apart adjacent y b) xs c
            (All-Listed (λ z. All (λ y. Apart adjacent y z) xs) x b s.0 (subst (Listed b) f q)) m)
          p))
  one_component (x ∷ xs) c d a b s (inr m) (inr k) p q h g =
      one_component xs c d a b s.1 m k p q h g

-- Competition goes both ways.
any_or :
    {A : Type 0} (p q : A → Bool) (xs : List A) → any (λ x. p x || q x) xs ≡ (any p xs || any q xs)
any_or p q [] = refl
any_or p q (x ∷ xs) = ground (arith, any_or p q xs)

any_none :
    {A B : Type 0} (r : A → B → Bool) (ys : List B) → any (λ y. any (λ x. r x y) []) ys ≡ false
any_none r [] = refl
any_none r (y ∷ ys) = any_none r ys

any_swap :
    {A B : Type 0} (r : A → B → Bool) (xs : List A) (ys : List B)
    → any (λ x. any (r x) ys) xs ≡ any (λ y. any (λ x. r x y) xs) ys
any_swap r [] ys = sym (any_none r ys)
any_swap r (x ∷ xs) ys =
    ap (λ b. any (r x) ys || b) (any_swap r xs ys)
    ∙ sym (any_or (r x) (λ y. any (λ z. r z y) xs) ys)

any_same :
    {A : Type 0} (p q : A → Bool) → ((x : A) → p x ≡ q x) → (xs : List A) → any p xs ≡ any q xs
any_same p q h [] = refl
any_same p q h (x ∷ xs) = ground (arith, h x, any_same p q h xs)

str_eq_sym : (a b : String) → str_eq a b ≡ str_eq b a
str_eq_sym a b = ground arith

same_resource_sym : (a b : Resource) → same_resource a b ≡ same_resource b a
same_resource_sym (stock_of a b) (stock_of c d) = ground (arith, str_eq_sym a c, str_eq_sym b d)
same_resource_sym (stock_of a b) (donor_of c d) = refl
same_resource_sym (stock_of a b) (freight_of c d) = refl
same_resource_sym (stock_of a b) (partial_of c d) = refl
same_resource_sym (donor_of a b) (stock_of c d) = refl
same_resource_sym (donor_of a b) (donor_of c d) = ground (arith, str_eq_sym a c, str_eq_sym b d)
same_resource_sym (donor_of a b) (freight_of c d) = refl
same_resource_sym (donor_of a b) (partial_of c d) = refl
same_resource_sym (freight_of a b) (stock_of c d) = refl
same_resource_sym (freight_of a b) (donor_of c d) = refl
same_resource_sym (freight_of a b) (freight_of c d) = ground (arith, str_eq_sym a c, str_eq_sym b d)
same_resource_sym (freight_of a b) (partial_of c d) = refl
same_resource_sym (partial_of a b) (stock_of c d) = refl
same_resource_sym (partial_of a b) (donor_of c d) = refl
same_resource_sym (partial_of a b) (freight_of c d) = refl
same_resource_sym (partial_of a b) (partial_of c d) = ground (arith, str_eq_sym a c, str_eq_sym b d)

overlap-any :
    (xs ys : List Resource) → any_left (overlap xs ys) ≡ any (λ x. any (same_resource x) ys) xs
unfolding overlap
overlap-any [] ys = refl
overlap-any (x ∷ xs) ys = elim (Bool-cases (holds x ys)) [
  | inl y ↦ rw (y, overlap) refl
  | inr n ↦ rw (n, overlap) (overlap-any xs ys)
]

overlap_sym : (xs ys : List Resource) → any_left (overlap xs ys) ≡ any_left (overlap ys xs)
overlap_sym xs ys =
    overlap-any xs ys
    ∙ any_swap same_resource xs ys
    ∙ any_same (λ y. any (λ x. same_resource x y) xs) (λ y. any (same_resource y) xs)
        (λ y. any_same (λ x. same_resource x y) (same_resource y) (λ x. same_resource_sym x y) xs)
        ys
    ∙ sym (overlap-any ys xs)

competes_sym : (now : ℤ) (a b : PortfolioCase) → competes now a b ≡ competes now b a
unfolding competes
competes_sym now a b =
    ground (arith, str_eq_sym a.case_id b.case_id, overlap_sym (resources a now) (resources b now))

-- Two active cases that compete for a resource are in one component.
pub components-one :
    (fuel : ℕ) (entries : List PortfolioCase) (now : ℤ) {cs : List (List PortfolioCase)}
    (a b : PortfolioCase)
    → components (competes now) fuel (active_of entries) ≡ some cs
    → Listed a (active_of entries)
    → Listed b (active_of entries)
    → competes now a b ≡ true
    → (c : List PortfolioCase) × Listed c cs × Listed a c × Listed b c
components-one fuel entries now {cs} a b e m k h =
    let (c, in_cs, in_c) = components-Listed (competes now) fuel (active_of entries) a e m in
    let (d, in_cs', in_d) = components-Listed (competes now) fuel (active_of entries) b e k in
    let same : c ≡ d =
      one_component (competes now) cs c d a b
        (components-Separate (competes now) fuel (active_of entries) e) in_cs in_cs' in_c in_d h
        (sym (competes_sym now a b) ∙ h) in
    (c, in_cs, in_c, subst (Listed b) (sym same) in_d)
