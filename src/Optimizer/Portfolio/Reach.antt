-- ===== src/Optimizer/Portfolio/Reach.antt =====
-- services/optimizer/portfolio.py: what the inner loop of `detect` has reached, and what it has not.
use mathlib.Core.Path.{subst}
use aera_be.Prelude.{
  ℕ, zero, suc, ◌≡◌, refl, sym, ◌⊎◌, inl, inr, Bool, false, some, List, [], ◌∷◌, ◌++◌, All, Listed,
  Bool-cases,
}
use aera_be.Optimizer.Portfolio.{next_to, apart_from, onto, walk}

pub All-Listed : {A : Type 0} (P : A → Type 0) (xs : List A) (x : A) → All P xs → Listed x xs → P x
All-Listed P [] x h m = absurd m
All-Listed P (y ∷ ys) x h (inl e) = subst P (sym e) h.0
All-Listed P (y ∷ ys) x h (inr m) = All-Listed P ys x h.1 m

module _ {A : Type 0} (adjacent : A → A → Bool) where
  abbrev pub Apart : List A → A → Type 0
  Apart us x = All (λ u. adjacent x u ≡ false) us

  next-All : (P : A → Type 0) (node : A) (us : List A) → All P us → All P (next_to adjacent node us)
  next-All P node [] h = tt
  next-All P node (u ∷ us) h = elim (Bool-cases (adjacent node u)) [
    | inl y ↦ rw y (h.0, next-All P node us h.1)
    | inr n ↦ rw n (next-All P node us h.1)
  ]

  rest-All :
      (P : A → Type 0) (node : A) (us : List A) → All P us → All P (apart_from adjacent node us)
  rest-All P node [] h = tt
  rest-All P node (u ∷ us) h = elim (Bool-cases (adjacent node u)) [
    | inl y ↦ rw y (rest-All P node us h.1)
    | inr n ↦ rw n (h.0, rest-All P node us h.1)
  ]

  rest-Apart : (node : A) (us : List A) → Apart (apart_from adjacent node us) node
  rest-Apart node [] = tt
  rest-Apart node (u ∷ us) = elim (Bool-cases (adjacent node u)) [
    | inl y ↦ rw y (rest-Apart node us)
    | inr n ↦ rw n (n, rest-Apart node us)
  ]

  split-Listed :
      (node : A) (us : List A) (u : A)
      → Listed u us
      → Listed u (next_to adjacent node us) ⊎ Listed u (apart_from adjacent node us)
  split-Listed node [] u m = absurd m
  split-Listed node (x ∷ xs) u (inl e) = elim (Bool-cases (adjacent node x)) [
    | inl y ↦ rw y (inl (inl e))
    | inr n ↦ rw n (inr (inl e))
  ]
  split-Listed node (x ∷ xs) u (inr m) = elim (Bool-cases (adjacent node x)) [
    | inl y ↦ rw y (elim (split-Listed node xs u m) [ inl a ↦ inl (inr a) | inr b ↦ inr b ])
    | inr n ↦ rw n (elim (split-Listed node xs u m) [ inl a ↦ inl a | inr b ↦ inr (inr b) ])
  ]

  Listed-append : (xs ys : List A) (x : A) → Listed x xs ⊎ Listed x ys → Listed x (xs ++ ys)
  Listed-append [] ys x (inl m) = absurd m
  Listed-append [] ys x (inr m) = m
  Listed-append (z ∷ zs) ys x (inl (inl e)) = inl e
  Listed-append (z ∷ zs) ys x (inl (inr m)) = inr (Listed-append zs ys x (inl m))
  Listed-append (z ∷ zs) ys x (inr m) = inr (Listed-append zs ys x (inr m))

  append-All : (P : A → Type 0) (xs ys : List A) → All P xs → All P ys → All P (xs ++ ys)
  append-All P [] ys h k = k
  append-All P (x ∷ xs) ys h k = (h.0, append-All P xs ys h.1 k)

  onto-Listed :
      (xs ys : List A) (x : A) → Listed x xs ⊎ Listed x ys → Listed x (onto adjacent xs ys)
  onto-Listed [] ys x (inl m) = absurd m
  onto-Listed [] ys x (inr m) = m
  onto-Listed (z ∷ zs) ys x (inl (inl e)) = onto-Listed zs (z ∷ ys) x (inr (inl e))
  onto-Listed (z ∷ zs) ys x (inl (inr m)) = onto-Listed zs (z ∷ ys) x (inl m)
  onto-Listed (z ∷ zs) ys x (inr m) = onto-Listed zs (z ∷ ys) x (inr (inr m))

  pub All-map : (P Q : A → Type 0) (xs : List A) → ((x : A) → P x → Q x) → All P xs → All Q xs
  All-map P Q [] f h = tt
  All-map P Q (x ∷ xs) f h = (f x h.0, All-map P Q xs f h.1)

  all-Listed : (P : A → Type 0) (xs : List A) → ((x : A) → Listed x xs → P x) → All P xs
  all-Listed P [] f = tt
  all-Listed P (x ∷ xs) f = (f x (inl refl), all-Listed P xs (λ y m. f y (inr m)))

  -- A node of the component is still to be looked at, or none of the unseen is next to it.
  abbrev Waiting : List A → List A → A → Type 0
  Waiting pending unseen x = Listed x pending ⊎ Apart unseen x

  step-Waiting :
      (node : A) (pending unseen : List A) (x : A)
      → Waiting (node ∷ pending) unseen x
      → Waiting
          (onto adjacent (next_to adjacent node unseen) pending)
          (apart_from adjacent node unseen)
          x
  step-Waiting node pending unseen x (inl (inl e)) =
      inr (subst (Apart (apart_from adjacent node unseen)) (sym e) (rest-Apart node unseen))
  step-Waiting node pending unseen x (inl (inr m)) =
      inl (onto-Listed (next_to adjacent node unseen) pending x (inr m))
  step-Waiting node pending unseen x (inr a) =
      inr (rest-All (λ u. adjacent x u ≡ false) node unseen a)

  pub walk-Apart :
      (n : ℕ) (pending component unseen : List A) {c left : List A}
      → walk adjacent n pending component unseen ≡ some (c, left)
      → All (Waiting pending unseen) component
      → All (Apart left) c
  unfolding walk
  walk-Apart zero pending component unseen e h = cc e
  walk-Apart (suc n) [] component unseen {c} {left} e h =
      let i : component ≡ c = cc e in
      let j : unseen ≡ left = cc e in
      rw (sym i, sym j)
        (All-map (Waiting [] unseen) (Apart unseen) component
          (λ x w. elim w [ inl m ↦ absurd m | inr a ↦ a ]) h)
  walk-Apart (suc n) (node ∷ pending) component unseen e h =
      walk-Apart n (onto adjacent (next_to adjacent node unseen) pending)
        (component ++ next_to adjacent node unseen) (apart_from adjacent node unseen) e
        (append-All _ component (next_to adjacent node unseen)
          (All-map _ _ component (λ x w. step-Waiting node pending unseen x w) h)
          (all-Listed _ (next_to adjacent node unseen)
            (λ x m. inl (onto-Listed (next_to adjacent node unseen) pending x (inl m)))))

  -- Every case that was unseen is in the component or still unseen, and nothing else is.
  pub walk-All :
      (P : A → Type 0) (n : ℕ) (pending component unseen : List A) {c left : List A}
      → walk adjacent n pending component unseen ≡ some (c, left)
      → All P component
      → All P unseen
      → All P c × All P left
  unfolding walk
  walk-All P zero pending component unseen e h k = cc e
  walk-All P (suc n) [] component unseen {c} {left} e h k =
      let i : component ≡ c = cc e in
      let j : unseen ≡ left = cc e in (subst (All P) i h, subst (All P) j k)
  walk-All P (suc n) (node ∷ pending) component unseen e h k =
      walk-All P n _ _ _ e
        (append-All P component (next_to adjacent node unseen) h (next-All P node unseen k))
        (rest-All P node unseen k)

  pub walk-Listed :
      (n : ℕ) (pending component unseen : List A) {c left : List A} (x : A)
      → walk adjacent n pending component unseen ≡ some (c, left)
      → Listed x component ⊎ Listed x unseen
      → Listed x c ⊎ Listed x left
  unfolding walk
  walk-Listed zero pending component unseen x e m = cc e
  walk-Listed (suc n) [] component unseen {c} {left} x e m =
      let i : component ≡ c = cc e in let j : unseen ≡ left = cc e in rw (sym i, sym j) m
  walk-Listed (suc n) (node ∷ pending) component unseen x e (inl m) =
      walk-Listed n _ _ _ x e
        (inl (Listed-append component (next_to adjacent node unseen) x (inl m)))
  walk-Listed (suc n) (node ∷ pending) component unseen x e (inr m) =
      elim (split-Listed node unseen x m) [
        | inl next ↦
            walk-Listed n _ _ _ x e
              (inl (Listed-append component (next_to adjacent node unseen) x (inr next)))
        | inr rest ↦ walk-Listed n _ _ _ x e (inr rest)
      ]
