-- ===== src/Optimizer/Projection/Windows.antt =====
-- services/optimizer/projection.py: the stock-outs and the line stops of a projection.
use native.Mathlib.Nat.{mul-le-mul_left}
use mathlib.Core.Path.{subst}
use mathlib.Core.List.{append-nil}
use aera_be.Prelude.{
  ℕ, suc, ◌+◌, ◌-◌, ◌*◌, ◌/◌, ◌%◌, ◌<◌, ◌≤◌, ◌≡◌, refl, sym, ◌∙◌, ap, inl, inr, ◌⊎◌, Bool, true,
  false, Option, none, some, List, [], ◌∷◌, ◌++◌, map, ltb, arith, Bool-cases, ◌==◌, ◌&&◌,
  if◌then◌else◌,
}
use aera_be.Prelude.Int.{ℤ, pos, negsuc, +ℤ_parts, -ℤ_parts, ◌+ℤ◌, ◌-ℤ◌, leb_ℤ}
use aera_be.Optimizer.Projection.{
  Movement, Requirement, PlantInputs, day, Course, fall, receive, follow, begun, rounded, lasts,
  seconds, second, stop_at, resume_at, with_break, open_window, course_of, project, window_of,
  events_of, at_least_zero,
}

abbrev as_list : Option ℤ → List ℤ
as_list none = []
as_list (some at) = at ∷ []

few_seconds : (n d : ℕ) → d < n * second → d / second < n
few_seconds n d h = omega arith

whole : (stock rate : ℕ) → 0 < rate → rate * (stock / rate) + stock % rate ≡ stock
whole stock rate r = omega arith

below_quotient : (stock rate f : ℕ) → 0 < rate → f < stock / rate → rate * f < stock
below_quotient stock rate f r h =
    let w : rate * (stock / rate) + stock % rate ≡ stock = whole stock rate r in
    let m : rate * suc f ≤ rate * (stock / rate) = mul-le-mul_left rate h in omega arith

at_quotient : (stock rate f : ℕ) → 0 < rate → f ≤ stock / rate → 0 < stock % rate → rate * f < stock
at_quotient stock rate f r h p =
    let w : rate * (stock / rate) + stock % rate ≡ stock = whole stock rate r in
    let m : rate * f ≤ rate * (stock / rate) = mul-le-mul_left rate h in omega arith

rounded-cases :
    (stock rate : ℕ)
    → 0 < rate
    → (rounded stock rate ≤ stock / rate)
      ⊎ ((rounded stock rate ≤ stock / rate + 1) × (0 < stock % rate))
rounded-cases stock rate r = elim (Bool-cases (ltb (stock % rate + stock % rate) rate)) [
  | inl low ↦ rw low (inl (omega arith))
  | inr half ↦
      let left : 0 < stock % rate = ground arith in
      rw half (inr (up (stock / rate) (ltb rate (stock % rate + stock % rate)), left))
]
  where
    up : (q : ℕ) (b : Bool) → (if b then q + 1 else q + q % 2) ≤ q + 1
    up q true = omega arith
    up q false = omega arith

-- A stock that outlasts a length of time is not used up in its whole seconds.
outlasts :
    (stock rate d : ℕ) → 0 < rate → d < rounded stock rate * second → rate * (d / second) < stock
outlasts stock rate d r h =
    let f : d / second < rounded stock rate = few_seconds (rounded stock rate) d h in
    elim (rounded-cases stock rate r) [
      | inl low ↦ below_quotient stock rate (d / second) r (omega arith)
      | inr (high, left) ↦ at_quotient stock rate (d / second) r (omega arith) left
    ]

module _ (rate : ℕ) where
  abbrev starts : List (ℤ × Option ℤ) → List ℤ
  starts ws = map (λ w. w.0) ws

  -- The line is stopped exactly while there is demand and no stock, and every stop so far began with
  -- a stock-out, in order.
  abbrev Flowing : Option ℤ → ℕ → Type 0
  Flowing none stock = (rate ≡ 0) ⊎ (0 < stock)
  Flowing (some since) stock = (stock ≡ 0) × (0 < rate)

  record IsConsistent (c : Course) : Type 0 where
    pub flowing : Flowing c.stopped_since c.stock
    pub paired : starts c.windows ++ as_list c.stopped_since ≡ c.stockouts

  begun-IsConsistent : (now : ℤ) (stock : ℕ) → IsConsistent (begun rate now stock)
  begun-IsConsistent now stock = elim (Bool-cases (stock == 0 && ltb 0 rate)) [
    | inl y ↦ rw y (record { flowing = (ground arith, ground arith); paired = refl })
    | inr n ↦ rw n (record { flowing = ground arith; paired = refl })
  ]

  not_stopped : (o : Option ℤ) (stock : ℕ) → Flowing o stock → 0 < stock → o ≡ none
  not_stopped none stock f p = refl
  not_stopped (some since) stock f p = absurd (omega arith)

  one_more :
      (ws : List ℤ) (o : Option ℤ) (outs : List ℤ) (at : ℤ)
      → o ≡ none
      → ws ++ as_list o ≡ outs
      → ws ++ at ∷ [] ≡ outs ++ at ∷ []
  one_more ws o outs at e h = ap (λ xs. xs ++ at ∷ []) (sym (append-nil ws) ∙ (rw e at h))

  not_reached :
      (t until : ℤ) (x n : ℕ) → leb_ℤ (t +ℤ pos x) until ≡ false → until -ℤ t ≡ pos n → n < x
  not_reached t until x n h e = ground (arith, +ℤ_parts t (pos x), rw e at (-ℤ_parts until t))

  -- What is left when the stock outlasts the time until the next event.
  left_over :
      (stock : ℕ) (t until : ℤ)
      → 0 < stock
      → 0 < rate
      → leb_ℤ (t +ℤ lasts stock rate) until ≡ false
      → 0 < stock - rate * seconds (until -ℤ t)
  left_over stock t until s r h = go (until -ℤ t) refl
    where
      go : (d : ℤ) → until -ℤ t ≡ d → 0 < stock - rate * seconds d
      go (negsuc n) e = omega arith
      go (pos n) e =
          let short : n < rounded stock rate * second =
            not_reached t until (rounded stock rate * second) n h e in
          let used : rate * (n / second) < stock = outlasts stock rate n r short in omega arith

  fall-IsConsistent : (until : ℤ) (c : Course) → IsConsistent c → IsConsistent (fall rate until c)
  unfolding fall
  fall-IsConsistent until c h = elim (Bool-cases (ltb 0 c.stock && ltb 0 rate)) [
    | inr still ↦ rw (still, fall) h
    | inl falls ↦ elim (Bool-cases (leb_ℤ (c.t +ℤ lasts c.stock rate) until)) [
      | inl dry ↦
          rw (falls, dry, fall)
            (record {
              flowing = (refl, ground arith);
              paired =
                  one_more (starts c.windows) c.stopped_since c.stockouts
                    (c.t +ℤ lasts c.stock rate)
                    (not_stopped c.stopped_since c.stock h.flowing (ground arith)) h.paired;
            })
      | inr lasting ↦
          rw (falls, lasting, fall)
            (record {
              flowing =
                  subst (λ o. Flowing o (c.stock - rate * seconds (until -ℤ c.t)))
                    (sym (not_stopped c.stopped_since c.stock h.flowing (ground arith)))
                    (inr (left_over c.stock c.t until (ground arith) (ground arith) lasting));
              paired = h.paired;
            })
    ]
  ]

  starts-snoc :
      (ws : List (ℤ × Option ℤ)) (w : ℤ × Option ℤ) → starts (ws ++ w ∷ []) ≡ starts ws ++ w.0 ∷ []
  starts-snoc [] w = refl
  starts-snoc (x ∷ xs) w = ap (λ r. x.0 ∷ r) (starts-snoc xs w)

  -- The flow with the stock replaced, as the pairing goes on.
  stop-IsConsistent :
      (at moment : ℤ) (c : Course)
      → IsConsistent c
      → IsConsistent (with_break moment (stop_at rate at (record c { t = moment; stock = 0 })))
  stop-IsConsistent at moment c h = go c.stopped_since refl
    where
      go :
          (o : Option ℤ)
          → c.stopped_since ≡ o
          → IsConsistent (with_break moment (stop_at rate at (record c { t = moment; stock = 0 })))
      go (some since) e =
          rw e (record { flowing = (refl, (rw e at h.flowing).1); paired = rw e at h.paired })
      go none e = elim (Bool-cases (ltb 0 rate)) [
        | inl y ↦
            rw (e, y)
              (record {
                flowing = (refl, ground arith);
                paired = one_more (starts c.windows) c.stopped_since c.stockouts at e h.paired;
              })
        | inr n ↦ rw (e, n) (record { flowing = inl (ground arith); paired = rw e at h.paired })
      ]

  resume-IsConsistent :
      (at moment : ℤ) (stock : ℕ) (c : Course)
      → IsConsistent c
      → 0 < stock
      → IsConsistent (with_break moment (resume_at at (record c { t = moment; stock = stock })))
  resume-IsConsistent at moment stock c h s = go c.stopped_since refl
    where
      go :
          (o : Option ℤ)
          → c.stopped_since ≡ o
          → IsConsistent (with_break moment (resume_at at (record c { t = moment; stock = stock })))
      go none e = rw e (record { flowing = inr s; paired = rw e at h.paired })
      go (some since) e = rw e (record {
        flowing = inr s;
        paired =
            append-nil (starts (c.windows ++ (since, some at) ∷ []))
            ∙ starts-snoc c.windows (since, some at)
            ∙ (rw e at h.paired);
      })

  receive-IsConsistent :
      (m : Movement) (c : Course) → IsConsistent c → IsConsistent (receive rate m c)
  unfolding receive
  receive-IsConsistent m c h = elim (Bool-cases (leb_ℤ (pos c.stock +ℤ m.qty) (pos 0))) [
    | inl gone ↦ rw (gone, receive) (stop-IsConsistent m.at m.at c h)
    | inr left ↦
        rw (left, receive)
          (resume-IsConsistent m.at m.at (at_least_zero (pos c.stock +ℤ m.qty)) c h (ground arith))
  ]

  follow-IsConsistent :
      (end_ : ℤ) (ms : List Movement) (c : Course)
      → IsConsistent c
      → IsConsistent (follow rate end_ ms c)
  unfolding follow
  follow-IsConsistent end_ [] c h = fall-IsConsistent end_ c h
  follow-IsConsistent end_ (m ∷ ms) c h =
      follow-IsConsistent end_ ms (receive rate m (fall rate m.at c))
        (receive-IsConsistent m (fall rate m.at c) (fall-IsConsistent m.at c h))

  closed :
      (c : Course)
      → IsConsistent c
      → starts (c.windows ++ open_window c.stopped_since) ≡ c.stockouts
  closed c h = go c.stopped_since refl
    where
      go :
          (o : Option ℤ)
          → c.stopped_since ≡ o
          → starts (c.windows ++ open_window c.stopped_since) ≡ c.stockouts
      go none e = rw e (
          ap starts (append-nil c.windows)
          ∙ sym (append-nil (starts c.windows))
          ∙ (rw e at h.paired))
      go (some since) e = rw e (starts-snoc c.windows (since, none) ∙ (rw e at h.paired))

starts-windows :
    (rate : ℕ) (end_ : ℤ) (requirements : List Requirement) (ws : List (ℤ × Option ℤ))
    → map (λ w. w.start) (map (window_of rate end_ requirements) ws) ≡ map (λ w. w.0) ws
unfolding window_of
starts-windows rate end_ requirements [] = refl
starts-windows rate end_ requirements (w ∷ ws) =
    ap (λ r. w.0 ∷ r) (starts-windows rate end_ requirements ws)

-- The line-stop windows of a projection begin at its stock-outs: one for each, in their order.
pub project-windows :
    (inputs : PlantInputs) (now : ℤ) (days : ℕ)
    → map (λ w. w.start) (project inputs now days).windows ≡ (project inputs now days).stockouts
unfolding project course_of
project-windows inputs now days =
    let rate : ℕ = at_least_zero inputs.rate in
    let end_ : ℤ = now +ℤ pos (days * day) in
    let c : Course =
      follow rate end_ (events_of now end_ inputs.movements)
        (begun rate now (at_least_zero inputs.on_hand)) in
    starts-windows rate end_ inputs.requirements (c.windows ++ open_window c.stopped_since)
    ∙ closed rate c (
        follow-IsConsistent rate end_ (events_of now end_ inputs.movements)
          (begun rate now (at_least_zero inputs.on_hand))
          (begun-IsConsistent rate now (at_least_zero inputs.on_hand)))
