-- ===== src/Routing/Logic/Approvers.antt =====
-- services/routing/logic.py: the approvers that may decide a part, and the first of them.
use aera_be.Prelude.{
  String, ◌≡◌, refl, ◌⊎◌, inl, inr, true, false, List, [], ◌∷◌, arith, Listed, Bool-cases,
}
use aera_be.Prelude.Int.{ℤ, ◌≤ℤ◌}
use aera_be.Routing.Logic.{ApproverLimit, limit_le, qualifies, insert_limit, eligible}

-- The sort keeps what it is given, and puts a lowest limit first.
insert_limit-Listed :
    (x : ApproverLimit) (ys : List ApproverLimit) (l : ApproverLimit)
    → Listed l (insert_limit x ys)
    → (l ≡ x) ⊎ Listed l ys
unfolding insert_limit
insert_limit-Listed x [] l m = ground arith
insert_limit-Listed x (y ∷ ys) l m = elim (Bool-cases (limit_le x y)) [
  | inl le ↦ rw (le, insert_limit) at m
  | inr gt ↦ elim (rw (gt, insert_limit) at m) [
    | inl e ↦ inr (inl e)
    | inr later ↦ elim (insert_limit-Listed x ys l later) [ inl e ↦ inl e | inr k ↦ inr (inr k) ]
  ]
]

pub eligible-Listed :
    (ls : List ApproverLimit) (plant : String) (cost today : ℤ) (l : ApproverLimit)
    → Listed l (eligible ls plant cost today)
    → Listed l ls × (qualifies plant cost today l ≡ true)
unfolding eligible
eligible-Listed [] plant cost today l m = absurd m
eligible-Listed (x ∷ xs) plant cost today l m = elim (Bool-cases (qualifies plant cost today x)) [
  | inr no_limit ↦
      let (k, q) = eligible-Listed xs plant cost today l (rw (no_limit, eligible) at m) in
      (inr k, q)
  | inl yes_limit ↦
      elim (insert_limit-Listed x (eligible xs plant cost today) l
        (rw (yes_limit, eligible) at m)) [
          | inl e ↦ (inl e, rw e yes_limit)
          | inr later ↦ let (k, q) = eligible-Listed xs plant cost today l later in (inr k, q)
        ]
]

insert_limit-keeps :
    (x : ApproverLimit) (ys : List ApproverLimit) (l : ApproverLimit)
    → (l ≡ x) ⊎ Listed l ys
    → Listed l (insert_limit x ys)
unfolding insert_limit
insert_limit-keeps x [] l m = ground arith
insert_limit-keeps x (y ∷ ys) l m = elim (Bool-cases (limit_le x y)) [
  | inl le ↦ rw (le, insert_limit) m
  | inr gt ↦
      rw (gt, insert_limit)
        (elim m [
          | inl e ↦ inr (insert_limit-keeps x ys l (inl e))
          | inr k ↦ elim k [
            | inl e ↦ inl e
            | inr later ↦ inr (insert_limit-keeps x ys l (inr later))
          ]
        ])
]

eligible-keeps :
    (ls : List ApproverLimit) (plant : String) (cost today : ℤ) (l : ApproverLimit)
    → Listed l ls
    → qualifies plant cost today l ≡ true
    → Listed l (eligible ls plant cost today)
unfolding eligible
eligible-keeps [] plant cost today l m q = absurd m
eligible-keeps (x ∷ xs) plant cost today l (inl e) q =
    rw (rw e at q, eligible) (insert_limit-keeps x (eligible xs plant cost today) l (inl e))
eligible-keeps (x ∷ xs) plant cost today l (inr m) q =
    elim (Bool-cases (qualifies plant cost today x)) [
      | inr no_limit ↦ rw (no_limit, eligible) (eligible-keeps xs plant cost today l m q)
      | inl yes_limit ↦
          rw (yes_limit, eligible)
            (insert_limit-keeps x (eligible xs plant cost today) l
              (inr (eligible-keeps xs plant cost today l m q)))
    ]

-- A lowest limit of a list comes first in it.
abbrev Cheapest : List ApproverLimit → Type 0
Cheapest [] = Unit
Cheapest (l ∷ ls) = (k : ApproverLimit) → Listed k ls → l.limit_usd ≤ℤ k.limit_usd

le-limits : (a b : ApproverLimit) → limit_le a b ≡ true → a.limit_usd ≤ℤ b.limit_usd
unfolding limit_le
le-limits a b h = ground arith

gt-limits : (a b : ApproverLimit) → limit_le a b ≡ false → b.limit_usd ≤ℤ a.limit_usd
unfolding limit_le
gt-limits a b h = ground arith

≤ℤ-trans : (a b c : ℤ) → a ≤ℤ b → b ≤ℤ c → a ≤ℤ c
≤ℤ-trans a b c h k = omega arith

insert_limit-Cheapest :
    (x : ApproverLimit) (ys : List ApproverLimit) → Cheapest ys → Cheapest (insert_limit x ys)
unfolding insert_limit
insert_limit-Cheapest x [] c = λ k m. absurd m
insert_limit-Cheapest x (y ∷ ys) c = elim (Bool-cases (limit_le x y)) [
  | inl le ↦
      rw (le, insert_limit)
        (λ k m. elim m [
          | inl e ↦ rw e (le-limits x y le)
          | inr later ↦ ≤ℤ-trans x.limit_usd y.limit_usd k.limit_usd (le-limits x y le) (c k later)
        ])
  | inr gt ↦
      rw (gt, insert_limit)
        (λ k m. elim (insert_limit-Listed x ys k m) [
          | inl e ↦ rw e (gt-limits x y gt)
          | inr later ↦ c k later
        ])
]

eligible-Cheapest :
    (ls : List ApproverLimit) (plant : String) (cost today : ℤ)
    → Cheapest (eligible ls plant cost today)
unfolding eligible
eligible-Cheapest [] plant cost today = tt
eligible-Cheapest (x ∷ xs) plant cost today = elim (Bool-cases (qualifies plant cost today x)) [
  | inr no_limit ↦ rw (no_limit, eligible) (eligible-Cheapest xs plant cost today)
  | inl yes_limit ↦
      rw (yes_limit, eligible)
        (insert_limit-Cheapest x (eligible xs plant cost today)
          (eligible-Cheapest xs plant cost today))
]

-- The first eligible approver is one of the given limits, for the plant, valid on the day, and
-- sufficient for the cost, and its limit is no more than any other limit that is all this.
pub eligible_first :
    (ls : List ApproverLimit) (plant : String) (cost today : ℤ) (k : ApproverLimit)
    {l : ApproverLimit} {rest : List ApproverLimit}
    → eligible ls plant cost today ≡ l ∷ rest
    → Listed k ls
    → qualifies plant cost today k ≡ true
    → Listed l ls × (qualifies plant cost today l ≡ true) × (l.limit_usd ≤ℤ k.limit_usd)
eligible_first ls plant cost today k {l} {rest} e listed qualified =
    let (m, q) = eligible-Listed ls plant cost today l (rw e (inl refl)) in
    let low : Cheapest (l ∷ rest) = rw e at (eligible-Cheapest ls plant cost today) in
    (m, q, first (rw e at (eligible-keeps ls plant cost today k listed qualified)) low)
  where
    first : Listed k (l ∷ rest) → Cheapest (l ∷ rest) → l.limit_usd ≤ℤ k.limit_usd
    first (inl e) c = rw e (omega arith)
    first (inr m) c = c k m
