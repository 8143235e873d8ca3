-- ===== src/Rules/Impact.antt =====
-- services/rules/impact.py: the revenue of the sales order items that a stock-out threatens. Days
-- are numbered; amounts are millionths.
use aera_be.Prelude.{
  String, ℕ, refl, ap, ◌≡◌, ◌≤◌, ◌<◌, arith, Bool, true, false, ◌&&◌, Option, none, some, List, [],
  ◌∷◌, inl, inr, leb, ltb, Bool-cases, if◌then◌else◌,
}
use aera_be.Prelude.Int.{ℤ, pos, sum_ℤ, ◌+ℤ◌, int_laws, eq_of_parts, pos_part, neg_part}

pub record SalesExposure : Type 0 where
  pub sales_order : String
  pub item : String
  pub net_usd : ℤ
  pub confirmed : ℕ
  pub source_ref : String

abbrev before_recovery : Option ℕ → ℕ → Bool
before_recovery none d = true
before_recovery (some r) d = ltb d r

abbrev is_threatened : ℕ → Option ℕ → SalesExposure → Bool
is_threatened first recovered e = leb first e.confirmed && before_recovery recovered e.confirmed

unfoldable pub threatened : ℕ → Option ℕ → List SalesExposure → List SalesExposure
threatened first recovered [] = []
threatened first recovered (e ∷ es) =
    let rest = threatened first recovered es in
    if is_threatened first recovered e then e ∷ rest else rest

-- `first` is the day of the stock-out.
unfoldable pub revenue_at_risk :
    List SalesExposure → (first : Option ℕ) → (recovered_on : Option ℕ) → ℤ × List SalesExposure
unfolding threatened
revenue_at_risk items none recovered = (pos 0, [])
revenue_at_risk items (some first) recovered =
    let es = threatened first recovered items in (sum_ℤ (λ e. e.net_usd) es, es)

-- Confirmed on the day of the stock-out or later, and before the recovery if there is one.
abbrev pub AtRisk : ℕ → Option ℕ → SalesExposure → Type 0
AtRisk first none e = first ≤ e.confirmed
AtRisk first (some r) e = (first ≤ e.confirmed) × (e.confirmed < r)

-- A list is dealt, in order, into the items at risk and the others.
pub data Dealt (first : ℕ) (recovered : Option ℕ)
    : List SalesExposure → List SalesExposure → List SalesExposure → Type 0 where
  none_left : Dealt first recovered [] [] []
  at_risk :
      (e : SalesExposure) {es xs ys : List SalesExposure}
      → AtRisk first recovered e
      → Dealt first recovered es xs ys
      → Dealt first recovered (e ∷ es) (e ∷ xs) ys
  safe :
      (e : SalesExposure) {es xs ys : List SalesExposure}
      → ¬ AtRisk first recovered e
      → Dealt first recovered es xs ys
      → Dealt first recovered (e ∷ es) xs (e ∷ ys)

is_threatened-AtRisk :
    (first : ℕ) (recovered : Option ℕ) (e : SalesExposure)
    → is_threatened first recovered e ≡ true
    → AtRisk first recovered e
is_threatened-AtRisk first none e h = ground arith
is_threatened-AtRisk first (some r) e h = (ground arith, ground arith)

not_threatened :
    (first : ℕ) (recovered : Option ℕ) (e : SalesExposure)
    → is_threatened first recovered e ≡ false
    → ¬ AtRisk first recovered e
not_threatened first none e h a = ground arith
not_threatened first (some r) e h a = ground arith

threatened-Dealt :
    (first : ℕ) (recovered : Option ℕ) (items : List SalesExposure)
    → (others : List SalesExposure) × Dealt first recovered items
        (threatened first recovered items)
        others
unfolding threatened
threatened-Dealt first recovered [] = ([], none_left)
threatened-Dealt first recovered (e ∷ es) =
    let (others, d) = threatened-Dealt first recovered es in
    elim (Bool-cases (is_threatened first recovered e)) [
      | inl y ↦ rw (y, threatened) (others, at_risk e (is_threatened-AtRisk first recovered e y) d)
      | inr n ↦ rw (n, threatened) (e ∷ others, safe e (not_threatened first recovered e n) d)
    ]

one_more : (n a b c : ℤ) → a +ℤ b ≡ c → (n +ℤ a +ℤ b ≡ n +ℤ c) × (a +ℤ (n +ℤ b) ≡ n +ℤ c)
one_more n a b c h =
    let p : pos_part (a +ℤ b) ≡ pos_part c = ap pos_part h in
    let m : neg_part (a +ℤ b) ≡ neg_part c = ap neg_part h in
    (
      eq_of_parts (n +ℤ a +ℤ b) (n +ℤ c) (omega int_laws),
      eq_of_parts (a +ℤ (n +ℤ b)) (n +ℤ c) (omega int_laws),
    )

abbrev revenue : List SalesExposure → ℤ
revenue es = sum_ℤ (λ e. e.net_usd) es

Dealt-sum :
    {first : ℕ} {recovered : Option ℕ} {items xs ys : List SalesExposure}
    → Dealt first recovered items xs ys
    → revenue xs +ℤ revenue ys ≡ revenue items
unfolding sum_ℤ ◌+ℤ◌
Dealt-sum none_left = refl
Dealt-sum (at_risk e {es} {xs} {ys} a d) =
    (one_more e.net_usd (revenue xs) (revenue ys) (revenue es) (Dealt-sum d)).0
Dealt-sum (safe e {es} {xs} {ys} a d) =
    (one_more e.net_usd (revenue xs) (revenue ys) (revenue es) (Dealt-sum d)).1

-- The items given are dealt, in order and each once, into those listed as at risk, which are
-- confirmed on or after the day of the stock-out and, if a day of recovery is given, before it, and
-- the others, which are not; and the revenue at risk is what the revenue of the others leaves of
-- the revenue of them all.
pub revenue_at_risk-Dealt :
    (first : ℕ) (recovered : Option ℕ) (items : List SalesExposure)
    → (others : List SalesExposure) × Dealt first recovered items
        (revenue_at_risk items (some first) recovered).1
        others
      × ((revenue_at_risk items (some first) recovered).0 +ℤ sum_ℤ (λ e. e.net_usd) others
          ≡ sum_ℤ (λ e. e.net_usd) items)
unfolding revenue_at_risk
revenue_at_risk-Dealt first recovered items =
    let (others, d) = threatened-Dealt first recovered items in (others, d, Dealt-sum d)
