-- ===== src/Prelude/Text.antt =====
-- Texts: equality of native strings as a decision, and the list of a text's characters.
use Prim.Native.Nat.{ℕ}
use Prim.Native.Char.{code}
use Prim.Native.String.{String}
use mathlib.Core.Path.{◌≡◌, refl}
use mathlib.Core.List.{List, [], ◌∷◌}
use native.Mathlib.Omega.{arith}
use mathlib.Core.Logic.{◌↔◌, ite}
use mathlib.Core.Bool.{Bool, true, false, ◌||◌}
use text.Mathlib.Text.{◌==◌ as text_eq}
use text.Mathlib.TextEquality.{eq_iff, Char-path}

decide_by : {s t : String} (b : Bool) → (b ≡ true) ↔ (s ≡ t) → Dec (s ≡ t)
decide_by true h = yes (h.0 refl)
decide_by false h = no (λ e. false_ne_true (h.1 e))
  where
    false_ne_true : ◌≡◌ {A = Bool} false true → ⊥
    false_ne_true e = cc

unfoldable pub String_discrete : Discrete String
unfolding decide_by
String_discrete s t = decide_by (text_eq s t) (eq_iff s t)

abbrev pub codes : String → List ℕ
codes String.[] = []
codes (String.◌∷◌ c s) = code c ∷ codes s

-- A text is told from any other by its characters.
pub codes_injective : (s t : String) → codes s ≡ codes t → s ≡ t
codes_injective String.[] String.[] h = refl
codes_injective String.[] (String.◌∷◌ d t) h = cc
codes_injective (String.◌∷◌ c s) String.[] h = cc
codes_injective (String.◌∷◌ c s) (String.◌∷◌ d t) h =
    cc (Char-path c d (ground arith), codes_injective s t (ground arith))

abbrev pub str_eq : String → String → Bool
str_eq s t = ite (String_discrete s t) true false

-- `x in xs`
abbrev pub contains : String → List String → Bool
contains x [] = false
contains x (y ∷ ys) = str_eq y x || contains x ys
