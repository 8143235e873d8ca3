-- ===== src/Execution/Fault.antt =====
-- The exceptions of services/execution, as values.

pub data Fault : Type 0 where
  -- `ValueError`, `KeyError`, `PermissionError`
  value_error key_error permission_error : Fault
  -- a `ClientError` of a conditional write that is let through
  condition_failed : Fault
  uncertain_write reservation_conflict : Fault
  stale_plan kill_switch verification_failed compensation_failed rejected_write : Fault
  -- any other exception that a boundary call raises
  boundary_error : Fault

pub data Result {ℓ} (A : Type ℓ) : Type ℓ where
  ok : A → Result A
  err : Fault → Result A

-- A call that may raise, over a state that keeps what was written before the exception.
abbrev pub Exec {ℓ} : Type ℓ → Type ℓ → Type ℓ
Exec S A = S → Result A × S

module _ {ℓ} {S A : Type ℓ} where
  abbrev pub pure : A → Exec S A
  pure a s = (ok a, s)

  abbrev pub raise : Fault → Exec S A
  raise e s = (err e, s)

module _ {ℓ} {S A B : Type ℓ} where
  abbrev pub continue : Result A → (A → Exec S B) → Exec S B
  continue (ok a) f s = f a s
  continue (err e) f s = (err e, s)

  infixl 5 ◌>>=◌ ◌>>◌
  abbrev pub ◌>>=◌ : Exec S A → (A → Exec S B) → Exec S B
  ◌>>=◌ m f s = let (r, s') = m s in continue r f s'

  abbrev pub ◌>>◌ : Exec S A → Exec S B → Exec S B
  m >> k = m >>= λ _. k
