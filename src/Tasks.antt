-- ===== src/Tasks.antt =====
-- The tasks of the file bricoler: the parameters of a task, the schedule of the tasks that a target
-- needs, and the settings of the command line.
pub mod Parameter
pub mod Typing
pub mod Schedule
pub mod Needs
pub mod Outcome
pub mod Plans
pub mod Settings
pub mod CommandLine
pub mod Precedence
use bricoler.Base.{String, ◌≡◌, refl, ◌⊎◌, inl, inr}

-- What error() carries out of the functions of these classes.
pub data Error : Type 0 where
  invalid_value invalid_boolean invalid_number assertion : Error
  unknown_target : Error
  unknown_input unknown_task unknown_parameter invalid_setting : Error
  not_in_path : String → Error
  stack_overflow : Error

pub data Result {ℓ} (A : Type ℓ) : Type ℓ where
  ok : A → Result A
  err : Error → Result A

infixl 5 ◌>>=◌
abbrev pub ◌>>=◌ {ℓ κ} : {A : Type ℓ} {B : Type κ} → Result A → (A → Result B) → Result B
ok a >>= f = f a
err e >>= f = err e

-- To split on a computed result and keep the equation.
pub Result-cases {ℓ} :
    {A : Type ℓ} (r : Result A) → ((x : Error) × (r ≡ err x)) ⊎ ((a : A) × (r ≡ ok a))
Result-cases (ok a) = inr (a, refl)
Result-cases (err x) = inl (x, refl)
