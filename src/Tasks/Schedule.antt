-- ===== src/Tasks/Schedule.antt =====
-- The first part of TaskSchedule:_ctor of bricoler: the tasks that a target needs. A table is walked
-- in the order of a list, and a call deeper than Lua's stack is an error.
use bricoler.Base.{
  ℕ, zero, suc, String, List, [], ◌∷◌, Bool, true, false, Option, none, some, if◌then◌else◌, str_eq,
}
use bricoler.Tasks.{
  unknown_target, unknown_input, not_in_path, stack_overflow, Result, ok, err, ◌>>=◌,
}
use bricoler.Tasks.Parameter.{Numbers, Parameter, Args, construct}

module _ (numbers : Numbers) where
  -- A task as _ctor leaves it, with the names of its inputs.
  pub record Task : Type 0 where
    pub name : String
    pub inputs : List String
    pub dependencies : List String
    pub parameters : List (String × Args numbers)

  -- The field `tasks`: the scheduled tasks by name, with the parameters made for them.
  pub record Entry : Type 0 where
    pub name : String
    pub parameters : List (String × Parameter numbers)

  abbrev pub Schedule : Type 0
  Schedule = List Entry

  -- self.tasks[name] ~= nil
  unfoldable pub scheduled : String → Schedule → Bool
  scheduled n [] = false
  scheduled n (e ∷ s) = if str_eq e.name n then true else scheduled n s

  unfoldable pub make_parameters :
      List (String × Args numbers) → Result (List (String × Parameter numbers))
  make_parameters [] = ok []
  make_parameters ((k, args) ∷ rest) = do
    p ← construct numbers args
    ps ← make_parameters rest
    ok ((k, p) ∷ ps)

  unfoldable pub schedule : Task → Schedule → Result Schedule
  unfolding scheduled make_parameters
  schedule t s = if scheduled t.name s then ok s else (do
    ps ← make_parameters t.parameters
    ok (record { name = t.name; parameters = ps } ∷ s))

  -- The global table of tasks, and the search of PATH.
  module _ (tasks : String → Option Task) (which : String → Bool) where
    unfoldable pub check_dependencies : List String → Result (Unit {0})
    check_dependencies [] = ok tt
    check_dependencies (dep ∷ deps) =
        if which dep then check_dependencies deps else err (not_in_path dep)

    -- The loop over the inputs, around the recursive call.
    unfoldable pub for_inputs :
        (Task → Schedule → Result Schedule) → List String → Schedule → Result Schedule
    for_inputs add [] s = ok s
    for_inputs add (name ∷ names) s = elim (tasks name) [
      | none ↦ err unknown_input
      | some task ↦ add task s >>= λ s'. for_inputs add names s'
    ]

    -- The local function add_inputs, with the calls that the stack has room for.
    unfoldable pub add_inputs : ℕ → Task → Schedule → Result Schedule
    unfolding for_inputs check_dependencies schedule
    add_inputs zero t s = err stack_overflow
    add_inputs (suc depth) t s = do
      s' ← for_inputs (add_inputs depth) t.inputs s
      _ ← check_dependencies t.dependencies
      schedule t s'

    unfoldable pub plan : ℕ → String → Result Schedule
    unfolding add_inputs
    plan depth target = elim (tasks target) [
      | none ↦ err unknown_target
      | some t ↦ add_inputs depth t []
    ]
