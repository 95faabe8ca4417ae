-- ===== src/Tasks/CommandLine.antt =====
-- The settings of the command line in the constructor of TaskSchedule: each is bound to the parameter
-- that it names.
use bricoler.Base.{String, List, [], ◌∷◌, Option, none, some, if◌then◌else◌, codes}
use bricoler.Lua.Tables.{bytes_eq}
use bricoler.Tasks.{unknown_task, unknown_parameter, invalid_setting, Result, ok, err, ◌>>=◌}
use bricoler.Tasks.Parameter.{Text, Numbers, string, Parameter, bind}
use bricoler.Tasks.Schedule.{Schedule}
use bricoler.Tasks.Settings.{match}

module _ (numbers : Numbers) where
  abbrev pub Parameters : Type 0
  Parameters = List (String × Parameter numbers)

  -- param:bind(v, "command line"), for the parameter of the name.
  unfoldable pub bind_parameter : Text → Text → Parameters → Result Parameters
  bind_parameter p v [] = err unknown_parameter
  bind_parameter p v ((k, param) ∷ ps) =
      let rest = bind_parameter p v ps in
      if bytes_eq (codes k) p
      then (do bound ← bind numbers param (string v) "command line"; ok ((k, bound) ∷ ps))
      else (do others ← rest; ok ((k, param) ∷ others))

  unfoldable pub bind_setting : Text → Text → Text → Schedule numbers → Result (Schedule numbers)
  unfolding bind_parameter
  bind_setting t p v [] = err unknown_task
  bind_setting t p v (e ∷ s) =
      let rest = bind_setting t p v s in
      if bytes_eq (codes e.name) t
      then (do ps ← bind_parameter p v e.parameters; ok (record e { parameters = ps } ∷ s))
      else (do others ← rest; ok (e ∷ others))

  -- The loop over args.parameters.
  unfoldable pub command_line : List Text → Schedule numbers → Result (Schedule numbers)
  unfolding bind_setting
  command_line [] s = ok s
  command_line (x ∷ xs) s = elim (match x) [
    | none ↦ err invalid_setting
    | some (t, p, v) ↦ bind_setting t p v s >>= λ s'. command_line xs s'
  ]

  -- self.tasks[t].parameters[p]
  unfoldable pub find_parameter : Text → Parameters → Option (Parameter numbers)
  find_parameter p [] = none
  find_parameter p ((k, param) ∷ ps) =
      if bytes_eq (codes k) p then some param else find_parameter p ps

  unfoldable pub parameter_at : Text → Text → Schedule numbers → Option (Parameter numbers)
  unfolding find_parameter
  parameter_at t p [] = none
  parameter_at t p (e ∷ s) =
      if bytes_eq (codes e.name) t then find_parameter p e.parameters else parameter_at t p s
