-- ===== src/Contract/Vectors.antt =====
-- The vectors of a spawn in lib/freebsd/posix_spawn/lua_posix_spawn.c, and what becomes of the call's
-- blocks and objects once posix_spawn(3) is reached or an allocation fails.
use bricoler.Base.{
  ℕ, zero, suc, ◌+◌, ◌*◌, ◌≡◌, refl, ℤ, List, [], ◌∷◌, ◌++◌, append-nil, append_assoc, Bool, true,
  false, Option, some, none, arith, length, ◌==◌, inl, inr, Bool-cases, ◌&&◌,
}
use bricoler.Lua.{Bytes, Value, Vm, Table, TableRef, old, new, index, integer, done, enter, bad_arg}
use bricoler.Lua.Stack.{slot_of, map_option, is_none_or_nil}
use bricoler.Lua.Tables.{table_at, raw_get, border, as_table}
use bricoler.Os.{Os, Ret, ok, fail, Argv, argv_read, intact, intact_option}
use bricoler.Contract.{Outcome, returned, failed, crashed, ill, finish, error_values}
use bricoler.PosixSpawn.{Actions, fill_strings, spawn_now}

module _ {W : Type 0} (os : Os W) where
  -- The slots for the elements i+1, ..., i+n of a table: what lua_tostring makes of an element.
  abbrev pub slots_from : Table → ℕ → ℕ → Argv
  slots_from t i zero = []
  slots_from t i (suc n) = slot_of (raw_get (index (i + 1)) t) ∷ slots_from t (i + 1) n

  pub fill_strings_lem :
      (t : TableRef) (args : List Value) (vm : Vm W) (n i : ℕ) (xs : Argv)
      → fill_strings os (some t) n i xs (enter args vm)
        ≡ done (xs ++ slots_from (table_at t (enter args vm)) i n) (enter args vm)
  unfolding fill_strings
  fill_strings_lem t args vm zero i xs = rw (append-nil xs) refl
  fill_strings_lem t args vm (suc n) i xs =
      let s = slot_of (raw_get (index (i + 1)) (table_at t (enter args vm))) in
      let ih = fill_strings_lem t args vm n (i + 1) (xs ++ s ∷ []) in
      (rw (append_assoc xs (s ∷ []) (slots_from (table_at t (enter args vm)) (i + 1) n)) at ih)

  -- The new process's id, or the error triple for the number that posix_spawn(3) returned.
  abbrev pub pid_values : ℕ × ℤ → List Value
  pid_values (zero, pid) = integer pid ∷ []
  pid_values (suc e, pid) = error_values os (suc e)

  abbrev pub attr_destroyed : ℕ × ℤ → ℕ → ℕ × W → Outcome W
  attr_destroyed r live (status, w) = elim (status == 0) [
    | true ↦ returned (pid_values r) live w
    | false ↦ crashed
  ]

  abbrev pub own_destroyed : ℤ → ℕ × ℤ → ℕ → ℕ × W → Outcome W
  own_destroyed attr r live (status, w) = elim (status == 0) [
    | true ↦ attr_destroyed r live (os.spawnattr_destroy attr w)
    | false ↦ crashed
  ]

  -- Behind posix_spawn(3) the call's own file actions are destroyed, where it made them, then the
  -- attributes; an assertion wants both to succeed.
  abbrev pub cleaned_up : Actions → ℤ → ℕ → (ℕ × ℤ) × W → Outcome W
  cleaned_up a attr live (r, w) = elim a.own [
    | true ↦ own_destroyed attr r live (os.file_actions_destroy a.handle w)
    | false ↦ attr_destroyed r live (os.spawnattr_destroy attr w)
  ]

  -- A block for the call's own file actions, and one for an environment.
  abbrev pub with_own : Bool → ℕ → ℕ
  with_own true n = suc n
  with_own false n = n

  abbrev pub with_env : Option Argv → ℕ → ℕ
  with_env none n = n
  with_env (some e) n = suc n

  abbrev pub spawned : Bool → Bytes → ℤ → Actions → Argv → Option Argv → ℕ → W → Outcome W
  spawned path file attr a argv envp live w = elim (intact argv && intact_option envp) [
    | true ↦
        cleaned_up a attr live
          (os.posix_spawn path file a.handle attr (argv_read argv) (map_option argv_read envp) w)
    | false ↦ ill
  ]

  pub spawn_now_lem :
      (path : Bool) (file : Bytes) (attr : ℤ) (a : Actions) (argv : Argv) (envp : Option Argv)
      (args : List Value) (vm : Vm W) (live : ℕ) (w : W)
      → finish (
          spawn_now os path file attr a argv envp (
            enter args
              (record vm { live = with_env envp (suc (with_own a.own (suc live))); world = w })))
        ≡ spawned path file attr a argv envp live w
  unfolding spawn_now
  spawn_now_lem path file attr a argv none args vm live w =
      elim (Bool-cases (intact argv && intact_option none)) [
        | inr bad ↦ rw (bad, spawned) refl
        | inl good ↦
            rw (good, spawned)
              (elim (Bool-cases a.own) [
                | inl b ↦ rw b (ground arith)
                | inr b ↦ rw b (ground arith)
              ])
      ]
  spawn_now_lem path file attr a argv (some e) args vm live w =
      elim (Bool-cases (intact argv && intact_option (some e))) [
        | inr bad ↦ rw (bad, spawned) refl
        | inl good ↦
            rw (good, spawned)
              (elim (Bool-cases a.own) [
                | inl b ↦ rw b (ground arith)
                | inr b ↦ rw b (ground arith)
              ])
      ]

  -- The environment of the call: its table, or none where the caller's is inherited.
  abbrev pub env_of : List Value → Option (Option TableRef)
  env_of [] = some none
  env_of (v ∷ _) = elim (is_none_or_nil (some v)) [
    | true ↦ some none
    | false ↦ elim (as_table v) [ none ↦ none | some e ↦ some (some e) ]
  ]

  abbrev pub vector_size : TableRef → List Value → Vm W → ℕ
  vector_size t args vm =
      border (length (table_at t (enter args vm))) 0 (table_at t (enter args vm))

  abbrev pub vector_of : TableRef → List Value → Vm W → Argv
  vector_of t args vm = slots_from (table_at t (enter args vm)) 0 (vector_size t args vm)

  -- The blocks of the attributes, of the call's own file actions and of the vector are left behind
  -- a bad environment and a failed allocation.
  abbrev pub env_allocated :
      Bool
      → Bytes
      → ℤ
      → Actions
      → TableRef
      → TableRef
      → List Value
      → Vm W
      → Ret (Unit {0}) × W
      → Outcome W
  env_allocated path file attr a t e args vm (fail x, w) =
      returned (error_values os x) (suc (with_own a.own (suc vm.live))) w
  env_allocated path file attr a t e args vm (ok _, w) =
      spawned path file attr a (vector_of t args vm) (some (vector_of e args vm)) vm.live w

  abbrev pub with_environment :
      Bool
      → Bytes
      → ℤ
      → Actions
      → TableRef
      → List Value
      → Vm W
      → Option (Option TableRef)
      → W
      → Outcome W
  with_environment path file attr a t args vm none w =
      failed (bad_arg (a.next_arg + 1)) (suc (with_own a.own (suc vm.live))) w
  with_environment path file attr a t args vm (some none) w =
      spawned path file attr a (vector_of t args vm) none vm.live w
  with_environment path file attr a t args vm (some (some e)) w =
      env_allocated path file attr a t e args vm (os.malloc ((vector_size e args vm + 1) * 8) w)

  abbrev pub argv_allocated :
      Bool
      → Bytes
      → ℤ
      → Actions
      → TableRef
      → List Value
      → List Value
      → Vm W
      → Ret (Unit {0}) × W
      → Outcome W
  argv_allocated path file attr a t rest args vm (fail x, w) =
      returned (error_values os x) (with_own a.own (suc vm.live)) w
  argv_allocated path file attr a t rest args vm (ok _, w) =
      with_environment path file attr a t args vm (env_of rest) w

  -- From the vector on.
  abbrev pub launched :
      Bool → Bytes → ℤ → Actions → TableRef → List Value → List Value → Vm W → W → Outcome W
  launched path file attr a t rest args vm w =
      argv_allocated path file attr a t rest args vm (os.malloc ((vector_size t args vm + 1) * 8) w)

  -- Blocks and the system are no part of a table.
  pub frame :
      (t : TableRef) (args : List Value) (vm : Vm W) (n : ℕ) (w : W)
      → table_at t (enter args (record vm { live = n; world = w })) ≡ table_at t (enter args vm)
  frame (old i) args vm n w = refl
  frame (new i) args vm n w = refl

  -- The file actions of the userdata at argument 2, with the vector at argument 3.
  abbrev pub given : ℤ → Actions
  given h = record { handle = h; own = false; next_arg = 3 }

  -- The call's own, with the vector at argument 2.
  abbrev pub fresh : ℤ → Actions
  fresh h = record { handle = h; own = true; next_arg = 2 }
