-- ===== src/Contract/Process.antt =====
-- lib/freebsd/sys/execve/lua_execve.c as the Lua program sees it: the vectors of the new process,
-- and the blocks of a call that fails.
use bricoler.Base.{
  ℕ, suc, ◌+◌, ◌*◌, ◌≡◌, refl, ◌∙◌, ap, List, [], ◌∷◌, ◌++◌, Option, some, none, arith, length,
  get_elem?, ◌<◌, inl, inr, Option-cases, Bool-cases, true, false, ◌&&◌, if◌then◌else◌,
}
use bricoler.Lua.{Bytes, Value, Vm, TableRef, old, new, done, enter, ◌>>=◌}
use bricoler.Lua.Stack.{c_str, slot_of, string_bytes, bind_option}
use bricoler.Lua.Tables.{table_at, as_table}
use bricoler.Lua.Traversal.{
  values_by, fold_values-append, AllFine-room, for_next-fold, for_next-count,
}
use bricoler.Os.{Os, Ret, Ret-cases, ok, fail, Argv, argv_read, intact, malloc}
use bricoler.Contract.{Outcome, returned, replaced, ill, call, finish, with_arg, error_values}
use bricoler.Sys.Execve.{
  l_execve, fill_vector, count_entries, exec_read, do_execve, with_argv, with_envp,
}

module _ {W : Type 0} (os : Os W) where
  fill_vector_lem :
      (t : TableRef) (args : List Value) (vm : Vm W)
      → fill_vector os t (length (table_at t (enter args vm))) (enter args vm)
        ≡ done (values_by slot_of (table_at t (enter args vm))) (enter args vm)
  unfolding fill_vector
  fill_vector_lem t args vm =
      for_next-fold t args vm (λ xs v. xs ++ slot_of v ∷ []) _
        (λ xs v. length xs < length (table_at t (enter args vm)))
        (λ a v vm' s r h. ground (arith, h)) []
        (AllFine-room slot_of _ [] (table_at t (enter args vm)) (omega arith))
      ∙ ap (λ xs. done xs (enter args vm))
          (fold_values-append slot_of [] (table_at t (enter args vm)))

  -- The slots of a vector.
  abbrev pub vector : TableRef → List Value → Vm W → Argv
  vector t args vm = values_by slot_of (table_at t (enter args vm))

  -- What execve(2) did: it returns only when it fails.
  abbrev pub exec_outcome : ℕ → Option ℕ × W → Outcome W
  exec_outcome live (none, w) = replaced w
  exec_outcome live (some e, w) = returned (error_values os e) live w

  -- execve(2) of two vectors, which reads their strings.
  abbrev pub exec_vectors : Bytes → Argv → Argv → ℕ → W → Outcome W
  exec_vectors cmd argv envp live w = elim (intact argv && intact envp) [
    | true ↦ exec_outcome live (os.execve cmd (argv_read argv) (argv_read envp) w)
    | false ↦ ill
  ]

  exec_read_lem :
      (cmd : Bytes) (argv envp : Argv) (args : List Value) (vm : Vm W) (n : ℕ) (w : W)
      → finish
          (exec_read os cmd argv envp (enter args (record vm { live = suc (suc n); world = w })))
        ≡ exec_vectors cmd argv envp n w
  unfolding exec_read
  exec_read_lem cmd argv envp args vm n w = elim (Bool-cases (intact argv && intact envp)) [
    | inl b ↦ rw (b, exec_vectors, if◌then◌else◌) (ground arith)
    | inr b ↦ rw (b, exec_vectors, if◌then◌else◌) refl
  ]

  -- Blocks and the system are no part of a table.
  table_at_frame :
      (t : TableRef) (args : List Value) (vm : Vm W) (n : ℕ) (w : W)
      → table_at t (enter args vm) ≡ table_at t (enter args (record vm { live = n; world = w }))
  table_at_frame (old i) args vm n w = refl
  table_at_frame (new i) args vm n w = refl

  do_execve_lem :
      (cmd : Bytes) (t e : TableRef) (args : List Value) (vm : Vm W) (n : ℕ) (w : W)
      → (let inside : Vm W = record vm { live = suc (suc n); world = w } in
          finish (
            do_execve os cmd t e
              (length (table_at t (enter args vm)))
              (length (table_at e (enter args vm)))
              (enter args inside))
          ≡ exec_vectors cmd (vector t args vm) (vector e args vm) n w)
  unfolding do_execve
  do_execve_lem cmd t e args vm n w =
      let inside : Vm W = record vm { live = suc (suc n); world = w } in
      rw (table_at_frame t args vm (suc (suc n)) w, table_at_frame e args vm (suc (suc n)) w)
        (rw (fill_vector_lem t args inside) (
          rw (fill_vector_lem e args inside, ◌>>=◌)
            (exec_read_lem cmd (vector t args inside) (vector e args inside) args vm n w)))

  -- The two blocks, and the call.
  abbrev pub second_block : ℕ → (ℕ → W → Outcome W) → Ret (Unit {0}) × W → Outcome W
  second_block live exec (ok _, w) = exec live w
  second_block live exec (fail e, w) = returned (error_values os e) live w

  abbrev pub first_block : ℕ → ℕ → (ℕ → W → Outcome W) → Ret (Unit {0}) × W → Outcome W
  first_block live size exec (ok _, w) = second_block live exec (os.malloc size w)
  first_block live size exec (fail e, w) = returned (error_values os e) live w

  -- The parts of a call with the three arguments.
  with_argv_lem :
      (cmd : Bytes) (t e : TableRef) (args : List Value) (vm : Vm W)
      → finish (
          (malloc os ((length (table_at t (enter args vm)) + 1) * 8)
              >>= with_argv os cmd t e
                  (length (table_at t (enter args vm)))
                  (length (table_at e (enter args vm))))
            (enter args vm))
        ≡ first_block vm.live
            ((length (table_at e (enter args vm)) + 1) * 8)
            (exec_vectors cmd (vector t args vm) (vector e args vm))
            (os.malloc ((length (table_at t (enter args vm)) + 1) * 8) vm.world)
  unfolding with_argv with_envp
  with_argv_lem cmd t e args vm =
      let argc = length (table_at t (enter args vm)) in
      let envc = length (table_at e (enter args vm)) in
      let w₁ = (os.malloc ((argc + 1) * 8) vm.world).1 in
      let w₂ = (os.malloc ((envc + 1) * 8) w₁).1 in
      elim (Ret-cases (os.malloc ((argc + 1) * 8) vm.world)) [
        | inr (x, m) ↦ rw m (ground arith)
        | inl (u, m) ↦ rw m (elim (Ret-cases (os.malloc ((envc + 1) * 8) w₁)) [
          | inr (x, m₂) ↦ rw m₂ (ground arith)
          | inl (u, m₂) ↦ rw m₂ (do_execve_lem cmd t e args vm vm.live w₂)
        ])
      ]

  -- The call with the three arguments as they were read; args are those of the whole call.
  abbrev pub execve_outcome : Bytes → TableRef → TableRef → List Value → Vm W → Outcome W
  execve_outcome cmd t e args vm =
      first_block vm.live ((length (table_at e (enter args vm)) + 1) * 8)
        (exec_vectors (c_str cmd) (vector t args vm) (vector e args vm))
        (os.malloc ((length (table_at t (enter args vm)) + 1) * 8) vm.world)

  -- For all arguments: execve reports an argument that is not a string, a table and a table, all
  -- three as bad argument 1, or calls execve(2) with the command, and with each vector the strings
  -- of its table in the order of lua_next, up to the first value that is neither a string nor a
  -- number. A number before that makes the call undefined, because the string that lua_tostring
  -- makes of it is gone with the popped value. A successful call replaces the process; a failure of
  -- it, or of one of the two blocks, returns the error triple with no block left.
  pub l_execve-outcome :
      (args : List Value) (vm : Vm W)
      → call (l_execve os) args vm ≡ (
          with_arg 1 (bind_option (get_elem? args 0) string_bytes) vm λ cmd.
            with_arg 1 (bind_option (get_elem? args 1) λ v. as_table v) vm λ t.
              with_arg 1
                (bind_option (get_elem? args 2) λ v. as_table v)
                vm
                λ e. execve_outcome cmd t e args vm)
  unfolding l_execve count_entries
  l_execve-outcome [] vm = refl
  l_execve-outcome (a ∷ []) vm = ground arith
  l_execve-outcome (a ∷ b ∷ []) vm = ground arith
  l_execve-outcome (a ∷ b ∷ c ∷ rest) vm = elim (Option-cases (string_bytes a)) [
    | inl q ↦ rw q refl
    | inr (cmd, q) ↦ rw q (elim (Option-cases (as_table b)) [
      | inl q ↦ rw q refl
      | inr (t, q) ↦ rw q (elim (Option-cases (as_table c)) [
        | inl q ↦ rw q refl
        | inr (e, q) ↦ rw q (
            rw (for_next-count t (a ∷ b ∷ c ∷ rest) vm) (
              rw (for_next-count e (a ∷ b ∷ c ∷ rest) vm, ◌>>=◌)
                (with_argv_lem (c_str cmd) t e (a ∷ b ∷ c ∷ rest) vm)))
      ])
    ])
  ]
