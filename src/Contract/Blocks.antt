-- ===== src/Contract/Blocks.antt =====
-- The way of a spawn in lib/freebsd/posix_spawn/lua_posix_spawn.c from the length of the vector on.
use bricoler.Base.{
  ℕ, suc, ◌+◌, ◌*◌, ◌≡◌, refl, ℤ, List, [], ◌∷◌, get_elem?, Bool, true, some, none, arith, inl, inr,
  Option-cases, Bool-cases,
}
use bricoler.Lua.{Bytes, Value, Vm, TableRef, table, done, enter, ◌>>=◌}
use bricoler.Lua.Stack.{at_index, is_none_or_nil}
use bricoler.Lua.Tables.{as_table}
use bricoler.Os.{Os, Ret-cases, malloc}
use bricoler.Contract.{finish}
use bricoler.PosixSpawn.{Actions, fill_strings, with_envp, envp_arg, with_argv, with_actions}
use bricoler.Contract.Vectors.{
  fill_strings_lem, with_own, spawn_now_lem, env_of, vector_size, vector_of, with_environment,
  launched, frame,
}

module _ {W : Type 0} (os : Os W) where
  -- The state that holds `n` blocks.
  abbrev holding : ℕ → W → List Value → Vm W → Vm W
  holding n w args vm = enter args (record vm { live = n; world = w })

  fill_lem :
      (t : TableRef) (args : List Value) (vm : Vm W) (n : ℕ) (w : W)
      → fill_strings os (some t) (vector_size os t args vm) 0 [] (holding n w args vm)
        ≡ done (vector_of os t args vm) (holding n w args vm)
  fill_lem t args vm n w =
      (rw (frame os t args vm n w) at (
        fill_strings_lem os t args (record vm { live = n; world = w }) (vector_size os t args vm) 0
          []))

  environment_lem :
      (path : Bool) (file : Bytes) (attr : ℤ) (a : Actions) (t e : TableRef) (args : List Value)
      (vm : Vm W) (w : W)
      → (let n = suc (with_own os a.own (suc vm.live)) in
          finish (
            (malloc os ((vector_size os e args vm + 1) * 8)
                >>= with_envp os path file attr a
                    (vector_of os t args vm)
                    e
                    (vector_size os e args vm))
              (holding n w args vm))
          ≡ with_environment os path file attr a t args vm (some (some e)) w)
  unfolding with_envp
  environment_lem path file attr a t e args vm w =
      elim (Ret-cases (os.malloc ((vector_size os e args vm + 1) * 8) w)) [
        | inr (x, m) ↦ rw m (ground arith)
        | inl (u, m) ↦ rw m (
            let n = suc (suc (with_own os a.own (suc vm.live))) in
            let w' = (os.malloc ((vector_size os e args vm + 1) * 8) w).1 in
            rw (fill_lem e args vm n w', ◌>>=◌)
              (spawn_now_lem os path file attr a (vector_of os t args vm)
                (some (vector_of os e args vm)) args vm vm.live w'))
      ]

  argv_lem :
      (path : Bool) (file : Bytes) (attr : ℤ) (a : Actions) (t : TableRef) (rest args : List Value)
      (vm : Vm W) (w : W)
      → at_index (a.next_arg + 1) (holding (suc (with_own os a.own (suc vm.live))) w args vm)
        ≡ get_elem? rest 0
      → (let n = suc (with_own os a.own (suc vm.live)) in
          finish (
            with_argv os path file attr a
              (some t)
              (vector_size os t args vm)
              true
              (holding n w args vm))
          ≡ with_environment os path file attr a t args vm (env_of os rest) w)
  unfolding with_argv envp_arg
  argv_lem path file attr a t [] args vm w h =
      let n = suc (with_own os a.own (suc vm.live)) in
      rw (fill_lem t args vm n w, ◌>>=◌)
        (rw h (spawn_now_lem os path file attr a (vector_of os t args vm) none args vm vm.live w))
  argv_lem path file attr a t (v ∷ rest) args vm w h =
      let n = suc (with_own os a.own (suc vm.live)) in
      rw (fill_lem t args vm n w, ◌>>=◌)
        (elim (Bool-cases (is_none_or_nil (some v))) [
          | inl b ↦
              rw (h, b, env_of)
                (spawn_now_lem os path file attr a (vector_of os t args vm) none args vm vm.live w)
          | inr b ↦
              rw (h, b, env_of)
                (elim (Option-cases (as_table v)) [
                  | inl q ↦ rw q (rw (h, envp_arg) (rw q refl))
                  | inr (e, q) ↦ rw q (
                      rw (h, envp_arg)
                        (rw q (
                          rw (frame os e args vm n w, ◌>>=◌)
                            (environment_lem path file attr a t e args vm w))))
                ])
        ])

  -- From the length of the vector on.
  pub launched_lem :
      (path : Bool) (file : Bytes) (attr : ℤ) (a : Actions) (t : TableRef) (rest args : List Value)
      (vm : Vm W) (w : W)
      → ((n : ℕ) (w' : W) → at_index a.next_arg (holding n w' args vm) ≡ some (table t))
      → ((n : ℕ) (w' : W) → at_index (a.next_arg + 1) (holding n w' args vm) ≡ get_elem? rest 0)
      → finish (
          with_actions os path file attr
            (some a)
            (holding (with_own os a.own (suc vm.live)) w args vm))
        ≡ launched os path file attr a t rest args vm w
  unfolding with_actions
  launched_lem path file attr a t rest args vm w here next =
      let w' = (os.malloc ((vector_size os t args vm + 1) * 8) w).1 in
      rw (here (with_own os a.own (suc vm.live)) w, ◌>>=◌)
        (rw (frame os t args vm (with_own os a.own (suc vm.live)) w)
          (elim (Ret-cases (os.malloc ((vector_size os t args vm + 1) * 8) w)) [
            | inr (x, m) ↦ rw (m, with_argv) (ground arith)
            | inl (u, m) ↦ rw m (argv_lem path file attr a t rest args vm w' (next _ w'))
          ]))
