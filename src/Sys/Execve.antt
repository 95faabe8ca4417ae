-- ===== src/Sys/Execve.antt =====
-- lib/freebsd/sys/execve/lua_execve.c: execve(2). The vectors are built in the order of lua_next.
use bricoler.Base.{
  ℕ, zero, suc, ◌+◌, ◌*◌, String, List, [], ◌∷◌, ◌++◌, Bool, true, false, length, if◌then◌else◌,
  ltb, ◌&&◌,
}
use bricoler.Lua.{Bytes, TableRef, M, pure, undef, ◌>>=◌, ◌>>◌}
use bricoler.Lua.Stack.{at_index, lua_pop, top_tostring, c_str}
use bricoler.Lua.Tables.{lua_newtable, for_next, as_table}
use bricoler.Lua.Cells.{free}
use bricoler.Os.{Os, Argv, argv_read, intact, malloc, push_error, push_errno, lual_setfuncs}
use bricoler.Os.{exec_call}
use bricoler.Lua.Stack.{or_bad_arg, bind_option, string_bytes}

module _ {W : Type 0} (os : Os W) where
  -- `for (argc = 0; lua_next(L, i); argc++) lua_pop(L, 1);`
  unfoldable pub count_entries : TableRef → M W ℕ
  count_entries t = for_next t 0 λ n. do lua_pop; pure (n + 1)

  -- `for (size_t i = 0; lua_next(L, i) != 0; i++) { argv[i] = lua_tostring(L, -1); lua_pop(L, 1); }`
  -- The array has room for `n` strings before its last NULL.
  unfoldable pub fill_vector : TableRef → ℕ → M W Argv
  fill_vector t n =
      for_next t []
        λ argv. do s ← top_tostring; assert_room (length argv) n; lua_pop; pure (argv ++ s ∷ [])
    where
      assert_room : ℕ → ℕ → M W (Unit {0})
      assert_room i k = if ltb i k then pure tt else undef

  -- The label `error`, with the count of blocks that argv and envp hold.
  error_exit : ℕ → M W ℕ
  error_exit zero = push_errno os
  error_exit (suc n) = do free; error_exit n

  -- execve(2), which reads the strings of both vectors, and what follows a failure.
  unfoldable pub exec_read : Bytes → Argv → Argv → M W ℕ
  unfolding error_exit
  exec_read cmd argv envp =
      if intact argv && intact envp
      then (do replaced ← exec_call (os.execve cmd (argv_read argv) (argv_read envp)); error_exit 2)
      else undef

  unfoldable pub do_execve : Bytes → TableRef → TableRef → ℕ → ℕ → M W ℕ
  unfolding fill_vector exec_read
  do_execve cmd targv tenvp argc envc = do
    argv ← fill_vector targv argc
    envp ← fill_vector tenvp envc
    exec_read cmd argv envp

  unfoldable pub with_envp : Bytes → TableRef → TableRef → ℕ → ℕ → Bool → M W ℕ
  unfolding do_execve
  with_envp cmd targv tenvp argc envc false = error_exit 1
  with_envp cmd targv tenvp argc envc true = do_execve cmd targv tenvp argc envc

  unfoldable pub with_argv : Bytes → TableRef → TableRef → ℕ → ℕ → Bool → M W ℕ
  unfolding with_envp
  with_argv cmd targv tenvp argc envc false = error_exit 0
  with_argv cmd targv tenvp argc envc true = do
    ok ← malloc os ((envc + 1) * 8)
    with_envp cmd targv tenvp argc envc ok

  -- lua_type(L, i) == LUA_TSTRING or LUA_TTABLE; every failure is reported for argument 1.
  check_string_type : ℕ → M W Bytes
  check_string_type i vm = or_bad_arg 1 (bind_option (at_index i vm) string_bytes) vm

  check_table_type : ℕ → M W TableRef
  check_table_type i vm = or_bad_arg 1 (bind_option (at_index i vm) as_table) vm

  unfoldable pub l_execve : M W ℕ
  unfolding count_entries with_argv check_string_type check_table_type
  l_execve = do
    cmd ← check_string_type 1
    targv ← check_table_type 2
    tenvp ← check_table_type 3
    argc ← count_entries targv
    envc ← count_entries tenvp
    ok ← malloc os ((argc + 1) * 8)
    with_argv (c_str cmd) targv tenvp argc envc ok

  unfoldable pub l_fexecve : M W ℕ
  l_fexecve = push_error os (os.error_number "ENOSYS")

abbrev pub l_execvetab : List (String × String)
l_execvetab = ("execve", "l_execve") ∷ ("fexecve", "l_fexecve") ∷ []

unfoldable pub luaopen_execve : {W : Type 0} → Os W → M W ℕ
luaopen_execve os = do lua_newtable; lual_setfuncs l_execvetab; pure 1
