-- ===== src/Sys/Wait.antt =====
-- lib/freebsd/sys/wait/lua_wait.c: waitpid(2).
use bricoler.Base.{ℕ, zero, ℤ, pos, String, List, [], ◌∷◌, Option, none, some, to_int, codes}
use bricoler.Lua.{M, pure, abort, ◌>>=◌, ◌>>◌}
use bricoler.Lua.Stack.{lua_pushinteger, lua_pushstring, lual_checkinteger, lual_optinteger}
use bricoler.Lua.Tables.{lua_newtable}
use bricoler.Os.{
  Os, syscall, push_errno, lual_setfuncs, add_constants, WaitStatus, exited, signaled, stopped,
  other_status,
}

module _ {W : Type 0} (os : Os W) where
  open os use {conversions}

  unfoldable pub push_status : WaitStatus → M W ℕ
  push_status (exited z) = do lua_pushstring (codes "exited"); lua_pushinteger z; pure 3
  push_status (signaled z) = do lua_pushstring (codes "signaled"); lua_pushinteger z; pure 3
  push_status (stopped z) = do lua_pushstring (codes "stopped"); lua_pushinteger z; pure 3
  push_status other_status = abort

  unfoldable pub push_child : ℤ → ℤ → M W ℕ
  unfolding push_status
  push_child (pos zero) status = do
    lua_pushinteger (pos zero)
    lua_pushstring (codes "running")
    pure 2
  push_child pid status = do lua_pushinteger pid; push_status (os.wait_status status)

  push_wait : Option (ℤ × ℤ) → M W ℕ
  unfolding push_child
  push_wait none = push_errno os
  push_wait (some (pid, status)) = push_child pid status

  unfoldable pub l_waitpid : M W ℕ
  unfolding push_wait
  l_waitpid = do
    pid ← lual_checkinteger conversions 1
    options ← lual_optinteger conversions 2 (pos 0)
    ret ← syscall (os.waitpid (to_int pid) (to_int options))
    push_wait ret

abbrev pub l_waittab : List (String × String)
l_waittab = ("waitpid", "l_waitpid") ∷ []

abbrev pub wait_constants : List String
wait_constants = "WNOHANG" ∷ "WUNTRACED" ∷ "WTRAPPED" ∷ "WEXITED" ∷ "WSTOPPED" ∷ "WNOWAIT" ∷ []

unfoldable pub luaopen_wait : {W : Type 0} → Os W → M W ℕ
luaopen_wait os = do lua_newtable; lual_setfuncs l_waittab; add_constants os wait_constants; pure 1
