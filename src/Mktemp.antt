-- ===== src/Mktemp.antt =====
-- lib/freebsd/mktemp/lua_mktemp.c: mkstemp(3).
use bricoler.Base.{ℕ, ◌+◌, ℤ, String, List, [], ◌∷◌, Bool, true, false, Option, none, some, length}
use bricoler.Lua.{Bytes, sys_fd, M, pure, ◌>>=◌, ◌>>◌}
use bricoler.Lua.Stack.{lua_pushstring, lual_checkstring}
use bricoler.Lua.Tables.{lua_newtable}
use bricoler.Lua.Cells.{lua_newuserdata, set_metatable, free}
use bricoler.Os.{Os, syscall, malloc, push_errno, lual_setfuncs}

module _ {W : Type 0} (os : Os W) where
  open os use {conversions}

  push_file : Option (ℤ × Bytes) → M W ℕ
  push_file none = do n ← push_errno os; free; pure n
  push_file (some (fd, name)) = do
    fdp ← lua_newuserdata fd
    set_metatable sys_fd fdp
    lua_pushstring name
    free
    pure 2

  with_copy : Bytes → Bool → M W ℕ
  unfolding push_file
  with_copy template false = push_errno os
  with_copy template true = do r ← syscall (os.mkstemp template); push_file r

  unfoldable pub l_mkstemp : M W ℕ
  unfolding with_copy
  l_mkstemp = do
    template ← lual_checkstring conversions 1
    ok ← malloc os (length template + 1)
    with_copy template ok

abbrev pub l_mktemptab : List (String × String)
l_mktemptab = ("mkstemp", "l_mkstemp") ∷ []

unfoldable pub luaopen_mktemp : {W : Type 0} → Os W → M W ℕ
luaopen_mktemp os = do lua_newtable; lual_setfuncs l_mktemptab; pure 1
