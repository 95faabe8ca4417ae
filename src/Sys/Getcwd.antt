-- ===== src/Sys/Getcwd.antt =====
-- lib/freebsd/sys/getcwd/lua_getcwd.c: getcwd(3).
use bricoler.Base.{ℕ, String, List, [], ◌∷◌, Option, none, some}
use bricoler.Lua.{Bytes, M, pure, ◌>>=◌, ◌>>◌}
use bricoler.Lua.Stack.{lua_pushstring}
use bricoler.Lua.Tables.{lua_newtable}
use bricoler.Os.{Os, syscall, push_errno, lual_setfuncs}

module _ {W : Type 0} (os : Os W) where
  pushed_path : Option Bytes → M W ℕ
  pushed_path none = push_errno os
  pushed_path (some buf) = do lua_pushstring buf; pure 1

  unfoldable pub l_getcwd : M W ℕ
  unfolding pushed_path
  l_getcwd = do ret ← syscall os.getcwd; pushed_path ret

abbrev pub l_getcwdtab : List (String × String)
l_getcwdtab = ("getcwd", "l_getcwd") ∷ []

unfoldable pub luaopen_getcwd : {W : Type 0} → Os W → M W ℕ
luaopen_getcwd os = do lua_newtable; lual_setfuncs l_getcwdtab; pure 1
