-- ===== src/Sys/Symlink.antt =====
-- lib/freebsd/sys/symlink/lua_symlink.c: symlink(2) and readlink(2).
use bricoler.Base.{ℕ, String, List, [], ◌∷◌, Option, none, some}
use bricoler.Lua.{Bytes, M, pure, ◌>>=◌, ◌>>◌}
use bricoler.Lua.Stack.{lua_pushlstring, lual_checkstring}
use bricoler.Lua.Tables.{lua_newtable}
use bricoler.Os.{Os, syscall, push_errno, true_or_error, lual_setfuncs}

module _ {W : Type 0} (os : Os W) where
  open os use {conversions}

  unfoldable pub l_symlink : M W ℕ
  l_symlink = do
    target ← lual_checkstring conversions 1
    linkpath ← lual_checkstring conversions 2
    ret ← syscall (os.symlink target linkpath)
    true_or_error os ret

  push_target : Option Bytes → M W ℕ
  push_target none = push_errno os
  push_target (some buf) = do lua_pushlstring buf; pure 1

  unfoldable pub l_readlink : M W ℕ
  unfolding push_target
  l_readlink = do
    path ← lual_checkstring conversions 1
    ret ← syscall (os.readlink path)
    push_target ret

abbrev pub l_symlinktab : List (String × String)
l_symlinktab = ("symlink", "l_symlink") ∷ ("readlink", "l_readlink") ∷ []

unfoldable pub luaopen_symlink : {W : Type 0} → Os W → M W ℕ
luaopen_symlink os = do lua_newtable; lual_setfuncs l_symlinktab; pure 1
