-- ===== src/Uname.antt =====
-- lib/freebsd/uname/lua_uname.c: uname(3).
use bricoler.Base.{ℕ, String, List, [], ◌∷◌, Option, none, some, ◌==◌}
use bricoler.Lua.{Bytes, M, pure, ◌>>=◌, ◌>>◌}
use bricoler.Lua.Stack.{lua_gettop, lua_pushstring, lual_argcheck}
use bricoler.Lua.Tables.{lua_newtable, lua_setfield}
use bricoler.Os.{Os, Utsname, syscall, push_errno, lual_setfuncs}

module _ {W : Type 0} (os : Os W) where
  open os use {conversions}

  -- ADDFIELD
  add_field : String → Bytes → M W (Unit {0})
  add_field field value = do lua_pushstring value; lua_setfield field

  push_uname : Option Utsname → M W ℕ
  unfolding add_field
  push_uname none = push_errno os
  push_uname (some name) = do
    lua_newtable
    add_field "sysname" name.sysname
    add_field "nodename" name.nodename
    add_field "release" name.release
    add_field "version" name.version
    add_field "machine" name.machine
    pure 1

  unfoldable pub l_uname : M W ℕ
  unfolding push_uname
  l_uname = do top ← lua_gettop; lual_argcheck (top == 0) 1; r ← syscall os.uname; push_uname r

abbrev pub l_unametab : List (String × String)
l_unametab = ("uname", "l_uname") ∷ []

unfoldable pub luaopen_uname : {W : Type 0} → Os W → M W ℕ
luaopen_uname os = do lua_newtable; lual_setfuncs l_unametab; pure 1
