-- ===== src/Sys/Getuid.antt =====
-- lib/freebsd/sys/getuid/lua_getuid.c: the user and group ids of the process.
use bricoler.Base.{ℕ, pos, String, List, [], ◌∷◌, not, leb_ℤ, ◌&&◌}
use bricoler.Lua.{M, pure, ◌>>=◌, ◌>>◌}
use bricoler.Lua.Stack.{lua_pushboolean, lua_pushinteger}
use bricoler.Lua.Tables.{lua_newtable}
use bricoler.Os.{Os, reads, lual_setfuncs}

module _ {W : Type 0} (os : Os W) where
  unfoldable pub l_getuid : M W ℕ
  l_getuid = do id ← reads os.getuid; lua_pushinteger (pos id); pure 1

  unfoldable pub l_geteuid : M W ℕ
  l_geteuid = do id ← reads os.geteuid; lua_pushinteger (pos id); pure 1

  unfoldable pub l_getgid : M W ℕ
  l_getgid = do id ← reads os.getgid; lua_pushinteger (pos id); pure 1

  unfoldable pub l_getegid : M W ℕ
  l_getegid = do id ← reads os.getegid; lua_pushinteger (pos id); pure 1

  unfoldable pub l_issetugid : M W ℕ
  l_issetugid = do
    r ← reads os.issetugid
    lua_pushboolean (not (leb_ℤ r (pos 0) && leb_ℤ (pos 0) r))
    pure 1

abbrev pub l_getuidtab : List (String × String)
l_getuidtab =
    ("getuid", "l_getuid")
    ∷ ("geteuid", "l_geteuid")
    ∷ ("getgid", "l_getgid")
    ∷ ("getegid", "l_getegid")
    ∷ ("issetugid", "l_issetugid")
    ∷ []

unfoldable pub luaopen_getuid : {W : Type 0} → Os W → M W ℕ
luaopen_getuid os = do lua_newtable; lual_setfuncs l_getuidtab; pure 1
