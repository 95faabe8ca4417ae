-- ===== src/Sys/Chdir.antt =====
-- lib/freebsd/sys/chdir/lua_chdir.c: chdir(2).
use bricoler.Base.{ℕ, String, List, [], ◌∷◌}
use bricoler.Lua.{M, pure, ◌>>=◌, ◌>>◌}
use bricoler.Lua.Stack.{lual_checkstring}
use bricoler.Lua.Tables.{lua_newtable}
use bricoler.Os.{Os, syscall, true_or_error, lual_setfuncs}

module _ {W : Type 0} (os : Os W) where
  open os use {conversions}

  unfoldable pub l_chdir : M W ℕ
  l_chdir = do
    path ← lual_checkstring conversions 1
    ret ← syscall (os.chdir path)
    true_or_error os ret

abbrev pub l_chdirtab : List (String × String)
l_chdirtab = ("chdir", "l_chdir") ∷ []

unfoldable pub luaopen_chdir : {W : Type 0} → Os W → M W ℕ
luaopen_chdir os = do lua_newtable; lual_setfuncs l_chdirtab; pure 1
