-- ===== src/Sys/Mkdir.antt =====
-- lib/freebsd/sys/mkdir/lua_mkdir.c: mkdir(2). mode_t has 16 bits.
use bricoler.Base.{ℕ, ◌^◌, String, List, [], ◌∷◌, to_unsigned}
use bricoler.Lua.{M, pure, ◌>>=◌, ◌>>◌}
use bricoler.Lua.Stack.{lual_checkstring, lual_checkinteger}
use bricoler.Lua.Tables.{lua_newtable}
use bricoler.Os.{Os, syscall, true_or_error, lual_setfuncs}

module _ {W : Type 0} (os : Os W) where
  open os use {conversions}

  unfoldable pub l_mkdir : M W ℕ
  l_mkdir = do
    path ← lual_checkstring conversions 1
    lmode ← lual_checkinteger conversions 2
    ret ← syscall (os.mkdir path (to_unsigned (2 ^ 16) lmode))
    true_or_error os ret

abbrev pub l_mkdirtab : List (String × String)
l_mkdirtab = ("mkdir", "l_mkdir") ∷ []

unfoldable pub luaopen_mkdir : {W : Type 0} → Os W → M W ℕ
luaopen_mkdir os = do lua_newtable; lual_setfuncs l_mkdirtab; pure 1
