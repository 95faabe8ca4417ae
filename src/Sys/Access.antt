-- ===== src/Sys/Access.antt =====
-- lib/freebsd/sys/access/lua_access.c: access(2) and eaccess(2).
use bricoler.Base.{ℕ, ℤ, String, List, [], ◌∷◌, to_int}
use bricoler.Lua.{Bytes, M, pure, ◌>>=◌, ◌>>◌}
use bricoler.Lua.Stack.{lual_checkstring, lual_checkinteger}
use bricoler.Lua.Tables.{lua_newtable}
use bricoler.Os.{Os, Syscall, syscall, true_or_error, lual_setfuncs, add_constants}

module _ {W : Type 0} (os : Os W) where
  open os use {conversions}

  unfoldable pub l_access1 : (Bytes → ℤ → Syscall W (Unit {0})) → M W ℕ
  l_access1 fn = do
    path ← lual_checkstring conversions 1
    lmode ← lual_checkinteger conversions 2
    ret ← syscall (fn path (to_int lmode))
    true_or_error os ret

  unfoldable pub l_access : M W ℕ
  unfolding l_access1
  l_access = l_access1 os.access

  unfoldable pub l_eaccess : M W ℕ
  unfolding l_access1
  l_eaccess = l_access1 os.eaccess

abbrev pub l_accesstab : List (String × String)
l_accesstab = ("access", "l_access") ∷ ("eaccess", "l_eaccess") ∷ []

abbrev pub access_constants : List String
access_constants = "R_OK" ∷ "W_OK" ∷ "X_OK" ∷ []

unfoldable pub luaopen_access : {W : Type 0} → Os W → M W ℕ
luaopen_access os = do
  lua_newtable
  lual_setfuncs l_accesstab
  add_constants os access_constants
  pure 1
