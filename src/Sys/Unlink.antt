-- ===== src/Sys/Unlink.antt =====
-- lib/freebsd/sys/unlink/lua_unlink.c: unlink(2) and unlinkat(2).
use bricoler.Base.{ℕ, pos, String, List, [], ◌∷◌, not, Option, none, some, is_neg_one, to_int}
use bricoler.Lua.{sys_fd, M, pure, ◌>>=◌, ◌>>◌, assert}
use bricoler.Lua.Stack.{lua_pushinteger, lual_checkstring, lual_optinteger}
use bricoler.Lua.Tables.{lua_newtable}
use bricoler.Lua.Cells.{lual_checkudata, deref}
use bricoler.Os.{Os, syscall, push_errno, lual_setfuncs, add_constants}

module _ {W : Type 0} (os : Os W) where
  open os use {conversions}

  zero_or_error : Option (Unit {0}) → M W ℕ
  zero_or_error none = push_errno os
  zero_or_error (some _) = do lua_pushinteger (pos 0); pure 1

  unfoldable pub l_unlink : M W ℕ
  unfolding zero_or_error
  l_unlink = do
    path ← lual_checkstring conversions 1
    ret ← syscall (os.unlink path)
    zero_or_error ret

  unfoldable pub l_unlinkat : M W ℕ
  unfolding zero_or_error
  l_unlinkat = do
    dfdp ← lual_checkudata 1 sys_fd
    dfd ← deref dfdp
    assert (not (is_neg_one dfd))
    path ← lual_checkstring conversions 2
    flags ← lual_optinteger conversions 3 (pos 0)
    ret ← syscall (os.unlinkat dfd path (to_int flags))
    zero_or_error ret

abbrev pub l_unlinktab : List (String × String)
l_unlinktab = ("unlink", "l_unlink") ∷ ("unlinkat", "l_unlinkat") ∷ []

abbrev pub unlink_constants : List String
unlink_constants = "AT_REMOVEDIR" ∷ "AT_RESOLVE_BENEATH" ∷ []

unfoldable pub luaopen_unlink : {W : Type 0} → Os W → M W ℕ
luaopen_unlink os = do
  lua_newtable
  lual_setfuncs l_unlinktab
  add_constants os unlink_constants
  pure 1
