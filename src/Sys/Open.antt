-- ===== src/Sys/Open.antt =====
-- lib/freebsd/sys/open/lua_open.c: close(2) of a descriptor that a userdata holds.
use bricoler.Base.{ℕ, negsuc, String, List, [], ◌∷◌, not, Option, none, some, is_neg_one}
use bricoler.Lua.{sys_fd, M, pure, ◌>>=◌, ◌>>◌, assert}
use bricoler.Lua.Tables.{lua_newtable}
use bricoler.Lua.Cells.{lual_checkudata, deref, store}
use bricoler.Os.{Os, syscall, push_errno, push_true, lual_setfuncs}

module _ {W : Type 0} (os : Os W) where
  after_close : ℕ → Option (Unit {0}) → M W ℕ
  after_close fdp none = push_errno os
  after_close fdp (some _) = do store fdp (negsuc 0); push_true

  unfoldable pub l_close : M W ℕ
  unfolding after_close
  l_close = do
    fdp ← lual_checkudata 1 sys_fd
    fd ← deref fdp
    assert (not (is_neg_one fd))
    ret ← syscall (os.close fd)
    after_close fdp ret

abbrev pub l_opentab : List (String × String)
l_opentab = ("close", "l_close") ∷ []

unfoldable pub luaopen_open : {W : Type 0} → Os W → M W ℕ
luaopen_open os = do lua_newtable; lual_setfuncs l_opentab; pure 1
