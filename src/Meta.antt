-- ===== src/Meta.antt =====
-- lib/freebsd/lua_freebsd_meta.c: the metatable of descriptors, whose __gc closes them.
use bricoler.Base.{ℕ, ℤ, String, List, [], ◌∷◌, negsuc, true, false, none, some, is_neg_one}
use bricoler.Lua.{sys_fd, M, pure, ◌>>=◌, ◌>>◌, assert}
use bricoler.Lua.Tables.{lua_newtable}
use bricoler.Lua.Cells.{lual_newmetatable, lual_checkudata, deref, store}
use bricoler.Os.{Os, syscall, lual_setfuncs}

module _ {W : Type 0} (os : Os W) where
  close_held : ℕ → ℤ → M W ℕ
  close_held fdp fd = do
    ret ← syscall (os.close fd)
    assert (elim ret [ none ↦ false | some _ ↦ true ])
    store fdp (negsuc 0)
    pure 0

  unfoldable pub l_freebsd_sys_fd_gc : M W ℕ
  unfolding close_held
  l_freebsd_sys_fd_gc = do
    fdp ← lual_checkudata 1 sys_fd
    fd ← deref fdp
    elim (is_neg_one fd) [ true ↦ pure 0 | false ↦ close_held fdp fd ]

abbrev pub l_freebsd_sys_fd : List (String × String)
l_freebsd_sys_fd = ("__gc", "l_freebsd_sys_fd_gc") ∷ []

unfoldable pub luaopen_freebsd_meta : {W : Type 0} → Os W → M W ℕ
luaopen_freebsd_meta os = do
  ret ← lual_newmetatable sys_fd
  assert ret
  lual_setfuncs l_freebsd_sys_fd
  lua_newtable
  pure 1
