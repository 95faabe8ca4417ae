-- ===== src/Libgen.antt =====
-- lib/freebsd/libgen/lua_libgen.c: basename(3) and dirname(3).
use bricoler.Base.{ℕ, ◌+◌, String, List, [], ◌∷◌, Bool, true, false, length}
use bricoler.Lua.{Bytes, M, pure, ◌>>=◌, ◌>>◌}
use bricoler.Lua.Stack.{lua_pushstring, lual_checkstring}
use bricoler.Lua.Tables.{lua_newtable}
use bricoler.Lua.Cells.{free}
use bricoler.Os.{Os, malloc, push_errno, lual_setfuncs}

module _ {W : Type 0} (os : Os W) where
  open os use {conversions}

  push_part : (Bytes → Bytes) → Bytes → Bool → M W ℕ
  push_part part path false = push_errno os
  push_part part path true = do lua_pushstring (part path); free; pure 1

  unfoldable pub l_basename : M W ℕ
  unfolding push_part
  l_basename = do
    arg ← lual_checkstring conversions 1
    ok ← malloc os (length arg + 1)
    push_part os.basename arg ok

  unfoldable pub l_dirname : M W ℕ
  unfolding push_part
  l_dirname = do
    arg ← lual_checkstring conversions 1
    ok ← malloc os (length arg + 1)
    push_part os.dirname arg ok

abbrev pub l_libgentab : List (String × String)
l_libgentab = ("basename", "l_basename") ∷ ("dirname", "l_dirname") ∷ []

unfoldable pub luaopen_libgen : {W : Type 0} → Os W → M W ℕ
luaopen_libgen os = do lua_newtable; lual_setfuncs l_libgentab; pure 1
