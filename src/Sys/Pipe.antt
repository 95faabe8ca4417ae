-- ===== src/Sys/Pipe.antt =====
-- lib/freebsd/sys/pipe/lua_pipe.c: pipe2(2), and pipe(2) through it.
use bricoler.Base.{
  ℕ, ℤ, pos, String, List, [], ◌∷◌, not, Option, none, some, if◌then◌else◌, leb_ℤ, to_int, codes,
  ◌||◌,
}
use bricoler.Lua.{sys_fd, M, pure, ◌>>=◌, ◌>>◌}
use bricoler.Lua.Stack.{lua_pushnil, lua_pushstring, lual_checkinteger}
use bricoler.Lua.Tables.{lua_newtable}
use bricoler.Lua.Cells.{lua_newuserdata, set_metatable}
use bricoler.Os.{Os, syscall, push_errno, lual_setfuncs, add_constants}
use bricoler.Os.{int_min, int_max}

module _ {W : Type 0} (os : Os W) where
  open os use {conversions}

  push_ends : Option (ℤ × ℤ) → M W ℕ
  push_ends none = push_errno os
  push_ends (some (r, w)) = do
    rp ← lua_newuserdata r
    set_metatable sys_fd rp
    wp ← lua_newuserdata w
    set_metatable sys_fd wp
    pure 2

  unfoldable pub _l_pipe2 : ℤ → M W ℕ
  unfolding push_ends
  _l_pipe2 flags = do ret ← syscall (os.pipe2 flags); push_ends ret

  unfoldable pub l_pipe : M W ℕ
  unfolding _l_pipe2
  l_pipe = _l_pipe2 (pos 0)

  unfoldable pub l_pipe2 : M W ℕ
  unfolding _l_pipe2
  l_pipe2 = do
    lflags ← lual_checkinteger conversions 1
    if not (leb_ℤ int_min lflags) || not (leb_ℤ lflags int_max)
        then (do lua_pushnil; lua_pushstring (codes "argument out of range"); pure 2)
        else _l_pipe2 (to_int lflags)

abbrev pub l_pipetab : List (String × String)
l_pipetab = ("pipe", "l_pipe") ∷ ("pipe2", "l_pipe2") ∷ []

abbrev pub pipe_constants : List String
pipe_constants = "O_CLOEXEC" ∷ "O_NONBLOCK" ∷ []

unfoldable pub luaopen_pipe : {W : Type 0} → Os W → M W ℕ
luaopen_pipe os = do lua_newtable; lual_setfuncs l_pipetab; add_constants os pipe_constants; pure 1
