-- ===== src/Glob.antt =====
-- lib/freebsd/glob/lua_glob.c: glob(3).
use bricoler.Base.{
  ℕ, zero, ◌+◌, ℤ, pos, String, List, [], ◌∷◌, not, if◌then◌else◌, leb_ℤ, to_int, ◌||◌,
}
use bricoler.Lua.{Bytes, M, pure, undef, raise, message, ◌>>=◌, ◌>>◌}
use bricoler.Lua.Stack.{
  lua_pushnil, lua_pushinteger, lua_pushstring, lual_checkstring, lual_optinteger,
}
use bricoler.Lua.Tables.{lua_newtable, lua_rawseti}
use bricoler.Lua.Cells.{allocated, free}
use bricoler.Os.{Os, libc_call, lual_setfuncs, add_constants}
use bricoler.Os.{int_min, int_max}

module _ {W : Type 0} (os : Os W) where
  open os use {conversions}

  -- The loop over gl_pathv.
  unfoldable pub push_paths : ℕ → List Bytes → M W (Unit {0})
  push_paths i [] = pure tt
  push_paths i (path ∷ paths) = do
    lua_pushstring path
    lua_rawseti (i + 1)
    push_paths (i + 1) paths

  -- A glob(3) that fails may have found some paths; their list is not freed.
  unfoldable pub keep_list : List Bytes → M W (Unit {0})
  keep_list [] = pure tt
  keep_list (path ∷ paths) = allocated

  unfoldable pub finish_glob : ℤ × List Bytes → M W ℕ
  unfolding push_paths keep_list
  finish_glob (pos zero, paths) = do allocated; lua_newtable; push_paths 0 paths; free; pure 1
  finish_glob (ret, paths) = do keep_list paths; lua_pushnil; lua_pushinteger ret; pure 2

  -- glob(pattern, flags, NULL, &pglob), where pglob is not initialised
  unfoldable pub call_glob : Bytes → ℤ → M W ℕ
  unfolding finish_glob
  call_glob pattern_ flags =
      if os.glob_reads flags
      then undef
      else (do r ← libc_call (os.glob pattern_ flags); finish_glob r)

  unfoldable pub l_glob : M W ℕ
  unfolding call_glob
  l_glob = do
    pattern_ ← lual_checkstring conversions 1
    lflags ← lual_optinteger conversions 2 (pos 0)
    let run = call_glob pattern_ (to_int lflags)
    if not (leb_ℤ int_min lflags) || not (leb_ℤ lflags int_max)
        then raise (message "flags too large")
        else run

abbrev pub l_globtab : List (String × String)
l_globtab = ("glob", "l_glob") ∷ []

abbrev pub glob_constants : List String
glob_constants =
    "GLOB_APPEND" ∷ "GLOB_DOOFFS" ∷ "GLOB_ERR" ∷ "GLOB_MARK" ∷ "GLOB_NOCHECK" ∷ "GLOB_NOESCAPE"
    ∷ "GLOB_NOSORT" ∷ "GLOB_ALTDIRFUNC" ∷ "GLOB_BRACE" ∷ "GLOB_MAGCHAR" ∷ "GLOB_NOMAGIC"
    ∷ "GLOB_TILDE" ∷ "GLOB_LIMIT" ∷ "GLOB_ABORTED" ∷ "GLOB_NOMATCH" ∷ "GLOB_NOSPACE" ∷ []

unfoldable pub luaopen_glob : {W : Type 0} → Os W → M W ℕ
luaopen_glob os = do lua_newtable; lual_setfuncs l_globtab; add_constants os glob_constants; pure 1
