-- ===== src/Sys/Stat.antt =====
-- lib/freebsd/sys/stat/lua_stat.c: stat(2), lstat(2) and the tests of a mode.
use bricoler.Base.{ℕ, ℤ, String, List, [], ◌∷◌, Option, none, some, to_int64, codes}
use bricoler.Lua.{Bytes, M, pure, ◌>>=◌, ◌>>◌}
use bricoler.Lua.Stack.{
  lua_pushboolean, lua_pushinteger, lua_pushlstring, lual_checkstring, lual_checkinteger,
}
use bricoler.Lua.Tables.{lua_newtable, lua_settable}
use bricoler.Os.{Os, Syscall, Stat, syscall, push_errno, lual_setfuncs, add_constants}

module _ {W : Type 0} (os : Os W) where
  open os use {conversions}

  -- SETFIELD
  set_stat_field : String → ℤ → M W (Unit {0})
  set_stat_field name value = do
    lua_pushlstring (codes name)
    lua_pushinteger (to_int64 value)
    lua_settable

  push_stat : Option Stat → M W ℕ
  unfolding set_stat_field
  push_stat none = push_errno os
  push_stat (some sb) = do
    lua_newtable
    set_stat_field "dev" sb.dev
    set_stat_field "ino" sb.ino
    set_stat_field "mode" sb.mode
    set_stat_field "nlink" sb.nlink
    set_stat_field "uid" sb.uid
    set_stat_field "gid" sb.gid
    set_stat_field "rdev" sb.rdev
    set_stat_field "size" sb.size
    set_stat_field "blocks" sb.blocks
    set_stat_field "blksize" sb.blksize
    pure 1

  unfoldable pub l_stat1 : (Bytes → Syscall W Stat) → M W ℕ
  unfolding push_stat
  l_stat1 fn = do path ← lual_checkstring conversions 1; ret ← syscall (fn path); push_stat ret

  unfoldable pub l_stat : M W ℕ
  unfolding l_stat1
  l_stat = l_stat1 os.stat

  -- The source's name; it is registered as lstat.
  unfoldable pub l_fstat : M W ℕ
  unfolding l_stat1
  l_fstat = l_stat1 os.lstat

  -- The functions that l_S_PRED defines, by the predicate's name.
  unfoldable pub l_s_pred : String → M W ℕ
  l_s_pred name = do
    mode ← lual_checkinteger conversions 1
    lua_pushboolean (os.mode_is name mode)
    pure 1

abbrev pub l_stattab : List (String × String)
l_stattab =
    ("stat", "l_stat")
    ∷ ("lstat", "l_fstat")
    ∷ ("S_ISBLK", "l_S_ISBLK")
    ∷ ("S_ISCHR", "l_S_ISCHR")
    ∷ ("S_ISDIR", "l_S_ISDIR")
    ∷ ("S_ISFIFO", "l_S_ISFIFO")
    ∷ ("S_ISREG", "l_S_ISREG")
    ∷ ("S_ISLNK", "l_S_ISLNK")
    ∷ ("S_ISSOCK", "l_S_ISSOCK")
    ∷ []

abbrev pub stat_constants : List String
stat_constants =
    "S_IFMT" ∷ "S_IFIFO" ∷ "S_IFCHR" ∷ "S_IFDIR" ∷ "S_IFBLK" ∷ "S_IFREG" ∷ "S_IFLNK" ∷ "S_IFSOCK"
    ∷ "S_IFWHT" ∷ "S_ISUID" ∷ "S_ISGID" ∷ "S_ISVTX" ∷ "S_IRWXU" ∷ "S_IRUSR" ∷ "S_IWUSR" ∷ "S_IXUSR"
    ∷ "S_IRWXG" ∷ "S_IRGRP" ∷ "S_IWGRP" ∷ "S_IXGRP" ∷ "S_IRWXO" ∷ "S_IROTH" ∷ "S_IWOTH" ∷ "S_IXOTH"
    ∷ []

unfoldable pub luaopen_stat : {W : Type 0} → Os W → M W ℕ
luaopen_stat os = do lua_newtable; lual_setfuncs l_stattab; add_constants os stat_constants; pure 1
