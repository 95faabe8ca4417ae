-- ===== src/Sys/Read.antt =====
-- lib/freebsd/sys/read/lua_read.c: read(2), pread(2) and write(2). size_t has 64 bits.
use bricoler.Base.{
  ℕ, ◌^◌, pos, String, List, [], ◌∷◌, Bool, true, false, Option, none, some, to_unsigned,
}
use bricoler.Lua.{Bytes, sys_fd, M, pure, ◌>>=◌, ◌>>◌}
use bricoler.Lua.Stack.{lua_pushinteger, lua_pushlstring, lual_checklstring, lual_checkinteger}
use bricoler.Lua.Tables.{lua_newtable}
use bricoler.Lua.Cells.{lual_checkudata, deref, free}
use bricoler.Os.{Os, Syscall, syscall, malloc, push_errno, lual_setfuncs}

module _ {W : Type 0} (os : Os W) where
  open os use {conversions}

  -- The end of l_read and l_pread, which differ in the call that fills the buffer.
  push_data : Option Bytes → M W ℕ
  push_data none = do n ← push_errno os; free; pure n
  push_data (some buf) = do lua_pushlstring buf; free; pure 1

  fill : Syscall W Bytes → Bool → M W ℕ
  unfolding push_data
  fill call false = push_errno os
  fill call true = do got ← syscall call; push_data got

  unfoldable pub l_read : M W ℕ
  unfolding fill
  l_read = do
    fdp ← lual_checkudata 1 sys_fd
    ln ← lual_checkinteger conversions 2
    let n = to_unsigned (2 ^ 64) ln
    ok ← malloc os n
    fd ← deref fdp
    fill (os.read fd n) ok

  unfoldable pub l_pread : M W ℕ
  unfolding fill
  l_pread = do
    fdp ← lual_checkudata 1 sys_fd
    ln ← lual_checkinteger conversions 2
    off ← lual_checkinteger conversions 3
    let n = to_unsigned (2 ^ 64) ln
    ok ← malloc os n
    fd ← deref fdp
    fill (os.pread fd n off) ok

  unfoldable pub push_count : Option ℕ → M W ℕ
  push_count none = push_errno os
  push_count (some n) = do lua_pushinteger (pos n); pure 1

  unfoldable pub l_write : M W ℕ
  unfolding push_count
  l_write = do
    fdp ← lual_checkudata 1 sys_fd
    buf ← lual_checklstring conversions 2
    fd ← deref fdp
    n ← syscall (os.write fd buf)
    push_count n

abbrev pub l_readtab : List (String × String)
l_readtab = ("read", "l_read") ∷ ("pread", "l_pread") ∷ ("write", "l_write") ∷ []

unfoldable pub luaopen_read : {W : Type 0} → Os W → M W ℕ
luaopen_read os = do lua_newtable; lual_setfuncs l_readtab; pure 1
