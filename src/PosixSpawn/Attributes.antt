-- ===== src/PosixSpawn/Attributes.antt =====
-- lib/freebsd/posix_spawn/lua_posix_spawn.c: the spawn attributes.
use bricoler.Base.{ℕ, zero, suc, ℤ, not, if◌then◌else◌, leb_ℤ, to_int, to_short, ◌||◌}
use bricoler.Lua.{spawnattr, M, pure, raise, message, ◌>>=◌, ◌>>◌}
use bricoler.Lua.Stack.{lua_pushinteger, lual_checkinteger}
use bricoler.Lua.Cells.{lua_newuserdata, set_metatable, lual_checkudata, deref, allocated, free}
use bricoler.Os.{Os, libc_call, push_error, push_true}
use bricoler.Os.{int_min, int_max, shrt_min, shrt_max}

module _ {W : Type 0} (os : Os W) where
  open os use {conversions}

  unfoldable pub zero_is_true : ℕ → M W ℕ
  zero_is_true zero = push_true
  zero_is_true (suc e) = push_error os (suc e)

  unfoldable pub value_or_error : ℕ × ℤ → M W ℕ
  value_or_error (zero, z) = do lua_pushinteger z; pure 1
  value_or_error (suc e, z) = push_error os (suc e)

  unfoldable pub push_attr : ℕ × ℤ → M W ℕ
  push_attr (zero, h) = do i ← lua_newuserdata h; allocated; set_metatable spawnattr i; pure 1
  push_attr (suc e, h) = do i ← lua_newuserdata h; push_error os (suc e)

  unfoldable pub l_posix_spawnattr_init : M W ℕ
  unfolding push_attr
  l_posix_spawnattr_init = do r ← libc_call os.spawnattr_init; push_attr r

  unfoldable pub l_posix_spawnattr_getflags : M W ℕ
  unfolding value_or_error
  l_posix_spawnattr_getflags = do
    i ← lual_checkudata 1 spawnattr
    h ← deref i
    r ← libc_call (os.getflags h)
    value_or_error r

  unfoldable pub l_posix_spawnattr_setflags : M W ℕ
  unfolding zero_is_true
  l_posix_spawnattr_setflags = do
    i ← lual_checkudata 1 spawnattr
    lflags ← lual_checkinteger conversions 2
    h ← deref i
    let run = do r ← libc_call (os.setflags h (to_short lflags)); zero_is_true r
    if not (leb_ℤ lflags shrt_max) || not (leb_ℤ shrt_min lflags)
        then raise (message "flags too large")
        else run

  unfoldable pub l_posix_spawnattr_getpgroup : M W ℕ
  unfolding value_or_error
  l_posix_spawnattr_getpgroup = do
    i ← lual_checkudata 1 spawnattr
    h ← deref i
    r ← libc_call (os.getpgroup h)
    value_or_error r

  unfoldable pub l_posix_spawnattr_setpgroup : M W ℕ
  unfolding zero_is_true
  l_posix_spawnattr_setpgroup = do
    i ← lual_checkudata 1 spawnattr
    lpgrp ← lual_checkinteger conversions 2
    h ← deref i
    let run = do r ← libc_call (os.setpgroup h (to_int lpgrp)); zero_is_true r
    if not (leb_ℤ lpgrp int_max) || not (leb_ℤ int_min lpgrp)
        then raise (message "pgrp too large")
        else run

  -- __gc
  unfoldable pub l_posix_spawnattr_destroy : M W ℕ
  l_posix_spawnattr_destroy = do
    i ← lual_checkudata 1 spawnattr
    h ← deref i
    r ← libc_call (os.spawnattr_destroy h)
    free
    pure 0
