-- ===== src/PosixSpawn/FileActions.antt =====
-- lib/freebsd/posix_spawn/lua_posix_spawn.c: the file actions. The content of their userdata is
-- the handle of libc's object, which counts as one block while it is initialised.
use bricoler.Base.{ℕ, zero, suc, ◌^◌, ℤ, pos, to_int, to_unsigned}
use bricoler.Lua.{Meta, sys_fd, file_actions, M, pure, ◌>>=◌, ◌>>◌, assert}
use bricoler.Lua.Stack.{lual_checkstring, lual_checkinteger, lual_optinteger}
use bricoler.Lua.Cells.{lua_newuserdata, set_metatable, lual_checkudata, deref, allocated, free}
use bricoler.Os.{Os, libc_call, reads, push_error, push_true}

module _ {W : Type 0} (os : Os W) where
  open os use {conversions}

  -- What the wrappers do with an error number: the triple, or true.
  unfoldable pub zero_is_true : ℕ → M W ℕ
  zero_is_true zero = push_true
  zero_is_true (suc e) = push_error os (suc e)

  -- assert(fcntl(fd, F_GETFD) != -1)
  assert_open : ℤ → M W (Unit {0})
  assert_open fd = do b ← reads (os.is_open fd); assert b

  -- A userdata that libc has initialised gets its metatable; one that it has not is left without.
  unfoldable pub push_object : Meta → ℕ × ℤ → M W ℕ
  push_object m (zero, h) = do i ← lua_newuserdata h; allocated; set_metatable m i; pure 1
  push_object m (suc e, h) = do i ← lua_newuserdata h; push_error os (suc e)

  unfoldable pub l_posix_spawn_file_actions_init : M W ℕ
  unfolding push_object
  l_posix_spawn_file_actions_init = do
    r ← libc_call os.file_actions_init
    push_object file_actions r

  unfoldable pub l_posix_spawn_file_actions_addopen : M W ℕ
  unfolding zero_is_true assert_open
  l_posix_spawn_file_actions_addopen = do
    i ← lual_checkudata 1 file_actions
    fdp ← lual_checkudata 2 sys_fd
    path ← lual_checkstring conversions 3
    oflags ← lual_checkinteger conversions 4
    mode ← lual_optinteger conversions 5 (pos 0)
    fd ← deref fdp
    assert_open fd
    h ← deref i
    error ← libc_call (os.addopen h fd path (to_int oflags) (to_unsigned (2 ^ 16) mode))
    zero_is_true error

  unfoldable pub l_posix_spawn_file_actions_adddup2 : M W ℕ
  unfolding zero_is_true assert_open
  l_posix_spawn_file_actions_adddup2 = do
    i ← lual_checkudata 1 file_actions
    fdp ← lual_checkudata 2 sys_fd
    newfd ← lual_checkinteger conversions 3
    fd ← deref fdp
    assert_open fd
    h ← deref i
    error ← libc_call (os.adddup2 h fd (to_int newfd))
    zero_is_true error

  unfoldable pub l_posix_spawn_file_actions_addclose : M W ℕ
  unfolding zero_is_true assert_open
  l_posix_spawn_file_actions_addclose = do
    i ← lual_checkudata 1 file_actions
    fdp ← lual_checkudata 2 sys_fd
    fd ← deref fdp
    assert_open fd
    h ← deref i
    error ← libc_call (os.addclose h fd)
    zero_is_true error

  unfoldable pub l_posix_spawn_file_actions_addclosefrom_np : M W ℕ
  unfolding zero_is_true
  l_posix_spawn_file_actions_addclosefrom_np = do
    i ← lual_checkudata 1 file_actions
    from ← lual_checkinteger conversions 2
    h ← deref i
    error ← libc_call (os.addclosefrom_np h (to_int from))
    zero_is_true error

  unfoldable pub l_posix_spawn_file_actions_addchdir_np : M W ℕ
  unfolding zero_is_true
  l_posix_spawn_file_actions_addchdir_np = do
    i ← lual_checkudata 1 file_actions
    path ← lual_checkstring conversions 2
    h ← deref i
    error ← libc_call (os.addchdir_np h path)
    zero_is_true error

  unfoldable pub l_posix_spawn_file_actions_addfchdir_np : M W ℕ
  unfolding zero_is_true assert_open
  l_posix_spawn_file_actions_addfchdir_np = do
    i ← lual_checkudata 1 file_actions
    fdp ← lual_checkudata 2 sys_fd
    fd ← deref fdp
    assert_open fd
    h ← deref i
    error ← libc_call (os.addfchdir_np h fd)
    zero_is_true error

  -- __gc
  unfoldable pub l_posix_spawn_file_actions_destroy : M W ℕ
  l_posix_spawn_file_actions_destroy = do
    i ← lual_checkudata 1 file_actions
    h ← deref i
    r ← libc_call (os.file_actions_destroy h)
    free
    pure 0
