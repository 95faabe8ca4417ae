-- ===== src/PosixSpawn.antt =====
-- lib/freebsd/posix_spawn/lua_posix_spawn.c: posix_spawn(3) and posix_spawnp(3). An initialised
-- attribute object or file actions object of libc counts as one block.
use bricoler.Base.{
  ℕ, zero, suc, ◌+◌, ◌-◌, ◌*◌, ◌/◌, ◌%◌, ◌^◌, ℤ, pos, negsuc, String, List, [], ◌∷◌, ◌++◌, Bool,
  true, false, not, Option, none, some, length, take, if◌then◌else◌, ◌==◌, ltb, leb, leb_ℤ,
  is_neg_one, to_int, to_short, to_int64, to_unsigned, wrap_signed, codes, ◌&&◌, ◌||◌, reverse,
  replicate,
}
use bricoler.Lua.{
  Bytes, Value, nil, boolean, integer, string, table, userdata, TableRef, Table, sys_fd,
  file_actions, spawnattr, Vm, M, done, undefined, gone, pure, raise, abort, undef, message,
  bad_arg, ◌>>=◌, ◌>>◌, assert,
}
use bricoler.Lua.Stack.{
  lua_gettop, at_index, push, lua_pop, lua_pushnil, lua_pushboolean, lua_pushinteger,
  lua_pushlstring, lua_pushstring, lual_checkstring, lual_checklstring, lual_checkinteger,
  lual_optinteger, top_optinteger, top_checkinteger, top_tostring, lual_argcheck, integer_of,
  is_none_or_nil, c_str, top_value,
}
use bricoler.Lua.Tables.{
  lua_newtable, lual_checktable, check_top_table, lua_rawlen, lua_rawgeti, lua_getfield,
  lua_setfield, lua_rawseti, lua_settable, for_next, border, table_at,
}
use bricoler.Lua.Cells.{
  lua_newuserdata, lual_newmetatable, set_metatable, lual_checkudata, check_top_udata, deref, store,
  allocated, free, get_errno,
}
use bricoler.Os.{
  Os, Ret, Syscall, Stat, Pollfd, Utsname, Addrinfo, Hints, Argv, argv_read, intact, intact_option,
  syscall, libc_call, reads, malloc, push_error, push_errno, push_true, true_or_error,
  lual_setfuncs, add_constants, CtlType, WaitStatus, type_string, type_u8, type_s8, type_u16,
  type_s16, type_u32, type_s32, type_u64, type_s64, type_uint, type_int, type_ulong, type_long,
  other_type, exited, signaled, stopped, other_status,
}
use bricoler.Lua.Stack.{map_option}
use bricoler.Lua.{Meta}
pub mod FileActions
pub mod Attributes

-- The file actions of a spawn: those of a userdata, or an empty object of the call's own.
pub record Actions : Type 0 where
  pub handle : ℤ
  pub own : Bool
  pub next_arg : ℕ

module _ {W : Type 0} (os : Os W) where
  open os use {conversions}

  -- lua_rawgeti, undefined at what is no table
  unfoldable pub geti : Option TableRef → ℕ → M W (Unit {0})
  geti none i = undef
  geti (some t) i = lua_rawgeti t i

  -- `lua_rawgeti(L, t, i + 1); argv[i] = lua_tostring(L, -1); lua_pop(L, 1);`, `n` times
  unfoldable pub fill_strings : Option TableRef → ℕ → ℕ → Argv → M W Argv
  unfolding geti
  fill_strings t zero i argv = pure argv
  fill_strings t (suc n) i argv = do
    geti t (i + 1)
    s ← top_tostring
    lua_pop
    fill_strings t n (i + 1) (argv ++ s ∷ [])

  unfoldable pub own_actions : ℕ × ℤ → M W (Option Actions)
  own_actions (zero, h) = do
    allocated
    pure (some (record { handle = h; own = true; next_arg = 2 }))
  own_actions (suc e, h) = do n ← push_error os (suc e); pure none

  unfoldable pub actions_arg : Option Value → M W (Option Actions)
  unfolding own_actions
  actions_arg (some (userdata i)) = do
    j ← lual_checkudata 2 file_actions
    h ← deref j
    pure (some (record { handle = h; own = false; next_arg = 3 }))
  actions_arg _ = do t ← lual_checktable 2; r ← libc_call os.file_actions_init; own_actions r

  unfoldable pub destroy_own : Actions → M W (Unit {0})
  destroy_own a = elim a.own [
    | true ↦ (do ret1 ← libc_call (os.file_actions_destroy a.handle); assert (ret1 == 0); free)
    | false ↦ pure tt
  ]

  unfoldable pub free_envp : Option Argv → M W (Unit {0})
  free_envp none = pure tt
  free_envp (some envp) = free

  unfoldable pub push_pid : ℕ × ℤ → M W ℕ
  push_pid (zero, pid) = do lua_pushinteger pid; pure 1
  push_pid (suc e, pid) = push_error os (suc e)

  -- posix_spawn(3) reads the strings of both vectors.
  abbrev pub good_pointers : Bool → M W (Unit {0})
  good_pointers true = pure tt
  good_pointers false = undef

  -- From the call of posix_spawn(3) on; `envp` is none for `environ`.
  unfoldable pub spawn_now : Bool → Bytes → ℤ → Actions → Argv → Option Argv → M W ℕ
  unfolding destroy_own free_envp push_pid
  spawn_now path file attr a argv envp = do
    good_pointers (intact argv && intact_option envp)
    r ←
        libc_call
          (os.posix_spawn path file a.handle attr (argv_read argv) (map_option argv_read envp))
    destroy_own a
    ret1 ← libc_call (os.spawnattr_destroy attr)
    assert (ret1 == 0)
    free
    free
    free_envp envp
    push_pid r

  unfoldable pub with_envp : Bool → Bytes → ℤ → Actions → Argv → TableRef → ℕ → Bool → M W ℕ
  unfolding spawn_now fill_strings
  with_envp path file attr a argv t envc false = push_errno os
  with_envp path file attr a argv t envc true = do
    envp ← fill_strings (some t) envc 0 []
    spawn_now path file attr a argv (some envp)

  unfoldable pub envp_arg : Bool → Bytes → ℤ → Actions → Argv → ℕ → M W ℕ
  unfolding with_envp
  envp_arg path file attr a argv argi = do
    t ← lual_checktable argi
    envc ← lua_rawlen t
    ok ← malloc os ((envc + 1) * 8)
    with_envp path file attr a argv t envc ok

  unfoldable pub with_argv : Bool → Bytes → ℤ → Actions → Option TableRef → ℕ → Bool → M W ℕ
  unfolding spawn_now fill_strings envp_arg
  with_argv path file attr a t argc false = push_errno os
  with_argv path file attr a t argc true = do
    argv ← fill_strings t argc 0 []
    last ← λ vm. done (at_index (a.next_arg + 1) vm) vm
    elim (is_none_or_nil last) [
      | true ↦ spawn_now path file attr a argv none
      | false ↦ envp_arg path file attr a argv (a.next_arg + 1)
    ]

  -- lua_rawlen of an address, and the table there: 0 for what has no length.
  raw_length : Option Value → Vm W → (Option TableRef × ℕ)
  raw_length (some (table t)) vm = (some t, border (length (table_at t vm)) 0 (table_at t vm))
  raw_length (some (string s)) vm = (none, length s)
  raw_length (some (userdata i)) vm = (none, 1)
  raw_length _ vm = (none, 0)

  unfoldable pub with_actions : Bool → Bytes → ℤ → Option Actions → M W ℕ
  unfolding with_argv raw_length
  with_actions path file attr none = pure 3
  with_actions path file attr (some a) = do
    (t, argc) ← λ vm. done (raw_length (at_index a.next_arg vm) vm) vm
    ok ← malloc os ((argc + 1) * 8)
    with_argv path file attr a t argc ok

  unfoldable pub with_attr : Bool → ℕ × ℤ → M W ℕ
  unfolding actions_arg with_actions
  with_attr path (suc e, attr) = push_error os (suc e)
  with_attr path (zero, attr) = do
    allocated
    file ← lual_checkstring conversions 1
    a ← λ vm. actions_arg (at_index 2 vm) vm
    with_actions path file attr a

  unfoldable pub l_posix_spawn1 : Bool → M W ℕ
  unfolding with_attr
  l_posix_spawn1 path = do r ← libc_call os.spawnattr_init; with_attr path r

  unfoldable pub l_posix_spawn : M W ℕ
  unfolding l_posix_spawn1
  l_posix_spawn = l_posix_spawn1 false

  unfoldable pub l_posix_spawnp : M W ℕ
  unfolding l_posix_spawn1
  l_posix_spawnp = l_posix_spawn1 true

abbrev pub l_posix_spawntab : List (String × String)
l_posix_spawntab =
    ("posix_spawn", "l_posix_spawn")
    ∷ ("posix_spawnp", "l_posix_spawnp")
    ∷ ("posix_spawn_file_actions_init", "l_posix_spawn_file_actions_init")
    ∷ ("posix_spawn_file_actions_addopen", "l_posix_spawn_file_actions_addopen")
    ∷ ("posix_spawn_file_actions_adddup2", "l_posix_spawn_file_actions_adddup2")
    ∷ ("posix_spawn_file_actions_addclose", "l_posix_spawn_file_actions_addclose")
    ∷ ("posix_spawn_file_actions_addclosefrom_np", "l_posix_spawn_file_actions_addclosefrom_np")
    ∷ ("posix_spawn_file_actions_addchdir_np", "l_posix_spawn_file_actions_addchdir_np")
    ∷ ("posix_spawn_file_actions_addfchdir_np", "l_posix_spawn_file_actions_addfchdir_np")
    ∷ ("posix_spawnattr_init", "l_posix_spawnattr_init")
    ∷ ("posix_spawnattr_getflags", "l_posix_spawnattr_getflags")
    ∷ ("posix_spawnattr_setflags", "l_posix_spawnattr_setflags")
    ∷ ("posix_spawnattr_getpgroup", "l_posix_spawnattr_getpgroup")
    ∷ ("posix_spawnattr_setpgroup", "l_posix_spawnattr_setpgroup")
    ∷ []

abbrev pub posix_spawn_constants : List String
posix_spawn_constants =
    "POSIX_SPAWN_RESETIDS" ∷ "POSIX_SPAWN_SETPGROUP" ∷ "POSIX_SPAWN_SETSIGDEF"
    ∷ "POSIX_SPAWN_SETSIGMASK" ∷ "POSIX_SPAWN_SETSCHEDPARAM" ∷ "POSIX_SPAWN_SETSCHEDULER"
    ∷ "POSIX_SPAWN_DISABLE_ASLR_NP" ∷ []

abbrev pub l_posix_spawn_file_actions_mt : List (String × String)
l_posix_spawn_file_actions_mt = ("__gc", "l_posix_spawn_file_actions_destroy") ∷ []

abbrev pub l_posix_spawnattr_mt : List (String × String)
l_posix_spawnattr_mt = ("__gc", "l_posix_spawnattr_destroy") ∷ []

unfoldable pub luaopen_posix_spawn : {W : Type 0} → Os W → M W ℕ
luaopen_posix_spawn os = do
  ret ← lual_newmetatable file_actions
  assert ret
  lual_setfuncs l_posix_spawn_file_actions_mt
  ret₂ ← lual_newmetatable spawnattr
  assert ret₂
  lual_setfuncs l_posix_spawnattr_mt
  lua_newtable
  lual_setfuncs l_posix_spawntab
  add_constants os posix_spawn_constants
  pure 1
