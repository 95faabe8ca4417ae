-- ===== src/Library.antt =====
-- lib/freebsd/sys.lua: the modules that it requires, in its order, and what `require` makes of each.
pub mod Functions
pub mod Callable
pub mod Balance
pub mod Frugal
pub mod Requires
pub mod Loading
use bricoler.Base.{ℕ, String, List, [], ◌∷◌, ◌++◌, Option, none, some, codes, map}
use bricoler.Lua.{
  Bytes, Value, string, sys_fd, file_actions, spawnattr, Meta, Table, Vm, M, done, enter, results,
  pure, ◌>>=◌,
}
use bricoler.Lua.Tables.{as_table, table_at}
use bricoler.Os.{Os}
use bricoler.Contract.Modules.{Entries, function_entries, constant_entries, set_all}
use bricoler.Meta.{luaopen_freebsd_meta}
use bricoler.Sys.Access.{luaopen_access, l_accesstab, access_constants}
use bricoler.Sys.Chdir.{luaopen_chdir, l_chdirtab}
use bricoler.Sys.Execve.{luaopen_execve, l_execvetab}
use bricoler.Sys.Getcwd.{luaopen_getcwd, l_getcwdtab}
use bricoler.Sys.Getuid.{luaopen_getuid, l_getuidtab}
use bricoler.Sys.Mkdir.{luaopen_mkdir, l_mkdirtab}
use bricoler.Sys.Open.{luaopen_open, l_opentab}
use bricoler.Sys.Pipe.{luaopen_pipe, l_pipetab, pipe_constants}
use bricoler.Sys.Poll.{luaopen_poll, l_polltab, poll_constants}
use bricoler.Sys.Read.{luaopen_read, l_readtab}
use bricoler.Sys.Socket.{luaopen_socket, l_sockettab, socket_constants}
use bricoler.Sys.Stat.{luaopen_stat, l_stattab, stat_constants}
use bricoler.Sys.Symlink.{luaopen_symlink, l_symlinktab}
use bricoler.Sys.Sysctl.{luaopen_sysctl, l_sysctltab}
use bricoler.Sys.Unlink.{luaopen_unlink, l_unlinktab, unlink_constants}
use bricoler.Sys.Wait.{luaopen_wait, l_waittab, wait_constants}
use bricoler.Errno.{luaopen_errno, errno_constants}
use bricoler.Getaddrinfo.{luaopen_getaddrinfo, l_getaddrinfotab, getaddrinfo_constants}
use bricoler.Glob.{luaopen_glob, l_globtab, glob_constants}
use bricoler.Libgen.{luaopen_libgen, l_libgentab}
use bricoler.Mktemp.{luaopen_mktemp, l_mktemptab}
use bricoler.PosixSpawn.{luaopen_posix_spawn, l_posix_spawntab, posix_spawn_constants}
use bricoler.Sysconf.{luaopen_sysconf, l_sysconftab, sysconf_constants}
use bricoler.Uname.{luaopen_uname, l_unametab}

-- A C module: its name, its luaopen_ function, the metatables that this registers, and the luaL_Reg
-- array and the constants of its table.
pub record Module (W : Type 0) : Type 0 where
  pub module_name : String
  pub luaopen : M W ℕ
  pub metas : List Meta
  pub tab : List (String × String)
  pub constants : List String

module _ {W : Type 0} where
  -- A module that registers no metatable.
  abbrev pub plain : String → M W ℕ → List (String × String) → List String → Module W
  plain name luaopen tab cs = record {
    module_name = name;
    luaopen = luaopen;
    metas = [];
    tab = tab;
    constants = cs;
  }

module _ {W : Type 0} (os : Os W) where
  abbrev pub entries : Module W → Entries
  entries m = function_entries m.tab ++ constant_entries os m.constants

  -- The table of a module that is loaded.
  abbrev pub module_table : Module W → Table
  module_table m = set_all (entries m) []

  -- `require 'freebsd_meta'`
  abbrev pub freebsd_meta : Module W
  freebsd_meta = record {
    module_name = "freebsd_meta";
    luaopen = luaopen_freebsd_meta os;
    metas = sys_fd ∷ [];
    tab = [];
    constants = [];
  }

  abbrev pub posix_spawn : Module W
  posix_spawn = record {
    module_name = "posix_spawn";
    luaopen = luaopen_posix_spawn os;
    metas = file_actions ∷ spawnattr ∷ [];
    tab = l_posix_spawntab;
    constants = posix_spawn_constants;
  }

  -- The fields of the table that sys.lua returns.
  abbrev pub sys_modules : List (Module W)
  sys_modules =
      plain "access" (luaopen_access os) l_accesstab access_constants
      ∷ plain "chdir" (luaopen_chdir os) l_chdirtab []
      ∷ plain "execve" (luaopen_execve os) l_execvetab []
      ∷ plain "getcwd" (luaopen_getcwd os) l_getcwdtab []
      ∷ plain "getuid" (luaopen_getuid os) l_getuidtab []
      ∷ plain "mkdir" (luaopen_mkdir os) l_mkdirtab []
      ∷ plain "open" (luaopen_open os) l_opentab []
      ∷ plain "pipe" (luaopen_pipe os) l_pipetab pipe_constants
      ∷ plain "poll" (luaopen_poll os) l_polltab poll_constants
      ∷ plain "read" (luaopen_read os) l_readtab []
      ∷ plain "socket" (luaopen_socket os) l_sockettab socket_constants
      ∷ plain "stat" (luaopen_stat os) l_stattab stat_constants
      ∷ plain "symlink" (luaopen_symlink os) l_symlinktab []
      ∷ plain "sysctl" (luaopen_sysctl os) l_sysctltab []
      ∷ plain "unlink" (luaopen_unlink os) l_unlinktab unlink_constants
      ∷ plain "wait" (luaopen_wait os) l_waittab wait_constants
      ∷ plain "errno" (luaopen_errno os) [] errno_constants
      ∷ plain "getaddrinfo" (luaopen_getaddrinfo os) l_getaddrinfotab getaddrinfo_constants
      ∷ plain "glob" (luaopen_glob os) l_globtab glob_constants
      ∷ plain "libgen" (luaopen_libgen os) l_libgentab []
      ∷ plain "mktemp" (luaopen_mktemp os) l_mktemptab []
      ∷ posix_spawn
      ∷ plain "sysconf" (luaopen_sysconf os) l_sysconftab sysconf_constants
      ∷ plain "uname" (luaopen_uname os) l_unametab []
      ∷ []

module _ {W : Type 0} where
  -- The table that a luaopen_ function returns.
  abbrev pub first_table : List Value → Vm W → Option Table
  first_table [] vm = none
  first_table (v ∷ vs) vm = elim (as_table v) [ none ↦ none | some t ↦ some (table_at t vm) ]

  abbrev pub returned_table : ℕ → M W (Option Table)
  returned_table n vm = done (first_table (results n vm) vm) vm

module _ {W : Type 0} (path : String → Bytes) where
  -- The loader calls the luaopen_ function with the module's name and the path of its file.
  unfoldable pub require : Module W → M W (Option Table)
  require m vm =
      (m.luaopen >>= returned_table)
        (enter (string (codes m.module_name) ∷ string (path m.module_name) ∷ []) vm)

  unfoldable pub load_modules : List (Module W) → M W (List (String × Option Table))
  load_modules [] = pure []
  load_modules (m ∷ ms) = do t ← require m; rest ← load_modules ms; pure ((m.module_name, t) ∷ rest)

  -- The whole of sys.lua, but for package.cpath.
  unfoldable pub load_sys : Os W → M W (List (String × Option Table))
  unfolding require load_modules
  load_sys os = do t ← require (freebsd_meta os); load_modules (sys_modules os)
