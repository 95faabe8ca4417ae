-- ===== src/Library/Functions.antt =====
-- The C functions of lib/freebsd by their names: those of the luaL_Reg arrays and the __gc functions.
use bricoler.Base.{
  ℕ, String, List, [], ◌∷◌, Bool, true, false, Option, none, some, str_eq, if◌then◌else◌,
}
use bricoler.Lua.{M}
use bricoler.Os.{Os}
use bricoler.Sys.Access.{l_access, l_eaccess}
use bricoler.Sys.Chdir.{l_chdir}
use bricoler.Sys.Execve.{l_execve, l_fexecve}
use bricoler.Sys.Getcwd.{l_getcwd}
use bricoler.Sys.Getuid.{l_getuid, l_geteuid, l_getgid, l_getegid, l_issetugid}
use bricoler.Sys.Mkdir.{l_mkdir}
use bricoler.Sys.Open.{l_close}
use bricoler.Sys.Pipe.{l_pipe, l_pipe2}
use bricoler.Sys.Poll.{l_poll}
use bricoler.Sys.Read.{l_read, l_pread, l_write}
use bricoler.Sys.Socket.{l_socket, l_bind}
use bricoler.Sys.Stat.{l_stat, l_fstat, l_s_pred}
use bricoler.Sys.Symlink.{l_symlink, l_readlink}
use bricoler.Sys.Sysctl.{l_sysctl, l_sysctlbyname}
use bricoler.Sys.Unlink.{l_unlink, l_unlinkat}
use bricoler.Sys.Wait.{l_waitpid}
use bricoler.Getaddrinfo.{l_getaddrinfo}
use bricoler.Glob.{l_glob}
use bricoler.Libgen.{l_basename, l_dirname}
use bricoler.Mktemp.{l_mkstemp}
use bricoler.PosixSpawn.{l_posix_spawn, l_posix_spawnp}
use bricoler.PosixSpawn.FileActions.{
  l_posix_spawn_file_actions_init, l_posix_spawn_file_actions_addopen,
  l_posix_spawn_file_actions_adddup2, l_posix_spawn_file_actions_addclose,
  l_posix_spawn_file_actions_addclosefrom_np, l_posix_spawn_file_actions_addchdir_np,
  l_posix_spawn_file_actions_addfchdir_np, l_posix_spawn_file_actions_destroy,
}
use bricoler.PosixSpawn.Attributes.{
  l_posix_spawnattr_init, l_posix_spawnattr_getflags, l_posix_spawnattr_setflags,
  l_posix_spawnattr_getpgroup, l_posix_spawnattr_setpgroup, l_posix_spawnattr_destroy,
}
use bricoler.Sysconf.{l_sysconf}
use bricoler.Uname.{l_uname}
use bricoler.Meta.{l_freebsd_sys_fd_gc}

-- The function of a name; the first one where there are more.
unfoldable pub find : {A : Type 0} → String → List (String × A) → Option A
find f [] = none
find f ((n, m) ∷ fs) = if str_eq n f then some m else find f fs

-- The functions that a luaL_Reg array names are all there.
abbrev pub all_found : {A : Type 0} → List (String × A) → List (String × String) → Bool
all_found fs [] = true
all_found fs ((n, f) ∷ tab) = elim (find f fs) [ none ↦ false | some m ↦ all_found fs tab ]

module _ {W : Type 0} (os : Os W) where
  abbrev pub functions : List (String × M W ℕ)
  functions =
      ("l_access", l_access os)
      ∷ ("l_eaccess", l_eaccess os)
      ∷ ("l_chdir", l_chdir os)
      ∷ ("l_execve", l_execve os)
      ∷ ("l_fexecve", l_fexecve os)
      ∷ ("l_getcwd", l_getcwd os)
      ∷ ("l_getuid", l_getuid os)
      ∷ ("l_geteuid", l_geteuid os)
      ∷ ("l_getgid", l_getgid os)
      ∷ ("l_getegid", l_getegid os)
      ∷ ("l_issetugid", l_issetugid os)
      ∷ ("l_mkdir", l_mkdir os)
      ∷ ("l_close", l_close os)
      ∷ ("l_pipe", l_pipe os)
      ∷ ("l_pipe2", l_pipe2 os)
      ∷ ("l_poll", l_poll os)
      ∷ ("l_read", l_read os)
      ∷ ("l_pread", l_pread os)
      ∷ ("l_write", l_write os)
      ∷ ("l_socket", l_socket os)
      ∷ ("l_bind", l_bind os)
      ∷ ("l_stat", l_stat os)
      ∷ ("l_fstat", l_fstat os)
      ∷ ("l_S_ISBLK", l_s_pred os "S_ISBLK")
      ∷ ("l_S_ISCHR", l_s_pred os "S_ISCHR")
      ∷ ("l_S_ISDIR", l_s_pred os "S_ISDIR")
      ∷ ("l_S_ISFIFO", l_s_pred os "S_ISFIFO")
      ∷ ("l_S_ISREG", l_s_pred os "S_ISREG")
      ∷ ("l_S_ISLNK", l_s_pred os "S_ISLNK")
      ∷ ("l_S_ISSOCK", l_s_pred os "S_ISSOCK")
      ∷ ("l_symlink", l_symlink os)
      ∷ ("l_readlink", l_readlink os)
      ∷ ("l_sysctl", l_sysctl os)
      ∷ ("l_sysctlbyname", l_sysctlbyname os)
      ∷ ("l_unlink", l_unlink os)
      ∷ ("l_unlinkat", l_unlinkat os)
      ∷ ("l_waitpid", l_waitpid os)
      ∷ ("l_getaddrinfo", l_getaddrinfo os)
      ∷ ("l_glob", l_glob os)
      ∷ ("l_basename", l_basename os)
      ∷ ("l_dirname", l_dirname os)
      ∷ ("l_mkstemp", l_mkstemp os)
      ∷ ("l_posix_spawn", l_posix_spawn os)
      ∷ ("l_posix_spawnp", l_posix_spawnp os)
      ∷ ("l_posix_spawn_file_actions_init", l_posix_spawn_file_actions_init os)
      ∷ ("l_posix_spawn_file_actions_addopen", l_posix_spawn_file_actions_addopen os)
      ∷ ("l_posix_spawn_file_actions_adddup2", l_posix_spawn_file_actions_adddup2 os)
      ∷ ("l_posix_spawn_file_actions_addclose", l_posix_spawn_file_actions_addclose os)
      ∷ (
        "l_posix_spawn_file_actions_addclosefrom_np",
        l_posix_spawn_file_actions_addclosefrom_np os,
      )
      ∷ ("l_posix_spawn_file_actions_addchdir_np", l_posix_spawn_file_actions_addchdir_np os)
      ∷ ("l_posix_spawn_file_actions_addfchdir_np", l_posix_spawn_file_actions_addfchdir_np os)
      ∷ ("l_posix_spawn_file_actions_destroy", l_posix_spawn_file_actions_destroy os)
      ∷ ("l_posix_spawnattr_init", l_posix_spawnattr_init os)
      ∷ ("l_posix_spawnattr_getflags", l_posix_spawnattr_getflags os)
      ∷ ("l_posix_spawnattr_setflags", l_posix_spawnattr_setflags os)
      ∷ ("l_posix_spawnattr_getpgroup", l_posix_spawnattr_getpgroup os)
      ∷ ("l_posix_spawnattr_setpgroup", l_posix_spawnattr_setpgroup os)
      ∷ ("l_posix_spawnattr_destroy", l_posix_spawnattr_destroy os)
      ∷ ("l_sysconf", l_sysconf os)
      ∷ ("l_uname", l_uname os)
      ∷ ("l_freebsd_sys_fd_gc", l_freebsd_sys_fd_gc os)
      ∷ []
