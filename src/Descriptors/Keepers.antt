-- ===== src/Descriptors/Keepers.antt =====
-- Every C function of lib/freebsd keeps the ownership of descriptors, for any arguments.
use bricoler.Base.{ℕ, String, ◌≡◌, List, [], ◌∷◌, some, All, end, ◌&◌}
use bricoler.Lua.{Value, Vm, M, enter}
use bricoler.Os.{Os}
use bricoler.Library.{freebsd_meta, sys_modules}
use bricoler.Library.Functions.{find, functions}
use bricoler.Library.Callable.{callable, loaders, find-All, All-append}
use bricoler.Descriptors.{Kernel}
use bricoler.Descriptors.Keeps.{Parts, Keeps}
use bricoler.Descriptors.Keeps.Others.{Others}
use bricoler.Descriptors.Keeps.Files.{
  l_access-Keeps, l_eaccess-Keeps, l_chdir-Keeps, l_getcwd-Keeps, l_getuid-Keeps, l_geteuid-Keeps,
  l_getgid-Keeps, l_getegid-Keeps, l_issetugid-Keeps, l_mkdir-Keeps, l_stat-Keeps, l_fstat-Keeps,
  l_s_pred-Keeps, l_symlink-Keeps, l_readlink-Keeps, l_unlink-Keeps, l_unlinkat-Keeps,
  l_waitpid-Keeps, l_glob-Keeps, l_basename-Keeps, l_dirname-Keeps, l_sysconf-Keeps, l_uname-Keeps,
}
use bricoler.Descriptors.Keeps.Query.{
  l_execve-Keeps, l_fexecve-Keeps, l_sysctl-Keeps, l_sysctlbyname-Keeps,
}
use bricoler.Descriptors.Keeps.Owners.{
  NoFailureAt, l_close-Keeps, l_pipe-Keeps, l_pipe2-Keeps, l_socket-Keeps, l_mkstemp-Keeps,
  gc-Keeps,
}
use bricoler.Descriptors.Keeps.Io.{
  l_poll-Keeps, l_read-Keeps, l_pread-Keeps, l_write-Keeps, l_bind-Keeps,
}
use bricoler.Descriptors.Keeps.Addresses.{l_getaddrinfo-Keeps}
use bricoler.Descriptors.Keeps.Launch.{l_posix_spawn-Keeps, l_posix_spawnp-Keeps}
use bricoler.Descriptors.Keeps.Spawn.{
  l_posix_spawn_file_actions_init-Keeps, l_posix_spawn_file_actions_addopen-Keeps,
  l_posix_spawn_file_actions_adddup2-Keeps, l_posix_spawn_file_actions_addclose-Keeps,
  l_posix_spawn_file_actions_addclosefrom_np-Keeps, l_posix_spawn_file_actions_addchdir_np-Keeps,
  l_posix_spawn_file_actions_addfchdir_np-Keeps, l_posix_spawn_file_actions_destroy-Keeps,
  l_posix_spawnattr_init-Keeps, l_posix_spawnattr_getflags-Keeps, l_posix_spawnattr_setflags-Keeps,
  l_posix_spawnattr_getpgroup-Keeps, l_posix_spawnattr_setpgroup-Keeps,
  l_posix_spawnattr_destroy-Keeps,
}
use bricoler.Descriptors.Keeps.Modules.{
  Keeps-opens, luaopen_freebsd_meta-Keeps, luaopen_posix_spawn-Keeps,
}
use bricoler.Sys.Access.{luaopen_access, l_accesstab, access_constants}
use bricoler.Sys.Chdir.{luaopen_chdir, l_chdirtab}
use bricoler.Sys.Execve.{luaopen_execve, l_execvetab}
use bricoler.Sys.Getcwd.{luaopen_getcwd, l_getcwdtab}
use bricoler.Sys.Getuid.{luaopen_getuid, l_getuidtab}
use bricoler.Sys.Mkdir.{luaopen_mkdir, l_mkdirtab}
use bricoler.Sys.Open.{luaopen_open, l_opentab}
use bricoler.Sys.Pipe.{luaopen_pipe, l_pipetab, pipe_constants}
use bricoler.Sys.Poll.{luaopen_poll, l_polltab, poll_constants}
use bricoler.Sys.Read.{luaopen_read, l_readtab}
use bricoler.Sys.Socket.{luaopen_socket, l_sockettab, socket_constants}
use bricoler.Sys.Stat.{luaopen_stat, l_stattab, stat_constants}
use bricoler.Sys.Symlink.{luaopen_symlink, l_symlinktab}
use bricoler.Sys.Sysctl.{luaopen_sysctl, l_sysctltab}
use bricoler.Sys.Unlink.{luaopen_unlink, l_unlinktab, unlink_constants}
use bricoler.Sys.Wait.{luaopen_wait, l_waittab, wait_constants}
use bricoler.Errno.{luaopen_errno, errno_constants}
use bricoler.Getaddrinfo.{luaopen_getaddrinfo, l_getaddrinfotab, getaddrinfo_constants}
use bricoler.Glob.{luaopen_glob, l_globtab, glob_constants}
use bricoler.Libgen.{luaopen_libgen, l_libgentab}
use bricoler.Mktemp.{luaopen_mktemp, l_mktemptab}
use bricoler.Sysconf.{luaopen_sysconf, l_sysconftab, sysconf_constants}
use bricoler.Uname.{luaopen_uname, l_unametab}

module _ {W : Type 0} (os : Os W) where
  -- A function that keeps the ownership of descriptors, for any arguments, where no close(2) fails
  -- but for EBADF.
  abbrev pub Keeper : M W ℕ → Type 0
  Keeper m =
      (args : List Value) (vm : Vm W)
      → NoFailureAt os args vm
      → Parts os vm
      → Keeps os (m (enter args vm))

  abbrev Keepers : List (String × M W ℕ) → Type 0
  Keepers = All (λ e. Keeper e.1)

module _ {W : Type 0} (os : Os W) (k : Kernel os) (o : Others os) where
  functions-Keepers : Keepers os (functions os)
  functions-Keepers =
      (λ args vm n p. l_access-Keeps os o args vm p)
      & (λ args vm n p. l_eaccess-Keeps os o args vm p)
      & (λ args vm n p. l_chdir-Keeps os o args vm p)
      & (λ args vm n p. l_execve-Keeps os o args vm p)
      & (λ args vm n p. l_fexecve-Keeps os o args vm p)
      & (λ args vm n p. l_getcwd-Keeps os o args vm p)
      & (λ args vm n p. l_getuid-Keeps os o args vm p)
      & (λ args vm n p. l_geteuid-Keeps os o args vm p)
      & (λ args vm n p. l_getgid-Keeps os o args vm p)
      & (λ args vm n p. l_getegid-Keeps os o args vm p)
      & (λ args vm n p. l_issetugid-Keeps os o args vm p)
      & (λ args vm n p. l_mkdir-Keeps os o args vm p)
      & l_close-Keeps os k
      & (λ args vm n p. l_pipe-Keeps os k args vm p)
      & (λ args vm n p. l_pipe2-Keeps os k args vm p)
      & (λ args vm n p. l_poll-Keeps os o args vm p)
      & (λ args vm n p. l_read-Keeps os o args vm p)
      & (λ args vm n p. l_pread-Keeps os o args vm p)
      & (λ args vm n p. l_write-Keeps os o args vm p)
      & (λ args vm n p. l_socket-Keeps os k args vm p)
      & (λ args vm n p. l_bind-Keeps os o args vm p)
      & (λ args vm n p. l_stat-Keeps os o args vm p)
      & (λ args vm n p. l_fstat-Keeps os o args vm p)
      & (λ args vm n p. l_s_pred-Keeps os o args vm p "S_ISBLK")
      & (λ args vm n p. l_s_pred-Keeps os o args vm p "S_ISCHR")
      & (λ args vm n p. l_s_pred-Keeps os o args vm p "S_ISDIR")
      & (λ args vm n p. l_s_pred-Keeps os o args vm p "S_ISFIFO")
      & (λ args vm n p. l_s_pred-Keeps os o args vm p "S_ISREG")
      & (λ args vm n p. l_s_pred-Keeps os o args vm p "S_ISLNK")
      & (λ args vm n p. l_s_pred-Keeps os o args vm p "S_ISSOCK")
      & (λ args vm n p. l_symlink-Keeps os o args vm p)
      & (λ args vm n p. l_readlink-Keeps os o args vm p)
      & (λ args vm n p. l_sysctl-Keeps os o args vm p)
      & (λ args vm n p. l_sysctlbyname-Keeps os o args vm p)
      & (λ args vm n p. l_unlink-Keeps os o args vm p)
      & (λ args vm n p. l_unlinkat-Keeps os o args vm p)
      & (λ args vm n p. l_waitpid-Keeps os o args vm p)
      & (λ args vm n p. l_getaddrinfo-Keeps os o args vm p)
      & (λ args vm n p. l_glob-Keeps os o args vm p)
      & (λ args vm n p. l_basename-Keeps os o args vm p)
      & (λ args vm n p. l_dirname-Keeps os o args vm p)
      & (λ args vm n p. l_mkstemp-Keeps os k args vm p)
      & (λ args vm n p. l_posix_spawn-Keeps os o args vm p)
      & (λ args vm n p. l_posix_spawnp-Keeps os o args vm p)
      & (λ args vm n p. l_posix_spawn_file_actions_init-Keeps os o args vm p)
      & (λ args vm n p. l_posix_spawn_file_actions_addopen-Keeps os o args vm p)
      & (λ args vm n p. l_posix_spawn_file_actions_adddup2-Keeps os o args vm p)
      & (λ args vm n p. l_posix_spawn_file_actions_addclose-Keeps os o args vm p)
      & (λ args vm n p. l_posix_spawn_file_actions_addclosefrom_np-Keeps os o args vm p)
      & (λ args vm n p. l_posix_spawn_file_actions_addchdir_np-Keeps os o args vm p)
      & (λ args vm n p. l_posix_spawn_file_actions_addfchdir_np-Keeps os o args vm p)
      & (λ args vm n p. l_posix_spawn_file_actions_destroy-Keeps os o args vm p)
      & (λ args vm n p. l_posix_spawnattr_init-Keeps os o args vm p)
      & (λ args vm n p. l_posix_spawnattr_getflags-Keeps os o args vm p)
      & (λ args vm n p. l_posix_spawnattr_setflags-Keeps os o args vm p)
      & (λ args vm n p. l_posix_spawnattr_getpgroup-Keeps os o args vm p)
      & (λ args vm n p. l_posix_spawnattr_setpgroup-Keeps os o args vm p)
      & (λ args vm n p. l_posix_spawnattr_destroy-Keeps os o args vm p)
      & (λ args vm n p. l_sysconf-Keeps os o args vm p)
      & (λ args vm n p. l_uname-Keeps os o args vm p)
      & gc-Keeps os k
      & end

  loaders-Keepers : Keepers os (loaders (freebsd_meta os ∷ sys_modules os))
  unfolding luaopen_access luaopen_chdir luaopen_execve luaopen_getcwd luaopen_getuid luaopen_mkdir
      luaopen_open luaopen_pipe luaopen_poll luaopen_read luaopen_socket luaopen_stat
      luaopen_symlink luaopen_sysctl luaopen_unlink luaopen_wait luaopen_errno luaopen_getaddrinfo
      luaopen_glob luaopen_libgen luaopen_mktemp luaopen_sysconf luaopen_uname
  loaders-Keepers =
      (λ args vm n p. luaopen_freebsd_meta-Keeps os args vm p)
      & (λ args vm n p. Keeps-opens os args vm p l_accesstab access_constants)
      & (λ args vm n p. Keeps-opens os args vm p l_chdirtab [])
      & (λ args vm n p. Keeps-opens os args vm p l_execvetab [])
      & (λ args vm n p. Keeps-opens os args vm p l_getcwdtab [])
      & (λ args vm n p. Keeps-opens os args vm p l_getuidtab [])
      & (λ args vm n p. Keeps-opens os args vm p l_mkdirtab [])
      & (λ args vm n p. Keeps-opens os args vm p l_opentab [])
      & (λ args vm n p. Keeps-opens os args vm p l_pipetab pipe_constants)
      & (λ args vm n p. Keeps-opens os args vm p l_polltab poll_constants)
      & (λ args vm n p. Keeps-opens os args vm p l_readtab [])
      & (λ args vm n p. Keeps-opens os args vm p l_sockettab socket_constants)
      & (λ args vm n p. Keeps-opens os args vm p l_stattab stat_constants)
      & (λ args vm n p. Keeps-opens os args vm p l_symlinktab [])
      & (λ args vm n p. Keeps-opens os args vm p l_sysctltab [])
      & (λ args vm n p. Keeps-opens os args vm p l_unlinktab unlink_constants)
      & (λ args vm n p. Keeps-opens os args vm p l_waittab wait_constants)
      & (λ args vm n p. Keeps-opens os args vm p [] errno_constants)
      & (λ args vm n p. Keeps-opens os args vm p l_getaddrinfotab getaddrinfo_constants)
      & (λ args vm n p. Keeps-opens os args vm p l_globtab glob_constants)
      & (λ args vm n p. Keeps-opens os args vm p l_libgentab [])
      & (λ args vm n p. Keeps-opens os args vm p l_mktemptab [])
      & (λ args vm n p. luaopen_posix_spawn-Keeps os args vm p)
      & (λ args vm n p. Keeps-opens os args vm p l_sysconftab sysconf_constants)
      & (λ args vm n p. Keeps-opens os args vm p l_unametab [])
      & end

  pub callable-Keeper : (f : String) (m : M W ℕ) → find f (callable os) ≡ some m → Keeper os m
  callable-Keeper f m e =
      find-All (λ f m. Keeper os m) f (callable os) m
        (All-append (functions os) _ functions-Keepers loaders-Keepers) e
