-- ===== src/Library/Frugal.antt =====
-- Any sequence of calls of all functions of lib/freebsd but a few leaves the blocks as they were.
use bricoler.Base.{
  ℕ, String, ◌≡◌, refl, List, [], ◌∷◌, Bool, true, false, if◌then◌else◌, some, All, end, ◌&◌,
  str_eq, arith, Bool-cases, inl, inr,
}
use bricoler.Lua.{Value, Vm, M, enter, file_actions, spawnattr, pure, ◌>>=◌, ◌>>◌}
use bricoler.Lua.Tables.{lua_newtable}
use bricoler.Lua.Cells.{lual_newmetatable}
use bricoler.Os.{Os, lual_setfuncs, add_constants}
use bricoler.Contract.{call}
use bricoler.Contract.Balance.{Balances}
use bricoler.Contract.Modules.{function_entries, set_all, lual_setfuncs_lem, add_constants_lem}
use bricoler.Library.{freebsd_meta, sys_modules}
use bricoler.Library.Functions.{find, functions}
use bricoler.Library.Callable.{callable, loaders, find-All, All-append}
use bricoler.Library.Balance.{
  l_access-Balances, l_eaccess-Balances, l_chdir-Balances, l_fexecve-Balances, l_getcwd-Balances,
  l_getuid-Balances, l_geteuid-Balances, l_getgid-Balances, l_getegid-Balances,
  l_issetugid-Balances, l_mkdir-Balances, l_close-Balances, l_pipe-Balances, l_pipe2-Balances,
  l_read-Balances, l_pread-Balances, l_write-Balances, l_socket-Balances, l_bind-Balances,
  l_stat-Balances, l_fstat-Balances, l_s_pred-Balances, l_symlink-Balances, l_readlink-Balances,
  l_unlink-Balances, l_unlinkat-Balances, l_waitpid-Balances, l_getaddrinfo-Balances,
  l_basename-Balances, l_dirname-Balances, l_mkstemp-Balances,
  l_posix_spawn_file_actions_addopen-Balances, l_posix_spawn_file_actions_adddup2-Balances,
  l_posix_spawn_file_actions_addclose-Balances, l_posix_spawn_file_actions_addclosefrom_np-Balances,
  l_posix_spawn_file_actions_addchdir_np-Balances, l_posix_spawn_file_actions_addfchdir_np-Balances,
  l_posix_spawnattr_getflags-Balances, l_posix_spawnattr_setflags-Balances,
  l_posix_spawnattr_getpgroup-Balances, l_posix_spawnattr_setpgroup-Balances, l_sysconf-Balances,
  l_uname-Balances, l_freebsd_sys_fd_gc-Balances,
}
use bricoler.Meta.{luaopen_freebsd_meta}
use bricoler.PosixSpawn.{luaopen_posix_spawn}
use bricoler.Sys.Access.{luaopen_access, l_accesstab, access_constants}
use bricoler.Sys.Chdir.{luaopen_chdir, l_chdirtab}
use bricoler.Sys.Execve.{luaopen_execve, l_execvetab}
use bricoler.Sys.Getcwd.{luaopen_getcwd, l_getcwdtab}
use bricoler.Sys.Getuid.{luaopen_getuid, l_getuidtab}
use bricoler.Sys.Mkdir.{luaopen_mkdir, l_mkdirtab}
use bricoler.Sys.Open.{luaopen_open, l_opentab}
use bricoler.Sys.Pipe.{luaopen_pipe, l_pipetab, pipe_constants}
use bricoler.Sys.Poll.{luaopen_poll, l_polltab, poll_constants}
use bricoler.Sys.Read.{luaopen_read, l_readtab}
use bricoler.Sys.Socket.{luaopen_socket, l_sockettab, socket_constants}
use bricoler.Sys.Stat.{luaopen_stat, l_stattab, stat_constants}
use bricoler.Sys.Symlink.{luaopen_symlink, l_symlinktab}
use bricoler.Sys.Sysctl.{luaopen_sysctl, l_sysctltab}
use bricoler.Sys.Unlink.{luaopen_unlink, l_unlinktab, unlink_constants}
use bricoler.Sys.Wait.{luaopen_wait, l_waittab, wait_constants}
use bricoler.Errno.{luaopen_errno, errno_constants}
use bricoler.Getaddrinfo.{luaopen_getaddrinfo, l_getaddrinfotab, getaddrinfo_constants}
use bricoler.Glob.{luaopen_glob, l_globtab, glob_constants}
use bricoler.Libgen.{luaopen_libgen, l_libgentab}
use bricoler.Mktemp.{luaopen_mktemp, l_mktemptab}
use bricoler.Sysconf.{luaopen_sysconf, l_sysconftab, sysconf_constants}
use bricoler.Uname.{luaopen_uname, l_unametab}

-- The functions that may leave more or fewer blocks: those that keep a buffer or an array on some
-- path, those that make or destroy an object of libc, and execve and glob, which do what is undefined
-- for some arguments.
abbrev pub unbalanced : List String
unbalanced =
    "l_execve" ∷ "l_glob" ∷ "l_sysctl" ∷ "l_sysctlbyname" ∷ "l_poll" ∷ "l_posix_spawn"
    ∷ "l_posix_spawnp" ∷ "l_posix_spawn_file_actions_init" ∷ "l_posix_spawn_file_actions_destroy"
    ∷ "l_posix_spawnattr_init" ∷ "l_posix_spawnattr_destroy" ∷ []

abbrev pub mem : String → List String → Bool
mem f [] = false
mem f (g ∷ gs) = if str_eq g f then true else mem f gs

module _ {W : Type 0} where
  -- The function does nothing undefined, and leaves as many blocks as there were, for any arguments.
  abbrev pub Frugal : M W ℕ → Type 0
  Frugal m = (args : List Value) (vm : Vm W) → Balances vm.live (call m args vm)

  abbrev pub FrugalUnless : String → M W ℕ → Type 0
  FrugalUnless f m = mem f unbalanced ≡ false → Frugal m

module _ {W : Type 0} (os : Os W) where
  opens-Frugal :
      (tab : List (String × String)) (cs : List String)
      → Frugal (do lua_newtable; lual_setfuncs tab; add_constants os cs; pure 1)
  opens-Frugal tab cs args vm = rw (lual_setfuncs_lem tab (enter args vm) [] 18) (
      rw (add_constants_lem os cs (enter args vm) (set_all (function_entries tab) []) 18, ◌>>=◌)
        (record { balanced = refl }))

  luaopen_freebsd_meta-Frugal : Frugal (luaopen_freebsd_meta os)
  unfolding luaopen_freebsd_meta
  luaopen_freebsd_meta-Frugal args vm = record { balanced = ground arith }

  luaopen_posix_spawn-Frugal : Frugal (luaopen_posix_spawn os)
  unfolding luaopen_posix_spawn
  luaopen_posix_spawn-Frugal args vm = elim (Bool-cases (vm.registered file_actions)) [
    | inl e ↦ rw (e, lual_newmetatable) (record { balanced = tt })
    | inr e ↦
        rw (e, lual_newmetatable)
          (elim (Bool-cases (vm.registered spawnattr)) [
            | inl e ↦ rw (e, lual_newmetatable) (record { balanced = tt })
            | inr e ↦ rw (e, lual_newmetatable) (record { balanced = refl })
          ])
  ]

  functions-Frugal : All (λ e. FrugalUnless e.0 e.1) (functions os)
  functions-Frugal =
      (λ _. l_access-Balances os)
      & (λ _. l_eaccess-Balances os)
      & (λ _. l_chdir-Balances os)
      & (λ e. absurd (cc e))
      & (λ _. l_fexecve-Balances os)
      & (λ _. l_getcwd-Balances os)
      & (λ _. l_getuid-Balances os)
      & (λ _. l_geteuid-Balances os)
      & (λ _. l_getgid-Balances os)
      & (λ _. l_getegid-Balances os)
      & (λ _. l_issetugid-Balances os)
      & (λ _. l_mkdir-Balances os)
      & (λ _. l_close-Balances os)
      & (λ _. l_pipe-Balances os)
      & (λ _. l_pipe2-Balances os)
      & (λ e. absurd (cc e))
      & (λ _. l_read-Balances os)
      & (λ _. l_pread-Balances os)
      & (λ _. l_write-Balances os)
      & (λ _. l_socket-Balances os)
      & (λ _. l_bind-Balances os)
      & (λ _. l_stat-Balances os)
      & (λ _. l_fstat-Balances os)
      & (λ _ args vm. l_s_pred-Balances os args vm "S_ISBLK")
      & (λ _ args vm. l_s_pred-Balances os args vm "S_ISCHR")
      & (λ _ args vm. l_s_pred-Balances os args vm "S_ISDIR")
      & (λ _ args vm. l_s_pred-Balances os args vm "S_ISFIFO")
      & (λ _ args vm. l_s_pred-Balances os args vm "S_ISREG")
      & (λ _ args vm. l_s_pred-Balances os args vm "S_ISLNK")
      & (λ _ args vm. l_s_pred-Balances os args vm "S_ISSOCK")
      & (λ _. l_symlink-Balances os)
      & (λ _. l_readlink-Balances os)
      & (λ e. absurd (cc e))
      & (λ e. absurd (cc e))
      & (λ _. l_unlink-Balances os)
      & (λ _. l_unlinkat-Balances os)
      & (λ _. l_waitpid-Balances os)
      & (λ _. l_getaddrinfo-Balances os)
      & (λ e. absurd (cc e))
      & (λ _. l_basename-Balances os)
      & (λ _. l_dirname-Balances os)
      & (λ _. l_mkstemp-Balances os)
      & (λ e. absurd (cc e))
      & (λ e. absurd (cc e))
      & (λ e. absurd (cc e))
      & (λ _. l_posix_spawn_file_actions_addopen-Balances os)
      & (λ _. l_posix_spawn_file_actions_adddup2-Balances os)
      & (λ _. l_posix_spawn_file_actions_addclose-Balances os)
      & (λ _. l_posix_spawn_file_actions_addclosefrom_np-Balances os)
      & (λ _. l_posix_spawn_file_actions_addchdir_np-Balances os)
      & (λ _. l_posix_spawn_file_actions_addfchdir_np-Balances os)
      & (λ e. absurd (cc e))
      & (λ e. absurd (cc e))
      & (λ _. l_posix_spawnattr_getflags-Balances os)
      & (λ _. l_posix_spawnattr_setflags-Balances os)
      & (λ _. l_posix_spawnattr_getpgroup-Balances os)
      & (λ _. l_posix_spawnattr_setpgroup-Balances os)
      & (λ e. absurd (cc e))
      & (λ _. l_sysconf-Balances os)
      & (λ _. l_uname-Balances os)
      & (λ _. l_freebsd_sys_fd_gc-Balances os)
      & end

  loaders-Frugal : All (λ e. FrugalUnless e.0 e.1) (loaders (freebsd_meta os ∷ sys_modules os))
  unfolding luaopen_access luaopen_chdir luaopen_execve luaopen_getcwd luaopen_getuid luaopen_mkdir
      luaopen_open luaopen_pipe luaopen_poll luaopen_read luaopen_socket luaopen_stat
      luaopen_symlink luaopen_sysctl luaopen_unlink luaopen_wait luaopen_errno luaopen_getaddrinfo
      luaopen_glob luaopen_libgen luaopen_mktemp luaopen_sysconf luaopen_uname
  loaders-Frugal =
      (λ _. luaopen_freebsd_meta-Frugal)
      & (λ _. opens-Frugal l_accesstab access_constants)
      & (λ _. opens-Frugal l_chdirtab [])
      & (λ _. opens-Frugal l_execvetab [])
      & (λ _. opens-Frugal l_getcwdtab [])
      & (λ _. opens-Frugal l_getuidtab [])
      & (λ _. opens-Frugal l_mkdirtab [])
      & (λ _. opens-Frugal l_opentab [])
      & (λ _. opens-Frugal l_pipetab pipe_constants)
      & (λ _. opens-Frugal l_polltab poll_constants)
      & (λ _. opens-Frugal l_readtab [])
      & (λ _. opens-Frugal l_sockettab socket_constants)
      & (λ _. opens-Frugal l_stattab stat_constants)
      & (λ _. opens-Frugal l_symlinktab [])
      & (λ _. opens-Frugal l_sysctltab [])
      & (λ _. opens-Frugal l_unlinktab unlink_constants)
      & (λ _. opens-Frugal l_waittab wait_constants)
      & (λ _. opens-Frugal [] errno_constants)
      & (λ _. opens-Frugal l_getaddrinfotab getaddrinfo_constants)
      & (λ _. opens-Frugal l_globtab glob_constants)
      & (λ _. opens-Frugal l_libgentab [])
      & (λ _. opens-Frugal l_mktemptab [])
      & (λ _. luaopen_posix_spawn-Frugal)
      & (λ _. opens-Frugal l_sysconftab sysconf_constants)
      & (λ _. opens-Frugal l_unametab [])
      & end

  pub callable-Frugal : (f : String) (m : M W ℕ) → find f (callable os) ≡ some m → FrugalUnless f m
  callable-Frugal f m e =
      find-All (λ f m. FrugalUnless f m) f (callable os) m
        (All-append (functions os) _ functions-Frugal loaders-Frugal) e
