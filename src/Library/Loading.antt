-- ===== src/Library/Loading.antt =====
-- The loading of lib/freebsd/sys.lua: every module is opened, and its table binds its names.
use bricoler.Base.{
  ◌≡◌, refl, sym, subst, String, List, [], ◌∷◌, Bool, true, false, map, ◌&&◌, arith, All, end, ◌&◌,
}
use bricoler.Lua.{Bytes, sys_fd, file_actions, spawnattr, Meta, Vm, done}
use bricoler.Os.{Os}
use bricoler.Contract.Modules.{Bound, set_all-Bound, distinct}
use bricoler.Sys.Access.{luaopen_access, l_accesstab, access_constants}
use bricoler.Sys.Chdir.{luaopen_chdir, l_chdirtab}
use bricoler.Sys.Execve.{luaopen_execve, l_execvetab}
use bricoler.Sys.Getcwd.{luaopen_getcwd, l_getcwdtab}
use bricoler.Sys.Getuid.{luaopen_getuid, l_getuidtab}
use bricoler.Sys.Mkdir.{luaopen_mkdir, l_mkdirtab}
use bricoler.Sys.Open.{luaopen_open, l_opentab}
use bricoler.Sys.Pipe.{luaopen_pipe, l_pipetab, pipe_constants}
use bricoler.Sys.Poll.{luaopen_poll, l_polltab, poll_constants}
use bricoler.Sys.Read.{luaopen_read, l_readtab}
use bricoler.Sys.Socket.{luaopen_socket, l_sockettab, socket_constants}
use bricoler.Sys.Stat.{luaopen_stat, l_stattab, stat_constants}
use bricoler.Sys.Symlink.{luaopen_symlink, l_symlinktab}
use bricoler.Sys.Sysctl.{luaopen_sysctl, l_sysctltab}
use bricoler.Sys.Unlink.{luaopen_unlink, l_unlinktab, unlink_constants}
use bricoler.Sys.Wait.{luaopen_wait, l_waittab, wait_constants}
use bricoler.Errno.{luaopen_errno, errno_constants}
use bricoler.Getaddrinfo.{luaopen_getaddrinfo, l_getaddrinfotab, getaddrinfo_constants}
use bricoler.Glob.{luaopen_glob, l_globtab, glob_constants}
use bricoler.Libgen.{luaopen_libgen, l_libgentab}
use bricoler.Mktemp.{luaopen_mktemp, l_mktemptab}
use bricoler.Sysconf.{luaopen_sysconf, l_sysconftab, sysconf_constants}
use bricoler.Uname.{luaopen_uname, l_unametab}
use bricoler.Library.Functions.{find, functions, all_found}
use bricoler.Library.{Module, entries, module_table, sys_modules, load_sys}
use bricoler.Library.Requires.{
  adding, Registers, Openable, Ready, all_metas, loaded, plain-Openable, meta-Openable,
  posix_spawn-Openable, Registers-trans, load_modules-Loaded,
}

module _ {W : Type 0} (os : Os W) where
  -- The names of a module's table have the values of its entries, and each function that its luaL_Reg
  -- array names is one of the library.
  pub record Exports (m : Module W) : Type 0 where
    pub bound : Bound (module_table os m) (entries os m)
    pub found : all_found (functions os) m.tab ≡ true

  check : List (Module W) → Bool
  check [] = true
  check (m ∷ ms) = distinct (entries os m) && all_found (functions os) m.tab && check ms

  check-Exports : (ms : List (Module W)) → check ms ≡ true → All Exports ms
  unfolding check
  check-Exports [] h = end
  check-Exports (m ∷ ms) h =
      record {
        bound = set_all-Bound (entries os m) [] (ground (arith, h));
        found = ground (arith, h);
      }
      & check-Exports ms (ground (arith, h))

  sys_modules-Exports : All Exports (sys_modules os)
  unfolding check find
  sys_modules-Exports = check-Exports (sys_modules os) refl

module _ {W : Type 0} (os : Os W) (path : String → Bytes) where
  sys_modules-Openable : All (Openable os path) (sys_modules os)
  unfolding luaopen_access luaopen_chdir luaopen_execve luaopen_getcwd luaopen_getuid luaopen_mkdir
      luaopen_open luaopen_pipe luaopen_poll luaopen_read luaopen_socket luaopen_stat
      luaopen_symlink luaopen_sysctl luaopen_unlink luaopen_wait luaopen_errno luaopen_getaddrinfo
      luaopen_glob luaopen_libgen luaopen_mktemp luaopen_sysconf luaopen_uname
  sys_modules-Openable =
      plain-Openable os path "access" l_accesstab access_constants
      & plain-Openable os path "chdir" l_chdirtab []
      & plain-Openable os path "execve" l_execvetab []
      & plain-Openable os path "getcwd" l_getcwdtab []
      & plain-Openable os path "getuid" l_getuidtab []
      & plain-Openable os path "mkdir" l_mkdirtab []
      & plain-Openable os path "open" l_opentab []
      & plain-Openable os path "pipe" l_pipetab pipe_constants
      & plain-Openable os path "poll" l_polltab poll_constants
      & plain-Openable os path "read" l_readtab []
      & plain-Openable os path "socket" l_sockettab socket_constants
      & plain-Openable os path "stat" l_stattab stat_constants
      & plain-Openable os path "symlink" l_symlinktab []
      & plain-Openable os path "sysctl" l_sysctltab []
      & plain-Openable os path "unlink" l_unlinktab unlink_constants
      & plain-Openable os path "wait" l_waittab wait_constants
      & plain-Openable os path "errno" [] errno_constants
      & plain-Openable os path "getaddrinfo" l_getaddrinfotab getaddrinfo_constants
      & plain-Openable os path "glob" l_globtab glob_constants
      & plain-Openable os path "libgen" l_libgentab []
      & plain-Openable os path "mktemp" l_mktemptab []
      & posix_spawn-Openable os path
      & plain-Openable os path "sysconf" l_sysconftab sysconf_constants
      & plain-Openable os path "uname" l_unametab []
      & end

  -- sys.lua, run where none of the three metatables is registered, opens every module: it returns one
  -- table for each of its 24 names, in their order, and registers the three metatables; userdata,
  -- older tables, blocks and the system are as before. In each table every name has its function or
  -- constant, and every function of a luaL_Reg array is one of the functions of the library.
  pub load_sys-Loaded :
      (vm : Vm W)
      → vm.registered sys_fd ≡ false
      → vm.registered file_actions ≡ false
      → vm.registered spawnattr ≡ false
      → (vm' : Vm W) × (load_sys path os vm ≡ done (map (loaded os path) (sys_modules os)) vm')
        × Registers (sys_fd ∷ file_actions ∷ spawnattr ∷ []) vm vm'
        × All (Exports os) (sys_modules os)
  unfolding load_sys
  load_sys-Loaded vm a b c =
      let first = meta-Openable os path vm (a, tt) in
      let ready : Ready os path (sys_modules os) first.0.registered =
        subst (Ready os path (sys_modules os)) (sym first.2.registry)
          (ready_from vm.registered b c) in
      let rest = load_modules-Loaded os path (sys_modules os) first.0 sys_modules-Openable ready in
      (
        rest.0,
        rw first.1 (rest.1),
        Registers-trans os path (sys_fd ∷ []) (all_metas os path (sys_modules os)) vm first.0 rest.0
            first.2 rest.2,
        sys_modules-Exports os,
      )
    where
      ready_from :
          (r : Meta → Bool)
          → r file_actions ≡ false
          → r spawnattr ≡ false
          → Ready os path (sys_modules os) (adding (sys_fd ∷ []) r)
      ready_from r b c = ground arith
