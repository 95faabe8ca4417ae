-- ===== src/Tests/Sequences.antt =====
-- Concrete sequences of calls of the functions of lib/freebsd, from the loading of sys.lua on.
use bricoler.Base.{
  ℕ, zero, suc, ℤ, String, ◌≡◌, refl, pos, negsuc, List, [], ◌∷◌, Option, map, codes, All,
}
use bricoler.Lua.{
  Bytes, string, userdata, table, new, sys_fd, file_actions, spawnattr, bad_arg, Vm, enter, done,
}
use bricoler.Contract.{call}
use bricoler.Contract.Fd.{state_after}
use bricoler.Contract.Balance.{Balances}
use bricoler.Descriptors.{NoFailure, Owned, Safe}
use bricoler.Descriptors.Keeps.{ClosesNone}
use bricoler.Descriptors.Keeps.Others.{Others}
use bricoler.Descriptors.Calls.{
  Reach, here, next, returns, raises, elsewhere, NoFailureCalls, library-Owned,
}
use bricoler.Descriptors.Blocks.{BalancedCalls, calls-balanced}
use bricoler.Library.{sys_modules, load_sys, module_table, plain}
use bricoler.Library.Requires.{Registers, adding, loaded}
use bricoler.Library.Loading.{Exports, load_sys-Loaded}
use bricoler.Library.Functions.{find}
use bricoler.Meta.{l_freebsd_sys_fd_gc, luaopen_freebsd_meta}
use bricoler.PosixSpawn.{luaopen_posix_spawn}
use bricoler.Sys.Access.{l_access, luaopen_access}
use bricoler.Sys.Open.{l_close, luaopen_open}
use bricoler.Sys.Pipe.{l_pipe, luaopen_pipe}
use bricoler.Sys.Read.{l_write, luaopen_read}
use bricoler.Sys.Chdir.{luaopen_chdir}
use bricoler.Sys.Execve.{luaopen_execve}
use bricoler.Sys.Getcwd.{luaopen_getcwd}
use bricoler.Sys.Getuid.{luaopen_getuid}
use bricoler.Sys.Mkdir.{luaopen_mkdir}
use bricoler.Sys.Poll.{luaopen_poll}
use bricoler.Sys.Socket.{luaopen_socket}
use bricoler.Sys.Stat.{luaopen_stat}
use bricoler.Sys.Symlink.{luaopen_symlink}
use bricoler.Sys.Sysctl.{luaopen_sysctl}
use bricoler.Sys.Unlink.{luaopen_unlink}
use bricoler.Sys.Wait.{luaopen_wait}
use bricoler.Errno.{luaopen_errno}
use bricoler.Getaddrinfo.{luaopen_getaddrinfo}
use bricoler.Glob.{luaopen_glob}
use bricoler.Libgen.{luaopen_libgen}
use bricoler.Mktemp.{luaopen_mktemp}
use bricoler.Sysconf.{luaopen_sysconf}
use bricoler.Uname.{luaopen_uname, l_unametab}
use bricoler.Tests.Ownership.{test_os-Kernel, test_os-NoFailure}
use bricoler.Tests.Fresh.{fresh_vm}
use bricoler.Tests.System.{World, test_os, sysctl_in, test_tables}

-- Every other call of the system of the tests leaves its descriptors alone.
same : {w : World} → ClosesNone test_os w w
same = record { keeps = λ j _ h. h }

sysctl_same : (oid : List ℤ) (n : Option ℕ) (w : World) → ClosesNone test_os w (sysctl_in oid n w).1
sysctl_same [] n w = same
sysctl_same (pos zero ∷ oid) n w = same
sysctl_same (pos (suc k) ∷ oid) n w = same
sysctl_same (negsuc k ∷ oid) n w = same

test_os-Others : Others test_os
test_os-Others = record {
  malloc = λ x0 x1. same;
  access = λ x0 x1 x2. same;
  eaccess = λ x0 x1 x2. same;
  chdir = λ x0 x1. same;
  getcwd = λ x0. same;
  mkdir = λ x0 x1 x2. same;
  poll = λ x0 x1 x2. same;
  read = λ x0 x1 x2. same;
  pread = λ x0 x1 x2 x3. same;
  write = λ x0 x1 x2. same;
  bind = λ x0 x1 x2. same;
  stat = λ x0 x1. same;
  lstat = λ x0 x1. same;
  symlink = λ x0 x1 x2. same;
  readlink = λ x0 x1. same;
  unlink = λ x0 x1. same;
  unlinkat = λ x0 x1 x2 x3. same;
  waitpid = λ x0 x1 x2. same;
  execve = λ x0 x1 x2 x3. same;
  sysctl = sysctl_same;
  sysctlbyname = λ x0 x1 x2. same;
  sysctlnametomib = λ x0 x1. same;
  sysconf = λ x0 x1. same;
  uname = λ x0. same;
  glob = λ x0 x1 x2. same;
  getaddrinfo = λ x0 x1 x2 x3. same;
  posix_spawn = λ x0 x1 x2 x3 x4 x5 x6. same;
  file_actions_init = λ x0. same;
  file_actions_destroy = λ x0 x1. same;
  addopen = λ x0 x1 x2 x3 x4 x5. same;
  adddup2 = λ x0 x1 x2 x3. same;
  addclose = λ x0 x1 x2. same;
  addclosefrom_np = λ x0 x1 x2. same;
  addchdir_np = λ x0 x1 x2. same;
  addfchdir_np = λ x0 x1 x2. same;
  spawnattr_init = λ x0. same;
  spawnattr_destroy = λ x0 x1. same;
  getflags = λ x0 x1. same;
  setflags = λ x0 x1 x2. same;
  getpgroup = λ x0 x1. same;
  setpgroup = λ x0 x1 x2. same;
}

-- Where the modules' files are.
abbrev some_path_of : String → Bytes
some_path_of s = codes s

load_sys-Loaded_example :
    (vm' : Vm World) × (load_sys some_path_of test_os fresh_vm
      ≡ done (map (loaded test_os some_path_of) (sys_modules test_os)) vm')
    × Registers (sys_fd ∷ file_actions ∷ spawnattr ∷ []) fresh_vm vm'
    × All (Exports test_os) (sys_modules test_os)
load_sys-Loaded_example = load_sys-Loaded test_os some_path_of fresh_vm refl refl refl

-- The state behind the last module, uname.
abbrev loaded_vm : Vm World
loaded_vm = record fresh_vm {
  args = string (codes "uname") ∷ string (codes "uname") ∷ [];
  stack = table (new 0) ∷ [];
  room = 19;
  locals = module_table test_os (plain "uname" (luaopen_uname test_os) l_unametab []) ∷ [];
  registered = adding (sys_fd ∷ file_actions ∷ spawnattr ∷ []) fresh_vm.registered;
}

loaded_lem :
    load_sys some_path_of test_os fresh_vm
    ≡ done (map (loaded test_os some_path_of) (sys_modules test_os)) loaded_vm
unfolding load_sys luaopen_freebsd_meta luaopen_posix_spawn luaopen_access luaopen_chdir
    luaopen_execve luaopen_getcwd luaopen_getuid luaopen_mkdir luaopen_open luaopen_pipe
    luaopen_poll luaopen_read luaopen_socket luaopen_stat luaopen_symlink luaopen_sysctl
    luaopen_unlink luaopen_wait luaopen_errno luaopen_getaddrinfo luaopen_glob luaopen_libgen
    luaopen_mktemp luaopen_sysconf luaopen_uname
loaded_lem = refl

-- The states behind a pipe, and behind the close of its first end.
abbrev piped_vm : Vm World
piped_vm = state_after (l_pipe test_os (enter [] loaded_vm)) loaded_vm

abbrev closed_vm : Vm World
closed_vm = state_after (l_close test_os (enter (userdata 1 ∷ []) piped_vm)) piped_vm

abbrev refused_vm : Vm World
refused_vm = state_after (l_access test_os (enter [] closed_vm)) closed_vm

some_calls : Reach test_os loaded_vm refused_vm
unfolding l_pipe l_close l_access find
some_calls =
    next
      (next
        (next (next here (elsewhere test_tables fresh_vm.world (λ i fd h. absurd (cc h.meta))))
          (returns "l_pipe" (l_pipe test_os) [] 2 refl refl))
        (returns "l_close" (l_close test_os) (userdata 1 ∷ []) 1 refl refl))
      (raises "l_access" (l_access test_os) [] (bad_arg 1) refl refl)

some_calls-NoFailure : NoFailureCalls test_os some_calls
unfolding some_calls
some_calls-NoFailure = ((((tt, tt), tt), test_os-NoFailure piped_vm 1), tt)

library-Owned_example :
    Owned test_os refused_vm
    × ((i : ℕ)
        → NoFailure test_os refused_vm i
        → Safe (Owned test_os) (l_freebsd_sys_fd_gc test_os (enter (userdata i ∷ []) refused_vm)))
library-Owned_example =
    library-Owned test_os test_os-Kernel test_os-Others some_path_of fresh_vm loaded_vm refused_vm
      (map (loaded test_os some_path_of) (sys_modules test_os)) some_calls refl refl refl
      (λ i. refl) loaded_lem some_calls-NoFailure

some_calls-balanced : BalancedCalls test_os some_calls
unfolding some_calls
some_calls-balanced = ((((tt, tt), refl), refl), refl)

calls-balanced_example :
    Balances 0 (call (l_write test_os) (userdata 2 ∷ string (codes "abc") ∷ []) refused_vm)
unfolding find
calls-balanced_example =
    calls-balanced test_os some_calls "l_write" (l_write test_os)
      (userdata 2 ∷ string (codes "abc") ∷ []) some_calls-balanced refl refl
