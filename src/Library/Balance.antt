-- ===== src/Library/Balance.antt =====
-- The functions of lib/freebsd that leave as many blocks behind as they found, for any arguments.
use bricoler.Base.{
  ℕ, refl, arith, Option-cases, String, List, [], ◌∷◌, inl, inr, Bool-cases, is_neg_one, get_elem?,
}
use bricoler.Lua.{Value, Vm, M, sys_fd, userdata}
use bricoler.Os.{Os}
use bricoler.Contract.{with_arg, call, c_string_arg}
use bricoler.Contract.Balance.{
  Balances, balance_rules, by, Balances-stat, Balances-table, Balances-crashed,
}
use bricoler.Contract.Io.{udata_arg, l_read-reply, l_basename-reply, l_waitpid-reply}
use bricoler.Contract.Files.{l_access-reply}
use bricoler.Contract.Query.{uname_table, uname_contract, l_stat-table}
use bricoler.Contract.Fd.{l_close-reply}
use bricoler.Contract.Making.{l_socket-reply}
use bricoler.Contract.Spawn.{add-reply, attr-reply}
use bricoler.Contract.Hints.{asked}
use bricoler.Contract.Getaddrinfo.{l_getaddrinfo-array}
use bricoler.Sys.Access.{l_access, l_eaccess}
use bricoler.Sys.Chdir.{l_chdir}
use bricoler.Sys.Execve.{l_fexecve}
use bricoler.Sys.Getcwd.{l_getcwd}
use bricoler.Sys.Getuid.{l_getuid, l_geteuid, l_getgid, l_getegid, l_issetugid}
use bricoler.Sys.Mkdir.{l_mkdir}
use bricoler.Sys.Open.{l_close}
use bricoler.Sys.Pipe.{l_pipe, l_pipe2}
use bricoler.Sys.Read.{l_read, l_pread, l_write}
use bricoler.Sys.Socket.{l_socket, l_bind}
use bricoler.Sys.Stat.{l_stat, l_fstat, l_s_pred}
use bricoler.Sys.Symlink.{l_symlink, l_readlink}
use bricoler.Sys.Unlink.{l_unlink, l_unlinkat}
use bricoler.Sys.Wait.{l_waitpid}
use bricoler.Getaddrinfo.{l_getaddrinfo, null_if_empty}
use bricoler.Libgen.{l_basename, l_dirname}
use bricoler.Mktemp.{l_mkstemp}
use bricoler.PosixSpawn.FileActions.{
  l_posix_spawn_file_actions_addopen, l_posix_spawn_file_actions_adddup2,
  l_posix_spawn_file_actions_addclose, l_posix_spawn_file_actions_addclosefrom_np,
  l_posix_spawn_file_actions_addchdir_np, l_posix_spawn_file_actions_addfchdir_np,
}
use bricoler.PosixSpawn.Attributes.{
  l_posix_spawnattr_getflags, l_posix_spawnattr_setflags, l_posix_spawnattr_getpgroup,
  l_posix_spawnattr_setpgroup,
}
use bricoler.Sysconf.{l_sysconf}
use bricoler.Uname.{l_uname}
use bricoler.Meta.{l_freebsd_sys_fd_gc}
use bricoler.Contract.Balance.Made.{
  outcome_of, Balances-addresses, Balances-limit, Balances-with_hints,
}

module _ {W : Type 0} (os : Os W) where
  pub l_freebsd_sys_fd_gc-Balances :
      (args : List Value) (vm : Vm W) → Balances vm.live (call (l_freebsd_sys_fd_gc os) args vm)
  unfolding l_freebsd_sys_fd_gc
  l_freebsd_sys_fd_gc-Balances [] vm = record { balanced = refl }
  l_freebsd_sys_fd_gc-Balances (userdata i ∷ rest) vm = record { balanced = ground arith }
  l_freebsd_sys_fd_gc-Balances (v ∷ rest) vm = record { balanced = refl }

module _ {W : Type 0} (os : Os W) (args : List Value) (vm : Vm W) where
  abbrev pub CallBalances : M W ℕ → Type 0
  CallBalances m = Balances vm.live (call m args vm)

  pub l_access-Balances : CallBalances (l_access os)
  l_access-Balances = by (l_access-reply os vm args).0 (search balance_rules depth 20)

  pub l_eaccess-Balances : CallBalances (l_eaccess os)
  l_eaccess-Balances = by (l_access-reply os vm args).1 (search balance_rules depth 20)

  pub l_chdir-Balances : CallBalances (l_chdir os)
  l_chdir-Balances = by (l_access-reply os vm args).4 (search balance_rules depth 20)

  pub l_unlink-Balances : CallBalances (l_unlink os)
  l_unlink-Balances = by (l_access-reply os vm args).5 (search balance_rules depth 20)

  pub l_readlink-Balances : CallBalances (l_readlink os)
  l_readlink-Balances = by (l_access-reply os vm args).6 (search balance_rules depth 20)

  pub l_getcwd-Balances : CallBalances (l_getcwd os)
  l_getcwd-Balances = by (l_access-reply os vm args).7 (search balance_rules depth 20)

  pub l_mkdir-Balances : CallBalances (l_mkdir os)
  l_mkdir-Balances = by (l_access-reply os vm args).2 (search balance_rules depth 20)

  pub l_symlink-Balances : CallBalances (l_symlink os)
  l_symlink-Balances = by (l_access-reply os vm args).3 (search balance_rules depth 20)

  pub l_sysconf-Balances : CallBalances (l_sysconf os)
  l_sysconf-Balances =
      by (l_stat-table os vm args "").4 (search (balance_rules, Balances-limit) depth 20)

  pub l_read-Balances : CallBalances (l_read os)
  l_read-Balances = by (l_read-reply os vm args).0 (search balance_rules depth 20)

  pub l_pread-Balances : CallBalances (l_pread os)
  l_pread-Balances = by (l_read-reply os vm args).1 (search balance_rules depth 20)

  pub l_write-Balances : CallBalances (l_write os)
  l_write-Balances = by (l_read-reply os vm args).2 (search balance_rules depth 20)

  pub l_bind-Balances : CallBalances (l_bind os)
  l_bind-Balances = by (l_read-reply os vm args).3 (search balance_rules depth 20)

  pub l_basename-Balances : CallBalances (l_basename os)
  l_basename-Balances = by (l_basename-reply os vm args).0 (search balance_rules depth 20)

  pub l_dirname-Balances : CallBalances (l_dirname os)
  l_dirname-Balances = by (l_basename-reply os vm args).1 (search balance_rules depth 20)

  pub l_waitpid-Balances : CallBalances (l_waitpid os)
  l_waitpid-Balances = by (l_waitpid-reply os vm args) (search balance_rules depth 20)

  pub l_pipe-Balances : CallBalances (l_pipe os)
  l_pipe-Balances = by (l_socket-reply os vm args).0 (search balance_rules depth 20)

  pub l_pipe2-Balances : CallBalances (l_pipe2 os)
  l_pipe2-Balances = by (l_socket-reply os vm args).1 (search balance_rules depth 20)

  pub l_socket-Balances : CallBalances (l_socket os)
  l_socket-Balances = by (l_socket-reply os vm args).2 (search balance_rules depth 20)

  pub l_mkstemp-Balances : CallBalances (l_mkstemp os)
  l_mkstemp-Balances = by (l_socket-reply os vm args).3 (search balance_rules depth 20)

  pub l_unlinkat-Balances : CallBalances (l_unlinkat os)
  l_unlinkat-Balances =
      by (l_close-reply os vm args).1 (elim (Option-cases (udata_arg vm sys_fd args 0)) [
        | inl q ↦ rw q (record { balanced = refl })
        | inr (i, q) ↦
            rw (q, with_arg)
              (elim (Bool-cases (is_neg_one (vm.cells i).content)) [
                | inl e ↦ rw e (Balances-crashed vm.live)
                | inr e ↦ rw e (search balance_rules depth 20)
              ])
      ])

  pub l_close-Balances : CallBalances (l_close os)
  l_close-Balances =
      by (l_close-reply os vm args).0 (elim (Option-cases (udata_arg vm sys_fd args 0)) [
        | inl q ↦ rw q (record { balanced = refl })
        | inr (i, q) ↦
            rw (q, with_arg)
              (elim (Bool-cases (is_neg_one (vm.cells i).content)) [
                | inl e ↦ rw e (Balances-crashed vm.live)
                | inr e ↦ rw e (search balance_rules depth 20)
              ])
      ])

  pub l_posix_spawn_file_actions_addopen-Balances :
      CallBalances (l_posix_spawn_file_actions_addopen os)
  l_posix_spawn_file_actions_addopen-Balances =
      by (add-reply os vm args).0 (search balance_rules depth 20)

  pub l_posix_spawn_file_actions_adddup2-Balances :
      CallBalances (l_posix_spawn_file_actions_adddup2 os)
  l_posix_spawn_file_actions_adddup2-Balances =
      by (add-reply os vm args).1 (search balance_rules depth 20)

  pub l_posix_spawn_file_actions_addclose-Balances :
      CallBalances (l_posix_spawn_file_actions_addclose os)
  l_posix_spawn_file_actions_addclose-Balances =
      by (add-reply os vm args).2 (search balance_rules depth 20)

  pub l_posix_spawn_file_actions_addfchdir_np-Balances :
      CallBalances (l_posix_spawn_file_actions_addfchdir_np os)
  l_posix_spawn_file_actions_addfchdir_np-Balances =
      by (add-reply os vm args).3 (search balance_rules depth 20)

  pub l_posix_spawn_file_actions_addclosefrom_np-Balances :
      CallBalances (l_posix_spawn_file_actions_addclosefrom_np os)
  l_posix_spawn_file_actions_addclosefrom_np-Balances =
      by (add-reply os vm args).4 (search balance_rules depth 20)

  pub l_posix_spawn_file_actions_addchdir_np-Balances :
      CallBalances (l_posix_spawn_file_actions_addchdir_np os)
  l_posix_spawn_file_actions_addchdir_np-Balances =
      by (add-reply os vm args).5 (search balance_rules depth 20)

  pub l_posix_spawnattr_setflags-Balances : CallBalances (l_posix_spawnattr_setflags os)
  l_posix_spawnattr_setflags-Balances = by (attr-reply os vm args).0 (search balance_rules depth 20)

  pub l_posix_spawnattr_setpgroup-Balances : CallBalances (l_posix_spawnattr_setpgroup os)
  l_posix_spawnattr_setpgroup-Balances =
      by (attr-reply os vm args).1 (search balance_rules depth 20)

  pub l_posix_spawnattr_getflags-Balances : CallBalances (l_posix_spawnattr_getflags os)
  l_posix_spawnattr_getflags-Balances = by (attr-reply os vm args).2 (search balance_rules depth 20)

  pub l_posix_spawnattr_getpgroup-Balances : CallBalances (l_posix_spawnattr_getpgroup os)
  l_posix_spawnattr_getpgroup-Balances =
      by (attr-reply os vm args).3 (search balance_rules depth 20)

  pub l_stat-Balances : CallBalances (l_stat os)
  l_stat-Balances =
      by (outcome_of (l_stat-table os vm args "").0)
        (Balances-stat os vm os.stat (c_string_arg os args 0))

  pub l_fstat-Balances : CallBalances (l_fstat os)
  l_fstat-Balances =
      by (outcome_of (l_stat-table os vm args "").1)
        (Balances-stat os vm os.lstat (c_string_arg os args 0))

  pub l_s_pred-Balances : (pred : String) → CallBalances (l_s_pred os pred)
  l_s_pred-Balances pred = by (l_stat-table os vm args pred).2 (search balance_rules depth 20)

  pub l_getuid-Balances : CallBalances (l_getuid os)
  unfolding l_getuid
  l_getuid-Balances = record { balanced = refl }

  pub l_geteuid-Balances : CallBalances (l_geteuid os)
  unfolding l_geteuid
  l_geteuid-Balances = record { balanced = refl }

  pub l_getgid-Balances : CallBalances (l_getgid os)
  unfolding l_getgid
  l_getgid-Balances = record { balanced = refl }

  pub l_getegid-Balances : CallBalances (l_getegid os)
  unfolding l_getegid
  l_getegid-Balances = record { balanced = refl }

  pub l_issetugid-Balances : CallBalances (l_issetugid os)
  unfolding l_issetugid
  l_issetugid-Balances = record { balanced = refl }

  pub l_fexecve-Balances : CallBalances (l_fexecve os)
  unfolding l_fexecve
  l_fexecve-Balances = record { balanced = refl }

  pub l_uname-Balances : CallBalances (l_uname os)
  l_uname-Balances = by (outcome_of (l_stat-table os vm args "").3) (taken args)
    where
      taken : (args : List Value) → Balances vm.live (uname_contract os vm args).outcome
      taken [] = Balances-table os vm uname_table (os.uname vm.world)
      taken (v ∷ rest) = record { balanced = refl }

  pub l_getaddrinfo-Balances : CallBalances (l_getaddrinfo os)
  l_getaddrinfo-Balances =
      by (outcome_of (l_getaddrinfo-array os args vm))
        (elim (Option-cases (c_string_arg os args 0)) [
          | inl q ↦ rw q (record { balanced = refl })
          | inr (host, q) ↦ rw q (elim (Option-cases (c_string_arg os args 1)) [
            | inl q ↦ rw q (record { balanced = refl })
            | inr (service, q) ↦ rw q (
                Balances-with_hints os vm args (get_elem? args 2) (asked os vm host service)
                  (λ hints. Balances-addresses os vm.live (
                    os.getaddrinfo (null_if_empty os host) (null_if_empty os service) hints
                      vm.world)))
          ])
        ])
