-- ===== src/Descriptors/Keeps/Files.antt =====
-- The functions on files by name keep the ownership of descriptors.
use bricoler.Base.{ℕ, zero, ◌+◌, suc, ℤ, pos, negsuc, String, List, [], ◌∷◌, Option, some, none}
use bricoler.Lua.{Bytes, Value, Vm, enter}
use bricoler.Os.{Os, WaitStatus, exited, signaled, stopped, other_status}
use bricoler.Descriptors.Keeps.{keeps_rules, Parts, Keeps}
use bricoler.Descriptors.Keeps.Tables.{table_rules}
use bricoler.Descriptors.Keeps.Others.{Others}
use bricoler.Sys.Access.{l_access, l_eaccess}
use bricoler.Sys.Chdir.{l_chdir}
use bricoler.Sys.Getcwd.{l_getcwd}
use bricoler.Sys.Mkdir.{l_mkdir}
use bricoler.Sys.Stat.{l_stat, l_fstat, l_s_pred}
use bricoler.Sys.Symlink.{l_symlink, l_readlink}
use bricoler.Sys.Unlink.{l_unlink, l_unlinkat}
use bricoler.Sys.Wait.{l_waitpid, push_status, push_child}
use bricoler.Sys.Getuid.{l_getuid, l_geteuid, l_getgid, l_getegid, l_issetugid}
use bricoler.Sysconf.{l_sysconf, push_limit}
use bricoler.Uname.{l_uname}
use bricoler.Libgen.{l_basename, l_dirname}
use bricoler.Glob.{l_glob, push_paths, keep_list, finish_glob}

module _ {W : Type 0} (os : Os W) where
  Keeps-push_paths :
      (i : ℕ) (paths : List Bytes) (vm : Vm W) → Parts os vm → Keeps os (push_paths os i paths vm)
  unfolding push_paths
  Keeps-push_paths i [] vm p = search keeps_rules depth 5
  Keeps-push_paths i (path ∷ paths) vm p =
      search (table_rules, Keeps-push_paths (i + 1) paths) depth 10

  Keeps-keep_list :
      (paths : List Bytes) (vm : Vm W) → Parts os vm → Keeps os (keep_list os paths vm)
  unfolding keep_list
  Keeps-keep_list [] vm p = search keeps_rules depth 5
  Keeps-keep_list (path ∷ paths) vm p = search keeps_rules depth 5

  Keeps-finish_glob :
      (r : ℤ × List Bytes) (vm : Vm W) → Parts os vm → Keeps os (finish_glob os r vm)
  unfolding finish_glob
  Keeps-finish_glob (pos zero, paths) vm p = search (table_rules, Keeps-push_paths) depth 20
  Keeps-finish_glob (pos (suc n), paths) vm p = search (keeps_rules, Keeps-keep_list) depth 20
  Keeps-finish_glob (negsuc n, paths) vm p = search (keeps_rules, Keeps-keep_list) depth 20

  Keeps-push_limit :
      (r : Option (Option ℤ)) (vm : Vm W) → Parts os vm → Keeps os (push_limit os r vm)
  unfolding push_limit
  Keeps-push_limit none vm p = search keeps_rules depth 10
  Keeps-push_limit (some none) vm p = search keeps_rules depth 10
  Keeps-push_limit (some (some z)) vm p = search keeps_rules depth 10

  Keeps-push_status : (s : WaitStatus) (vm : Vm W) → Parts os vm → Keeps os (push_status os s vm)
  unfolding push_status
  Keeps-push_status (exited z) vm p = search keeps_rules depth 20
  Keeps-push_status (signaled z) vm p = search keeps_rules depth 20
  Keeps-push_status (stopped z) vm p = search keeps_rules depth 20
  Keeps-push_status other_status vm p = search keeps_rules depth 20

  Keeps-push_child :
      (pid status : ℤ) (vm : Vm W) → Parts os vm → Keeps os (push_child os pid status vm)
  unfolding push_child
  Keeps-push_child (pos zero) status vm p = search keeps_rules depth 20
  Keeps-push_child (pos (suc n)) status vm p = search (keeps_rules, Keeps-push_status) depth 20
  Keeps-push_child (negsuc n) status vm p = search (keeps_rules, Keeps-push_status) depth 20

module _ {W : Type 0} (os : Os W) (o : Others os) (args : List Value) (vm : Vm W)
    (p : Parts os vm) where
  pub l_access-Keeps : Keeps os (l_access os (enter args vm))
  unfolding l_access
  l_access-Keeps = search (keeps_rules, o.access) depth 20

  pub l_eaccess-Keeps : Keeps os (l_eaccess os (enter args vm))
  unfolding l_eaccess
  l_eaccess-Keeps = search (keeps_rules, o.eaccess) depth 20

  pub l_chdir-Keeps : Keeps os (l_chdir os (enter args vm))
  unfolding l_chdir
  l_chdir-Keeps = search (keeps_rules, o.chdir) depth 20

  pub l_getcwd-Keeps : Keeps os (l_getcwd os (enter args vm))
  unfolding l_getcwd
  l_getcwd-Keeps = search (keeps_rules, o.getcwd) depth 20

  pub l_mkdir-Keeps : Keeps os (l_mkdir os (enter args vm))
  unfolding l_mkdir
  l_mkdir-Keeps = search (keeps_rules, o.mkdir) depth 20

  pub l_stat-Keeps : Keeps os (l_stat os (enter args vm))
  unfolding l_stat
  l_stat-Keeps = search (table_rules, o.stat) depth 20

  pub l_fstat-Keeps : Keeps os (l_fstat os (enter args vm))
  unfolding l_fstat
  l_fstat-Keeps = search (table_rules, o.lstat) depth 20

  pub l_symlink-Keeps : Keeps os (l_symlink os (enter args vm))
  unfolding l_symlink
  l_symlink-Keeps = search (keeps_rules, o.symlink) depth 20

  pub l_readlink-Keeps : Keeps os (l_readlink os (enter args vm))
  unfolding l_readlink
  l_readlink-Keeps = search (keeps_rules, o.readlink) depth 20

  pub l_unlink-Keeps : Keeps os (l_unlink os (enter args vm))
  unfolding l_unlink
  l_unlink-Keeps = search (keeps_rules, o.unlink) depth 20

  pub l_unlinkat-Keeps : Keeps os (l_unlinkat os (enter args vm))
  unfolding l_unlinkat
  l_unlinkat-Keeps = search (keeps_rules, o.unlinkat) depth 20

  pub l_waitpid-Keeps : Keeps os (l_waitpid os (enter args vm))
  unfolding l_waitpid
  l_waitpid-Keeps = search (keeps_rules, o.waitpid, Keeps-push_child os) depth 20

  pub l_sysconf-Keeps : Keeps os (l_sysconf os (enter args vm))
  unfolding l_sysconf
  l_sysconf-Keeps = search (keeps_rules, o.sysconf, Keeps-push_limit os) depth 20

  pub l_uname-Keeps : Keeps os (l_uname os (enter args vm))
  unfolding l_uname
  l_uname-Keeps = search (table_rules, o.uname) depth 20

  pub l_basename-Keeps : Keeps os (l_basename os (enter args vm))
  unfolding l_basename
  l_basename-Keeps = search (keeps_rules, o.malloc) depth 20

  pub l_dirname-Keeps : Keeps os (l_dirname os (enter args vm))
  unfolding l_dirname
  l_dirname-Keeps = search (keeps_rules, o.malloc) depth 20

  pub l_glob-Keeps : Keeps os (l_glob os (enter args vm))
  unfolding l_glob
  l_glob-Keeps = search (table_rules, o.glob, Keeps-finish_glob os) depth 20

  pub l_getuid-Keeps : Keeps os (l_getuid os (enter args vm))
  unfolding l_getuid
  l_getuid-Keeps = search keeps_rules depth 20

  pub l_geteuid-Keeps : Keeps os (l_geteuid os (enter args vm))
  unfolding l_geteuid
  l_geteuid-Keeps = search keeps_rules depth 20

  pub l_getgid-Keeps : Keeps os (l_getgid os (enter args vm))
  unfolding l_getgid
  l_getgid-Keeps = search keeps_rules depth 20

  pub l_getegid-Keeps : Keeps os (l_getegid os (enter args vm))
  unfolding l_getegid
  l_getegid-Keeps = search keeps_rules depth 20

  pub l_issetugid-Keeps : Keeps os (l_issetugid os (enter args vm))
  unfolding l_issetugid
  l_issetugid-Keeps = search keeps_rules depth 20

  pub l_s_pred-Keeps : (name : String) → Keeps os (l_s_pred os name (enter args vm))
  unfolding l_s_pred
  l_s_pred-Keeps name = search keeps_rules depth 20
