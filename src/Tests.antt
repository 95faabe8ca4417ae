-- ===== src/Tests.antt =====
-- A small system on which the theorems about lib/freebsd are applied to concrete calls: descriptors
-- are numbered in order, the paths and strings are fixed, and error 2 is ENOENT.
pub mod System
mod Ownership
mod Programs
mod Fresh
mod Sequences
mod Tasks
pub mod Calls
use bricoler.Base.{
  ℕ, zero, suc, ◌+◌, ◌*◌, ◌<◌, ◌≤◌, ◌≡◌, ◌≢◌, refl, ℤ, pos, negsuc, List, [], ◌∷◌, Bool, true,
  false, Option, some, none, length, arith, codes, to_int, to_int64, is_neg_one, String,
}
use bricoler.Lua.{
  Bytes, Value, nil, boolean, integer, string, table, userdata, old, index, name, Vm, Cell, sys_fd,
  Meta, Table, enter, cfunction, new, bad_arg,
}
use bricoler.Os.{Os, Ret, ok, fail, type_s16}
use bricoler.Contract.{Outcome, call, returned, failed, error_values}
use bricoler.Tests.Ownership.{test_os-Kernel, test_os-NoFailures, test_vm-Owned}
use bricoler.Tests.System.{World, test_os, test_vm, some_path, some_stat, some_names, open_in}
use bricoler.Contract.Files.{l_access-reply}
use bricoler.Contract.Query.{l_stat-table, call_made, Made, stat_table, uname_table}
use bricoler.Contract.Io.{l_read-reply, l_basename-reply, l_waitpid-reply}
use bricoler.Contract.Sysctl.{l_sysctl-outcome}
use bricoler.Descriptors.{Owned, Safe, history, run_op, Op, socket, pipe, mkstemp, close, gc}
use bricoler.Descriptors.Steps.{history-Owned}
use bricoler.Sys.Sysctl.{l_sysctl, int_value, int_type}
use bricoler.Sys.Sysctl.Decode.{int_value-c_bytes, c_bytes}
use bricoler.Sys.Access.{l_access, l_eaccess}
use bricoler.Sys.Getcwd.{l_getcwd}
use bricoler.Sys.Chdir.{l_chdir}
use bricoler.Sys.Unlink.{l_unlink}
use bricoler.Sys.Mkdir.{l_mkdir}
use bricoler.Sys.Symlink.{l_symlink, l_readlink}
use bricoler.Sys.Stat.{l_stat, l_fstat, l_s_pred}
use bricoler.Uname.{l_uname}
use bricoler.Sysconf.{l_sysconf}
use bricoler.Sys.Read.{l_read, l_pread, l_write}
use bricoler.Sys.Socket.{l_bind}
use bricoler.Libgen.{l_basename, l_dirname}
use bricoler.Sys.Wait.{l_waitpid}

-- What a call returns that leaves the system and the blocks as they were.
abbrev replies : List Value → Outcome World
replies vs = returned vs 0 test_vm.world

abbrev not_found_values : List Value
not_found_values = error_values test_os 2

abbrev path_args : List Value
path_args = string some_path ∷ integer (pos 4) ∷ []

l_access-reply_example :
    (call (l_access test_os) path_args test_vm ≡ replies (boolean true ∷ []))
    × (call (l_eaccess test_os) path_args test_vm ≡ replies not_found_values)
    × (call (l_mkdir test_os) path_args test_vm ≡ replies not_found_values)
    × (call (l_symlink test_os) path_args test_vm ≡ replies (boolean true ∷ []))
    × (call (l_chdir test_os) path_args test_vm ≡ replies (boolean true ∷ []))
    × (call (l_unlink test_os) path_args test_vm ≡ replies (integer (pos 0) ∷ []))
    × (call (l_readlink test_os) path_args test_vm ≡ replies (string (codes "b") ∷ []))
    × (call (l_getcwd test_os) path_args test_vm ≡ replies (string some_path ∷ []))
l_access-reply_example = l_access-reply test_os test_vm path_args

abbrev made : List Value → List Table → Made World
made vs ts = record { outcome = replies vs; made = ts }

l_stat-table_example :
    (call_made (l_stat test_os) (string some_path ∷ []) test_vm
      ≡ made (table (new 0) ∷ []) (stat_table some_stat ∷ []))
    × (call_made (l_fstat test_os) (string some_path ∷ []) test_vm ≡ made not_found_values [])
    × (call (l_s_pred test_os "S_ISREG") (string some_path ∷ []) test_vm
        ≡ failed (bad_arg 1) 0 test_vm.world)
    × (call_made (l_uname test_os) (string some_path ∷ []) test_vm
        ≡ record { outcome = failed (bad_arg 1) 0 test_vm.world; made = [] })
    × (call (l_sysconf test_os) (string some_path ∷ []) test_vm
        ≡ failed (bad_arg 1) 0 test_vm.world)
l_stat-table_example = l_stat-table test_os test_vm (string some_path ∷ []) "S_ISREG"

l_read-reply_example :
    (call (l_read test_os) (userdata 0 ∷ integer (pos 3) ∷ integer (pos 1) ∷ []) test_vm
      ≡ replies (string (codes "hel") ∷ []))
    × (call (l_pread test_os) (userdata 0 ∷ integer (pos 3) ∷ integer (pos 1) ∷ []) test_vm
        ≡ replies not_found_values)
    × (call (l_write test_os) (userdata 0 ∷ integer (pos 3) ∷ integer (pos 1) ∷ []) test_vm
        ≡ replies (integer (pos 1) ∷ []))
    × (call (l_bind test_os) (userdata 0 ∷ integer (pos 3) ∷ integer (pos 1) ∷ []) test_vm
        ≡ replies (boolean true ∷ []))
l_read-reply_example =
    l_read-reply test_os test_vm (userdata 0 ∷ integer (pos 3) ∷ integer (pos 1) ∷ [])

l_basename-reply_example :
    (call (l_basename test_os) (string some_path ∷ []) test_vm ≡ replies (string (codes "a") ∷ []))
    × (call (l_dirname test_os) (string some_path ∷ []) test_vm
        ≡ replies (string (codes "/tmp") ∷ []))
l_basename-reply_example = l_basename-reply test_os test_vm (string some_path ∷ [])

l_waitpid-reply_example :
    call (l_waitpid test_os) (integer (pos 7) ∷ []) test_vm
    ≡ replies (integer (pos 7) ∷ string (codes "exited") ∷ integer (pos 1) ∷ [])
l_waitpid-reply_example = l_waitpid-reply test_os test_vm (integer (pos 7) ∷ [])

l_sysctl-outcome_example :
    call (l_sysctl test_os) (table (old 1) ∷ []) test_vm
    ≡ returned (integer (pos 5) ∷ []) 1 test_vm.world
unfolding bricoler.Sys.Sysctl.le_value int_type int_value
l_sysctl-outcome_example = l_sysctl-outcome test_os (old 1) [] test_vm (refl, (refl, tt))

int_value-c_bytes_example :
    (int_value (2, true) (c_bytes (2, true) (negsuc 4)) ≡ negsuc 4)
    × (length (c_bytes (2, true) (negsuc 4)) ≡ 2)
int_value-c_bytes_example =
    int_value-c_bytes type_s16 (2, true) (negsuc 4) (unfold int_type in refl) (omega arith)

-- A socket, a pipe, the close of the first descriptor, and the collection of it and of another.
abbrev some_ops : List Op
some_ops = socket (integer (pos 2) ∷ integer (pos 1) ∷ []) ∷ pipe [] ∷ close 0 ∷ gc 0 ∷ gc 1 ∷ []

history-Owned_example : Safe (Owned test_os) (history test_os some_ops test_vm)
history-Owned_example =
    history-Owned test_os test_os-Kernel some_ops test_vm test_vm-Owned
      (test_os-NoFailures some_ops test_vm)
