-- ===== src/Contract/Query.antt =====
-- The wrappers that ask the system for a value: stat, getcwd, uname, sysconf and the ids.
use bricoler.Base.{
  ℕ, ℤ, ◌≡◌, refl, List, [], ◌∷◌, Option, some, none, arith, to_int64, leb_ℤ, ◌&&◌, codes, String,
  if◌then◌else◌,
}
use bricoler.Lua.{
  Bytes, Value, Vm, M, Run, done, Key, name, nil, integer, string, table, new, Table, enter,
}
use bricoler.Lua.Stack.{c_str}
use bricoler.Os.{Os, Ret, Stat, Syscall, Utsname, int_min, int_max, ok, fail}
use bricoler.Contract.{
  Outcome, returned, failed, finish, call, c_string_arg, integer_arg, with_arg, error_values,
}
use bricoler.Lua.{bad_arg, boolean}
use bricoler.Sys.Stat.{l_stat, l_fstat, l_s_pred}
use bricoler.Sysconf.{l_sysconf}
use bricoler.Uname.{l_uname}

-- The only table that a call has made, beside its outcome.
pub record Made (W : Type 0) : Type 0 where
  pub outcome : Outcome W
  pub made : List Table

abbrev pub locals_of : {W : Type 0} → Run W ℕ → List Table
locals_of (done n vm) = vm.locals
locals_of _ = []

abbrev pub call_made : {W : Type 0} → M W ℕ → List Value → Vm W → Made W
call_made f args vm = record {
  outcome = finish (f (enter args vm));
  made = locals_of (f (enter args vm));
}

-- A field of a table, by its name.
abbrev pub field : String → Value → Key × Value
field s v = (name (codes s), v)

-- The table that stands for a struct stat.
abbrev pub stat_table : Stat → Table
stat_table sb =
    field "dev" (integer (to_int64 sb.dev))
    ∷ field "ino" (integer (to_int64 sb.ino))
    ∷ field "mode" (integer (to_int64 sb.mode))
    ∷ field "nlink" (integer (to_int64 sb.nlink))
    ∷ field "uid" (integer (to_int64 sb.uid))
    ∷ field "gid" (integer (to_int64 sb.gid))
    ∷ field "rdev" (integer (to_int64 sb.rdev))
    ∷ field "size" (integer (to_int64 sb.size))
    ∷ field "blocks" (integer (to_int64 sb.blocks))
    ∷ field "blksize" (integer (to_int64 sb.blksize))
    ∷ []

abbrev pub uname_table : Utsname → Table
uname_table n =
    field "sysname" (string (c_str n.sysname))
    ∷ field "nodename" (string (c_str n.nodename))
    ∷ field "release" (string (c_str n.release))
    ∷ field "version" (string (c_str n.version))
    ∷ field "machine" (string (c_str n.machine))
    ∷ []

module _ {W : Type 0} (os : Os W) (vm : Vm W) where
  -- A reply by one new table, or the error triple and no table.
  abbrev pub table_reply : {A : Type 0} → (A → Table) → Ret A × W → Made W
  table_reply f (ok a, w) = record {
    outcome = returned (table (new 0) ∷ []) vm.live w;
    made = f a ∷ [];
  }
  table_reply f (fail e, w) = record { outcome = returned (error_values os e) vm.live w; made = [] }

  abbrev pub stat_contract : (Bytes → Syscall W Stat) → Option Bytes → Made W
  stat_contract fn none = record { outcome = failed (bad_arg 1) vm.live vm.world; made = [] }
  stat_contract fn (some path) = table_reply stat_table (fn path vm.world)

  abbrev pub uname_contract : List Value → Made W
  uname_contract [] = table_reply uname_table (os.uname vm.world)
  uname_contract (v ∷ rest) = record { outcome = failed (bad_arg 1) vm.live vm.world; made = [] }

  -- A limit that there is not leaves errno as it was before the call.
  abbrev pub limit_reply : Ret (Option ℤ) × W → Outcome W
  limit_reply (ok (some value), w) = returned (integer value ∷ []) vm.live w
  limit_reply (ok none, w) = returned (error_values os vm.errno) vm.live w
  limit_reply (fail e, w) = returned (error_values os e) vm.live w

  -- stat and lstat return a new table with the ten fields of the struct under their names, or the
  -- error triple. The C function of lstat is l_fstat. The predicates S_ISREG and so on return what
  -- the macro of that name says of the mode. uname takes no argument, and returns a new table of
  -- the five strings or the error triple. sysconf refuses a name outside the range of int with a
  -- message, and passes any other one as it is; it returns the limit or the error triple, which has
  -- the errno of some earlier call for a limit that sysconf(3) reports as absent.
  pub l_stat-table :
      (args : List Value) (pred : String)
      → (call_made (l_stat os) args vm ≡ stat_contract os.stat (c_string_arg os args 0))
        × (call_made (l_fstat os) args vm ≡ stat_contract os.lstat (c_string_arg os args 0))
        × (call (l_s_pred os pred) args vm ≡ (
            with_arg 1
              (integer_arg os args 0)
              vm
              λ mode. returned (boolean (os.mode_is pred mode) ∷ []) vm.live vm.world))
        × (call_made (l_uname os) args vm ≡ uname_contract args)
        × (call (l_sysconf os) args vm ≡ (
            with_arg 1 (integer_arg os args 0) vm λ name.
              if leb_ℤ int_min name && leb_ℤ name int_max
              then limit_reply (os.sysconf name vm.world)
              else returned (nil ∷ string (codes "argument out of range") ∷ []) vm.live vm.world))
  unfolding l_stat l_fstat l_s_pred l_uname l_sysconf
  l_stat-table [] pred = (refl, refl, refl, ground arith, refl)
  l_stat-table (v ∷ rest) pred =
      (ground arith, ground arith, ground arith, ground arith, ground arith)
