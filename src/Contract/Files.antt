-- ===== src/Contract/Files.antt =====
-- The wrappers of lib/freebsd/sys that name a file and return true, 0 or the error triple:
-- access, chdir, mkdir, symlink, readlink, unlink and stat.
use bricoler.Base.{◌≡◌, refl, ℤ, pos, List, [], ◌∷◌, arith, to_int, to_unsigned, ◌^◌}
use bricoler.Lua.{Bytes, Value, Vm, integer, string}
use bricoler.Os.{Os, Syscall}
use bricoler.Contract.{Outcome, call, c_string_arg, integer_arg, with_arg, reply, true_values}
use bricoler.Sys.Access.{l_access, l_eaccess}
use bricoler.Lua.Stack.{c_str}
use bricoler.Sys.Getcwd.{l_getcwd}
use bricoler.Sys.Chdir.{l_chdir}
use bricoler.Sys.Mkdir.{l_mkdir}
use bricoler.Sys.Symlink.{l_symlink, l_readlink}
use bricoler.Sys.Unlink.{l_unlink}

abbrev pub zero_values : Unit {0} → List Value
zero_values _ = integer (pos 0) ∷ []

module _ {W : Type 0} (os : Os W) (vm : Vm W) (args : List Value) where
  abbrev pub access_contract : (Bytes → ℤ → Syscall W (Unit {0})) → Outcome W
  access_contract fn = with_arg 1 (c_string_arg os args 0) vm λ path.
      with_arg 2 (integer_arg os args 1) vm
        λ mode. reply os true_values vm (fn path (to_int mode) vm.world)

  abbrev pub path_contract : {A : Type 0} → (A → List Value) → (Bytes → Syscall W A) → Outcome W
  path_contract values fn =
      with_arg 1 (c_string_arg os args 0) vm λ path. reply os values vm (fn path vm.world)

module _ {W : Type 0} (os : Os W) (vm : Vm W) where
  -- access and eaccess make the system call of their name with the path and the mode cut to an int;
  -- mkdir passes the path and the mode modulo 2^16, and symlink the target first, then the path of the
  -- link. chdir, unlink and readlink pass the path. Each returns true, but unlink 0 and readlink the
  -- bytes of the target, or the error triple; a bad argument is reported before any call. getcwd takes
  -- no argument and returns the path up to its first NUL, or the error triple.
  pub l_access-reply :
      (args : List Value)
      → (call (l_access os) args vm ≡ access_contract os vm args os.access)
        × (call (l_eaccess os) args vm ≡ access_contract os vm args os.eaccess)
        × (call (l_mkdir os) args vm ≡ (
            with_arg 1 (c_string_arg os args 0) vm λ path.
              with_arg 2 (integer_arg os args 1) vm λ mode.
                reply os true_values vm (os.mkdir path (to_unsigned (2 ^ 16) mode) vm.world)))
        × (call (l_symlink os) args vm ≡ (
            with_arg 1 (c_string_arg os args 0) vm λ target.
              with_arg 2
                (c_string_arg os args 1)
                vm
                λ linkpath. reply os true_values vm (os.symlink target linkpath vm.world)))
        × (call (l_chdir os) args vm ≡ path_contract os vm args true_values os.chdir)
        × (call (l_unlink os) args vm ≡ path_contract os vm args zero_values os.unlink)
        × (call (l_readlink os) args vm
            ≡ path_contract os vm args (λ buf. string buf ∷ []) os.readlink)
        × (call (l_getcwd os) args vm
            ≡ reply os (λ buf. string (c_str buf) ∷ []) vm (os.getcwd vm.world))
  unfolding l_access l_eaccess l_mkdir l_symlink l_chdir l_unlink l_readlink l_getcwd
  l_access-reply [] = (refl, refl, refl, refl, refl, refl, refl, ground arith)
  l_access-reply (v ∷ []) = (
    ground arith,
    ground arith,
    ground arith,
    ground arith,
    ground arith,
    ground arith,
    ground arith,
    ground arith,
  )
  l_access-reply (v ∷ w ∷ rest) = (
    ground arith,
    ground arith,
    ground arith,
    ground arith,
    ground arith,
    ground arith,
    ground arith,
    ground arith,
  )
