-- ===== src/Contract/Io.antt =====
-- The wrappers that hold a block from malloc(3) while they run, read, pread, mkstemp, basename and
-- dirname, and write, bind and waitpid, which hold none.
use bricoler.Base.{
  ℕ, zero, ◌+◌, ◌^◌, ◌≡◌, refl, ℤ, pos, List, [], ◌∷◌, Option, arith, to_int, to_unsigned, codes,
  length, get_elem?,
}
use bricoler.Lua.{Bytes, Value, Vm, Meta, sys_fd, integer, string}
use bricoler.Lua.Stack.{c_str, bind_option}
use bricoler.Lua.Cells.{as_userdata}
use bricoler.Os.{Os, Ret, Syscall, ok, fail, exited, signaled, stopped, other_status, WaitStatus}
use bricoler.Contract.{
  Outcome, returned, crashed, call, c_string_arg, string_arg, integer_arg, optinteger_arg, with_arg,
  reply, error_values, true_values,
}
use bricoler.Sys.Read.{l_read, l_pread, l_write}
use bricoler.Sys.Socket.{l_bind}
use bricoler.Sys.Wait.{l_waitpid}
use bricoler.Libgen.{l_basename, l_dirname}

-- The userdata that lual_checkudata finds in the arguments.
abbrev pub udata_arg : {W : Type 0} → Vm W → Meta → List Value → ℕ → Option ℕ
udata_arg vm m args i = bind_option (get_elem? args i) λ v. as_userdata m vm v

module _ {W : Type 0} (os : Os W) (vm : Vm W) where
  abbrev pub descriptor : ℕ → ℤ
  descriptor i = (vm.cells i).content

  -- A reply of a call that wants a block: the triple where malloc fails. The block is gone behind it.
  abbrev pub with_block :
      {A : Type 0} → (A → List Value) → Syscall W A → Ret (Unit {0}) × W → Outcome W
  with_block values fn (ok _, w) = reply os values vm (fn w)
  with_block values fn (fail e, w) = returned (error_values os e) vm.live w

  abbrev pub string_values : Bytes → List Value
  string_values s = string s ∷ []

  abbrev pub count_values : ℕ → List Value
  count_values n = integer (pos n) ∷ []

  -- read and pread return the bytes that the system put in the buffer, or the error triple; they
  -- allocate a buffer of the wanted size and free it on every path. write passes all bytes of the
  -- string, NULs included, and returns the count that the system took; bind passes the bytes of the
  -- address and returns true; both return the error triple otherwise. The first bad argument is
  -- reported.
  pub l_read-reply :
      (args : List Value)
      → (call (l_read os) args vm ≡ (
          with_arg 1 (udata_arg vm sys_fd args 0) vm λ i. with_arg 2 (integer_arg os args 1) vm λ n.
            with_block string_values
              (os.read (descriptor i) (to_unsigned (2 ^ 64) n))
              (os.malloc (to_unsigned (2 ^ 64) n) vm.world)))
        × (call (l_pread os) args vm ≡ (
            with_arg 1 (udata_arg vm sys_fd args 0) vm λ i.
              with_arg 2 (integer_arg os args 1) vm λ n.
                with_arg 3 (integer_arg os args 2) vm λ off.
                  with_block string_values
                    (os.pread (descriptor i) (to_unsigned (2 ^ 64) n) off)
                    (os.malloc (to_unsigned (2 ^ 64) n) vm.world)))
        × (call (l_write os) args vm ≡ (
            with_arg 1 (udata_arg vm sys_fd args 0) vm λ i.
              with_arg 2
                (string_arg os args 1)
                vm
                λ buf. reply os count_values vm (os.write (descriptor i) buf vm.world)))
        × (call (l_bind os) args vm ≡ (
            with_arg 1 (udata_arg vm sys_fd args 0) vm λ i.
              with_arg 2
                (string_arg os args 1)
                vm
                λ ss. reply os true_values vm (os.bind (descriptor i) ss vm.world)))
  unfolding l_read l_pread l_write l_bind
  l_read-reply [] = (refl, refl, refl, refl)
  l_read-reply (u ∷ []) = (ground arith, ground arith, ground arith, ground arith)
  l_read-reply (u ∷ v ∷ []) = (ground arith, ground arith, ground arith, ground arith)
  l_read-reply (u ∷ v ∷ w ∷ rest) = (ground arith, ground arith, ground arith, ground arith)

  abbrev pub part_contract : (Bytes → Bytes) → List Value → Outcome W
  part_contract part args = with_arg 1 (c_string_arg os args 0) vm λ path.
      with_block (λ (s : Bytes). string (c_str s) ∷ []) (λ w. (ok (part path), w))
        (os.malloc (length path + 1) vm.world)

  -- basename and dirname return the part of the path, from a copy that is freed on every path.
  pub l_basename-reply :
      (args : List Value)
      → (call (l_basename os) args vm ≡ part_contract os.basename args)
        × (call (l_dirname os) args vm ≡ part_contract os.dirname args)
  unfolding l_basename l_dirname
  l_basename-reply [] = (refl, refl)
  l_basename-reply (v ∷ rest) = (ground arith, ground arith)

  -- What a status is to the Lua program.
  abbrev pub status_outcome : ℤ → WaitStatus → W → Outcome W
  status_outcome pid (exited z) w =
      returned (integer pid ∷ string (codes "exited") ∷ integer z ∷ []) vm.live w
  status_outcome pid (signaled z) w =
      returned (integer pid ∷ string (codes "signaled") ∷ integer z ∷ []) vm.live w
  status_outcome pid (stopped z) w =
      returned (integer pid ∷ string (codes "stopped") ∷ integer z ∷ []) vm.live w
  status_outcome pid other_status w = crashed

  abbrev pub child_outcome : ℤ → ℤ → W → Outcome W
  child_outcome (pos zero) status w =
      returned (integer (pos 0) ∷ string (codes "running") ∷ []) vm.live w
  child_outcome pid status w = status_outcome pid (os.wait_status status) w

  abbrev pub wait_outcome : Ret (ℤ × ℤ) × W → Outcome W
  wait_outcome (ok (pid, status), w) = child_outcome pid status w
  wait_outcome (fail e, w) = returned (error_values os e) vm.live w

  -- waitpid returns the error triple, (0, "running"), or the pid with how the child changed state
  -- and the number that goes with it; it fails its assertion exactly on a status of no such kind.
  pub l_waitpid-reply :
      (args : List Value)
      → call (l_waitpid os) args vm ≡ (
          with_arg 1 (integer_arg os args 0) vm λ pid.
            with_arg 2
              (optinteger_arg os args 1 (pos 0))
              vm
              λ options. wait_outcome (os.waitpid (to_int pid) (to_int options) vm.world))
  unfolding l_waitpid
  l_waitpid-reply [] = refl
  l_waitpid-reply (v ∷ []) = ground arith
  l_waitpid-reply (v ∷ w ∷ rest) = ground arith
