-- ===== src/Descriptors/Abstract.antt =====
-- The descriptors of a program with no Lua state in sight: which descriptor each handle holds, the
-- next handle, and the system. The C functions implement the operations on it.
use bricoler.Base.{
  ℕ, suc, ◌+◌, ℤ, pos, ◌≡◌, refl, List, [], ◌∷◌, true, Option, none, some, arith, ◌==◌, ◌&&◌,
  if◌then◌else◌, is_neg_one, to_int, leb_ℤ, length, Bool-cases, Option-cases, inl, inr,
}
use bricoler.Lua.{Bytes, Value, sys_fd, Cell, Vm, Run, done, raised, enter}
use bricoler.Lua.Cells.{meta_eq}
use bricoler.Lua.Stack.{integer_of}
use bricoler.Os.{Os, Ret, Ret-cases, ok, fail, int_min, int_max}
use bricoler.Contract.{integer_arg, optinteger_arg, c_string_arg}
use bricoler.Sys.Socket.{l_socket}
use bricoler.Sys.Pipe.{l_pipe, l_pipe2, _l_pipe2}
use bricoler.Sys.Open.{l_close}
use bricoler.Mktemp.{l_mkstemp}
use bricoler.Descriptors.{Op, socket, pipe, pipe2, mkstemp, close, gc, run_op}

pub record Handles (W : Type 0) : Type 0 where
  pub holds : ℕ → Option ℤ
  pub next : ℕ
  pub system : W

-- What a descriptor number is to its holder: -1 is none.
abbrev pub number : ℤ → Option ℤ
number fd = if is_neg_one fd then none else some fd

abbrev pub held_by : Cell → Option ℤ
held_by c = if meta_eq c.meta sys_fd then number c.content else none

abbrev pub view : {W : Type 0} → Vm W → Handles W
view vm = record { holds = λ i. held_by (vm.cells i); next = vm.next_cell; system = vm.world }

module _ {W : Type 0} where
  abbrev pub hold : ℤ → Handles W → Handles W
  hold fd a = record a {
    holds = λ i. if i == a.next then number fd else a.holds i;
    next = suc a.next;
  }

  -- A new handle for what a system call opens.
  abbrev pub new_handle : Ret ℤ × W → Handles W → Handles W
  new_handle (ok fd, w) a = hold fd (record a { system = w })
  new_handle (fail e, w) a = record a { system = w }

  abbrev pub two_handles : Ret (ℤ × ℤ) × W → Handles W → Handles W
  two_handles (ok (r, s), w) a = hold s (hold r (record a { system = w }))
  two_handles (fail e, w) a = record a { system = w }

  abbrev pub file_handle : Ret (ℤ × Bytes) × W → Handles W → Handles W
  file_handle (ok (fd, name), w) a = hold fd (record a { system = w })
  file_handle (fail e, w) a = record a { system = w }

  abbrev pub drop_handle : ℕ → Ret (Unit {0}) × W → Handles W → Handles W
  drop_handle i (ok _, w) a = record a {
    holds = λ j. if j == i then none else a.holds j;
    system = w;
  }
  drop_handle i (fail e, w) a = record a { system = w }

  -- Nothing happens where an argument is bad.
  abbrev pub given : {A : Type 0} → Option A → Handles W → (A → Handles W) → Handles W
  given none a k = a
  given (some x) a k = k x

module _ {W : Type 0} (os : Os W) where
  abbrev pub abstract_mkstemp : Bytes → Ret (Unit {0}) × W → Handles W → Handles W
  abstract_mkstemp template (ok _, w) a = file_handle (os.mkstemp template w) a
  abstract_mkstemp template (fail e, w) a = record a { system = w }

  abbrev pub abstract_op : Op → Handles W → Handles W
  abstract_op (socket args) a = given (integer_arg os args 0) a λ domain.
      given (integer_arg os args 1) a λ type. given (optinteger_arg os args 2 (pos 0)) a λ protocol.
        new_handle (os.socket (to_int domain) (to_int type) (to_int protocol) a.system) a
  abstract_op (pipe args) a = two_handles (os.pipe2 (pos 0) a.system) a
  abstract_op (pipe2 args) a = given (integer_arg os args 0) a λ flags.
      if leb_ℤ int_min flags && leb_ℤ flags int_max
      then two_handles (os.pipe2 (to_int flags) a.system) a
      else a
  abstract_op (mkstemp args) a =
      given (c_string_arg os args 0) a
        λ template. abstract_mkstemp template (os.malloc (length template + 1) a.system) a
  abstract_op (close i) a = given (a.holds i) a λ fd. drop_handle i (os.close fd a.system) a
  abstract_op (gc i) a = given (a.holds i) a λ fd. drop_handle i (os.close fd a.system) a

  unfoldable pub abstract_history : List Op → Handles W → Handles W
  abstract_history [] a = a
  abstract_history (op ∷ ops) a = abstract_history ops (abstract_op op a)

  -- What a run leaves of a handle, of the next handle and of the system.
  abbrev pub Snapshot : Type 0
  Snapshot = Option (Option ℤ × ℕ × W)

  abbrev pub shot : ℕ → Handles W → Snapshot
  shot i a = some (a.holds i, a.next, a.system)

  abbrev pub snapshot : ℕ → Run W ℕ → Snapshot
  snapshot i (done n vm) = shot i (view vm)
  snapshot i (raised r vm) = shot i (view vm)
  snapshot i _ = none

  pub socket_lem :
      (args : List Value) (vm : Vm W) (i : ℕ)
      → vm.registered sys_fd ≡ true
      → snapshot i (run_op os (socket args) vm) ≡ shot i (abstract_op (socket args) (view vm))
  unfolding run_op l_socket
  socket_lem [] vm i h = refl
  socket_lem (v ∷ []) vm i h = (ground (arith, h))
  socket_lem (v ∷ w ∷ []) vm i h = (ground (arith, h))
  socket_lem (v ∷ w ∷ x ∷ rest) vm i h = (ground (arith, h))

  two_lem :
      (flags : ℤ) (args : List Value) (vm : Vm W) (i : ℕ)
      → vm.registered sys_fd ≡ true
      → snapshot i (_l_pipe2 os flags (enter args vm))
        ≡ shot i (two_handles (os.pipe2 flags vm.world) (view vm))
  unfolding _l_pipe2
  two_lem flags args vm i h = elim (Ret-cases (os.pipe2 flags vm.world)) [
    | inr (e, q) ↦ rw q refl
    | inl (fds, q) ↦
        rw (q, h)
          (elim (Bool-cases (i == vm.next_cell)) [
            | inl b ↦ rw b (ground (arith, b))
            | inr b ↦ rw b (elim (Bool-cases (i == suc vm.next_cell)) [
              | inl c ↦ rw c (ground (arith, b, c))
              | inr c ↦ rw c (ground (arith, b, c))
            ])
          ])
  ]

  pub pipe_lem :
      (args : List Value) (vm : Vm W) (i : ℕ)
      → vm.registered sys_fd ≡ true
      → snapshot i (run_op os (pipe args) vm) ≡ shot i (abstract_op (pipe args) (view vm))
  unfolding run_op l_pipe
  pipe_lem args vm i h = (two_lem (pos 0) args vm i h)

  pub pipe2_lem :
      (args : List Value) (vm : Vm W) (i : ℕ)
      → vm.registered sys_fd ≡ true
      → snapshot i (run_op os (pipe2 args) vm) ≡ shot i (abstract_op (pipe2 args) (view vm))
  unfolding run_op l_pipe2
  pipe2_lem [] vm i h = refl
  pipe2_lem (v ∷ rest) vm i h = elim (Option-cases (integer_of os.conversions v)) [
    | inl q ↦ rw q refl
    | inr (flags, q) ↦ rw q (ground (arith, two_lem (to_int flags) (v ∷ rest) vm i h))
  ]

  pub mkstemp_lem :
      (args : List Value) (vm : Vm W) (i : ℕ)
      → vm.registered sys_fd ≡ true
      → snapshot i (run_op os (mkstemp args) vm) ≡ shot i (abstract_op (mkstemp args) (view vm))
  unfolding run_op l_mkstemp
  mkstemp_lem [] vm i h = refl
  mkstemp_lem (v ∷ rest) vm i h = (ground (arith, h))

  pub close_lem :
      (c : ℕ) (vm : Vm W) (i : ℕ)
      → snapshot i (run_op os (close c) vm) ≡ shot i (abstract_op (close c) (view vm))
  unfolding run_op l_close
  close_lem c vm i = (ground arith)
