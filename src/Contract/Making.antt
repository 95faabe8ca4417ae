-- ===== src/Contract/Making.antt =====
-- The wrappers that make descriptors, socket, pipe, pipe2 and mkstemp: what they return, and what the
-- userdata that they return hold.
use bricoler.Base.{
  ℕ, suc, ◌+◌, ◌≡◌, refl, ℤ, pos, List, [], ◌∷◌, arith, to_int, codes, length, leb_ℤ, ◌&&◌,
  if◌then◌else◌, Option, none, some, Option-cases, Bool-cases, inl, inr,
}
use bricoler.Lua.{Bytes, Value, Vm, Run, done, Cell, sys_fd, nil, string, userdata, enter, results}
use bricoler.Lua.Stack.{integer_of, c_str}
use bricoler.Os.{Os, Ret, Ret-cases, ok, fail, int_min, int_max}
use bricoler.Contract.{returned, call, c_string_arg, integer_arg, optinteger_arg, with_arg, reply}
use bricoler.Contract.Io.{with_block}
use bricoler.Sys.Pipe.{_l_pipe2, l_pipe, l_pipe2}
use bricoler.Sys.Socket.{l_socket}
use bricoler.Mktemp.{l_mkstemp}

-- What the userdata that a call returns hold, in their order.
abbrev pub held : (ℕ → Cell) → List Value → List ℤ
held cells [] = []
held cells (userdata i ∷ vs) = (cells i).content ∷ held cells vs
held cells (v ∷ vs) = held cells vs

abbrev pub new_fds : {W : Type 0} → Run W ℕ → List ℤ
new_fds (done n vm) = held vm.cells (results n vm)
new_fds _ = []

-- The descriptors that a system call gives, none where it fails.
abbrev pub fds_of : {A : Type 0} → (A → List ℤ) → Ret A → List ℤ
fds_of f (ok a) = f a
fds_of f (fail e) = []

abbrev pub ends : ℤ × ℤ → List ℤ
ends (r, s) = r ∷ s ∷ []

abbrev pub one_fd : ℤ → List ℤ
one_fd fd = fd ∷ []

abbrev pub file_fd : ℤ × Bytes → List ℤ
file_fd (fd, name) = fd ∷ []

abbrev pub for_arg : {A : Type 0} → Option A → (A → List ℤ) → List ℤ
for_arg none f = []
for_arg (some a) f = f a

abbrev pub for_copy : {W : Type 0} → Ret (Unit {0}) × W → (W → List ℤ) → List ℤ
for_copy (ok a, w) f = f w
for_copy (fail e, w) f = []

module _ {W : Type 0} (os : Os W) (vm : Vm W) where
  -- The first two userdata that a call makes.
  abbrev pub first_new : ℤ → List Value
  first_new fd = userdata vm.next_cell ∷ []

  abbrev pub two_new : ℤ × ℤ → List Value
  two_new fds = userdata vm.next_cell ∷ userdata (suc vm.next_cell) ∷ []

  values_lem :
      (args : List Value)
      → (call (l_pipe os) args vm ≡ reply os two_new vm (os.pipe2 (pos 0) vm.world))
        × (call (l_pipe2 os) args vm ≡ (
            with_arg 1 (integer_arg os args 0) vm λ flags.
              if leb_ℤ int_min flags && leb_ℤ flags int_max
              then reply os two_new vm (os.pipe2 (to_int flags) vm.world)
              else returned (nil ∷ string (codes "argument out of range") ∷ []) vm.live vm.world))
        × (call (l_socket os) args vm ≡ (
            with_arg 1 (integer_arg os args 0) vm λ domain.
              with_arg 2 (integer_arg os args 1) vm λ type.
                with_arg 3 (optinteger_arg os args 2 (pos 0)) vm λ protocol.
                  reply os first_new vm
                    (os.socket (to_int domain) (to_int type) (to_int protocol) vm.world)))
        × (call (l_mkstemp os) args vm ≡ (
            with_arg 1 (c_string_arg os args 0) vm λ template.
              with_block os vm
                (λ (file : ℤ × Bytes). userdata vm.next_cell ∷ string (c_str file.1) ∷ [])
                (os.mkstemp template)
                (os.malloc (length template + 1) vm.world)))
  unfolding l_pipe l_pipe2 l_socket l_mkstemp
  values_lem [] = (ground arith, refl, refl, refl)
  values_lem (v ∷ []) = (ground arith, ground arith, ground arith, ground arith)
  values_lem (v ∷ w ∷ []) = (ground arith, ground arith, ground arith, ground arith)
  values_lem (v ∷ w ∷ x ∷ rest) = (ground arith, ground arith, ground arith, ground arith)

  pipe_fds :
      (flags : ℤ) (args : List Value)
      → new_fds (_l_pipe2 os flags (enter args vm)) ≡ fds_of ends (os.pipe2 flags vm.world).0
  unfolding _l_pipe2
  pipe_fds flags args = elim (Ret-cases (os.pipe2 flags vm.world)) [
    | inr (e, q) ↦ rw q refl
    | inl (fds, q) ↦ rw q (elim (Bool-cases (vm.registered sys_fd)) [
      | inl b ↦ rw b (ground arith)
      | inr b ↦ rw b (ground arith)
    ])
  ]

  pipe2_fds :
      (v : Value) (rest : List Value)
      → new_fds (l_pipe2 os (enter (v ∷ rest) vm)) ≡ (
          for_arg (integer_of os.conversions v) λ flags.
            if leb_ℤ int_min flags && leb_ℤ flags int_max
            then fds_of ends (os.pipe2 (to_int flags) vm.world).0
            else [])
  unfolding l_pipe2
  pipe2_fds v rest = elim (Option-cases (integer_of os.conversions v)) [
    | inl q ↦ rw q refl
    | inr (flags, q) ↦ rw q (ground (arith, pipe_fds (to_int flags) (v ∷ rest)))
  ]

  fds_lem :
      (args : List Value)
      → (new_fds (l_pipe os (enter args vm)) ≡ fds_of ends (os.pipe2 (pos 0) vm.world).0)
        × (new_fds (l_pipe2 os (enter args vm)) ≡ (
            for_arg (integer_arg os args 0) λ flags.
              if leb_ℤ int_min flags && leb_ℤ flags int_max
              then fds_of ends (os.pipe2 (to_int flags) vm.world).0
              else []))
        × (new_fds (l_socket os (enter args vm)) ≡ (
            for_arg (integer_arg os args 0) λ domain. for_arg (integer_arg os args 1) λ type.
              for_arg (optinteger_arg os args 2 (pos 0)) λ protocol.
                fds_of one_fd
                  (os.socket (to_int domain) (to_int type) (to_int protocol) vm.world).0))
        × (new_fds (l_mkstemp os (enter args vm)) ≡ (
            for_arg (c_string_arg os args 0) λ template.
              for_copy
                (os.malloc (length template + 1) vm.world)
                λ w. fds_of file_fd (os.mkstemp template w).0))
  unfolding l_pipe l_pipe2 l_socket l_mkstemp
  fds_lem [] = (pipe_fds (pos 0) [], refl, refl, refl)
  fds_lem (v ∷ []) = (pipe_fds (pos 0) _, pipe2_fds v [], ground arith, ground arith)
  fds_lem (v ∷ w ∷ []) = (pipe_fds (pos 0) _, pipe2_fds v (w ∷ []), ground arith, ground arith)
  fds_lem (v ∷ w ∷ x ∷ rest) =
      (pipe_fds (pos 0) _, pipe2_fds v (w ∷ x ∷ rest), ground arith, ground arith)

  -- pipe makes the system call with no flags; pipe2 refuses flags outside the range of int with a
  -- message, and passes any others. Both return two new userdata, or the error triple. socket cuts
  -- its three numbers to an int, the third one being 0 where it is not given, and returns one new
  -- userdata or the error triple. mkstemp returns one new userdata and the name of the file, from a
  -- copy of the template that is freed on every path, or the error triple. The userdata that are
  -- returned hold the descriptors that the system call gave, the read end of a pipe before its
  -- write end.
  pub l_socket-reply :
      (args : List Value)
      → (call (l_pipe os) args vm ≡ reply os two_new vm (os.pipe2 (pos 0) vm.world))
        × (call (l_pipe2 os) args vm ≡ (
            with_arg 1 (integer_arg os args 0) vm λ flags.
              if leb_ℤ int_min flags && leb_ℤ flags int_max
              then reply os two_new vm (os.pipe2 (to_int flags) vm.world)
              else returned (nil ∷ string (codes "argument out of range") ∷ []) vm.live vm.world))
        × (call (l_socket os) args vm ≡ (
            with_arg 1 (integer_arg os args 0) vm λ domain.
              with_arg 2 (integer_arg os args 1) vm λ type.
                with_arg 3 (optinteger_arg os args 2 (pos 0)) vm λ protocol.
                  reply os first_new vm
                    (os.socket (to_int domain) (to_int type) (to_int protocol) vm.world)))
        × (call (l_mkstemp os) args vm ≡ (
            with_arg 1 (c_string_arg os args 0) vm λ template.
              with_block os vm
                (λ (file : ℤ × Bytes). userdata vm.next_cell ∷ string (c_str file.1) ∷ [])
                (os.mkstemp template)
                (os.malloc (length template + 1) vm.world)))
        × (new_fds (l_pipe os (enter args vm)) ≡ fds_of ends (os.pipe2 (pos 0) vm.world).0)
        × (new_fds (l_pipe2 os (enter args vm)) ≡ (
            for_arg (integer_arg os args 0) λ flags.
              if leb_ℤ int_min flags && leb_ℤ flags int_max
              then fds_of ends (os.pipe2 (to_int flags) vm.world).0
              else []))
        × (new_fds (l_socket os (enter args vm)) ≡ (
            for_arg (integer_arg os args 0) λ domain. for_arg (integer_arg os args 1) λ type.
              for_arg (optinteger_arg os args 2 (pos 0)) λ protocol.
                fds_of one_fd
                  (os.socket (to_int domain) (to_int type) (to_int protocol) vm.world).0))
        × (new_fds (l_mkstemp os (enter args vm)) ≡ (
            for_arg (c_string_arg os args 0) λ template.
              for_copy
                (os.malloc (length template + 1) vm.world)
                λ w. fds_of file_fd (os.mkstemp template w).0))
  l_socket-reply args =
      let v = values_lem args in let f = fds_lem args in (v.0, v.1, v.2, v.3, f.0, f.1, f.2, f.3)
