-- ===== src/Descriptors.antt =====
-- Who owns the descriptors: the userdata that lua_open.c, lua_pipe.c, lua_socket.c and
-- lua_mktemp.c of lib/freebsd make and close, and the __gc of lua_freebsd_meta.c. The system's
-- part is the record Kernel; a history is a sequence of calls with any arguments.
pub mod Ownership
pub mod Steps
pub mod Start
pub mod Collection
pub mod Abstract
pub mod Refinement
pub mod Keeps
pub mod Keepers
pub mod Calls
pub mod Blocks
use bricoler.Base.{is_neg_one, ℕ, ℤ, ◌≡◌, ◌≢◌, ◌<◌, String, List, [], ◌∷◌, Bool, true, false}
use bricoler.Lua.{
  Bytes, Value, userdata, sys_fd, Vm, M, Run, done, raised, aborted, undefined, gone, enter,
}
use bricoler.Os.{Os, Ret, ok, fail}
use bricoler.Sys.Open.{l_close}
use bricoler.Sys.Pipe.{l_pipe, l_pipe2}
use bricoler.Sys.Socket.{l_socket}
use bricoler.Mktemp.{l_mkstemp}
use bricoler.Meta.{l_freebsd_sys_fd_gc}

module _ {W : Type 0} (os : Os W) where
  -- The descriptors that were open stay open, but for those of `except`.
  abbrev pub KeepsOpen : (ℤ → Type 0) → W → W → Type 0
  KeepsOpen except w w' = (j : ℤ) → ¬ (except j) → os.is_open j w ≡ true → os.is_open j w' ≡ true

  -- From `w` to `w'` the descriptor `fd`, which was not open, is opened.
  pub record Opens (w : W) (fd : ℤ) (w' : W) : Type 0 where
    pub was_closed : os.is_open fd w ≡ false
    pub now_open : os.is_open fd w' ≡ true
    pub keeps : KeepsOpen (λ _. ⊥) w w'

  -- What malloc, socket, pipe2, mkstemp and close are documented to do to the open descriptors:
  -- new ones were not open before, a failure to make one opens and closes nothing, close opens none,
  -- closes at most the descriptor it is given, and fails with EBADF only where that is not open. Its
  -- other errors, such as EINTR and ECONNRESET, may leave the descriptor open or close it.
  pub record Kernel : Type 0 where
    pub malloc_keeps : (n : ℕ) (w : W) → KeepsOpen (λ _. ⊥) w (os.malloc n w).1
    pub socket_opens :
        (d t p : ℤ) (w : W) (fd : ℤ)
        → (os.socket d t p w).0 ≡ ok fd
        → Opens w fd (os.socket d t p w).1
    pub socket_fails :
        (d t p : ℤ) (w : W) (e : ℕ)
        → (os.socket d t p w).0 ≡ fail e
        → KeepsOpen (λ _. ⊥) w (os.socket d t p w).1
    pub pipe_opens :
        (flags : ℤ) (w : W) (r s : ℤ)
        → (os.pipe2 flags w).0 ≡ ok (r, s)
        → (r ≢ s)
          × (os.is_open s w ≡ false)
          × (os.is_open s (os.pipe2 flags w).1 ≡ true)
          × Opens w r (os.pipe2 flags w).1
    pub pipe_fails :
        (flags : ℤ) (w : W) (e : ℕ)
        → (os.pipe2 flags w).0 ≡ fail e
        → KeepsOpen (λ _. ⊥) w (os.pipe2 flags w).1
    pub mkstemp_opens :
        (t : Bytes) (w : W) (fd : ℤ) (name : Bytes)
        → (os.mkstemp t w).0 ≡ ok (fd, name)
        → Opens w fd (os.mkstemp t w).1
    pub mkstemp_fails :
        (t : Bytes) (w : W) (e : ℕ)
        → (os.mkstemp t w).0 ≡ fail e
        → KeepsOpen (λ _. ⊥) w (os.mkstemp t w).1
    pub close_badf :
        (fd : ℤ) (w : W)
        → (os.close fd w).0 ≡ fail (os.error_number "EBADF")
        → os.is_open fd w ≡ false
    pub close_keeps : (fd : ℤ) (w : W) → KeepsOpen (λ j. j ≡ fd) w (os.close fd w).1
    pub close_closes :
        (fd : ℤ) (w : W) → (os.close fd w).0 ≡ ok tt → os.is_open fd (os.close fd w).1 ≡ false
    pub close_opens_none :
        (fd j : ℤ) (w : W) → os.is_open j w ≡ false → os.is_open j (os.close fd w).1 ≡ false

-- Userdata `i` is a descriptor userdata that holds the descriptor `fd`.
pub record Holds {W : Type 0} (vm : Vm W) (i : ℕ) (fd : ℤ) : Type 0 where
  pub meta : (vm.cells i).meta ≡ sys_fd
  pub content : (vm.cells i).content ≡ fd
  pub live : is_neg_one fd ≡ false

-- Every descriptor that a userdata holds is open, and no other userdata holds it; the metatable of
-- descriptors is registered.
pub record Owned {W : Type 0} (os : Os W) (vm : Vm W) : Type 0 where
  pub held : (i : ℕ) (fd : ℤ) → Holds vm i fd → os.is_open fd vm.world ≡ true
  pub distinct : (i j : ℕ) (fd : ℤ) → Holds vm i fd → Holds vm j fd → i ≡ j
  pub loaded : vm.registered sys_fd ≡ true
  pub made : (i : ℕ) (fd : ℤ) → Holds vm i fd → i < vm.next_cell

-- Where close(2) of the descriptor that userdata `i` holds fails, its error is EBADF: none of the
-- errors that an open descriptor can have, such as EINTR and ECONNRESET.
abbrev pub NoFailure : {W : Type 0} → Os W → Vm W → ℕ → Type 0
NoFailure os vm i =
    (fd : ℤ) (e : ℕ)
    → Holds vm i fd
    → (os.close fd vm.world).0 ≡ fail e
    → e ≡ os.error_number "EBADF"

-- The state that a run comes back in, if it does, has the property.
abbrev pub After : {W A : Type 0} → (Vm W → Type 0) → Run W A → Type 0
After P (done a vm) = P vm
After P (raised r vm) = P vm
After P aborted = Unit
After P undefined = Unit
After P (gone w) = Unit

-- A run ends in a state with the property, and neither fails an assertion nor does what is
-- undefined.
abbrev pub Safe : {W A : Type 0} → (Vm W → Type 0) → Run W A → Type 0
Safe P (done a vm) = P vm
Safe P (raised r vm) = P vm
Safe P aborted = ⊥
Safe P undefined = ⊥
Safe P (gone w) = ⊥

-- The calls that make or give up a descriptor. `gc` is the collector's call for a userdata; `close`
-- is made of a userdata that is not closed yet, as the assertion of l_close asks of its callers.
pub data Op : Type 0 where
  socket pipe pipe2 mkstemp : List Value → Op
  close gc : ℕ → Op

module _ {W : Type 0} (os : Os W) where
  unfoldable pub run_op : Op → M W ℕ
  run_op (socket args) vm = l_socket os (enter args vm)
  run_op (pipe args) vm = l_pipe os (enter args vm)
  run_op (pipe2 args) vm = l_pipe2 os (enter args vm)
  run_op (mkstemp args) vm = l_mkstemp os (enter args vm)
  run_op (close i) vm = elim (is_neg_one (vm.cells i).content) [
    | true ↦ done 0 vm
    | false ↦ l_close os (enter (userdata i ∷ []) vm)
  ]
  run_op (gc i) vm = l_freebsd_sys_fd_gc os (enter (userdata i ∷ []) vm)

  -- A raised error ends its call only.
  unfoldable pub go_on : (Vm W → Run W ℕ) → Run W ℕ → Run W ℕ
  go_on k (done n vm) = k vm
  go_on k (raised r vm) = k vm
  go_on k aborted = aborted
  go_on k undefined = undefined
  go_on k (gone w) = gone w

  pub go_on-Safe :
      (P N Q : Vm W → Type 0) (r : Run W ℕ) (next : Vm W → Run W ℕ)
      → Safe P r
      → After N r
      → ((vm : Vm W) → P vm → N vm → Safe Q (next vm))
      → Safe Q (go_on next r)
  unfolding go_on
  go_on-Safe P N Q (done n vm) next s a f = f vm s a
  go_on-Safe P N Q (raised r vm) next s a f = f vm s a
  go_on-Safe P N Q aborted next s a f = s
  go_on-Safe P N Q undefined next s a f = s
  go_on-Safe P N Q (gone w) next s a f = s

  unfoldable pub history : List Op → M W ℕ
  unfolding run_op go_on
  history [] vm = done 0 vm
  history (op ∷ ops) vm = go_on (history ops) (run_op op vm)

  -- No close(2) that an operation or a history makes fails, but for EBADF.
  abbrev pub NoFailureOf : Op → Vm W → Type 0
  NoFailureOf (close i) vm = NoFailure os vm i
  NoFailureOf (gc i) vm = NoFailure os vm i
  NoFailureOf (socket args) vm = Unit
  NoFailureOf (pipe args) vm = Unit
  NoFailureOf (pipe2 args) vm = Unit
  NoFailureOf (mkstemp args) vm = Unit

  abbrev pub NoFailures : List Op → Vm W → Type 0
  NoFailures [] vm = Unit
  NoFailures (op ∷ ops) vm = NoFailureOf op vm × After (NoFailures ops) (run_op op vm)

pub Safe-map :
    {W : Type 0} (P Q : Vm W → Type 0)
    → ((vm : Vm W) → P vm → Q vm)
    → (r : Run W ℕ) → Safe P r
    → Safe Q r
Safe-map P Q f (done n vm) s = f vm s
Safe-map P Q f (raised r vm) s = f vm s
Safe-map P Q f aborted s = s
Safe-map P Q f undefined s = s
Safe-map P Q f (gone w) s = s
