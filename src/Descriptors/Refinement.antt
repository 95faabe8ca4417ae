-- ===== src/Descriptors/Refinement.antt =====
-- The C functions implement the operations on handles, over any history.
use bricoler.Base.{
  ℕ, ℤ, ◌≡◌, refl, subst, List, [], ◌∷◌, Option, none, some, arith, Bool-cases, inl, inr,
  is_neg_one,
}
use bricoler.Lua.{sys_fd, Vm, Run, done, raised, aborted, undefined, gone}
use bricoler.Lua.Cells.{meta_eq, meta_eq→eq}
use bricoler.Os.{Os, ok}
use bricoler.Meta.{l_freebsd_sys_fd_gc}
use bricoler.Descriptors.{
  Kernel, NoFailure, NoFailureOf, NoFailures, Holds, Owned, Safe, go_on-Safe, Op, socket, pipe,
  pipe2, mkstemp, close, gc, run_op, history,
}
use bricoler.Descriptors.Abstract.{
  Handles, view, abstract_op, abstract_history, shot, snapshot, Snapshot, socket_lem, pipe_lem,
  pipe2_lem, mkstemp_lem, close_lem,
}
use bricoler.Descriptors.Ownership.{close-Holds}
use bricoler.Descriptors.Steps.{run_op-Owned}

Safe-both :
    {W : Type 0} (P Q : Vm W → Type 0) (r : Run W ℕ)
    → Safe P r
    → Safe Q r
    → Safe (λ vm. P vm × Q vm) r
Safe-both P Q (done n vm) p q = (p, q)
Safe-both P Q (raised r vm) p q = (p, q)
Safe-both P Q aborted p q = p
Safe-both P Q undefined p q = p
Safe-both P Q (gone w) p q = p

module _ {W : Type 0} (os : Os W) where
  -- States that look the same at every handle are the same.
  shots_path : (a b : Handles W) → ((i : ℕ) → shot os i a ≡ shot os i b) → a ≡ b
  shots_path a b h = λ d. record {
    holds = λ i. (seen (h i d)).0;
    next = (seen (h 0 d)).1;
    system = (seen (h 0 d)).2;
  }
    where
      seen : Snapshot os → Option ℤ × ℕ × W
      seen none = (none, a.next, a.system)
      seen (some s) = s

  shots-view :
      (a : Handles W) (r : Run W ℕ)
      → ((i : ℕ) → snapshot os i r ≡ shot os i a)
      → Safe (λ vm. view vm ≡ a) r
  shots-view a (done n vm) h = shots_path (view vm) a h
  shots-view a (raised r vm) h = shots_path (view vm) a h
  shots-view a aborted h = cc (h 0)
  shots-view a undefined h = cc (h 0)
  shots-view a (gone w) h = cc (h 0)

  module _ (k : Kernel os) where
    gc_lem :
        (c : ℕ) (vm : Vm W) (i : ℕ)
        → Owned os vm
        → NoFailure os vm c
        → snapshot os i (run_op os (gc c) vm) ≡ shot os i (abstract_op os (gc c) (view vm))
    unfolding run_op l_freebsd_sys_fd_gc
    gc_lem c vm i o n = elim (Bool-cases (meta_eq (vm.cells c).meta sys_fd)) [
      | inr bad ↦ rw bad refl
      | inl good ↦ rw good (elim (Bool-cases (is_neg_one (vm.cells c).content)) [
        | inl closed ↦ rw (closed) (ground (arith, closed, good))
        | inr held ↦
            let fd = (vm.cells c).content in
            let h : Holds vm c fd = record {
              meta = meta_eq→eq _ good;
              content = refl;
              live = held;
            } in
            let works : (os.close fd vm.world).0 ≡ ok tt = close-Holds os k vm c fd o n h in
            (ground (arith, good, held, works))
      ])
    ]

    step_lem :
        (op : Op) (vm : Vm W) (i : ℕ)
        → Owned os vm
        → NoFailureOf os op vm
        → snapshot os i (run_op os op vm) ≡ shot os i (abstract_op os op (view vm))
    step_lem (socket args) vm i o n = socket_lem os args vm i o.loaded
    step_lem (pipe args) vm i o n = pipe_lem os args vm i o.loaded
    step_lem (pipe2 args) vm i o n = pipe2_lem os args vm i o.loaded
    step_lem (mkstemp args) vm i o n = mkstemp_lem os args vm i o.loaded
    step_lem (close c) vm i o n = close_lem os c vm i
    step_lem (gc c) vm i o n = gc_lem c vm i o n

    -- What the userdata hold, the next userdata and the system behind any history of calls are what
    -- the operations on handles make of them, and no call fails an assertion, as long as the kernel
    -- opens and closes descriptors as documented, each userdata owns its descriptor at the start,
    -- and no close(2) of the history fails but for EBADF.
    pub history_refines :
        (ops : List Op) (vm : Vm W)
        → Owned os vm
        → NoFailures os ops vm
        → Safe (λ vm'. view vm' ≡ abstract_history os ops (view vm)) (history os ops vm)
    unfolding history abstract_history
    history_refines [] vm o n = refl
    history_refines (op ∷ ops) vm o n =
        go_on-Safe os (λ vm'. Owned os vm' × (view vm' ≡ abstract_op os op (view vm)))
          (NoFailures os ops) _ (run_op os op vm) (history os ops)
          (Safe-both (Owned os) _ (run_op os op vm) (run_op-Owned os k op vm o n.0) (
            shots-view (abstract_op os op (view vm)) (run_op os op vm)
              (λ i. step_lem op vm i o n.0)))
          n.1
          (λ vm' p f.
            subst (λ a. Safe (λ vm''. view vm'' ≡ abstract_history os ops a) (history os ops vm'))
              p.1 (history_refines ops vm' p.0 f))
