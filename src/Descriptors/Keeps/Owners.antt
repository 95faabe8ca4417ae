-- ===== src/Descriptors/Keeps/Owners.antt =====
-- The functions that make or close a descriptor keep the ownership, for any arguments.
use bricoler.Base.{refl, pos, List, [], ◌∷◌, inl, inr, is_neg_one, Bool-cases}
use bricoler.Lua.{Value, userdata, sys_fd, Vm, Run, done, raised, aborted, undefined, gone, enter}
use bricoler.Lua.Cells.{meta_eq}
use bricoler.Os.{Os}
use bricoler.Descriptors.{Kernel, NoFailure, Owned, Safe}
use bricoler.Descriptors.Ownership.{Owned-world}
use bricoler.Descriptors.Steps.{
  gc-Owned, l_close-Owned, l_socket-Owned, _l_pipe2-Owned, l_pipe2-Owned, l_mkstemp-Owned,
}
use bricoler.Descriptors.Keeps.{Parts, Keeps, Keeps-raised, Keeps-aborted}
use bricoler.Sys.Open.{l_close}
use bricoler.Sys.Pipe.{l_pipe, l_pipe2}
use bricoler.Sys.Socket.{l_socket}
use bricoler.Mktemp.{l_mkstemp}
use bricoler.Meta.{l_freebsd_sys_fd_gc}

module _ {W : Type 0} (os : Os W) where
  pub Owned-Parts : (vm : Vm W) → Owned os vm → Parts os vm
  Owned-Parts vm o = record { owned = λ vm'. Owned-world os vm _ refl refl refl (λ j _ h. h) o }

  pub Parts-Owned : (vm : Vm W) → Parts os vm → Owned os vm
  Parts-Owned vm p = Owned-world os _ vm refl refl refl (λ j _ h. h) (p.owned vm)

  Safe-Keeps : {A : Type 0} (r : Run W A) → Safe (Owned os) r → Keeps os r
  Safe-Keeps (done a vm) s = record { kept = Owned-Parts vm s }
  Safe-Keeps (raised r vm) s = record { kept = Owned-Parts vm s }
  Safe-Keeps aborted s = absurd s
  Safe-Keeps undefined s = absurd s
  Safe-Keeps (gone w) s = absurd s

module _ {W : Type 0} (os : Os W) (k : Kernel os) (args : List Value) (vm : Vm W)
    (p : Parts os vm) where
  o : Owned os vm
  o = Parts-Owned os vm p

  pub l_socket-Keeps : Keeps os (l_socket os (enter args vm))
  l_socket-Keeps = Safe-Keeps os _ (l_socket-Owned os k vm args o)

  pub l_pipe-Keeps : Keeps os (l_pipe os (enter args vm))
  unfolding l_pipe
  l_pipe-Keeps = Safe-Keeps os _ (_l_pipe2-Owned os k vm args (pos 0) o)

  pub l_pipe2-Keeps : Keeps os (l_pipe2 os (enter args vm))
  l_pipe2-Keeps = Safe-Keeps os _ (l_pipe2-Owned os k vm args o)

  pub l_mkstemp-Keeps : Keeps os (l_mkstemp os (enter args vm))
  l_mkstemp-Keeps = Safe-Keeps os _ (l_mkstemp-Owned os k vm args o)

-- Where the first argument of a call is a userdata, close(2) of what it holds does not fail but for
-- EBADF.
abbrev pub NoFailureAt : {W : Type 0} → Os W → List Value → Vm W → Type 0
NoFailureAt os [] vm = Unit
NoFailureAt os (userdata i ∷ rest) vm = NoFailure os vm i
NoFailureAt os (v ∷ rest) vm = Unit

module _ {W : Type 0} (os : Os W) (k : Kernel os) where
  pub gc-Keeps :
      (args : List Value) (vm : Vm W)
      → NoFailureAt os args vm
      → Parts os vm
      → Keeps os (l_freebsd_sys_fd_gc os (enter args vm))
  unfolding l_freebsd_sys_fd_gc
  gc-Keeps [] vm n p = Keeps-raised os _ _ p
  gc-Keeps (userdata i ∷ rest) vm n p =
      Safe-Keeps os _
        (unfold l_freebsd_sys_fd_gc in gc-Owned os k vm i rest (Parts-Owned os vm p) n)
  gc-Keeps (v ∷ rest) vm n p = Keeps-raised os _ _ p

  pub l_close-Keeps :
      (args : List Value) (vm : Vm W)
      → NoFailureAt os args vm
      → Parts os vm
      → Keeps os (l_close os (enter args vm))
  unfolding l_close
  l_close-Keeps [] vm n p = Keeps-raised os _ _ p
  l_close-Keeps (userdata i ∷ rest) vm n p = elim (Bool-cases (is_neg_one (vm.cells i).content)) [
    | inr held ↦
        Safe-Keeps os _
          (unfold l_close in l_close-Owned os k vm i rest (Parts-Owned os vm p) n held)
    | inl closed ↦ elim (Bool-cases (meta_eq (vm.cells i).meta sys_fd)) [
      | inr bad ↦ rw bad (Keeps-raised os _ _ p)
      | inl good ↦ rw good (rw closed (Keeps-aborted os))
    ]
  ]
  l_close-Keeps (v ∷ rest) vm n p = Keeps-raised os _ _ p
