-- ===== src/Contract/Fd.antt =====
-- The wrappers that use up a descriptor or remove by one: close with the __gc of
-- lua_freebsd_meta.c, and unlinkat.
use bricoler.Base.{ℕ, ◌≡◌, refl, pos, List, [], ◌∷◌, true, false, arith, to_int, is_neg_one}
use bricoler.Lua.{Value, Vm, Run, done, raised, sys_fd, userdata, enter}
use bricoler.Os.{Os, ok, fail}
use bricoler.Contract.{
  returned, crashed, call, error_values, c_string_arg, optinteger_arg, with_arg, reply, true_values,
}
use bricoler.Contract.Io.{udata_arg}
use bricoler.Contract.Files.{zero_values}
use bricoler.Sys.Open.{l_close}
use bricoler.Sys.Unlink.{l_unlinkat}
use bricoler.Meta.{l_freebsd_sys_fd_gc}

-- The state behind a run; a run that does not end in a state leaves the one before it.
abbrev pub state_after : {W : Type 0} → Run W ℕ → Vm W → Vm W
state_after (done n vm) old = vm
state_after (raised r vm) old = vm
state_after _ old = old

module _ {W : Type 0} (os : Os W) (vm : Vm W) where
  -- close and unlinkat fail an assertion exactly on a userdata that was closed. Otherwise close
  -- returns true or the error triple; unlinkat reports the first bad argument, or makes the system
  -- call relative to the descriptor and returns 0 or the error triple.
  pub l_close-reply :
      (args : List Value)
      → (call (l_close os) args vm ≡ (
          with_arg 1 (udata_arg vm sys_fd args 0) vm λ i. elim (is_neg_one (vm.cells i).content) [
            | true ↦ crashed
            | false ↦ reply os true_values vm (os.close (vm.cells i).content vm.world)
          ]))
        × (call (l_unlinkat os) args vm ≡ (
            with_arg 1 (udata_arg vm sys_fd args 0) vm λ i. elim (is_neg_one (vm.cells i).content) [
              | true ↦ crashed
              | false ↦
                  (with_arg 2 (c_string_arg os args 1) vm λ path.
                    with_arg 3 (optinteger_arg os args 2 (pos 0)) vm λ flags.
                      reply os zero_values vm
                        (os.unlinkat (vm.cells i).content path (to_int flags) vm.world))
            ]))
  unfolding l_close l_unlinkat
  l_close-reply [] = (refl, refl)
  l_close-reply (v ∷ []) = (ground arith, ground arith)
  l_close-reply (v ∷ w ∷ []) = (ground arith, ground arith)
  l_close-reply (v ∷ w ∷ x ∷ rest) = (ground arith, ground arith)

  -- Behind a successful close of a userdata, a second close fails its assertion, and the collector
  -- makes no system call.
  pub l_close-once :
      (i : ℕ) (w : W)
      → (vm.cells i).meta ≡ sys_fd
      → is_neg_one (vm.cells i).content ≡ false
      → os.close (vm.cells i).content vm.world ≡ (ok tt, w)
      → (let after = state_after (l_close os (enter (userdata i ∷ []) vm)) vm in
          (call (l_close os) (userdata i ∷ []) after ≡ crashed)
          × (call (l_freebsd_sys_fd_gc os) (userdata i ∷ []) after ≡ returned [] vm.live w))
  unfolding l_close l_freebsd_sys_fd_gc
  l_close-once i w m c e = rw (m, c) (rw e (ground arith))

  -- Where close(2) fails and a second close(2) of the descriptor fails too, as it does with EBADF
  -- when the first one released the descriptor, close returns the error triple and the userdata
  -- still holds the descriptor, so its collection fails an assertion.
  pub l_close-stale :
      (i : ℕ) (e e' : ℕ) (w w' : W)
      → (vm.cells i).meta ≡ sys_fd
      → is_neg_one (vm.cells i).content ≡ false
      → os.close (vm.cells i).content vm.world ≡ (fail e, w)
      → os.close (vm.cells i).content w ≡ (fail e', w')
      → (let after = state_after (l_close os (enter (userdata i ∷ []) vm)) vm in
          (call (l_close os) (userdata i ∷ []) vm ≡ returned (error_values os e) vm.live w)
          × ((after.cells i).content ≡ (vm.cells i).content)
          × (call (l_freebsd_sys_fd_gc os) (userdata i ∷ []) after ≡ crashed))
  unfolding l_close l_freebsd_sys_fd_gc
  l_close-stale i e e' w w' m c f g = rw (m, c) (rw f (ground (arith, m, c, g)))
