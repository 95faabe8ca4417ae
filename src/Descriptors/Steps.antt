-- ===== src/Descriptors/Steps.antt =====
-- Every call keeps the ownership of descriptors, so every history does.
use bricoler.Base.{
  true, false, ℕ, suc, ◌+◌, ℤ, ◌≡◌, refl, sym, ap, inl, inr, is_neg_one, not, ◌||◌, leb_ℤ, length,
  pos, to_int, Bool-cases, Option-cases, arith, ◌==◌, if◌then◌else◌, List, [], ◌∷◌,
}
use bricoler.Lua.{Value, userdata, sys_fd, Vm, enter}
use bricoler.Lua.Stack.{bind_option, at_index, integer_of, string_of, c_str, is_none_or_nil}
use bricoler.Lua.Cells.{meta_eq, meta_eq→eq}
use bricoler.Os.{int_min, int_max, Os, Ret, Ret-cases, ok}
use bricoler.Descriptors.{
  Kernel, NoFailure, NoFailureOf, NoFailures, Holds, Owned, Safe, go_on-Safe, Op, socket, pipe,
  pipe2, mkstemp, close, gc, run_op, history,
}
use bricoler.Descriptors.Ownership.{
  fd_cell, close-Holds, Owned-world, not-Holds, Holds-split, Owned-add, Owned-new, Owned-drop,
}
use bricoler.Sys.Open.{l_close}
use bricoler.Sys.Pipe.{l_pipe, l_pipe2, _l_pipe2}
use bricoler.Sys.Socket.{l_socket, open_socket}
use bricoler.Mktemp.{l_mkstemp}
use bricoler.Meta.{l_freebsd_sys_fd_gc}

module _ {W : Type 0} (os : Os W) (k : Kernel os) where
  -- The entry of a call, and a failed system call, leave userdata and descriptors alone.
  entered : (vm : Vm W) (args : List Value) → Owned os vm → Owned os (enter args vm)
  entered vm args o = Owned-world os vm (enter args vm) refl refl refl (λ j _ h. h) o

  result_of : {A : Type 0} {r s : Ret A × W} → r ≡ s → r.0 ≡ s.0
  result_of e = ap (λ r. r.0) e

  -- The two calls that close a descriptor, of a userdata and any further arguments.
  module _ (vm : Vm W) (i : ℕ) (rest : List Value) (o : Owned os vm) (n : NoFailure os vm i) where
    good-Holds :
        meta_eq (vm.cells i).meta sys_fd ≡ true
        → is_neg_one (vm.cells i).content ≡ false
        → Holds vm i (vm.cells i).content
    good-Holds good held = record { meta = meta_eq→eq _ good; content = refl; live = held }

    works :
        (h : Holds vm i (vm.cells i).content) → (os.close (vm.cells i).content vm.world).0 ≡ ok tt
    works h = close-Holds os k vm i _ o n h

    pub gc-Owned : Safe (Owned os) (l_freebsd_sys_fd_gc os (enter (userdata i ∷ rest) vm))
    unfolding l_freebsd_sys_fd_gc
    gc-Owned = elim (Bool-cases (meta_eq (vm.cells i).meta sys_fd)) [
      | inr bad ↦ rw bad (entered vm (userdata i ∷ rest) o)
      | inl good ↦ rw good (elim (Bool-cases (is_neg_one (vm.cells i).content)) [
        | inl closed ↦ rw (closed, Safe) (entered vm (userdata i ∷ rest) o)
        | inr held ↦
            let h = good-Holds good held in
            rw (held, Safe)
              (elim (Ret-cases (os.close (vm.cells i).content vm.world)) [
                | inl (a, e) ↦ rw e (
                    Owned-drop os vm _ i _ (λ j. ground arith) refl refl h
                      (k.close_keeps _ vm.world) o)
                | inr (err, e) ↦ absurd (cc (works h, result_of e))
              ])
      ])
    ]

    pub l_close-Owned :
        is_neg_one (vm.cells i).content ≡ false
        → Safe (Owned os) (l_close os (enter (userdata i ∷ rest) vm))
    unfolding l_close
    l_close-Owned held = elim (Bool-cases (meta_eq (vm.cells i).meta sys_fd)) [
      | inr bad ↦ rw bad (entered vm (userdata i ∷ rest) o)
      | inl good ↦
          let h = good-Holds good held in
          rw good (
            rw (held, Safe)
              (elim (Ret-cases (os.close (vm.cells i).content vm.world)) [
                | inl (a, e) ↦ rw e (
                    Owned-drop os vm _ i _ (λ j. ground arith) refl refl h
                      (k.close_keeps _ vm.world) o)
                | inr (err, e) ↦ absurd (cc (works h, result_of e))
              ]))
    ]

  close-Owned :
      (vm : Vm W) (i : ℕ)
      → Owned os vm
      → NoFailure os vm i
      → Safe (Owned os) (run_op os (close i) vm)
  unfolding run_op
  close-Owned vm i o n = elim (Bool-cases (is_neg_one (vm.cells i).content)) [
    | inl closed ↦ rw (closed, Safe) o
    | inr held ↦ rw (held, Safe) (l_close-Owned vm i [] o n held)
  ]

  pub _l_pipe2-Owned :
      (vm : Vm W) (args : List Value) (flags : ℤ)
      → Owned os vm
      → Safe (Owned os) (_l_pipe2 os flags (enter args vm))
  unfolding _l_pipe2
  _l_pipe2-Owned vm args flags o = elim (Ret-cases (os.pipe2 flags vm.world)) [
    | inl (fds, e) ↦
        let p = k.pipe_opens flags vm.world fds.0 fds.1 (result_of e) in
        let one : Vm W = record vm {
          cells = λ i. if i == vm.next_cell then fd_cell fds.0 else vm.cells i;
          next_cell = suc vm.next_cell;
          world = (os.pipe2 flags vm.world).1;
        } in
        let first : Owned os one = Owned-new os vm one fds.0 (λ i. refl) refl refl p.3 o in
        let fresh : (j : ℕ) → ¬ (Holds one j fds.1) = λ j h.
          elim (Holds-split os vm one fds.0 (λ i. refl) j fds.1 h) [
            | inl q ↦ p.0 (sym q.1)
            | inr old ↦ not-Holds os vm fds.1 p.1 o j old
          ] in
        rw e
          (Owned-add os one _ fds.1 (λ i. ground (arith, o.loaded)) refl refl refl fresh p.2 first)
    | inr (err, e) ↦
        rw e (Owned-world os vm _ refl refl refl (k.pipe_fails flags vm.world err (result_of e)) o)
  ]

  pub l_socket-Owned :
      (vm : Vm W) (args : List Value) → Owned os vm → Safe (Owned os) (l_socket os (enter args vm))
  unfolding l_socket
  l_socket-Owned vm args o =
      elim (Option-cases
        (bind_option (at_index 1 (enter args vm)) λ v. integer_of os.conversions v)) [
          | inl e ↦ rw e (entered vm args o)
          | inr (d, e) ↦
              rw e
                (elim (Option-cases
                  (bind_option (at_index 2 (enter args vm)) λ v. integer_of os.conversions v)) [
                    | inl e ↦ rw e (entered vm args o)
                    | inr (t, e) ↦
                        rw e (elim (Bool-cases (is_none_or_nil (at_index 3 (enter args vm)))) [
                          | inl absent ↦ rw absent (opened d t (pos 0))
                          | inr given ↦
                              rw given
                                (elim (Option-cases (
                                  bind_option (at_index 3 (enter args vm))
                                    λ v. integer_of os.conversions v)) [
                                      | inl e ↦ rw e (entered vm args o)
                                      | inr (p, e) ↦ rw e (opened d t p)
                                    ])
                        ])
                  ])
        ]
    where
      opened : (d t p : ℤ) → Safe (Owned os) (open_socket os d t p (enter args vm))
      opened d t p = elim (Ret-cases (os.socket (to_int d) (to_int t) (to_int p) vm.world)) [
        | inl (fd, e) ↦ rw e (
            Owned-new os vm _ fd (λ i. ground (arith, o.loaded)) refl refl
              (k.socket_opens _ _ _ vm.world fd (result_of e)) o)
        | inr (err, e) ↦
            rw e (
              Owned-world os vm _ refl refl refl (k.socket_fails _ _ _ vm.world err (result_of e))
                o)
      ]

  pub l_pipe2-Owned :
      (vm : Vm W) (args : List Value) → Owned os vm → Safe (Owned os) (l_pipe2 os (enter args vm))
  unfolding l_pipe2
  l_pipe2-Owned vm args o =
      elim (Option-cases
        (bind_option (at_index 1 (enter args vm)) λ v. integer_of os.conversions v)) [
          | inl e ↦ rw e (entered vm args o)
          | inr (flags, e) ↦
              rw e (elim (Bool-cases (not (leb_ℤ int_min flags) || not (leb_ℤ flags int_max))) [
                | inl outside ↦
                    rw (outside, if◌then◌else◌) (Owned-world os vm _ refl refl refl (λ j _ h. h) o)
                | inr inside ↦ rw (inside, if◌then◌else◌) (_l_pipe2-Owned vm args (to_int flags) o)
              ])
        ]

  pub l_mkstemp-Owned :
      (vm : Vm W) (args : List Value) → Owned os vm → Safe (Owned os) (l_mkstemp os (enter args vm))
  unfolding l_mkstemp
  l_mkstemp-Owned vm args o =
      elim (Option-cases
        (bind_option (at_index 1 (enter args vm)) λ v. string_of os.conversions v)) [
          | inl e ↦ rw e (entered vm args o)
          | inr (template, e) ↦
              rw e (elim (Ret-cases (os.malloc (length (c_str template) + 1) vm.world)) [
                | inr (err, e) ↦
                    rw e (Owned-world os vm _ refl refl refl (k.malloc_keeps _ vm.world) o)
                | inl (a, e) ↦
                    let w₁ = (os.malloc (length (c_str template) + 1) vm.world).1 in
                    let vm₁ : Vm W = record vm { world = w₁ } in
                    let o₁ : Owned os vm₁ =
                      Owned-world os vm vm₁ refl refl refl (k.malloc_keeps _ vm.world) o in
                    rw e (elim (Ret-cases (os.mkstemp (c_str template) w₁)) [
                      | inl (file, e) ↦ rw e (
                          Owned-new os vm₁ _ file.0 (λ i. ground (arith, o₁.loaded)) refl refl
                            (k.mkstemp_opens (c_str template) w₁ file.0 file.1 (result_of e)) o₁)
                      | inr (err, e) ↦ rw e (
                          Owned-world os vm₁ _ refl refl refl
                            (k.mkstemp_fails (c_str template) w₁ err (result_of e)) o₁)
                    ])
              ])
        ]

  -- Every call keeps the ownership, does nothing undefined and fails no assertion.
  pub run_op-Owned :
      (op : Op) (vm : Vm W) → Owned os vm → NoFailureOf os op vm → Safe (Owned os) (run_op os op vm)
  run_op-Owned (socket args) vm o n = unfold run_op in l_socket-Owned vm args o
  run_op-Owned (pipe args) vm o n = unfold run_op l_pipe in _l_pipe2-Owned vm args (pos 0) o
  run_op-Owned (pipe2 args) vm o n = unfold run_op in l_pipe2-Owned vm args o
  run_op-Owned (mkstemp args) vm o n = unfold run_op in l_mkstemp-Owned vm args o
  run_op-Owned (close i) vm o n = close-Owned vm i o n
  run_op-Owned (gc i) vm o n = unfold run_op in gc-Owned vm i [] o n

  -- Where the kernel opens and closes descriptors as documented and each userdata owns its
  -- descriptor at the start: through any history of socket, pipe, pipe2, mkstemp, close of a
  -- userdata that is not closed, and collection, with any arguments, in which no close(2) fails but
  -- for EBADF, every descriptor that a userdata holds is open and held by that userdata alone; no
  -- call fails an assertion, so no descriptor is closed twice, and no call pushes beyond its stack
  -- or does anything else that is undefined.
  pub history-Owned :
      (ops : List Op) (vm : Vm W)
      → Owned os vm
      → NoFailures os ops vm
      → Safe (Owned os) (history os ops vm)
  unfolding history
  history-Owned [] vm o n = o
  history-Owned (op ∷ ops) vm o n =
      go_on-Safe os (Owned os) (NoFailures os ops) (Owned os) (run_op os op vm) (history os ops)
        (run_op-Owned op vm o n.0) n.1 (λ vm' o' n'. history-Owned ops vm' o' n')
