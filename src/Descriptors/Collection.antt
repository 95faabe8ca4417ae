-- ===== src/Descriptors/Collection.antt =====
-- Lua collects every userdata when its state is closed: what becomes of the descriptors.
use bricoler.Base.{
  ℕ, zero, suc, ◌<◌, ℤ, ◌≡◌, refl, ap, subst, ◌⊎◌, inl, inr, List, [], ◌∷◌, false, arith, ◌==◌,
  is_neg_one, Bool-cases,
}
use bricoler.Lua.{Value, userdata, sys_fd, Vm, enter}
use bricoler.Lua.Cells.{meta_eq, meta_eq→eq}
use bricoler.Os.{Os, Ret, Ret-cases, ok}
use bricoler.Meta.{l_freebsd_sys_fd_gc}
use bricoler.Descriptors.{
  Kernel, NoFailure, NoFailures, Holds, Owned, Safe, Safe-map, go_on-Safe, Op, gc, run_op, history,
}
use bricoler.Descriptors.Ownership.{
  close-Holds, Owned-world, Owned-drop, Dropped, Holds-drop, Holds-kept,
}

module _ {W : Type 0} (os : Os W) where
  -- What a collection of the userdata that fit `Which` does.
  pub record Collected (Which : ℕ → Type 0) (vm vm' : Vm W) : Type 0 where
    pub owned : Owned os vm'
    pub none_held : (i : ℕ) (fd : ℤ) → Which i → ¬ (Holds vm' i fd)
    pub held_before : (i : ℕ) (fd : ℤ) → Holds vm' i fd → Holds vm i fd
    pub held_or_closed :
        (i : ℕ) (fd : ℤ) → Holds vm i fd → Holds vm' i fd ⊎ (os.is_open fd vm'.world ≡ false)
    pub stays_closed : (fd : ℤ) → os.is_open fd vm.world ≡ false → os.is_open fd vm'.world ≡ false

  -- A userdata that holds nothing: its collection changes nothing.
  Collected-entered :
      (vm : Vm W) (i : ℕ) (args : List Value)
      → ((fd : ℤ) → ¬ (Holds vm i fd))
      → Owned os vm
      → Collected (λ j. j ≡ i) vm (enter args vm)
  Collected-entered vm i args none o = record {
    owned = Owned-world os vm (enter args vm) refl refl refl (λ j _ h. h) o;
    none_held = λ j fd e h. none fd (subst (λ k. Holds vm k fd) e (same j fd h));
    held_before = same;
    held_or_closed = λ j fd h. inl (record { meta = h.meta; content = h.content; live = h.live });
    stays_closed = λ fd h. h;
  }
    where
      same : (j : ℕ) (fd : ℤ) → Holds (enter args vm) j fd → Holds vm j fd
      same j fd h = record { meta = h.meta; content = h.content; live = h.live }

  module _ (k : Kernel os) where
    -- A userdata that holds a descriptor: the descriptor is closed, and no other.
    Collected-drop :
        (vm vm' : Vm W) (i : ℕ)
        → Dropped os vm vm' i
        → vm'.next_cell ≡ vm.next_cell
        → vm'.registered ≡ vm.registered
        → vm'.world ≡ (os.close (vm.cells i).content vm.world).1
        → Holds vm i (vm.cells i).content
        → (os.close (vm.cells i).content vm.world).0 ≡ ok tt
        → Owned os vm
        → Collected (λ j. j ≡ i) vm vm'
    Collected-drop vm vm' i d n g w h works o =
        let fd = (vm.cells i).content in
        record {
          owned = Owned-drop os vm vm' i fd d n g h (rw w (k.close_keeps fd vm.world)) o;
          none_held = λ j x e h'. (Holds-drop os vm vm' i d j x h').0 e;
          held_before = λ j x h'. (Holds-drop os vm vm' i d j x h').1;
          held_or_closed = λ j x h'. elim (Bool-cases (j == i)) [
            | inr f ↦ inl (Holds-kept os vm vm' i d j x f h')
            | inl t ↦
                let same : j ≡ i = ground (arith, t) in
                let fd_x : fd ≡ x = cc (same, h'.content) in
                inr (
                  rw w (
                    subst (λ y. os.is_open y (os.close fd vm.world).1 ≡ false) fd_x
                      (k.close_closes fd vm.world works)))
          ];
          stays_closed = λ x c. rw w (k.close_opens_none fd x vm.world c);
        }

    gc-Collected :
        (vm : Vm W) (i : ℕ)
        → Owned os vm
        → NoFailure os vm i
        → Safe (Collected (λ j. j ≡ i) vm) (run_op os (gc i) vm)
    unfolding run_op l_freebsd_sys_fd_gc
    gc-Collected vm i o n = elim (Bool-cases (meta_eq (vm.cells i).meta sys_fd)) [
      | inr bad ↦
          rw bad (Collected-entered vm i (userdata i ∷ []) (λ fd h. (cc (rw h.meta at bad))) o)
      | inl good ↦ rw good (elim (Bool-cases (is_neg_one (vm.cells i).content)) [
        | inl closed ↦
            rw (closed, Safe)
              (Collected-entered vm i (userdata i ∷ [])
                (λ fd h. (cc (h.live, ap is_neg_one h.content, closed))) o)
        | inr held ↦
            let fd = (vm.cells i).content in
            let h : Holds vm i fd = record {
              meta = meta_eq→eq _ good;
              content = refl;
              live = held;
            } in
            let works : (os.close fd vm.world).0 ≡ ok tt = close-Holds os k vm i fd o n h in
            rw (held, Safe)
              (elim (Ret-cases (os.close fd vm.world)) [
                | inl (a, e) ↦
                    rw e (Collected-drop vm _ i (λ j. ground arith) refl refl refl h works o)
                | inr (err, e) ↦ absurd (cc (works, ap (λ (r : Ret (Unit {0}) × W). r.0) e))
              ])
      ])
    ]

  -- Two collections, one after the other.
  Collected-then :
      (n : ℕ) (vm vm' vm'' : Vm W)
      → Collected (λ j. j ≡ n) vm vm'
      → Collected (λ j. j < n) vm' vm''
      → Collected (λ j. j < suc n) vm vm''
  Collected-then n vm vm' vm'' c d = record {
    owned = d.owned;
    none_held = λ j fd l h. elim (Bool-cases (j == n)) [
      | inl t ↦ c.none_held j fd (ground (arith, t)) (d.held_before j fd h)
      | inr f ↦ d.none_held j fd (ground (arith, f, l)) h
    ];
    held_before = λ j fd h. c.held_before j fd (d.held_before j fd h);
    held_or_closed = λ j fd h. elim (c.held_or_closed j fd h) [
      | inl h' ↦ d.held_or_closed j fd h'
      | inr z ↦ inr (d.stays_closed fd z)
    ];
    stays_closed = λ fd z. d.stays_closed fd (c.stays_closed fd z);
  }

  -- The collection of the first `n` userdata, the last one first, as lua_close goes about it.
  unfoldable pub collect : ℕ → List Op
  collect zero = []
  collect (suc n) = gc n ∷ collect n

  module _ (k : Kernel os) where
    collect-Collected :
        (n : ℕ) (vm : Vm W)
        → Owned os vm
        → NoFailures os (collect n) vm
        → Safe (Collected (λ j. j < n) vm) (history os (collect n) vm)
    unfolding history collect
    collect-Collected zero vm o f = record {
      owned = o;
      none_held = λ j fd l h. omega (arith, l);
      held_before = λ j fd h. h;
      held_or_closed = λ j fd h. inl h;
      stays_closed = λ fd z. z;
    }
    collect-Collected (suc n) vm o f =
        go_on-Safe os (Collected (λ j. j ≡ n) vm) (NoFailures os (collect n))
          (Collected (λ j. j < suc n) vm) (run_op os (gc n) vm) (history os (collect n))
          (gc-Collected k vm n o f.0) f.1
          (λ vm' c f'.
            Safe-map (Collected (λ j. j < n) vm') (Collected (λ j. j < suc n) vm)
              (λ vm'' d. Collected-then n vm vm' vm'' c d) (history os (collect n) vm')
              (collect-Collected n vm' c.owned f'))

    -- When all the userdata that were made are collected, each of them owning its descriptor, and
    -- no close(2) fails but for EBADF, no assertion fails, none of them holds a descriptor any
    -- more, and every descriptor that one of them held is closed in the system, provided that the
    -- kernel is as documented.
    pub collect-all_closed :
        (vm : Vm W)
        → Owned os vm
        → NoFailures os (collect vm.next_cell) vm
        → Safe
            (λ vm'.
              ((i : ℕ) (fd : ℤ) → ¬ (Holds vm' i fd))
              × ((i : ℕ) (fd : ℤ) → Holds vm i fd → os.is_open fd vm'.world ≡ false))
            (history os (collect vm.next_cell) vm)
    collect-all_closed vm o f =
        Safe-map (Collected (λ j. j < vm.next_cell) vm) _
          (λ vm' c.
            let none : (i : ℕ) (fd : ℤ) → ¬ (Holds vm' i fd) =
              λ i fd h. c.none_held i fd (o.made i fd (c.held_before i fd h)) h in
            (
              none,
              λ i fd h. elim (c.held_or_closed i fd h) [
                | inl h' ↦ absurd (none i fd h')
                | inr z ↦ z
              ],
            ))
          (history os (collect vm.next_cell) vm) (collect-Collected vm.next_cell vm o f)
