-- ===== src/Descriptors/Ownership.antt =====
-- What the updates of userdata and of the system do to the ownership of descriptors.
use bricoler.Base.{
  ℕ, suc, ℤ, ◌≡◌, ◌≢◌, refl, false, sym, ◌∙◌, ap, subst, ◌⊎◌, inl, inr, true, is_neg_one,
  Bool-cases, arith, ◌==◌, if◌then◌else◌, negsuc,
}
use bricoler.Lua.{sys_fd, Cell, Vm}
use bricoler.Os.{Os, Ret, ok, fail}
use bricoler.Descriptors.{KeepsOpen, Opens, Kernel, NoFailure, Holds, Owned}

-- The close(2) of the descriptor that a userdata owns succeeds: its error could only be EBADF.
pub close-Holds :
    {W : Type 0} (os : Os W) (k : Kernel os) (vm : Vm W) (i : ℕ) (fd : ℤ)
    → Owned os vm
    → NoFailure os vm i
    → Holds vm i fd
    → (os.close fd vm.world).0 ≡ ok tt
close-Holds os k vm i fd o n h = result (os.close fd vm.world).0 refl
  where
    result : (r : Ret (Unit {0})) → (os.close fd vm.world).0 ≡ r → (os.close fd vm.world).0 ≡ ok tt
    result (ok tt) e = e
    result (fail x) e =
        let badf : x ≡ os.error_number "EBADF" = n fd x h e in
        let closed : os.is_open fd vm.world ≡ false =
          k.close_badf fd vm.world (subst (λ y. (os.close fd vm.world).0 ≡ fail y) badf e) in
        absurd (cc (closed, o.held i fd h))

abbrev pub fd_cell : ℤ → Cell
fd_cell fd = record { meta = sys_fd; content = fd }

module _ {W : Type 0} (os : Os W) where
  -- The userdata and the open descriptors are all that matters.
  pub Owned-world :
      (vm vm' : Vm W)
      → vm'.cells ≡ vm.cells
      → vm'.next_cell ≡ vm.next_cell
      → vm'.registered ≡ vm.registered
      → KeepsOpen os (λ _. ⊥) vm.world vm'.world
      → Owned os vm
      → Owned os vm'
  Owned-world vm vm' e n g k o = record {
    loaded = rw g o.loaded;
    held = λ i fd h. k fd (λ x. x) (o.held i fd (back i fd h));
    distinct = λ i j fd h h'. o.distinct i j fd (back i fd h) (back j fd h');
    made = λ i fd h. rw n (o.made i fd (back i fd h));
  }
    where
      back : (i : ℕ) (fd : ℤ) → Holds vm' i fd → Holds vm i fd
      back i fd h = record {
        meta = subst (λ c. (c i).meta ≡ sys_fd) e h.meta;
        content = subst (λ c. (c i).content ≡ fd) e h.content;
        live = h.live;
      }

  -- Nobody holds a descriptor that is not open.
  pub not-Holds :
      (vm : Vm W) (fd : ℤ)
      → os.is_open fd vm.world ≡ false
      → Owned os vm
      → (j : ℕ) → ¬ (Holds vm j fd)
  not-Holds vm fd closed o j h = cc (closed, o.held j fd h)

  -- Who holds a descriptor after userdata have been made: the new one, or who held it before.
  pub Holds-split :
      (vm vm' : Vm W) (fd : ℤ)
      → ((i : ℕ) → vm'.cells i ≡ (if i == vm.next_cell then fd_cell fd else vm.cells i))
      → (i : ℕ) (x : ℤ) → Holds vm' i x
      → ((i ≡ vm.next_cell) × (x ≡ fd)) ⊎ Holds vm i x
  Holds-split vm vm' fd e i x h = elim (Bool-cases (i == vm.next_cell)) [
    | inl t ↦ inl (ground arith, sym h.content ∙ ap (λ (c : Cell). c.content) (e i) ∙ rw t)
    | inr f ↦
        let same : vm'.cells i ≡ vm.cells i = rw f at (e i) in
        inr (record {
          meta = subst (λ (c : Cell). c.meta ≡ sys_fd) same h.meta;
          content = subst (λ (c : Cell). c.content ≡ x) same h.content;
          live = h.live;
        })
  ]

  -- A new userdata that holds an open descriptor which nobody held.
  pub Owned-add :
      (vm vm' : Vm W) (fd : ℤ)
      → ((i : ℕ) → vm'.cells i ≡ (if i == vm.next_cell then fd_cell fd else vm.cells i))
      → vm'.next_cell ≡ suc vm.next_cell
      → vm'.registered ≡ vm.registered
      → vm'.world ≡ vm.world
      → ((j : ℕ) → ¬ (Holds vm j fd))
      → os.is_open fd vm.world ≡ true
      → Owned os vm
      → Owned os vm'
  Owned-add vm vm' fd e n g w fresh opened o = record {
    loaded = rw g o.loaded;
    held = λ i x h. elim (Holds-split vm vm' fd e i x h) [
      | inl p ↦ rw (p.1, w) opened
      | inr h₀ ↦ rw w (o.held i x h₀)
    ];
    distinct = λ i j x h h'. elim (Holds-split vm vm' fd e i x h) [
      | inl p ↦ elim (Holds-split vm vm' fd e j x h') [
        | inl q ↦ p.0 ∙ sym q.0
        | inr k ↦ absurd (fresh j (subst (λ y. Holds vm j y) p.1 k))
      ]
      | inr k ↦ elim (Holds-split vm vm' fd e j x h') [
        | inl q ↦ absurd (fresh i (subst (λ y. Holds vm i y) q.1 k))
        | inr k' ↦ o.distinct i j x k k'
      ]
    ];
    made = λ i x h. elim (Holds-split vm vm' fd e i x h) [
      | inl p ↦ omega arith
      | inr h₀ ↦ omega (arith, o.made i x h₀)
    ];
  }

  -- The same where the system has just opened the descriptor.
  pub Owned-new :
      (vm vm' : Vm W) (fd : ℤ)
      → ((i : ℕ) → vm'.cells i ≡ (if i == vm.next_cell then fd_cell fd else vm.cells i))
      → vm'.next_cell ≡ suc vm.next_cell
      → vm'.registered ≡ vm.registered
      → Opens os vm.world fd vm'.world
      → Owned os vm
      → Owned os vm'
  Owned-new vm vm' fd e n g opens o =
      Owned-add moved vm' fd e n g refl
        (λ j h.
          not-Holds vm fd opens.was_closed o j
            (record { meta = h.meta; content = h.content; live = h.live }))
        opens.now_open (Owned-world vm moved refl refl refl opens.keeps o)
    where
      moved : Vm W
      moved = record vm { world = vm'.world }

  -- Who holds a descriptor after userdata `i` has given its own up: everyone who did, but for `i`.
  abbrev pub Dropped : Vm W → Vm W → ℕ → Type 0
  Dropped vm vm' i =
      (j : ℕ)
      → vm'.cells j ≡ (if j == i then record (vm.cells i) { content = negsuc 0 } else vm.cells j)

  pub Holds-drop :
      (vm vm' : Vm W) (i : ℕ)
      → Dropped vm vm' i
      → (j : ℕ) (x : ℤ) → Holds vm' j x
      → (j ≢ i) × Holds vm j x
  Holds-drop vm vm' i e j x h = elim (Bool-cases (j == i)) [
    | inl t ↦ absurd (dead (sym h.content ∙ ap (λ (c : Cell). c.content) (e j) ∙ rw t))
    | inr f ↦
        let same : vm'.cells j ≡ vm.cells j = rw f at (e j) in
        (
          ground arith,
          record {
            meta = subst (λ (c : Cell). c.meta ≡ sys_fd) same h.meta;
            content = subst (λ (c : Cell). c.content ≡ x) same h.content;
            live = h.live;
          },
        )
  ]
    where
      dead : x ≡ negsuc 0 → ⊥
      dead q = cc (h.live, ap is_neg_one q)

  pub Holds-kept :
      (vm vm' : Vm W) (i : ℕ)
      → Dropped vm vm' i
      → (j : ℕ) (x : ℤ) → (j == i) ≡ false
      → Holds vm j x
      → Holds vm' j x
  Holds-kept vm vm' i e j x f h =
      let same : vm'.cells j ≡ vm.cells j = rw f at (e j) in
      record {
        meta = subst (λ (c : Cell). c.meta ≡ sys_fd) (sym same) h.meta;
        content = subst (λ (c : Cell). c.content ≡ x) (sym same) h.content;
        live = h.live;
      }

  -- Userdata `i` gives its descriptor up, and the system closes no other.
  pub Owned-drop :
      (vm vm' : Vm W) (i : ℕ) (fd : ℤ)
      → Dropped vm vm' i
      → vm'.next_cell ≡ vm.next_cell
      → vm'.registered ≡ vm.registered
      → Holds vm i fd
      → KeepsOpen os (λ j. j ≡ fd) vm.world vm'.world
      → Owned os vm
      → Owned os vm'
  Owned-drop vm vm' i fd e n g old keeps o = record {
    loaded = rw g o.loaded;
    held = λ j x h.
        let p = Holds-drop vm vm' i e j x h in
        keeps x (λ q. p.0 (o.distinct j i x p.1 (subst (λ y. Holds vm i y) (sym q) old)))
          (o.held j x p.1);
    distinct = λ j k x h h'.
        o.distinct j k x (Holds-drop vm vm' i e j x h).1 (Holds-drop vm vm' i e k x h').1;
    made = λ j x h. rw n (o.made j x (Holds-drop vm vm' i e j x h).1);
  }
