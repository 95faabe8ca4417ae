-- ===== src/Descriptors/Keeps/Userdata.antt =====
-- Rules for userdata that hold no descriptor, for the registry's metatables, and for execve(2).
use bricoler.Base.{
  ℕ, suc, ℤ, ◌≢◌, ◌≤◌, arith, Bool, true, false, Option, some, none, if◌then◌else◌, ◌==◌,
  Bool-cases, inl, inr,
}
use bricoler.Lua.{Meta, no_meta, sys_fd, Cell, Vm, M, and_then, done}
use bricoler.Lua.Cells.{
  put_cell, lua_newuserdata, set_metatable, register, lual_newmetatable, meta_eq,
}
use bricoler.Os.{Os, exec_in}
use bricoler.Descriptors.{Holds}
use bricoler.Descriptors.Keeps.{keeps_rules, Parts, ClosesNone, OwnedParts, Keeps, Parts-moves}
use bricoler.Descriptors.Keeps.Tables.{table_rules}

module _ {W : Type 0} (os : Os W) where
  -- One userdata becomes another that holds no descriptor, and there may be more userdata.
  pub Parts-other :
      (cells : ℕ → Cell) (n m : ℕ) (registered : Meta → Bool) (w : W) (i : ℕ) (c : Cell)
      → c.meta ≢ sys_fd
      → n ≤ m
      → OwnedParts os cells n registered w
      → OwnedParts os (λ j. if j == i then c else cells j) m registered w
  Parts-other cells n m registered w i c other h p = record {
    owned = λ vm.
        let o = p.owned vm in
        let before = record vm {
          cells = cells;
          next_cell = n;
          registered = registered;
          world = w;
        } in
        let after = record vm {
          cells = λ j. if j == i then c else cells j;
          next_cell = m;
          registered = registered;
          world = w;
        } in
        let back : (j : ℕ) (x : ℤ) → Holds after j x → Holds before j x = λ j x k.
          elim (Bool-cases (j == i)) [
            | inl e ↦ absurd (other (rw e at k.meta))
            | inr e ↦ record { meta = rw e at k.meta; content = rw e at k.content; live = k.live }
          ] in
        record {
          held = λ j x k. o.held j x (back j x k);
          distinct = λ j l x k k'. o.distinct j l x (back j x k) (back l x k');
          loaded = o.loaded;
          made = λ j x k. omega (arith, h, o.made j x (back j x k));
        };
  }

  pub Parts-registers :
      (cells : ℕ → Cell) (n : ℕ) (registered : Meta → Bool) (w : W) (m : Meta)
      → OwnedParts os cells n registered w
      → OwnedParts os cells n (λ k. if meta_eq k m then true else registered k) w
  Parts-registers cells n registered w m p = record {
    owned = λ vm.
        let o = p.owned vm in
        record {
          held = λ j x k. o.held j x (record { meta = k.meta; content = k.content; live = k.live });
          distinct = λ j l x k k'.
              o.distinct j l x (record { meta = k.meta; content = k.content; live = k.live })
                (record { meta = k'.meta; content = k'.content; live = k'.live });
          loaded = ground (arith, o.loaded);
          made = λ j x k. o.made j x (record { meta = k.meta; content = k.content; live = k.live });
        };
  }

  pub Keeps-newuserdata : (z : ℤ) (vm : Vm W) → Parts os vm → Keeps os (lua_newuserdata z vm)
  Keeps-newuserdata z vm p =
      let q =
        Parts-other vm.cells vm.next_cell (suc vm.next_cell) vm.registered vm.world vm.next_cell
          (record { meta = no_meta; content = z }) (λ e. cc e) (omega arith) p in
      search (keeps_rules, q) depth 10

  pub Keeps-set_metatable :
      (m : Meta) (i : ℕ) (vm : Vm W) → m ≢ sys_fd → Parts os vm → Keeps os (set_metatable m i vm)
  Keeps-set_metatable m i vm n p = search (keeps_rules, given) depth 10
    where
      chosen : (b : Bool) → (if b then m else no_meta) ≢ sys_fd
      chosen true = n
      chosen false = λ e. cc e

      given :
          (vm : Vm W)
          → Parts os vm
          → Keeps os (
              done tt (
                put_cell i
                  (record (vm.cells i) { meta = if vm.registered m then m else no_meta })
                  vm))
      given vm p = record {
        kept =
            Parts-other vm.cells vm.next_cell vm.next_cell vm.registered vm.world i _
              (chosen (vm.registered m)) (omega arith) p;
      }

  pub Keeps-register : (m : Meta) (vm : Vm W) → Parts os vm → Keeps os (register m vm)
  Keeps-register m vm p = record {
    kept = Parts-registers vm.cells vm.next_cell vm.registered vm.world m p;
  }

  pub Keeps-newmetatable : (m : Meta) (vm : Vm W) → Parts os vm → Keeps os (lual_newmetatable m vm)
  Keeps-newmetatable m vm p = elim (Bool-cases (vm.registered m)) [
    | inl e ↦ rw (e, lual_newmetatable) (search keeps_rules depth 20)
    | inr e ↦ rw (e, lual_newmetatable) (search (table_rules, Keeps-register) depth 20)
  ]

  -- execve(2), and what its caller does when it fails.
  pub Keeps-exec :
      {B : Type 0} (r : Option ℕ × W) (vm : Vm W) (f : Unit {0} → M W B)
      → Parts os vm
      → ClosesNone os vm.world r.1
      → ((vm : Vm W) → Parts os vm → Keeps os (f tt vm))
      → Keeps os (and_then (exec_in r vm) f)
  Keeps-exec (none, w) vm f p c k = record { kept = tt }
  Keeps-exec (some e, w) vm f p c k =
      k (record vm { errno = e; world = w }) (Parts-moves os _ _ _ vm.world w p c)
