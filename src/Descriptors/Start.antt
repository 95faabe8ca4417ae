-- ===== src/Descriptors/Start.antt =====
-- A whole program: lua_freebsd_meta.c is loaded first, then any calls follow.
use bricoler.Base.{ℕ, ℤ, ◌≡◌, refl, List, [], false}
use bricoler.Lua.{sys_fd, Vm, M, enter}
use bricoler.Lua.Cells.{meta_eq, lual_newmetatable}
use bricoler.Os.{Os}
use bricoler.Meta.{luaopen_freebsd_meta}
use bricoler.Descriptors.{Kernel, NoFailures, After, Owned, Safe, Op, history, go_on, go_on-Safe}
use bricoler.Descriptors.Steps.{history-Owned}

-- No metatable of descriptors is registered, and no userdata has it.
pub record Fresh {W : Type 0} (vm : Vm W) : Type 0 where
  pub unregistered : vm.registered sys_fd ≡ false
  pub no_descriptor : (i : ℕ) → meta_eq (vm.cells i).meta sys_fd ≡ false

module _ {W : Type 0} (os : Os W) where
  unfoldable pub program : List Op → M W ℕ
  program ops vm = go_on os (history os ops) (luaopen_freebsd_meta os (enter [] vm))

  Fresh-Owned : (vm : Vm W) → Fresh vm → Safe (Owned os) (luaopen_freebsd_meta os (enter [] vm))
  unfolding luaopen_freebsd_meta
  Fresh-Owned vm f =
      rw (f.unregistered, lual_newmetatable)
        (record {
          held = λ i fd h. absurd (none_held i fd h.meta);
          distinct = λ i j fd h k. absurd (none_held i fd h.meta);
          loaded = refl;
          made = λ i fd h. absurd (none_held i fd h.meta);
        })
    where
      none_held : (i : ℕ) (fd : ℤ) → (vm.cells i).meta ≡ sys_fd → ⊥
      none_held i fd e = cc (rw e at (f.no_descriptor i))

  -- From a state that knows no descriptors, loading the metatable and then any history of calls in
  -- which no close(2) fails but for EBADF fails no assertion and does nothing undefined, and leaves
  -- every descriptor that a userdata holds open and held by it alone, provided that the kernel is
  -- as documented.
  pub program-Owned :
      (k : Kernel os) (ops : List Op) (vm : Vm W)
      → Fresh vm
      → After (NoFailures os ops) (luaopen_freebsd_meta os (enter [] vm))
      → Safe (Owned os) (program ops vm)
  unfolding program
  program-Owned k ops vm f n =
      go_on-Safe os (Owned os) (NoFailures os ops) (Owned os)
        (luaopen_freebsd_meta os (enter [] vm)) (history os ops) (Fresh-Owned vm f) n
        (λ vm' o n'. history-Owned os k ops vm' o n')
