-- ===== src/Descriptors/Calls.antt =====
-- Any sequence of calls of the C functions of lib/freebsd, with what the rest of the program does in
-- between, from the loading of sys.lua on.
use bricoler.Base.{ℕ, ℤ, String, ◌≡◌, refl, List, [], ◌∷◌, true, false, Option, some, subst, arith}
use bricoler.Lua.{
  Bytes, Value, userdata, sys_fd, file_actions, spawnattr, Table, Vm, M, Raise, Run, done, raised,
  enter, Cell,
}
use bricoler.Lua.Cells.{meta_eq}
use bricoler.Os.{Os}
use bricoler.Library.{load_sys}
use bricoler.Library.Functions.{find}
use bricoler.Library.Requires.{Registers}
use bricoler.Library.Loading.{load_sys-Loaded}
use bricoler.Descriptors.{Kernel, NoFailure, Holds, Owned, Safe}
use bricoler.Descriptors.Keeps.{Kept}
use bricoler.Descriptors.Keeps.Others.{Others}
use bricoler.Descriptors.Keeps.Owners.{Owned-Parts, Parts-Owned, NoFailureAt}
use bricoler.Library.Callable.{callable}
use bricoler.Descriptors.Keepers.{callable-Keeper}
use bricoler.Descriptors.Steps.{gc-Owned}
use bricoler.Meta.{l_freebsd_sys_fd_gc}

module _ {W : Type 0} (os : Os W) where
  -- A call that comes back, or what other code does: it may change Lua's tables and the system, but
  -- closes no descriptor that a userdata holds.
  pub data Step : Vm W → Vm W → Type 0 where
    returns :
        (f : String) (m : M W ℕ) (args : List Value) (n : ℕ) {vm vm' : Vm W}
        → find f (callable os) ≡ some m
        → m (enter args vm) ≡ done n vm'
        → Step vm vm'
    raises :
        (f : String) (m : M W ℕ) (args : List Value) (r : Raise) {vm vm' : Vm W}
        → find f (callable os) ≡ some m
        → m (enter args vm) ≡ raised r vm'
        → Step vm vm'
    elsewhere :
        (tables : ℕ → Table) (w : W) {vm : Vm W}
        → ((i : ℕ) (fd : ℤ) → Holds vm i fd → os.is_open fd w ≡ true)
        → Step vm (record vm { tables = tables; world = w })

  pub data Reach (vm : Vm W) : Vm W → Type 0 where
    here : Reach vm vm
    next : {vm' vm₂ : Vm W} → Reach vm vm' → Step vm' vm₂ → Reach vm vm₂

  -- No close(2) that a call of the sequence makes fails, but for EBADF.
  abbrev NoFailureStep : {vm vm' : Vm W} → Step vm vm' → Type 0
  NoFailureStep {vm = vm} (returns f m args n e c) = NoFailureAt os args vm
  NoFailureStep {vm = vm} (raises f m args r e c) = NoFailureAt os args vm
  NoFailureStep (elsewhere tables w h) = Unit

  abbrev pub NoFailureCalls : {vm vm' : Vm W} → Reach vm vm' → Type 0
  NoFailureCalls here = Unit
  NoFailureCalls (next reach step) = NoFailureCalls reach × NoFailureStep step

module _ {W : Type 0} (os : Os W) (k : Kernel os) (o : Others os) where
  call-Kept :
      (f : String) (m : M W ℕ) (args : List Value) (vm : Vm W) (r : Run W ℕ)
      → find f (callable os) ≡ some m
      → m (enter args vm) ≡ r
      → NoFailureAt os args vm
      → Owned os vm
      → Kept os r
  call-Kept f m args vm r e c n owned =
      subst (Kept os) c (callable-Keeper os k o f m e args vm n (Owned-Parts os vm owned)).kept

  Step-Owned :
      {vm vm' : Vm W} (step : Step os vm vm') → NoFailureStep os step → Owned os vm → Owned os vm'
  Step-Owned (returns f m args n e c) q owned =
      Parts-Owned os _ (call-Kept f m args _ _ e c q owned)
  Step-Owned (raises f m args r e c) q owned = Parts-Owned os _ (call-Kept f m args _ _ e c q owned)
  Step-Owned (elsewhere tables w h) n owned = record {
    held = λ i fd q. h i fd (record { meta = q.meta; content = q.content; live = q.live });
    distinct = λ i j fd q q'.
        owned.distinct i j fd (record { meta = q.meta; content = q.content; live = q.live })
          (record { meta = q'.meta; content = q'.content; live = q'.live });
    loaded = owned.loaded;
    made = λ i fd q. owned.made i fd (record { meta = q.meta; content = q.content; live = q.live });
  }

  -- In every state that is reached by calls of any functions of the modules with any arguments, and
  -- by what other code does in between, each userdata owns its descriptor, provided that this holds
  -- at the start, that the kernel is as documented, that no close(2) of the calls fails but for
  -- EBADF, and that no other call of libc closes a descriptor.
  Reach-Owned :
      {vm vm' : Vm W} (reach : Reach os vm vm')
      → NoFailureCalls os reach
      → Owned os vm
      → Owned os vm'
  Reach-Owned here n owned = owned
  Reach-Owned (next r s) n owned = Step-Owned s n.1 (Reach-Owned r n.0 owned)

  -- Where sys.lua is loaded in a state without the three metatables and without descriptor
  -- userdata, then in every state reached by calls that come back, of any functions of the modules
  -- and luaopen_ functions with any arguments, and by what other code does in between without
  -- closing a descriptor that a userdata holds, every descriptor that a userdata holds is open and
  -- held by it alone, and the collection of a userdata fails no assertion and does nothing
  -- undefined, provided that the kernel and libc open and close descriptors as documented and that
  -- no close(2) of the first argument of a call, or of what is collected, fails but for EBADF.
  pub library-Owned :
      (path : String → Bytes) (vm vm' vm₂ : Vm W) (tables : List (String × Option Table))
      (reach : Reach os vm' vm₂)
      → vm.registered sys_fd ≡ false
      → vm.registered file_actions ≡ false
      → vm.registered spawnattr ≡ false
      → ((i : ℕ) → meta_eq (vm.cells i).meta sys_fd ≡ false)
      → load_sys path os vm ≡ done tables vm'
      → NoFailureCalls os reach
      → Owned os vm₂
        × ((i : ℕ)
            → NoFailure os vm₂ i
            → Safe (Owned os) (l_freebsd_sys_fd_gc os (enter (userdata i ∷ []) vm₂)))
  library-Owned path vm vm' vm₂ tables reach a b c no_fd e n =
      let loaded = load_sys-Loaded os path vm a b c in
      let same : loaded.0 ≡ vm' = ground (arith, loaded.1, e) in
      let owned = Reach-Owned reach n (subst (Owned os) same (started loaded.0 loaded.2)) in
      (owned, λ i q. gc-Owned os k vm₂ i [] owned q)
    where
      started : (v : Vm W) → Registers (sys_fd ∷ file_actions ∷ spawnattr ∷ []) vm v → Owned os v
      started v r =
          let none_held : (i : ℕ) (fd : ℤ) → ¬ (Holds v i fd) = λ i fd h.
            cc (subst (λ (c : ℕ → Cell). (c i).meta ≡ sys_fd) r.same_cells h.meta, no_fd i) in
          record {
            held = λ i fd h. absurd (none_held i fd h);
            distinct = λ i j fd h h'. absurd (none_held i fd h);
            loaded = rw r.registry refl;
            made = λ i fd h. absurd (none_held i fd h);
          }
