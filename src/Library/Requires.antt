-- ===== src/Library/Requires.antt =====
-- What `require` of a C module of lib/freebsd does to the state, and a list of them in turn.
use bricoler.Base.{
  ℕ, ◌≡◌, refl, ◌∙◌, sym, ap, subst, String, List, [], ◌∷◌, ◌++◌, Bool, true, false, Option, some,
  map, if◌then◌else◌, codes, All, end, ◌&◌,
}
use bricoler.Lua.{
  Bytes, Value, string, sys_fd, file_actions, spawnattr, Meta, Table, new, table, Vm, done, enter,
  pure, ◌>>=◌, ◌>>◌,
}
use bricoler.Lua.Tables.{lua_newtable}
use bricoler.Lua.Cells.{meta_eq, lual_newmetatable}
use bricoler.Os.{Os, lual_setfuncs, add_constants}
use bricoler.Contract.Modules.{
  function_entries, constant_entries, set_all, set_all-append, lual_setfuncs_lem, add_constants_lem,
}
use bricoler.Contract.Metatables.{metatable}
use bricoler.Meta.{luaopen_freebsd_meta}
use bricoler.PosixSpawn.{luaopen_posix_spawn}
use bricoler.Library.{Module, module_table, freebsd_meta, plain, posix_spawn, require, load_modules}

-- The registry behind the registration of some metatables.
abbrev pub adding : List Meta → (Meta → Bool) → Meta → Bool
adding [] r = r
adding (m ∷ ms) r = adding ms (λ k. if meta_eq k m then true else r k)

abbrev pub NoneOf : List Meta → (Meta → Bool) → Type 0
NoneOf [] r = Unit
NoneOf (m ∷ ms) r = (r m ≡ false) × NoneOf ms r

-- All that a program can see of a state is as before, but for the registry.
pub record Registers {W : Type 0} (ms : List Meta) (vm vm' : Vm W) : Type 0 where
  pub registry : vm'.registered ≡ adding ms vm.registered
  pub same_tables : vm'.tables ≡ vm.tables
  pub same_cells : vm'.cells ≡ vm.cells
  pub same_next : vm'.next_cell ≡ vm.next_cell
  pub same_live : vm'.live ≡ vm.live
  pub same_world : vm'.world ≡ vm.world

module _ {W : Type 0} (os : Os W) (path : String → Bytes) where
  abbrev pub Required : Module W → Vm W → Type 0
  Required m vm =
      (vm' : Vm W) × (require path m vm ≡ done (some (module_table os m)) vm')
      × Registers m.metas vm vm'

  abbrev pub Openable : Module W → Type 0
  Openable m = (vm : Vm W) → NoneOf m.metas vm.registered → Required m vm

  -- The state in which a luaopen_ function leaves the call.
  abbrev pub left : Module W → Vm W → (n : ℕ) → List Value → List Table → Vm W
  left m vm n stack locals = record vm {
    args = string (codes m.module_name) ∷ string (path m.module_name) ∷ [];
    stack = stack;
    room = n;
    locals = locals;
    registered = adding m.metas vm.registered;
  }

  pub left-Registers :
      (m : Module W) (vm : Vm W) (n : ℕ) (stack : List Value) (locals : List Table)
      → Registers m.metas vm (left m vm n stack locals)
  left-Registers m vm n stack locals = record {
    registry = refl;
    same_tables = refl;
    same_cells = refl;
    same_next = refl;
    same_live = refl;
    same_world = refl;
  }

  pub plain-Openable :
      (name : String) (tab : List (String × String)) (cs : List String)
      → Openable
          (plain name (do lua_newtable; lual_setfuncs tab; add_constants os cs; pure 1) tab cs)
  unfolding require
  plain-Openable name tab cs vm _ =
      let m = plain name (do lua_newtable; lual_setfuncs tab; add_constants os cs; pure 1) tab cs in
      let entered = enter (string (codes name) ∷ string (path name) ∷ []) vm in
      (
        left m vm 19 (table (new 0) ∷ []) (module_table os m ∷ []),
        rw (lual_setfuncs_lem tab entered [] 18) (
            rw (add_constants_lem os cs entered (set_all (function_entries tab) []) 18, ◌>>=◌)
              (rw (set_all-append (function_entries tab) (constant_entries os cs) []) refl)),
        left-Registers m vm _ _ _,
      )

  pub meta-Openable : Openable (freebsd_meta os)
  unfolding require luaopen_freebsd_meta
  meta-Openable vm clear = (
    left (freebsd_meta os) vm 18 (table (new 1) ∷ table (new 0) ∷ [])
        (metatable sys_fd "l_freebsd_sys_fd_gc" ∷ [] ∷ []),
    rw (clear.0, lual_newmetatable) refl,
    left-Registers (freebsd_meta os) vm _ _ _,
  )

  pub posix_spawn-Openable : Openable (posix_spawn os)
  unfolding require luaopen_posix_spawn
  posix_spawn-Openable vm clear = (
    left (posix_spawn os) vm 17 (table (new 2) ∷ table (new 1) ∷ table (new 0) ∷ []) (
        metatable file_actions "l_posix_spawn_file_actions_destroy"
        ∷ metatable spawnattr "l_posix_spawnattr_destroy"
        ∷ module_table os (posix_spawn os)
        ∷ []),
    rw (clear.0, lual_newmetatable) (rw (clear.1.0, lual_newmetatable) refl),
    left-Registers (posix_spawn os) vm _ _ _,
  )

  -- The list of modules is opened in a state where none of their metatables is registered, each by
  -- one of them at most.
  abbrev pub Ready : List (Module W) → (Meta → Bool) → Type 0
  Ready [] r = Unit
  Ready (m ∷ ms) r = NoneOf m.metas r × Ready ms (adding m.metas r)

  abbrev pub all_metas : List (Module W) → List Meta
  all_metas [] = []
  all_metas (m ∷ ms) = m.metas ++ all_metas ms

  abbrev pub loaded : Module W → String × Option Table
  loaded m = (m.module_name, some (module_table os m))

  pub adding-append :
      (xs ys : List Meta) (r : Meta → Bool) → adding (xs ++ ys) r ≡ adding ys (adding xs r)
  adding-append [] ys r = refl
  adding-append (x ∷ xs) ys r = adding-append xs ys _

  pub Registers-trans :
      (xs ys : List Meta) (vm vm' vm₂ : Vm W)
      → Registers xs vm vm'
      → Registers ys vm' vm₂
      → Registers (xs ++ ys) vm vm₂
  Registers-trans xs ys vm vm' vm₂ p q = record {
    registry = q.registry ∙ ap (adding ys) p.registry ∙ sym (adding-append xs ys vm.registered);
    same_tables = q.same_tables ∙ p.same_tables;
    same_cells = q.same_cells ∙ p.same_cells;
    same_next = q.same_next ∙ p.same_next;
    same_live = q.same_live ∙ p.same_live;
    same_world = q.same_world ∙ p.same_world;
  }

  pub load_modules-Loaded :
      (ms : List (Module W)) (vm : Vm W)
      → All Openable ms
      → Ready ms vm.registered
      → (vm' : Vm W) × (load_modules path ms vm ≡ done (map loaded ms) vm')
        × Registers (all_metas ms) vm vm'
  unfolding load_modules
  load_modules-Loaded [] vm end r = (
    vm,
    refl,
    record {
      registry = refl;
      same_tables = refl;
      same_cells = refl;
      same_next = refl;
      same_live = refl;
      same_world = refl;
    },
  )
  load_modules-Loaded (m ∷ ms) vm (h & hs) r =
      let one = h vm r.0 in
      let rest = load_modules-Loaded ms one.0 hs (subst (Ready ms) (sym one.2.registry) r.1) in
      (
        rest.0,
        rw one.1 (rw (rest.1, ◌>>=◌) refl),
        Registers-trans m.metas (all_metas ms) vm one.0 rest.0 one.2 rest.2,
      )
