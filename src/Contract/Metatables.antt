-- ===== src/Contract/Metatables.antt =====
-- The luaopen_ functions that register metatables: lua_freebsd_meta.c and lua_posix_spawn.c of
-- lib/freebsd.
use bricoler.Base.{◌≡◌, refl, List, [], ◌∷◌, String, codes, arith, true, false}
use bricoler.Lua.{
  Value, Vm, Meta, sys_fd, file_actions, spawnattr, Table, table, string, cfunction, new, name,
  enter,
}
use bricoler.Lua.Cells.{meta_key, lual_newmetatable}
use bricoler.Os.{Os}
use bricoler.Contract.{returned, crashed}
use bricoler.Contract.Query.{call_made}
use bricoler.Contract.Fd.{state_after}
use bricoler.Contract.Modules.{Bound, module_entries, set_all, set_all-Bound}
use bricoler.Meta.{luaopen_freebsd_meta}
use bricoler.PosixSpawn.{luaopen_posix_spawn, l_posix_spawntab, posix_spawn_constants}

-- A metatable with its name and the function for the collector.
abbrev pub metatable : Meta → String → Table
metatable m gc =
    (name (codes "__name"), string (codes (meta_key m))) ∷ (name (codes "__gc"), cfunction gc) ∷ []

module _ {W : Type 0} (os : Os W) (args : List Value) (vm : Vm W) where
  -- luaopen_freebsd_meta registers the metatable of descriptors with its __gc and returns a new empty
  -- table; it fails its assertion exactly where the metatable is registered already.
  pub luaopen_freebsd_meta-registers :
      (call_made (luaopen_freebsd_meta os) args vm ≡ (elim (vm.registered sys_fd) [
        | true ↦ record { outcome = crashed; made = [] }
        | false ↦ record {
          outcome = returned (table (new 1) ∷ []) vm.live vm.world;
          made = metatable sys_fd "l_freebsd_sys_fd_gc" ∷ [] ∷ [];
        }
      ]))
      × ((state_after (luaopen_freebsd_meta os (enter args vm)) vm).registered sys_fd ≡ true)
  unfolding luaopen_freebsd_meta
  luaopen_freebsd_meta-registers = ((ground arith), (ground arith))

  -- luaopen_posix_spawn, where its two metatables are not registered yet, registers both with their
  -- __gc, and returns a new table that binds every function and constant of the module to its name.
  pub luaopen_posix_spawn-registers :
      vm.registered file_actions ≡ false
      → vm.registered spawnattr ≡ false
      → (call_made (luaopen_posix_spawn os) args vm ≡ record {
        outcome = returned (table (new 2) ∷ []) vm.live vm.world;
        made =
            metatable file_actions "l_posix_spawn_file_actions_destroy"
            ∷ metatable spawnattr "l_posix_spawnattr_destroy"
            ∷ set_all (module_entries os args vm l_posix_spawntab posix_spawn_constants) []
            ∷ [];
      })
        × Bound
            (set_all (module_entries os args vm l_posix_spawntab posix_spawn_constants) [])
            (module_entries os args vm l_posix_spawntab posix_spawn_constants)
        × ((state_after (luaopen_posix_spawn os (enter args vm)) vm).registered file_actions ≡ true)
        × ((state_after (luaopen_posix_spawn os (enter args vm)) vm).registered spawnattr ≡ true)
  unfolding luaopen_posix_spawn
  luaopen_posix_spawn-registers a b = (
    rw (a, lual_newmetatable) (rw (b, lual_newmetatable) refl),
    set_all-Bound (module_entries os args vm l_posix_spawntab posix_spawn_constants) [] refl,
    rw (a, lual_newmetatable) (rw (b, lual_newmetatable) refl),
    rw (a, lual_newmetatable) (rw (b, lual_newmetatable) refl),
  )
