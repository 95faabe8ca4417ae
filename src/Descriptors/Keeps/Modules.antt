-- ===== src/Descriptors/Keeps/Modules.antt =====
-- The luaopen_ functions keep the ownership of descriptors.
use bricoler.Base.{ℕ, String, List}
use bricoler.Lua.{Value, Vm, enter, pure, ◌>>◌}
use bricoler.Lua.Tables.{lua_newtable}
use bricoler.Os.{Os, lual_setfuncs, add_constants}
use bricoler.Descriptors.Keeps.{Parts, Keeps}
use bricoler.Descriptors.Keeps.Tables.{table_rules}
use bricoler.Descriptors.Keeps.Userdata.{Keeps-newmetatable}
use bricoler.Meta.{luaopen_freebsd_meta}
use bricoler.PosixSpawn.{luaopen_posix_spawn}

module _ {W : Type 0} (os : Os W) (args : List Value) (vm : Vm W) (p : Parts os vm) where
  -- The body that all luaopen_ functions but two share.
  pub Keeps-opens :
      (tab : List (String × String)) (cs : List String)
      → Keeps os {A = ℕ}
          ((do lua_newtable; lual_setfuncs tab; add_constants os cs; pure 1) (enter args vm))
  Keeps-opens tab cs = search table_rules depth 20

  pub luaopen_freebsd_meta-Keeps : Keeps os (luaopen_freebsd_meta os (enter args vm))
  unfolding luaopen_freebsd_meta
  luaopen_freebsd_meta-Keeps = search (table_rules, Keeps-newmetatable) depth 20

  pub luaopen_posix_spawn-Keeps : Keeps os (luaopen_posix_spawn os (enter args vm))
  unfolding luaopen_posix_spawn
  luaopen_posix_spawn-Keeps = search (table_rules, Keeps-newmetatable) depth 20
