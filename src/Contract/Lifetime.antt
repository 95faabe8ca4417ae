-- ===== src/Contract/Lifetime.antt =====
-- The libc objects of lib/freebsd/posix_spawn/lua_posix_spawn.c from their initialisation to the
-- collection of their userdata.
use bricoler.Base.{ℕ, zero, suc, ◌≡◌, ℤ, List, [], ◌∷◌, true, arith}
use bricoler.Lua.{Value, Vm, userdata, file_actions, spawnattr, enter, bad_arg}
use bricoler.Os.{Os}
use bricoler.Contract.{Outcome, returned, failed, call, error_values}
use bricoler.Contract.Fd.{state_after}
use bricoler.PosixSpawn.FileActions.{
  l_posix_spawn_file_actions_init, l_posix_spawn_file_actions_destroy,
}
use bricoler.PosixSpawn.Attributes.{l_posix_spawnattr_init, l_posix_spawnattr_destroy}

module _ {W : Type 0} (vm : Vm W) where
  -- What the constructor returns, given the answer of libc: the new userdata with a block more, or
  -- the error triple.
  abbrev pub made_object : Os W → (ℕ × ℤ) × W → Outcome W
  made_object os ((zero, h), w) = returned (userdata vm.next_cell ∷ []) (suc vm.live) w
  made_object os ((suc e, h), w) = returned (error_values os (suc e)) vm.live w

  -- What the collector's call does behind it: the object is destroyed and its block is gone, or the
  -- userdata has no metatable and nothing is destroyed.
  abbrev pub collected_object : (ℤ → W → ℕ × W) → (ℕ × ℤ) × W → Outcome W
  collected_object destroy ((zero, h), w) = returned [] vm.live (destroy h w).1
  collected_object destroy ((suc e, h), w) = failed (bad_arg 1) vm.live w

module _ {W : Type 0} (os : Os W) (args : List Value) (vm : Vm W) where
  -- Where their metatables are registered, posix_spawn_file_actions_init and posix_spawnattr_init
  -- return a new userdata for an object of libc, or the error triple. The collection of the userdata
  -- behind that destroys the object with the handle that libc gave, and leaves as many blocks as
  -- before; a userdata that libc could not initialise is not taken for an object.
  pub destroy-init :
      vm.registered file_actions ≡ true
      → vm.registered spawnattr ≡ true
      → (call (l_posix_spawn_file_actions_init os) args vm
          ≡ made_object vm os (os.file_actions_init vm.world))
        × (call
              (l_posix_spawn_file_actions_destroy os)
              (userdata vm.next_cell ∷ [])
              (state_after (l_posix_spawn_file_actions_init os (enter args vm)) vm)
            ≡ collected_object vm os.file_actions_destroy (os.file_actions_init vm.world))
        × (call (l_posix_spawnattr_init os) args vm
            ≡ made_object vm os (os.spawnattr_init vm.world))
        × (call
              (l_posix_spawnattr_destroy os)
              (userdata vm.next_cell ∷ [])
              (state_after (l_posix_spawnattr_init os (enter args vm)) vm)
            ≡ collected_object vm os.spawnattr_destroy (os.spawnattr_init vm.world))
  unfolding l_posix_spawn_file_actions_init l_posix_spawn_file_actions_destroy
      l_posix_spawnattr_init l_posix_spawnattr_destroy
  destroy-init f s =
      ((ground (arith, f)), (ground (arith, f)), (ground (arith, s)), (ground (arith, s)))
