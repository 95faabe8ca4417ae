-- ===== src/Descriptors/Keeps/Spawn.antt =====
-- The functions on file actions and spawn attributes keep the ownership of descriptors.
use bricoler.Base.{ℕ, zero, suc, ℤ, List, ◌≢◌}
use bricoler.Lua.{Value, Vm, enter, sys_fd, file_actions, spawnattr}
use bricoler.Os.{Os}
use bricoler.Descriptors.Keeps.{keeps_rules, Parts, Keeps}
use bricoler.Descriptors.Keeps.Userdata.{Keeps-newuserdata, Keeps-set_metatable}
use bricoler.Descriptors.Keeps.Others.{Others}
use bricoler.PosixSpawn.FileActions.{
  zero_is_true, push_object, l_posix_spawn_file_actions_init, l_posix_spawn_file_actions_addopen,
  l_posix_spawn_file_actions_adddup2, l_posix_spawn_file_actions_addclose,
  l_posix_spawn_file_actions_addclosefrom_np, l_posix_spawn_file_actions_addchdir_np,
  l_posix_spawn_file_actions_addfchdir_np, l_posix_spawn_file_actions_destroy,
}
use bricoler.PosixSpawn.Attributes.{
  value_or_error, push_attr, l_posix_spawnattr_init, l_posix_spawnattr_getflags,
  l_posix_spawnattr_setflags, l_posix_spawnattr_getpgroup, l_posix_spawnattr_setpgroup,
  l_posix_spawnattr_destroy,
}
use bricoler.PosixSpawn.Attributes

module _ {W : Type 0} (os : Os W) where
  Keeps-zero_is_true : (e : ℕ) (vm : Vm W) → Parts os vm → Keeps os (zero_is_true os e vm)
  unfolding zero_is_true
  Keeps-zero_is_true zero vm p = search keeps_rules depth 10
  Keeps-zero_is_true (suc e) vm p = search keeps_rules depth 10

  Keeps-attr_result : (e : ℕ) (vm : Vm W) → Parts os vm → Keeps os (Attributes.zero_is_true os e vm)
  unfolding Attributes.zero_is_true
  Keeps-attr_result zero vm p = search keeps_rules depth 10
  Keeps-attr_result (suc e) vm p = search keeps_rules depth 10

  Keeps-value_or_error : (r : ℕ × ℤ) (vm : Vm W) → Parts os vm → Keeps os (value_or_error os r vm)
  unfolding value_or_error
  Keeps-value_or_error (zero, z) vm p = search keeps_rules depth 10
  Keeps-value_or_error (suc e, z) vm p = search keeps_rules depth 10

  Keeps-push_attr : (r : ℕ × ℤ) (vm : Vm W) → Parts os vm → Keeps os (push_attr os r vm)
  unfolding push_attr
  Keeps-push_attr (zero, z) vm p =
      let other : spawnattr ≢ sys_fd = λ e. cc e in
      search (keeps_rules, Keeps-newuserdata, Keeps-set_metatable) depth 15
  Keeps-push_attr (suc e, z) vm p = search (keeps_rules, Keeps-newuserdata) depth 15

  Keeps-push_object :
      (r : ℕ × ℤ) (vm : Vm W) → Parts os vm → Keeps os (push_object os file_actions r vm)
  unfolding push_object
  Keeps-push_object (zero, z) vm p =
      let other : file_actions ≢ sys_fd = λ e. cc e in
      search (keeps_rules, Keeps-newuserdata, Keeps-set_metatable) depth 15
  Keeps-push_object (suc e, z) vm p = search (keeps_rules, Keeps-newuserdata) depth 15

module _ {W : Type 0} (os : Os W) (o : Others os) (args : List Value) (vm : Vm W)
    (p : Parts os vm) where
  pub l_posix_spawn_file_actions_init-Keeps :
      Keeps os (l_posix_spawn_file_actions_init os (enter args vm))
  unfolding l_posix_spawn_file_actions_init
  l_posix_spawn_file_actions_init-Keeps =
      search (keeps_rules, o.file_actions_init, Keeps-push_object os) depth 25

  pub l_posix_spawn_file_actions_addopen-Keeps :
      Keeps os (l_posix_spawn_file_actions_addopen os (enter args vm))
  unfolding l_posix_spawn_file_actions_addopen
  l_posix_spawn_file_actions_addopen-Keeps =
      search (keeps_rules, o.addopen, Keeps-zero_is_true os) depth 25

  pub l_posix_spawn_file_actions_adddup2-Keeps :
      Keeps os (l_posix_spawn_file_actions_adddup2 os (enter args vm))
  unfolding l_posix_spawn_file_actions_adddup2
  l_posix_spawn_file_actions_adddup2-Keeps =
      search (keeps_rules, o.adddup2, Keeps-zero_is_true os) depth 25

  pub l_posix_spawn_file_actions_addclose-Keeps :
      Keeps os (l_posix_spawn_file_actions_addclose os (enter args vm))
  unfolding l_posix_spawn_file_actions_addclose
  l_posix_spawn_file_actions_addclose-Keeps =
      search (keeps_rules, o.addclose, Keeps-zero_is_true os) depth 25

  pub l_posix_spawn_file_actions_addclosefrom_np-Keeps :
      Keeps os (l_posix_spawn_file_actions_addclosefrom_np os (enter args vm))
  unfolding l_posix_spawn_file_actions_addclosefrom_np
  l_posix_spawn_file_actions_addclosefrom_np-Keeps =
      search (keeps_rules, o.addclosefrom_np, Keeps-zero_is_true os) depth 25

  pub l_posix_spawn_file_actions_addchdir_np-Keeps :
      Keeps os (l_posix_spawn_file_actions_addchdir_np os (enter args vm))
  unfolding l_posix_spawn_file_actions_addchdir_np
  l_posix_spawn_file_actions_addchdir_np-Keeps =
      search (keeps_rules, o.addchdir_np, Keeps-zero_is_true os) depth 25

  pub l_posix_spawn_file_actions_addfchdir_np-Keeps :
      Keeps os (l_posix_spawn_file_actions_addfchdir_np os (enter args vm))
  unfolding l_posix_spawn_file_actions_addfchdir_np
  l_posix_spawn_file_actions_addfchdir_np-Keeps =
      search (keeps_rules, o.addfchdir_np, Keeps-zero_is_true os) depth 25

  pub l_posix_spawn_file_actions_destroy-Keeps :
      Keeps os (l_posix_spawn_file_actions_destroy os (enter args vm))
  unfolding l_posix_spawn_file_actions_destroy
  l_posix_spawn_file_actions_destroy-Keeps = search (keeps_rules, o.file_actions_destroy) depth 25

  pub l_posix_spawnattr_init-Keeps : Keeps os (l_posix_spawnattr_init os (enter args vm))
  unfolding l_posix_spawnattr_init
  l_posix_spawnattr_init-Keeps = search (keeps_rules, o.spawnattr_init, Keeps-push_attr os) depth 25

  pub l_posix_spawnattr_getflags-Keeps : Keeps os (l_posix_spawnattr_getflags os (enter args vm))
  unfolding l_posix_spawnattr_getflags
  l_posix_spawnattr_getflags-Keeps =
      search (keeps_rules, o.getflags, Keeps-value_or_error os) depth 25

  pub l_posix_spawnattr_setflags-Keeps : Keeps os (l_posix_spawnattr_setflags os (enter args vm))
  unfolding l_posix_spawnattr_setflags
  l_posix_spawnattr_setflags-Keeps = search (keeps_rules, o.setflags, Keeps-attr_result os) depth 25

  pub l_posix_spawnattr_getpgroup-Keeps : Keeps os (l_posix_spawnattr_getpgroup os (enter args vm))
  unfolding l_posix_spawnattr_getpgroup
  l_posix_spawnattr_getpgroup-Keeps =
      search (keeps_rules, o.getpgroup, Keeps-value_or_error os) depth 25

  pub l_posix_spawnattr_setpgroup-Keeps : Keeps os (l_posix_spawnattr_setpgroup os (enter args vm))
  unfolding l_posix_spawnattr_setpgroup
  l_posix_spawnattr_setpgroup-Keeps =
      search (keeps_rules, o.setpgroup, Keeps-attr_result os) depth 25

  pub l_posix_spawnattr_destroy-Keeps : Keeps os (l_posix_spawnattr_destroy os (enter args vm))
  unfolding l_posix_spawnattr_destroy
  l_posix_spawnattr_destroy-Keeps = search (keeps_rules, o.spawnattr_destroy) depth 25
