-- ===== src/Descriptors/Keeps/Launch.antt =====
-- posix_spawn and posix_spawnp keep the ownership of descriptors.
use bricoler.Base.{ℕ, zero, suc, ◌+◌, ℤ, List, [], Bool, true, false, Option, some, none}
use bricoler.Lua.{
  Bytes, Value, nil, boolean, integer, float, string, table, userdata, cfunction, other, TableRef,
  Vm, enter,
}
use bricoler.Lua.Stack.{at_index, is_none_or_nil}
use bricoler.Os.{Os, Argv}
use bricoler.Descriptors.Keeps.{keeps_rules, Parts, Keeps, Keeps-elim_bool, Keeps-and_then}
use bricoler.Descriptors.Keeps.Tables.{table_rules}
use bricoler.Descriptors.Keeps.Others.{Others}
use bricoler.PosixSpawn.{
  Actions, geti, fill_strings, own_actions, actions_arg, destroy_own, free_envp, push_pid,
  good_pointers, spawn_now, envp_arg, with_actions, with_argv, with_attr, l_posix_spawn,
  l_posix_spawnp,
}

module _ {W : Type 0} (os : Os W) where
  Keeps-geti : (t : Option TableRef) (i : ℕ) (vm : Vm W) → Parts os vm → Keeps os (geti os t i vm)
  unfolding geti
  Keeps-geti none i vm p = search keeps_rules depth 5
  Keeps-geti (some t) i vm p = search keeps_rules depth 5

  Keeps-fill_strings :
      (t : Option TableRef) (n i : ℕ) (argv : Argv) (vm : Vm W)
      → Parts os vm
      → Keeps os (fill_strings os t n i argv vm)
  unfolding fill_strings
  Keeps-fill_strings t zero i argv vm p = search keeps_rules depth 5
  Keeps-fill_strings t (suc n) i argv vm p =
      let rest : (argv : Argv) (vm : Vm W)
          → Parts os vm
          → Keeps os (fill_strings os t n (i + 1) argv vm) =
        Keeps-fill_strings t n (i + 1) in
      search (table_rules, Keeps-geti, rest) depth 20

  Keeps-own_actions : (r : ℕ × ℤ) (vm : Vm W) → Parts os vm → Keeps os (own_actions os r vm)
  unfolding own_actions
  Keeps-own_actions (zero, h) vm p = search keeps_rules depth 10
  Keeps-own_actions (suc e, h) vm p = search keeps_rules depth 10

  Keeps-destroy_own :
      Others os → (a : Actions) (vm : Vm W) → Parts os vm → Keeps os (destroy_own os a vm)
  unfolding destroy_own
  Keeps-destroy_own o a vm p =
      Keeps-elim_bool os a.own _ _ vm (search (keeps_rules, o.file_actions_destroy) depth 20)
        (search keeps_rules depth 5)

  Keeps-free_envp : (envp : Option Argv) (vm : Vm W) → Parts os vm → Keeps os (free_envp os envp vm)
  unfolding free_envp
  Keeps-free_envp none vm p = search keeps_rules depth 10
  Keeps-free_envp (some envp) vm p = search keeps_rules depth 10

  Keeps-good_pointers : (b : Bool) (vm : Vm W) → Parts os vm → Keeps os (good_pointers os b vm)
  Keeps-good_pointers true vm p = search keeps_rules depth 5
  Keeps-good_pointers false vm p = search keeps_rules depth 5

  Keeps-push_pid : (r : ℕ × ℤ) (vm : Vm W) → Parts os vm → Keeps os (push_pid os r vm)
  unfolding push_pid
  Keeps-push_pid (zero, pid) vm p = search keeps_rules depth 10
  Keeps-push_pid (suc e, pid) vm p = search keeps_rules depth 10

module _ {W : Type 0} (os : Os W) (o : Others os) where
  Keeps-actions_arg : (v : Option Value) (vm : Vm W) → Parts os vm → Keeps os (actions_arg os v vm)
  unfolding actions_arg
  Keeps-actions_arg none vm p =
      search (keeps_rules, o.file_actions_init, Keeps-own_actions os) depth 10
  Keeps-actions_arg (some v) vm p = value v
    where
      value : (v : Value) → Keeps os (actions_arg os (some v) vm)
      value (userdata i) = search keeps_rules depth 10
      value nil = search (keeps_rules, o.file_actions_init, Keeps-own_actions os) depth 10
      value (boolean b) = search (keeps_rules, o.file_actions_init, Keeps-own_actions os) depth 10
      value (integer z) = search (keeps_rules, o.file_actions_init, Keeps-own_actions os) depth 10
      value (float x) = search (keeps_rules, o.file_actions_init, Keeps-own_actions os) depth 10
      value (string s) = search (keeps_rules, o.file_actions_init, Keeps-own_actions os) depth 10
      value (table t) = search (keeps_rules, o.file_actions_init, Keeps-own_actions os) depth 10
      value (cfunction f) = search (keeps_rules, o.file_actions_init, Keeps-own_actions os) depth 10
      value other = search (keeps_rules, o.file_actions_init, Keeps-own_actions os) depth 10

  Keeps-spawn_now :
      (path : Bool) (file : Bytes) (attr : ℤ) (a : Actions) (argv : Argv) (envp : Option Argv)
      (vm : Vm W)
      → Parts os vm
      → Keeps os (spawn_now os path file attr a argv envp vm)
  unfolding spawn_now
  Keeps-spawn_now path file attr a argv envp vm p =
      search
        (
          keeps_rules,
          Keeps-good_pointers os,
          o.posix_spawn,
          o.spawnattr_destroy,
          Keeps-destroy_own os o,
          Keeps-free_envp os,
          Keeps-push_pid os,
        )
        depth 20

  Keeps-envp_arg :
      (path : Bool) (file : Bytes) (attr : ℤ) (a : Actions) (argv : Argv) (i : ℕ) (vm : Vm W)
      → Parts os vm
      → Keeps os (envp_arg os path file attr a argv i vm)
  unfolding envp_arg
  Keeps-envp_arg path file attr a argv i vm p =
      search (keeps_rules, o.malloc, Keeps-fill_strings os, Keeps-spawn_now) depth 20

  Keeps-with_argv :
      (path : Bool) (file : Bytes) (attr : ℤ) (a : Actions) (t : Option TableRef) (argc : ℕ)
      (got : Bool) (vm : Vm W)
      → Parts os vm
      → Keeps os (with_argv os path file attr a t argc got vm)
  unfolding with_argv
  Keeps-with_argv path file attr a t argc false vm p = search keeps_rules depth 10
  Keeps-with_argv path file attr a t argc true vm p =
      Keeps-and_then os _ _ (Keeps-fill_strings os t argc 0 [] vm p) λ argv vm q.
        Keeps-elim_bool os (is_none_or_nil (at_index (a.next_arg + 1) vm)) _ _ vm
          (Keeps-spawn_now path file attr a argv none vm q)
          (Keeps-envp_arg path file attr a argv (a.next_arg + 1) vm q)

  Keeps-with_actions :
      (path : Bool) (file : Bytes) (attr : ℤ) (a : Option Actions) (vm : Vm W)
      → Parts os vm
      → Keeps os (with_actions os path file attr a vm)
  unfolding with_actions
  Keeps-with_actions path file attr none vm p = search keeps_rules depth 5
  Keeps-with_actions path file attr (some a) vm p =
      search (keeps_rules, o.malloc, Keeps-with_argv) depth 20

  Keeps-with_attr :
      (path : Bool) (r : ℕ × ℤ) (vm : Vm W) → Parts os vm → Keeps os (with_attr os path r vm)
  unfolding with_attr
  Keeps-with_attr path (zero, attr) vm p =
      search (keeps_rules, Keeps-actions_arg, Keeps-with_actions) depth 20
  Keeps-with_attr path (suc e, attr) vm p = search keeps_rules depth 10

module _ {W : Type 0} (os : Os W) (o : Others os) (args : List Value) (vm : Vm W)
    (p : Parts os vm) where
  pub l_posix_spawn-Keeps : Keeps os (l_posix_spawn os (enter args vm))
  unfolding l_posix_spawn
  l_posix_spawn-Keeps = search (keeps_rules, o.spawnattr_init, Keeps-with_attr os o) depth 10

  pub l_posix_spawnp-Keeps : Keeps os (l_posix_spawnp os (enter args vm))
  unfolding l_posix_spawnp
  l_posix_spawnp-Keeps = search (keeps_rules, o.spawnattr_init, Keeps-with_attr os o) depth 10
