-- ===== src/Contract/Spawn.antt =====
-- The wrappers of lib/freebsd/posix_spawn/lua_posix_spawn.c that work on file actions and on spawn
-- attributes.
use bricoler.Base.{
  none, ℕ, zero, suc, ◌^◌, ◌≡◌, refl, ℤ, pos, List, [], ◌∷◌, true, false, arith, to_int, to_short,
  to_unsigned, leb_ℤ, ◌&&◌, if◌then◌else◌,
}
use bricoler.Lua.{Value, Vm, sys_fd, file_actions, spawnattr, integer, message, bad_arg}
use bricoler.Os.{Os, int_min, int_max, shrt_min, shrt_max}
use bricoler.Contract.{
  Outcome, returned, failed, crashed, call, c_string_arg, integer_arg, optinteger_arg, with_arg,
  error_values, true_values,
}
use bricoler.Contract.Io.{udata_arg}
use bricoler.PosixSpawn.{l_posix_spawn, l_posix_spawnp}
use bricoler.PosixSpawn.FileActions.{
  l_posix_spawn_file_actions_addopen, l_posix_spawn_file_actions_adddup2,
  l_posix_spawn_file_actions_addclose, l_posix_spawn_file_actions_addfchdir_np,
  l_posix_spawn_file_actions_addclosefrom_np, l_posix_spawn_file_actions_addchdir_np,
}
use bricoler.PosixSpawn.Attributes.{
  l_posix_spawnattr_getflags, l_posix_spawnattr_setflags, l_posix_spawnattr_getpgroup,
  l_posix_spawnattr_setpgroup,
}

module _ {W : Type 0} (os : Os W) (vm : Vm W) where
  -- True for the error number 0, and the error triple for any other.
  abbrev pub status_reply : ℕ × W → Outcome W
  status_reply (zero, w) = returned (true_values tt) vm.live w
  status_reply (suc e, w) = returned (error_values os (suc e)) vm.live w

  abbrev pub value_reply : (ℕ × ℤ) × W → Outcome W
  value_reply ((zero, z), w) = returned (integer z ∷ []) vm.live w
  value_reply ((suc e, z), w) = returned (error_values os (suc e)) vm.live w

  abbrev pub handle : ℕ → ℤ
  handle i = (vm.cells i).content

  -- The operation where the descriptor of a userdata is open; an assertion fails where it is not.
  abbrev pub while_open : ℤ → Outcome W → Outcome W
  while_open fd k = elim (os.is_open fd vm.world) [ true ↦ k | false ↦ crashed ]

  -- addopen, adddup2, addclose and addfchdir_np take file actions and a descriptor that is open, or
  -- fail their assertion; addopen cuts the flags to an int and the mode to mode_t, and adddup2 cuts
  -- its number to an int. addclosefrom_np takes a number, cut to an int, and addchdir_np a path. Each
  -- returns true, or the error triple for the number that libc returns.
  pub add-reply :
      (args : List Value)
      → (call (l_posix_spawn_file_actions_addopen os) args vm ≡ (
          with_arg 1 (udata_arg vm file_actions args 0) vm λ i.
            with_arg 2 (udata_arg vm sys_fd args 1) vm λ fdp.
              with_arg 3 (c_string_arg os args 2) vm λ path.
                with_arg 4 (integer_arg os args 3) vm λ oflags.
                  with_arg 5 (optinteger_arg os args 4 (pos 0)) vm λ mode. while_open (handle fdp) (
                    status_reply (
                      os.addopen
                        (handle i)
                        (handle fdp)
                        path
                        (to_int oflags)
                        (to_unsigned (2 ^ 16) mode)
                        vm.world))))
        × (call (l_posix_spawn_file_actions_adddup2 os) args vm ≡ (
            with_arg 1 (udata_arg vm file_actions args 0) vm λ i.
              with_arg 2 (udata_arg vm sys_fd args 1) vm λ fdp.
                with_arg 3 (integer_arg os args 2) vm λ newfd.
                  while_open
                    (handle fdp)
                    (status_reply (os.adddup2 (handle i) (handle fdp) (to_int newfd) vm.world))))
        × (call (l_posix_spawn_file_actions_addclose os) args vm ≡ (
            with_arg 1 (udata_arg vm file_actions args 0) vm λ i.
              with_arg 2 (udata_arg vm sys_fd args 1) vm λ fdp.
                while_open
                  (handle fdp)
                  (status_reply (os.addclose (handle i) (handle fdp) vm.world))))
        × (call (l_posix_spawn_file_actions_addfchdir_np os) args vm ≡ (
            with_arg 1 (udata_arg vm file_actions args 0) vm λ i.
              with_arg 2 (udata_arg vm sys_fd args 1) vm λ fdp.
                while_open
                  (handle fdp)
                  (status_reply (os.addfchdir_np (handle i) (handle fdp) vm.world))))
        × (call (l_posix_spawn_file_actions_addclosefrom_np os) args vm ≡ (
            with_arg 1 (udata_arg vm file_actions args 0) vm λ i.
              with_arg 2
                (integer_arg os args 1)
                vm
                λ from. status_reply (os.addclosefrom_np (handle i) (to_int from) vm.world)))
        × (call (l_posix_spawn_file_actions_addchdir_np os) args vm ≡ (
            with_arg 1 (udata_arg vm file_actions args 0) vm λ i.
              with_arg 2
                (c_string_arg os args 1)
                vm
                λ path. status_reply (os.addchdir_np (handle i) path vm.world)))
  unfolding l_posix_spawn_file_actions_addopen l_posix_spawn_file_actions_adddup2
      l_posix_spawn_file_actions_addclose l_posix_spawn_file_actions_addfchdir_np
      l_posix_spawn_file_actions_addclosefrom_np l_posix_spawn_file_actions_addchdir_np
  add-reply [] = (refl, refl, refl, refl, refl, refl)
  add-reply (a ∷ []) =
      (ground arith, ground arith, ground arith, ground arith, ground arith, ground arith)
  add-reply (a ∷ b ∷ []) =
      (ground arith, ground arith, ground arith, ground arith, ground arith, ground arith)
  add-reply (a ∷ b ∷ c ∷ []) =
      (ground arith, ground arith, ground arith, ground arith, ground arith, ground arith)
  add-reply (a ∷ b ∷ c ∷ d ∷ []) =
      (ground arith, ground arith, ground arith, ground arith, ground arith, ground arith)
  add-reply (a ∷ b ∷ c ∷ d ∷ e ∷ rest) =
      (ground arith, ground arith, ground arith, ground arith, ground arith, ground arith)

  -- setflags and setpgroup raise an error for a number that does not fit a short or an int, and pass
  -- any other one as it is; getflags and getpgroup return what libc stores. An error number of libc
  -- becomes the error triple.
  pub attr-reply :
      (args : List Value)
      → (call (l_posix_spawnattr_setflags os) args vm ≡ (
          with_arg 1 (udata_arg vm spawnattr args 0) vm λ i.
            with_arg 2 (integer_arg os args 1) vm λ flags.
              if leb_ℤ shrt_min flags && leb_ℤ flags shrt_max
              then status_reply (os.setflags (handle i) (to_short flags) vm.world)
              else failed (message "flags too large") vm.live vm.world))
        × (call (l_posix_spawnattr_setpgroup os) args vm ≡ (
            with_arg 1 (udata_arg vm spawnattr args 0) vm λ i.
              with_arg 2 (integer_arg os args 1) vm λ pgrp.
                if leb_ℤ int_min pgrp && leb_ℤ pgrp int_max
                then status_reply (os.setpgroup (handle i) (to_int pgrp) vm.world)
                else failed (message "pgrp too large") vm.live vm.world))
        × (call (l_posix_spawnattr_getflags os) args vm ≡ (
            with_arg 1
              (udata_arg vm spawnattr args 0)
              vm
              λ i. value_reply (os.getflags (handle i) vm.world)))
        × (call (l_posix_spawnattr_getpgroup os) args vm ≡ (
            with_arg 1
              (udata_arg vm spawnattr args 0)
              vm
              λ i. value_reply (os.getpgroup (handle i) vm.world)))
  unfolding l_posix_spawnattr_setflags l_posix_spawnattr_setpgroup l_posix_spawnattr_getflags
      l_posix_spawnattr_getpgroup
  attr-reply [] = (refl, refl, refl, refl)
  attr-reply (a ∷ []) = (ground arith, ground arith, ground arith, ground arith)
  attr-reply (a ∷ b ∷ rest) = (ground arith, ground arith, ground arith, ground arith)

  -- A command that is no string is reported as bad argument 1 by posix_spawn and posix_spawnp once
  -- the spawn attributes have been initialised; they are not destroyed, and what libc allocated for
  -- them is left behind.
  pub l_posix_spawn-left :
      (args : List Value) (attr : ℤ) (w : W)
      → os.spawnattr_init vm.world ≡ ((zero, attr), w)
      → c_string_arg os args 0 ≡ none
      → (call (l_posix_spawn os) args vm ≡ failed (bad_arg 1) (suc vm.live) w)
        × (call (l_posix_spawnp os) args vm ≡ failed (bad_arg 1) (suc vm.live) w)
  unfolding l_posix_spawn l_posix_spawnp
  l_posix_spawn-left [] attr w i h = (rw i refl, rw i refl)
  l_posix_spawn-left (v ∷ rest) attr w i h = (rw i (ground (arith, h)), rw i (ground (arith, h)))
