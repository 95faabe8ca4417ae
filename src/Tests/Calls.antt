-- ===== src/Tests/Calls.antt =====
-- Concrete calls of the wrappers of descriptors, spawn objects and execve.
use bricoler.Base.{ℕ, zero, suc, ◌≡◌, refl, pos, negsuc, List, [], ◌∷◌, true, codes, if◌then◌else◌}
use bricoler.Lua.{
  Value, nil, boolean, integer, string, table, userdata, old, Vm, Cell, enter, file_actions,
  spawnattr, sys_fd, message, bad_arg, new, index,
}
use bricoler.Os.{Os, fail, Pollfd}
use bricoler.Contract.{Outcome, call, returned, failed, crashed, error_values}
use bricoler.Tests.System.{World, test_os, test_vm, some_path, advance, open_in, close_in}
use bricoler.Contract.Fd.{l_close-reply, l_close-once, l_close-stale, state_after}
use bricoler.Contract.Making.{l_socket-reply, new_fds}
use bricoler.Contract.Spawn.{add-reply, attr-reply, l_posix_spawn-left}
use bricoler.Contract.Lifetime.{destroy-init}
use bricoler.Contract.Launch.{l_posix_spawn-outcome}
use bricoler.Contract.Process.{l_execve-outcome}
use bricoler.Contract.Query.{call_made}
use bricoler.Contract.Search.{l_glob-array}
use bricoler.Contract.Poll.{l_poll-timeout, l_poll-fails}
use bricoler.Sys.Pipe.{l_pipe, l_pipe2}
use bricoler.Sys.Poll.{l_poll}
use bricoler.Sys.Socket.{l_socket}
use bricoler.Sys.Unlink.{l_unlinkat}
use bricoler.Glob.{l_glob}
use bricoler.Sys.Open.{l_close}
use bricoler.Sys.Execve.{l_execve}
use bricoler.Mktemp.{l_mkstemp}
use bricoler.Meta.{l_freebsd_sys_fd_gc}
use bricoler.PosixSpawn.{l_posix_spawn, l_posix_spawnp}
use bricoler.PosixSpawn.FileActions.{
  l_posix_spawn_file_actions_addopen, l_posix_spawn_file_actions_adddup2,
  l_posix_spawn_file_actions_addclose, l_posix_spawn_file_actions_addfchdir_np,
  l_posix_spawn_file_actions_addclosefrom_np, l_posix_spawn_file_actions_addchdir_np,
  l_posix_spawn_file_actions_init, l_posix_spawn_file_actions_destroy,
}
use bricoler.PosixSpawn.Attributes.{
  l_posix_spawnattr_getflags, l_posix_spawnattr_setflags, l_posix_spawnattr_getpgroup,
  l_posix_spawnattr_setpgroup, l_posix_spawnattr_init, l_posix_spawnattr_destroy,
}

abbrev range_values : List Value
range_values = nil ∷ string (codes "argument out of range") ∷ []

abbrev socket_args : List Value
socket_args = integer (pos 2147483648) ∷ integer (pos 1) ∷ []

l_socket-reply_example :
    (call (l_pipe test_os) socket_args test_vm
      ≡ returned (userdata 1 ∷ userdata 2 ∷ []) 0 (advance 2 test_vm.world))
    × (call (l_pipe2 test_os) socket_args test_vm ≡ returned range_values 0 test_vm.world)
    × (call (l_socket test_os) socket_args test_vm
        ≡ returned (userdata 1 ∷ []) 0 (advance 1 test_vm.world))
    × (call (l_mkstemp test_os) socket_args test_vm
        ≡ returned (userdata 1 ∷ string (codes "1") ∷ []) 0 (advance 1 test_vm.world))
    × (new_fds (l_pipe test_os (enter socket_args test_vm)) ≡ pos 4 ∷ pos 5 ∷ [])
    × (new_fds (l_pipe2 test_os (enter socket_args test_vm)) ≡ [])
    × (new_fds (l_socket test_os (enter socket_args test_vm)) ≡ pos 4 ∷ [])
    × (new_fds (l_mkstemp test_os (enter socket_args test_vm)) ≡ pos 4 ∷ [])
l_socket-reply_example = l_socket-reply test_os test_vm socket_args

abbrev unlinkat_args : List Value
unlinkat_args = userdata 0 ∷ string some_path ∷ []

l_close-reply_example :
    (call (l_close test_os) unlinkat_args test_vm
      ≡ returned (boolean true ∷ []) 0 (close_in (pos 3) test_vm.world))
    × (call (l_unlinkat test_os) unlinkat_args test_vm
        ≡ returned (integer (pos 0) ∷ []) 0 test_vm.world)
l_close-reply_example = l_close-reply test_os test_vm unlinkat_args

abbrev closed_vm : Vm World
closed_vm = state_after (l_close test_os (enter (userdata 0 ∷ []) test_vm)) test_vm

l_close-once_example :
    (call (l_close test_os) (userdata 0 ∷ []) closed_vm ≡ crashed)
    × (call (l_freebsd_sys_fd_gc test_os) (userdata 0 ∷ []) closed_vm
        ≡ returned [] 0 (close_in (pos 3) test_vm.world))
l_close-once_example =
    l_close-once test_os test_vm 0 (close_in (pos 3) test_vm.world) refl refl refl

-- A close(2) that always fails: first with EINTR, or with EBADF on what is not open.
abbrev failing_os : Os World
failing_os = record test_os {
  close = λ fd w. (fail (if open_in fd w then 4 else 5), close_in fd w);
}

abbrev stale_vm : Vm World
stale_vm = state_after (l_close failing_os (enter (userdata 0 ∷ []) test_vm)) test_vm

l_close-stale_example :
    (call (l_close failing_os) (userdata 0 ∷ []) test_vm
      ≡ returned (error_values failing_os 4) 0 (close_in (pos 3) test_vm.world))
    × ((stale_vm.cells 0).content ≡ pos 3)
    × (call (l_freebsd_sys_fd_gc failing_os) (userdata 0 ∷ []) stale_vm ≡ crashed)
l_close-stale_example =
    l_close-stale failing_os test_vm 0 4 5 (close_in (pos 3) test_vm.world)
      (close_in (pos 3) (close_in (pos 3) test_vm.world)) refl refl refl refl

-- Userdata 1 is file actions, and userdata 2 spawn attributes.
abbrev pub spawn_cells : ℕ → Cell
spawn_cells zero = record { meta = sys_fd; content = pos 3 }
spawn_cells (suc zero) = record { meta = file_actions; content = pos 1 }
spawn_cells _ = record { meta = spawnattr; content = pos 2 }

abbrev pub spawn_vm : Vm World
spawn_vm = record test_vm { cells = spawn_cells; next_cell = 3 }

abbrev spawn_replies : List Value → Outcome World
spawn_replies vs = returned vs 0 test_vm.world

abbrev add_args : List Value
add_args = userdata 1 ∷ userdata 0 ∷ integer (pos 1) ∷ integer (pos 0) ∷ []

add-reply_example :
    (call (l_posix_spawn_file_actions_addopen test_os) add_args spawn_vm
      ≡ spawn_replies (boolean true ∷ []))
    × (call (l_posix_spawn_file_actions_adddup2 test_os) add_args spawn_vm
        ≡ spawn_replies (boolean true ∷ []))
    × (call (l_posix_spawn_file_actions_addclose test_os) add_args spawn_vm
        ≡ spawn_replies (boolean true ∷ []))
    × (call (l_posix_spawn_file_actions_addfchdir_np test_os) add_args spawn_vm
        ≡ spawn_replies (boolean true ∷ []))
    × (call (l_posix_spawn_file_actions_addclosefrom_np test_os) add_args spawn_vm
        ≡ failed (bad_arg 2) 0 test_vm.world)
    × (call (l_posix_spawn_file_actions_addchdir_np test_os) add_args spawn_vm
        ≡ failed (bad_arg 2) 0 test_vm.world)
add-reply_example = add-reply test_os spawn_vm add_args

attr-reply_example :
    (call (l_posix_spawnattr_setflags test_os) (userdata 2 ∷ integer (pos 40000) ∷ []) spawn_vm
      ≡ failed (message "flags too large") 0 test_vm.world)
    × (call (l_posix_spawnattr_setpgroup test_os) (userdata 2 ∷ integer (pos 40000) ∷ []) spawn_vm
        ≡ spawn_replies (boolean true ∷ []))
    × (call (l_posix_spawnattr_getflags test_os) (userdata 2 ∷ integer (pos 40000) ∷ []) spawn_vm
        ≡ spawn_replies (integer (pos 0) ∷ []))
    × (call (l_posix_spawnattr_getpgroup test_os) (userdata 2 ∷ integer (pos 40000) ∷ []) spawn_vm
        ≡ spawn_replies (integer (pos 0) ∷ []))
attr-reply_example = attr-reply test_os spawn_vm (userdata 2 ∷ integer (pos 40000) ∷ [])

l_execve-outcome_example :
    call (l_execve test_os) (string some_path ∷ table (old 2) ∷ table (old 0) ∷ []) test_vm
    ≡ returned (error_values test_os 2) 0 test_vm.world
l_execve-outcome_example =
    l_execve-outcome test_os (string some_path ∷ table (old 2) ∷ table (old 0) ∷ []) test_vm

-- poll(2) of the descriptor 3 for POLLIN.
abbrev poll_fds : List Pollfd
poll_fds = record { fd = pos 3; events = pos 1 } ∷ []

l_poll-timeout_example :
    call (l_poll test_os) (table (old 3) ∷ integer (pos 2147483648) ∷ []) test_vm
    ≡ returned (nil ∷ string (codes "timeout too large") ∷ integer (pos 6) ∷ []) 1 test_vm.world
l_poll-timeout_example =
    l_poll-timeout test_os (old 3) (integer (pos 2147483648) ∷ []) test_vm poll_fds (pos 2147483648)
      test_vm.world refl refl refl refl

-- The system in which poll(2) is interrupted.
abbrev interrupted_os : Os World
interrupted_os = record test_os { poll = λ fds t w. (fail 4, w) }

l_poll-fails_example :
    call (l_poll interrupted_os) (table (old 3) ∷ []) test_vm
    ≡ returned (error_values interrupted_os 4) 0 test_vm.world
l_poll-fails_example =
    l_poll-fails interrupted_os (old 3) [] test_vm poll_fds (negsuc 0) test_vm.world test_vm.world 4
      refl refl refl refl refl

l_glob-array_example : call_made (l_glob test_os) (string some_path ∷ nil ∷ []) test_vm ≡ record {
  outcome = returned (table (new 0) ∷ []) 0 test_vm.world;
  made = ((index 1, string some_path) ∷ []) ∷ [];
}
l_glob-array_example = l_glob-array test_os (string some_path ∷ nil ∷ []) test_vm

l_posix_spawn-left_example :
    (call (l_posix_spawn test_os) (nil ∷ table (old 2) ∷ []) test_vm
      ≡ failed (bad_arg 1) 1 test_vm.world)
    × (call (l_posix_spawnp test_os) (nil ∷ table (old 2) ∷ []) test_vm
        ≡ failed (bad_arg 1) 1 test_vm.world)
l_posix_spawn-left_example =
    l_posix_spawn-left test_os test_vm (nil ∷ table (old 2) ∷ []) (pos 2) test_vm.world refl refl

-- The vector is `ls -l`, and the environment has the same two strings.
l_posix_spawn-outcome_example :
    (call
        (l_posix_spawnp test_os)
        (string some_path ∷ userdata 1 ∷ table (old 2) ∷ table (old 2) ∷ [])
        spawn_vm
      ≡ spawn_replies (integer (pos 7) ∷ []))
    × (call
          (l_posix_spawnp test_os)
          (string some_path ∷ table (old 2) ∷ table (old 2) ∷ [])
          spawn_vm
        ≡ spawn_replies (integer (pos 7) ∷ []))
l_posix_spawn-outcome_example =
    l_posix_spawn-outcome test_os true (string some_path) (old 2) (table (old 2) ∷ []) spawn_vm 1
      some_path (pos 2) test_vm.world refl refl

destroy-init_example :
    (call (l_posix_spawn_file_actions_init test_os) [] test_vm
      ≡ returned (userdata 1 ∷ []) 1 test_vm.world)
    × (call
          (l_posix_spawn_file_actions_destroy test_os)
          (userdata 1 ∷ [])
          (state_after (l_posix_spawn_file_actions_init test_os (enter [] test_vm)) test_vm)
        ≡ returned [] 0 test_vm.world)
    × (call (l_posix_spawnattr_init test_os) [] test_vm
        ≡ returned (userdata 1 ∷ []) 1 test_vm.world)
    × (call
          (l_posix_spawnattr_destroy test_os)
          (userdata 1 ∷ [])
          (state_after (l_posix_spawnattr_init test_os (enter [] test_vm)) test_vm)
        ≡ returned [] 0 test_vm.world)
destroy-init_example = destroy-init test_os [] test_vm refl refl
