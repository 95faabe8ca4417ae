-- ===== src/Tests/Programs.antt =====
-- Concrete programs of the Lua library: histories of descriptors, the collection behind them, the
-- loading of the metatables, and polls that succeed.
use bricoler.Base.{
  ℕ, zero, suc, ◌+◌, ◌≡◌, ◌∙◌, refl, ℤ, pos, negsuc, List, [], ◌∷◌, true, false, arith, codes,
  replicate, ap, sym, some, ltb, ◌==◌, if◌then◌else◌,
}
use bricoler.Lua.{
  Bytes, boolean, Value, integer, string, table, userdata, old, new, index, name, Vm, sys_fd,
  file_actions, spawnattr, enter, Table,
}
use bricoler.Os.{Os, Ret, Pollfd, Addrinfo, ok, fail}
use bricoler.Contract.{call, returned, ill}
use bricoler.Contract.Query.{call_made}
use bricoler.Contract.Fd.{state_after}
use bricoler.Contract.Modules.{Bound, module_entries, set_all}
use bricoler.Contract.Metatables.{
  metatable, luaopen_freebsd_meta-registers, luaopen_posix_spawn-registers,
}
use bricoler.Contract.Revents.{l_poll-done, l_poll-overflow, written}
use bricoler.Descriptors.{Owned, Safe, Holds, history, Op, socket, pipe, close, gc}
use bricoler.Descriptors.Start.{program, program-Owned}
use bricoler.Descriptors.Collection.{collect, collect-all_closed}
use bricoler.Descriptors.Abstract.{view, abstract_history}
use bricoler.Descriptors.Refinement.{history_refines}
use bricoler.Tests.Calls.{spawn_vm}
use bricoler.Tests.Fresh.{fresh_vm}
use bricoler.Tests.Ownership.{test_os-Kernel, test_os-NoFailures, always, test_vm-Owned}
use bricoler.Tests.System.{World, test_os, test_vm, test_tables}
use bricoler.Meta.{luaopen_freebsd_meta}
use bricoler.PosixSpawn.{luaopen_posix_spawn, l_posix_spawntab, posix_spawn_constants}
use bricoler.Sys.Poll.{l_poll}
use bricoler.Sys.Sysctl.{l_sysctl, l_sysctlbyname}
use bricoler.Sys.Socket.{l_bind}
use bricoler.Getaddrinfo.{l_getaddrinfo}
use bricoler.Contract.ByName.{Names, l_sysctlbyname-l_sysctl}
use bricoler.Contract.Addresses.{addr_table}
use bricoler.Contract.Getaddrinfo.{l_getaddrinfo-array}
use bricoler.Contract.Binding.{made_entry, l_bind-l_getaddrinfo}

-- A pipe, a socket, the close of the pipe's first end, and the collection of it and of the other.
abbrev pipe_ops : List Op
pipe_ops = pipe [] ∷ socket (integer (pos 2) ∷ integer (pos 1) ∷ []) ∷ close 1 ∷ gc 1 ∷ gc 2 ∷ []

program-Owned_example : Safe (Owned test_os) (program test_os pipe_ops fresh_vm)
program-Owned_example =
    program-Owned test_os test_os-Kernel pipe_ops fresh_vm
      (record { unregistered = refl; no_descriptor = λ i. refl })
      (always (luaopen_freebsd_meta test_os (enter [] fresh_vm)) (test_os-NoFailures pipe_ops))

collect-all_closed_example :
    Safe
      (λ vm'.
        ((i : ℕ) (fd : ℤ) → ¬ (Holds vm' i fd))
        × ((i : ℕ) (fd : ℤ) → Holds test_vm i fd → test_os.is_open fd vm'.world ≡ false))
      (history test_os (collect test_os 1) test_vm)
collect-all_closed_example =
    collect-all_closed test_os test_os-Kernel test_vm test_vm-Owned
      (test_os-NoFailures (collect test_os 1) test_vm)

history_refines_example :
    Safe
      (λ vm'. view vm' ≡ abstract_history test_os pipe_ops (view test_vm))
      (history test_os pipe_ops test_vm)
history_refines_example =
    history_refines test_os test_os-Kernel pipe_ops test_vm test_vm-Owned
      (test_os-NoFailures pipe_ops test_vm)

luaopen_freebsd_meta-registers_example :
    (call_made (luaopen_freebsd_meta test_os) [] fresh_vm ≡ record {
      outcome = returned (table (new 1) ∷ []) 0 test_vm.world;
      made = metatable sys_fd "l_freebsd_sys_fd_gc" ∷ [] ∷ [];
    })
    × ((state_after (luaopen_freebsd_meta test_os (enter [] fresh_vm)) fresh_vm).registered sys_fd
        ≡ true)
luaopen_freebsd_meta-registers_example = luaopen_freebsd_meta-registers test_os [] fresh_vm

luaopen_posix_spawn-registers_example :
    (call_made (luaopen_posix_spawn test_os) [] fresh_vm ≡ record {
      outcome = returned (table (new 2) ∷ []) 0 test_vm.world;
      made =
          metatable file_actions "l_posix_spawn_file_actions_destroy"
          ∷ metatable spawnattr "l_posix_spawnattr_destroy"
          ∷ set_all (module_entries test_os [] fresh_vm l_posix_spawntab posix_spawn_constants) []
          ∷ [];
    })
    × Bound
        (set_all (module_entries test_os [] fresh_vm l_posix_spawntab posix_spawn_constants) [])
        (module_entries test_os [] fresh_vm l_posix_spawntab posix_spawn_constants)
    × ((state_after (luaopen_posix_spawn test_os (enter [] fresh_vm)) fresh_vm).registered
          file_actions
        ≡ true)
    × ((state_after (luaopen_posix_spawn test_os (enter [] fresh_vm)) fresh_vm).registered spawnattr
        ≡ true)
luaopen_posix_spawn-registers_example = luaopen_posix_spawn-registers test_os [] fresh_vm refl refl

abbrev poll_fds : List Pollfd
poll_fds = record { fd = pos 3; events = pos 1 } ∷ []

-- poll(2) of descriptor 3 answers POLLIN.
l_poll-done_example :
    (call (l_poll test_os) (table (old 3) ∷ []) test_vm
      ≡ returned (integer (pos 1) ∷ []) 0 test_vm.world)
    × ((state_after (l_poll test_os (enter (table (old 3) ∷ []) test_vm)) test_vm).tables
        ≡ written ((4, pos 1) ∷ []) test_tables)
l_poll-done_example =
    l_poll-done test_os 3 [] test_vm poll_fds (negsuc 0) test_vm.world test_vm.world
      ((4, pos 1) ∷ []) 1 refl refl refl refl refl (refl, tt) (omega arith)

-- Twenty times the same element, in table 5.
abbrev repeated : ℕ → ℕ → Table
repeated i zero = []
repeated i (suc n) = (index (i + 1), table (old 4)) ∷ repeated (i + 1) n

abbrev many_vm : Vm World
many_vm = record test_vm { tables = λ j. if j == 5 then repeated 0 20 else test_tables j }

abbrev many_os : Os World
many_os = record test_os { poll = λ fds t w. (ok (20, replicate 20 (pos 1)), w) }

l_poll-overflow_example : call (l_poll many_os) (table (old 5) ∷ []) many_vm ≡ ill
l_poll-overflow_example =
    l_poll-overflow many_os 5 [] many_vm (replicate 20 (record { fd = pos 3; events = pos 1 }))
      (negsuc 0) many_vm.world many_vm.world (replicate 20 (4, pos 1)) 20 refl refl refl refl refl
      (
        refl,
        (
          refl,
          (
            refl,
            (
              refl,
              (
                refl,
                (
                  refl,
                  (
                    refl,
                    (
                      refl,
                      (
                        refl,
                        (
                          refl,
                          (
                            refl,
                            (
                              refl,
                              (refl, (refl, (refl, (refl, (refl, (refl, (refl, (refl, tt)))))))),
                            ),
                          ),
                        ),
                      ),
                    ),
                  ),
                ),
              ),
            ),
          ),
        ),
      )
      (omega arith)

-- The name of the sysctl of the tests and its oid, the elements of table 1.
abbrev some_oid : List ℤ
some_oid = pos 1 ∷ pos 2 ∷ []

abbrev result_of : Ret (ℕ × Bytes) → ℕ × Bytes
result_of (ok r) = r
result_of (fail e) = (0, [])

some_names : Names test_os (codes "kern.a") some_oid
some_names = record {
  translated = λ w. refl;
  same = λ size w. refl;
  sized = λ w w' r q. ap (λ (x : Ret (ℕ × Bytes) × World). ltb 0 (result_of x.0).0) (sym q);
  large_enough = λ w w' w'' r q. ((4, 5 ∷ 0 ∷ 0 ∷ 0 ∷ []), refl);
  stable = λ size w w' r q. ap (λ (x : Ret (ℕ × Bytes) × World). (x.0, w')) q;
}

l_sysctlbyname-l_sysctl_example :
    call (l_sysctlbyname test_os) (string (codes "kern.a") ∷ []) test_vm
    ≡ call (l_sysctl test_os) (table (old 1) ∷ []) test_vm
l_sysctlbyname-l_sysctl_example =
    l_sysctlbyname-l_sysctl test_os (codes "kern.a") [] (old 1) [] test_vm some_names
      (refl, (refl, tt)) (omega arith)

-- The addresses of a host with one.
abbrev some_address : Addrinfo
some_address = record {
  ai_flags = pos 0;
  ai_family = pos 2;
  ai_socktype = pos 1;
  ai_protocol = pos 6;
  ai_addr = 16 ∷ 2 ∷ 0 ∷ 80 ∷ 127 ∷ 0 ∷ 0 ∷ 1 ∷ [];
  ai_canonname = some (codes "localhost");
}

abbrev addr_os : Os World
addr_os = record test_os { getaddrinfo = λ h s hints w. ((pos 0, some_address ∷ []), w) }

abbrev addr_args : List Value
addr_args = string (codes "localhost") ∷ string (codes "http") ∷ []

-- The hints are an empty table.
l_getaddrinfo-array_example :
    call_made
      (l_getaddrinfo addr_os)
      (string (codes "localhost") ∷ string [] ∷ table (old 9) ∷ [])
      test_vm
    ≡ record {
      outcome = returned (table (new 0) ∷ []) 0 test_vm.world;
      made = ((index 1, table (new 1)) ∷ []) ∷ addr_table some_address ∷ [];
    }
l_getaddrinfo-array_example =
    l_getaddrinfo-array addr_os (string (codes "localhost") ∷ string [] ∷ table (old 9) ∷ [])
      test_vm

l_bind-l_getaddrinfo_example :
    let made = (call_made (l_getaddrinfo addr_os) addr_args test_vm).made in
    (made_entry made 0 (index 1) ≡ table (new 1))
    × (made_entry made 1 (name (codes "addrlen")) ≡ integer (pos 8))
    × (call (l_bind addr_os) (userdata 0 ∷ made_entry made 1 (name (codes "addr")) ∷ []) test_vm
        ≡ returned (boolean true ∷ []) 0 test_vm.world)
l_bind-l_getaddrinfo_example =
    l_bind-l_getaddrinfo addr_os addr_args test_vm (codes "localhost") (codes "http")
      (some_address ∷ []) test_vm.world 0 some_address test_vm 0 refl refl refl refl refl refl

only_spawn : (i : ℕ) (fd : ℤ) → Holds spawn_vm i fd → (i ≡ 0) × (fd ≡ pos 3)
only_spawn zero fd h = (refl, sym h.content)
only_spawn (suc zero) fd h = (cc h.meta)
only_spawn (suc (suc i)) fd h = (cc h.meta)

spawn_vm-Owned : Owned test_os spawn_vm
spawn_vm-Owned = record {
  loaded = refl;
  held = λ i fd h. rw (only_spawn i fd h).1 (refl);
  distinct = λ i j fd h k. (only_spawn i fd h).0 ∙ sym (only_spawn j fd k).0;
  made = λ i fd h. rw (only_spawn i fd h).0 (omega arith);
}

-- The descriptor userdata 0 behind the file actions of userdata 1.
abbrev use_args : List Value
use_args = userdata 1 ∷ userdata 0 ∷ string (codes "/tmp") ∷ integer (pos 1) ∷ []
