-- ===== src/Descriptors/Keeps/Io.antt =====
-- The functions on descriptors that make none and close none keep the ownership.
use bricoler.Base.{ℕ, zero, suc, ◌+◌, ℤ, List, [], ◌∷◌, Option, some, none}
use bricoler.Lua.{Value, TableRef, Vm, enter}
use bricoler.Os.{Os, Pollfd}
use bricoler.Descriptors.Keeps.{keeps_rules, Parts, Keeps}
use bricoler.Descriptors.Keeps.Tables.{table_rules}
use bricoler.Descriptors.Keeps.Others.{Others}
use bricoler.Sys.Read.{l_write, l_read, l_pread}
use bricoler.Sys.Socket.{l_bind}
use bricoler.Sys.Poll.{l_poll, read_fds, write_revents, call_poll, finish_poll}

module _ {W : Type 0} (os : Os W) where
  Keeps-read_fds :
      (t : TableRef) (n i : ℕ) (fds : List Pollfd) (vm : Vm W)
      → Parts os vm
      → Keeps os (read_fds os t n i fds vm)
  unfolding read_fds
  Keeps-read_fds t zero i fds vm p = search keeps_rules depth 5
  Keeps-read_fds t (suc n) i fds vm p =
      let rest : (fds : List Pollfd) (vm : Vm W)
          → Parts os vm
          → Keeps os (read_fds os t n (i + 1) fds vm) =
        Keeps-read_fds t n (i + 1) in
      search (table_rules, rest) depth 30

  Keeps-write_revents :
      (t : TableRef) (i : ℕ) (revents : List ℤ) (vm : Vm W)
      → Parts os vm
      → Keeps os (write_revents os t i revents vm)
  unfolding write_revents
  Keeps-write_revents t i [] vm p = search keeps_rules depth 5
  Keeps-write_revents t i (r ∷ revents) vm p =
      search (table_rules, Keeps-write_revents t (i + 1) revents) depth 20

  Keeps-finish_poll :
      (t : TableRef) (r : Option (ℕ × List ℤ)) (vm : Vm W)
      → Parts os vm
      → Keeps os (finish_poll os t r vm)
  unfolding finish_poll
  Keeps-finish_poll t none vm p = search keeps_rules depth 20
  Keeps-finish_poll t (some (res, revents)) vm p =
      search (keeps_rules, Keeps-write_revents) depth 20

  Keeps-call_poll :
      Others os
      → (t : TableRef) (fds : Option (List Pollfd)) (vm : Vm W) → Parts os vm
      → Keeps os (call_poll os t fds vm)
  unfolding call_poll
  Keeps-call_poll o t none vm p = search keeps_rules depth 20
  Keeps-call_poll o t (some fds) vm p = search (keeps_rules, o.poll, Keeps-finish_poll) depth 20

module _ {W : Type 0} (os : Os W) (o : Others os) (args : List Value) (vm : Vm W)
    (p : Parts os vm) where
  pub l_read-Keeps : Keeps os (l_read os (enter args vm))
  unfolding l_read
  l_read-Keeps = search (keeps_rules, o.malloc, o.read) depth 25

  pub l_pread-Keeps : Keeps os (l_pread os (enter args vm))
  unfolding l_pread
  l_pread-Keeps = search (keeps_rules, o.malloc, o.pread) depth 25

  pub l_write-Keeps : Keeps os (l_write os (enter args vm))
  unfolding l_write
  l_write-Keeps = search (keeps_rules, o.write) depth 25

  pub l_bind-Keeps : Keeps os (l_bind os (enter args vm))
  unfolding l_bind
  l_bind-Keeps = search (keeps_rules, o.bind) depth 25

  pub l_poll-Keeps : Keeps os (l_poll os (enter args vm))
  unfolding l_poll
  l_poll-Keeps = search (keeps_rules, o.malloc, Keeps-read_fds os, Keeps-call_poll os o) depth 20
