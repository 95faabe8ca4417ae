-- ===== src/Sys/Poll.antt =====
-- lib/freebsd/sys/poll/lua_poll.c: poll(2). The C array of struct pollfd is a list.
use bricoler.Base.{
  ℕ, zero, suc, ◌+◌, ◌*◌, ℤ, pos, negsuc, String, List, [], ◌∷◌, ◌++◌, Bool, true, false, not,
  Option, none, some, if◌then◌else◌, leb_ℤ, to_int, to_short, codes, ◌||◌,
}
use bricoler.Lua.{TableRef, sys_fd, M, pure, ◌>>=◌, ◌>>◌}
use bricoler.Lua.Stack.{
  lua_pop, lua_pushnil, lua_pushinteger, lua_pushstring, lual_optinteger, top_checkinteger,
}
use bricoler.Lua.Tables.{
  lua_newtable, lual_checktable, check_top_table, lua_rawlen, lua_rawgeti, lua_getfield,
  lua_setfield,
}
use bricoler.Lua.Cells.{check_top_udata, deref, free}
use bricoler.Os.{Os, Pollfd, syscall, malloc, push_errno, lual_setfuncs, add_constants}
use bricoler.Os.{int_max, shrt_min, shrt_max}

module _ {W : Type 0} (os : Os W) where
  open os use {conversions}

  -- The first loop: the entries i+1, i+2, ... of the argument, `n` of them.
  unfoldable pub read_fds : TableRef → ℕ → ℕ → List Pollfd → M W (Option (List Pollfd))
  read_fds t zero i fds = pure (some fds)
  read_fds t (suc n) i fds = do
    lua_rawgeti t (i + 1)
    entry ← check_top_table
    lua_getfield entry "fd"
    fdp ← check_top_udata sys_fd
    lua_pop
    lua_getfield entry "events"
    events ← top_checkinteger conversions
    lua_pop
    lua_pop
    fd ← deref fdp
    let rest = read_fds t n (i + 1) (fds ++ (record { fd = fd; events = to_short events }) ∷ [])
    if not (leb_ℤ events shrt_max) || not (leb_ℤ shrt_min events) then pure none else rest

  -- The second loop; it leaves each entry on the stack.
  unfoldable pub write_revents : TableRef → ℕ → List ℤ → M W (Unit {0})
  write_revents t i [] = pure tt
  write_revents t i (r ∷ revents) = do
    lua_rawgeti t (i + 1)
    entry ← check_top_table
    lua_pushinteger r
    lua_setfield "revents"
    write_revents t (i + 1) revents

  unfoldable pub finish_poll : TableRef → Option (ℕ × List ℤ) → M W ℕ
  unfolding write_revents
  finish_poll t none = do n ← push_errno os; free; pure n
  finish_poll t (some (res, revents)) = do
    write_revents t 0 revents
    free
    lua_pushinteger (pos res)
    pure 1

  push_einval : String → M W ℕ
  push_einval msg = do
    lua_pushnil
    lua_pushstring (codes msg)
    lua_pushinteger (pos (os.error_number "EINVAL"))
    pure 3

  unfoldable pub call_poll : TableRef → Option (List Pollfd) → M W ℕ
  unfolding finish_poll push_einval
  call_poll t none = do n ← push_einval "events too large"; free; pure n
  call_poll t (some fds) = do
    ltimeout ← lual_optinteger conversions 2 (negsuc 0)
    let run = do res ← syscall (os.poll fds (to_int ltimeout)); finish_poll t res
    if leb_ℤ ltimeout int_max then run else push_einval "timeout too large"

  unfoldable pub poll_array : TableRef → ℕ → Bool → M W ℕ
  unfolding read_fds call_poll
  poll_array t nfds false = push_errno os
  poll_array t nfds true = do fds ← read_fds t nfds 0 []; call_poll t fds

  unfoldable pub l_poll : M W ℕ
  unfolding poll_array
  l_poll = do
    t ← lual_checktable 1
    nfds ← lua_rawlen t
    ok ← malloc os (nfds * 8)
    poll_array t nfds ok

abbrev pub l_polltab : List (String × String)
l_polltab = ("poll", "l_poll") ∷ []

abbrev pub poll_constants : List String
poll_constants =
    "POLLIN" ∷ "POLLOUT" ∷ "POLLRDNORM" ∷ "POLLRDBAND" ∷ "POLLWRNORM" ∷ "POLLWRBAND" ∷ "POLLERR"
    ∷ "POLLHUP" ∷ "POLLRDHUP" ∷ "POLLNVAL" ∷ []

unfoldable pub luaopen_poll : {W : Type 0} → Os W → M W ℕ
luaopen_poll os = do lua_newtable; lual_setfuncs l_polltab; add_constants os poll_constants; pure 1
