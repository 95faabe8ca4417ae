-- ===== src/Sys/Socket.antt =====
-- lib/freebsd/sys/socket/lua_socket.c: socket(2) and bind(2).
use bricoler.Base.{ℕ, ℤ, pos, String, List, [], ◌∷◌, Option, none, some, to_int}
use bricoler.Lua.{sys_fd, M, pure, ◌>>=◌, ◌>>◌}
use bricoler.Lua.Stack.{lual_checklstring, lual_checkinteger, lual_optinteger}
use bricoler.Lua.Tables.{lua_newtable}
use bricoler.Lua.Cells.{lua_newuserdata, set_metatable, lual_checkudata, deref}
use bricoler.Os.{Os, syscall, push_errno, true_or_error, lual_setfuncs, add_constants}

module _ {W : Type 0} (os : Os W) where
  open os use {conversions}

  push_socket : Option ℤ → M W ℕ
  push_socket none = push_errno os
  push_socket (some fd) = do fdp ← lua_newuserdata fd; set_metatable sys_fd fdp; pure 1

  unfoldable pub open_socket : ℤ → ℤ → ℤ → M W ℕ
  unfolding push_socket
  open_socket domain type protocol = do
    fd ← syscall (os.socket (to_int domain) (to_int type) (to_int protocol))
    push_socket fd

  unfoldable pub l_socket : M W ℕ
  unfolding open_socket
  l_socket = do
    domain ← lual_checkinteger conversions 1
    type ← lual_checkinteger conversions 2
    protocol ← lual_optinteger conversions 3 (pos 0)
    open_socket domain type protocol

  -- The address is the bytes of a string, as getaddrinfo gives it.
  unfoldable pub l_bind : M W ℕ
  l_bind = do
    fdp ← lual_checkudata 1 sys_fd
    fd ← deref fdp
    ss ← lual_checklstring conversions 2
    ret ← syscall (os.bind fd ss)
    true_or_error os ret

abbrev pub l_sockettab : List (String × String)
l_sockettab = ("socket", "l_socket") ∷ ("bind", "l_bind") ∷ []

abbrev pub socket_constants : List String
socket_constants =
    "PF_LOCAL" ∷ "PF_INET" ∷ "PF_INET6" ∷ "SOCK_STREAM" ∷ "SOCK_DGRAM" ∷ "SOCK_RAW"
    ∷ "SOCK_SEQPACKET" ∷ "SOCK_CLOEXEC" ∷ "SOCK_NONBLOCK" ∷ []

unfoldable pub luaopen_socket : {W : Type 0} → Os W → M W ℕ
luaopen_socket os = do
  lua_newtable
  lual_setfuncs l_sockettab
  add_constants os socket_constants
  pure 1
