-- ===== src/Getaddrinfo.antt =====
-- lib/freebsd/getaddrinfo/lua_getaddrinfo.c: getaddrinfo(3).
use bricoler.Base.{
  ℕ, zero, ◌+◌, ℤ, pos, String, List, [], ◌∷◌, ◌++◌, not, Option, none, some, length, if◌then◌else◌,
  leb_ℤ, to_int, codes, ◌||◌,
}
use bricoler.Lua.{Bytes, Value, TableRef, M, pure, ◌>>=◌, ◌>>◌}
use bricoler.Lua.Stack.{
  at_index, lua_pushnil, lua_pushinteger, lua_pushlstring, lua_pushstring, lual_checkstring,
  top_optinteger, is_none_or_nil,
}
use bricoler.Lua.Tables.{lua_newtable, lual_checktable, lua_getfield, lua_settable}
use bricoler.Lua.Cells.{allocated, free}
use bricoler.Os.{Os, Addrinfo, Hints, libc_call, lual_setfuncs, add_constants}
use bricoler.Os.{int_min, int_max}

module _ {W : Type 0} (os : Os W) where
  open os use {conversions}

  -- An int field of the hints at index 3; `none` is the return of the error triple.
  unfoldable pub get_int_field : TableRef → String → M W (Option ℤ)
  get_int_field hints field = do
    lua_getfield hints field
    lval ← top_optinteger conversions (pos 0)
    let failed = do
      lua_pushnil
      lua_pushstring (codes field ++ codes " too large")
      lua_pushinteger (pos (os.error_number "EINVAL"))
      pure none
    if not (leb_ℤ int_min lval) || not (leb_ℤ lval int_max)
        then failed
        else pure (some (to_int lval))

  unfoldable pub with_int_field : TableRef → String → (ℤ → M W (Option Hints)) → M W (Option Hints)
  unfolding get_int_field
  with_int_field hints field k = do
    got ← get_int_field hints field
    elim got [ none ↦ pure none | some z ↦ k z ]

  unfoldable pub read_hints : TableRef → M W (Option Hints)
  unfolding with_int_field
  read_hints t = with_int_field t "flags" λ flags. with_int_field t "family" λ family.
      with_int_field t "socktype" λ socktype. with_int_field t "protocol" λ protocol.
        pure (
          some
            (record { flags = flags; family = family; socktype = socktype; protocol = protocol }))

  abbrev pub no_hints : Hints
  no_hints = record { flags = pos 0; family = pos 0; socktype = pos 0; protocol = pos 0 }

  unfoldable pub hints_arg : Option Value → M W (Option Hints)
  unfolding read_hints
  hints_arg v =
      if is_none_or_nil v then pure (some no_hints) else (do t ← lual_checktable 3; read_hints t)

  -- `lua_pushstring(L, name); lua_pushinteger(L, value); lua_settable(L, -3);`
  unfoldable pub set_int : String → ℤ → M W (Unit {0})
  set_int field value = do lua_pushlstring (codes field); lua_pushinteger value; lua_settable

  unfoldable pub set_canonname : Option Bytes → M W (Unit {0})
  set_canonname none = pure tt
  set_canonname (some s) = do lua_pushlstring (codes "canonname"); lua_pushstring s; lua_settable

  -- One round of the loop, for the result number `i`.
  unfoldable pub push_addrinfo : ℕ → Addrinfo → M W (Unit {0})
  unfolding set_int set_canonname
  push_addrinfo i ai = do
    lua_pushinteger (pos i)
    lua_newtable
    set_int "flags" ai.ai_flags
    set_int "family" ai.ai_family
    set_int "socktype" ai.ai_socktype
    set_int "protocol" ai.ai_protocol
    set_int "addrlen" (pos (length ai.ai_addr))
    lua_pushlstring (codes "addr")
    lua_pushlstring ai.ai_addr
    lua_settable
    set_canonname ai.ai_canonname
    lua_settable

  unfoldable pub push_results : ℕ → List Addrinfo → M W (Unit {0})
  push_results i [] = pure tt
  push_results i (ai ∷ res) = do push_addrinfo i ai; push_results (i + 1) res

  unfoldable pub finish_getaddrinfo : ℤ × List Addrinfo → M W ℕ
  unfolding push_results push_addrinfo
  finish_getaddrinfo (pos zero, res) = do allocated; lua_newtable; push_results 1 res; free; pure 1
  finish_getaddrinfo (error, res) = do
    lua_pushnil
    lua_pushstring (os.gai_strerror error)
    lua_pushinteger error
    pure 3

  unfoldable pub call_getaddrinfo : Option Bytes → Option Bytes → Option Hints → M W ℕ
  unfolding finish_getaddrinfo
  call_getaddrinfo hostname servname none = pure 3
  call_getaddrinfo hostname servname (some hints) = do
    r ← libc_call (os.getaddrinfo hostname servname hints)
    finish_getaddrinfo r

  -- `if (strcmp(s, "") == 0) s = NULL;`
  unfoldable pub null_if_empty : Bytes → Option Bytes
  null_if_empty [] = none
  null_if_empty (b ∷ bs) = some (b ∷ bs)

  unfoldable pub l_getaddrinfo : M W ℕ
  unfolding hints_arg call_getaddrinfo null_if_empty
  l_getaddrinfo = do
    hostname ← lual_checkstring conversions 1
    servname ← lual_checkstring conversions 2
    hints ← λ vm. hints_arg (at_index 3 vm) vm
    call_getaddrinfo (null_if_empty hostname) (null_if_empty servname) hints

abbrev pub l_getaddrinfotab : List (String × String)
l_getaddrinfotab = ("getaddrinfo", "l_getaddrinfo") ∷ []

abbrev pub getaddrinfo_constants : List String
getaddrinfo_constants =
    "AI_ADDRCONFIG" ∷ "AI_ALL" ∷ "AI_CANONNAME" ∷ "AI_NUMERICHOST" ∷ "AI_NUMERICSERV" ∷ "AI_PASSIVE"
    ∷ "AI_V4MAPPED" ∷ []

unfoldable pub luaopen_getaddrinfo : {W : Type 0} → Os W → M W ℕ
luaopen_getaddrinfo os = do
  lua_newtable
  lual_setfuncs l_getaddrinfotab
  add_constants os getaddrinfo_constants
  pure 1
