-- ===== src/Sys/Sysctl.antt =====
-- lib/freebsd/sys/sysctl/lua_sysctl.c: sysctl(3) and sysctlbyname(3), for reading. Integers are
-- little-endian, int has 32 bits and long 64.
pub mod Decode
use bricoler.Base.{
  ℕ, ◌+◌, ◌-◌, ◌*◌, ◌%◌, ◌^◌, ℤ, pos, String, List, [], ◌∷◌, ◌++◌, Bool, true, false, Option, none,
  some, length, take, if◌then◌else◌, ◌==◌, ltb, leb_ℤ, to_int64, wrap_signed, codes, ◌&&◌,
}
use bricoler.Lua.{Bytes, Value, TableRef, M, pure, raise, undef, message, ◌>>=◌, ◌>>◌, assert}
use bricoler.Lua.Stack.{
  at_index, lua_pop, lua_pushnil, lua_pushinteger, lua_pushstring, truncated, c_str, top_value,
}
use bricoler.Lua.Tables.{lua_newtable, lual_checktable, for_next}
use bricoler.Lua.Cells.{free, get_errno}
use bricoler.Os.{
  Os, syscall, malloc, lual_setfuncs, CtlType, type_string, type_u8, type_s8, type_u16, type_s16,
  type_u32, type_s32, type_u64, type_s64, type_uint, type_int, type_ulong, type_long, other_type,
}
use bricoler.Os.{int_min, int_max, fits}
use bricoler.Lua.Stack.{or_bad_arg, bind_option, string_bytes}

-- The unsigned integer in the bytes of a buffer.
unfoldable pub le_value : Bytes → ℕ
le_value [] = 0
le_value (b ∷ bs) = b + 256 * le_value bs

-- A C integer type: its size and whether it is signed.
abbrev pub IntType : Type 0
IntType = ℕ × Bool

-- The type that FMTVAL_INT is given for each case of the switch.
unfoldable pub int_type : CtlType → Option IntType
int_type type_string = none
int_type type_u8 = some (1, false)
int_type type_s8 = some (1, true)
int_type type_u16 = some (2, false)
int_type type_s16 = some (2, true)
int_type type_u32 = some (4, false)
int_type type_s32 = some (4, true)
int_type type_u64 = some (8, false)
int_type type_s64 = some (8, true)
int_type type_uint = some (4, false)
int_type type_int = some (4, true)
int_type type_ulong = some (8, false)
int_type type_long = some (8, true)
int_type other_type = none

-- `memcpy(&val, buf, sizeof(val)); lval = val;`
unfoldable pub int_value : IntType → Bytes → ℤ
int_value (size, true) buf = to_int64 (wrap_signed (2 ^ (8 * size - 1)) (pos (le_value buf)))
int_value (size, false) buf = to_int64 (pos (le_value buf))

module _ {W : Type 0} (os : Os W) where
  open os use {conversions}

  -- FMTVAL_INT, and the default of the switch
  unfoldable pub push_int : Option IntType → Bytes → M W ℕ
  push_int none buf = do lua_pushnil; pure 1
  push_int (some t) buf = do assert (length buf == t.0); lua_pushinteger (int_value t buf); pure 1

  unfoldable pub push_value : CtlType → Bytes → M W ℕ
  unfolding push_int int_type
  push_value type_string buf = do
    assert (ltb (length (c_str buf)) (length buf))
    lua_pushstring buf
    pure 1
  push_value t buf = push_int (int_type t) buf

  with_format : Option (ℕ × Bytes) → Bytes → M W ℕ
  unfolding push_value le_value
  with_format none buf = raise (message "failed to resolve OIDFMT")
  with_format (some (fmtlen, fmtbuf)) buf =
      push_value (os.ctltype (le_value (take 4 fmtbuf) % 16)) buf

  -- The array `oid` of fmtval has room for two numbers more than CTL_MAXNAME.
  unfoldable pub fmtval : List ℤ → Bytes → M W ℕ
  unfolding with_format
  fmtval oidp buf = do
    fits (length oidp + 2) (os.ctl_maxname + 2)
    let oid = os.constant "CTL_SYSCTL" ∷ os.constant "CTL_SYSCTL_OIDFMT" ∷ oidp
    fmt ← syscall (os.sysctl oid (some (128 * 4)))
    with_format fmt buf

  -- `lua_pushnil(L); lua_pushstring(L, strerror(errno)); return (2);`
  push_message : M W ℕ
  push_message = do e ← get_errno; lua_pushnil; lua_pushstring (os.strerror e); pure 2

  -- `oid[i] = lua_tonumber(L, -1)`: 0 for what is no number; out of the range of int, and for an
  -- infinity or a NaN, it is undefined.
  unfoldable pub oid_element : Value → M W ℤ
  oid_element v = elim (truncated conversions v) [
    | none ↦ undef
    | some z ↦ if leb_ℤ int_min z && leb_ℤ z int_max then pure z else undef
  ]

  unfoldable pub fill_oid : TableRef → M W (List ℤ)
  unfolding oid_element
  fill_oid t = for_next t [] λ oid. do
    v ← top_value
    z ← oid_element v
    fits (length oid + 1) os.ctl_maxname
    lua_pop
    pure (oid ++ z ∷ [])

  unfoldable pub count_oid : TableRef → M W ℕ
  count_oid t = for_next t 0 λ n. do lua_pop; pure (n + 1)

  second_sysctl : List ℤ → Option (ℕ × Bytes) → M W ℕ
  unfolding push_message fmtval
  second_sysctl oid none = do free; push_message
  second_sysctl oid (some (len, buf)) = fmtval oid (take len buf)

  allocate_sysctl : List ℤ → ℕ → Bool → M W ℕ
  unfolding second_sysctl
  allocate_sysctl oid oldlen false = raise (message "malloc")
  allocate_sysctl oid oldlen true = do
    r ← syscall (os.sysctl oid (some oldlen))
    second_sysctl oid r

  unfoldable pub first_sysctl : List ℤ → Option (ℕ × Bytes) → M W ℕ
  unfolding allocate_sysctl push_message
  first_sysctl oid none = push_message
  first_sysctl oid (some (oldlen, buf)) = do
    assert (ltb 0 oldlen)
    ok ← malloc os (oldlen * 2)
    allocate_sysctl oid (oldlen * 2) ok

  unfoldable pub with_oid : TableRef → M W ℕ
  unfolding fill_oid first_sysctl
  with_oid t = do oid ← fill_oid t; r ← syscall (os.sysctl oid none); first_sysctl oid r

  unfoldable pub l_sysctl : M W ℕ
  unfolding count_oid with_oid
  l_sysctl = do
    t ← lual_checktable 1
    oidlen ← count_oid t
    if ltb os.ctl_maxname oidlen
        then (do lua_pushnil; lua_pushstring (codes "sysctl OID is longer than CTLMAXNAME"); pure 2)
        else with_oid t

  -- After the third sysctlbyname; `none` is an oid that sysctlnametomib did not set.
  third_byname : Option (List ℤ) → Option (ℕ × Bytes) → M W ℕ
  unfolding push_message fmtval
  third_byname oid none = push_message
  third_byname none (some (len, buf)) = undef
  third_byname (some oid) (some (len, buf)) = fmtval oid (take len buf)

  second_byname : Bytes → Option (ℕ × Bytes) → M W ℕ
  unfolding third_byname push_message
  second_byname name none = push_message
  second_byname name (some (oldlen, buf)) = do
    oid ← syscall (os.sysctlnametomib name)
    r ← syscall (os.sysctlbyname name (some oldlen))
    third_byname oid r

  allocate_byname : Bytes → ℕ → Bool → M W ℕ
  unfolding second_byname
  allocate_byname name oldlen false = raise (message "malloc")
  allocate_byname name oldlen true = do
    r ← syscall (os.sysctlbyname name (some oldlen))
    second_byname name r

  first_byname : Bytes → Option (ℕ × Bytes) → M W ℕ
  unfolding allocate_byname push_message
  first_byname name none = push_message
  first_byname name (some (oldlen, buf)) = do
    ok ← malloc os (oldlen * 2)
    allocate_byname name (oldlen * 2) ok

  unfoldable pub l_sysctlbyname : M W ℕ
  unfolding first_byname
  l_sysctlbyname = do
    name ← check_string_arg
    r ← syscall (os.sysctlbyname (c_str name) none)
    first_byname (c_str name) r
    where
      -- lua_type(L, 1) == LUA_TSTRING
      check_string_arg : M W Bytes
      check_string_arg vm = or_bad_arg 1 (bind_option (at_index 1 vm) string_bytes) vm

abbrev pub l_sysctltab : List (String × String)
l_sysctltab = ("sysctl", "l_sysctl") ∷ ("sysctlbyname", "l_sysctlbyname") ∷ []

unfoldable pub luaopen_sysctl : {W : Type 0} → Os W → M W ℕ
luaopen_sysctl os = do lua_newtable; lual_setfuncs l_sysctltab; pure 1
