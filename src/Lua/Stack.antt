-- ===== src/Lua/Stack.antt =====
-- The stack of a call: pushes and pops, addresses, and the checks of the arguments.
use bricoler.Base.{
  ℕ, zero, suc, ◌+◌, ℤ, pos, List, [], ◌∷◌, ◌++◌, Bool, true, false, Option, none, some, length,
  get_elem?, reverse, if◌then◌else◌, ◌==◌,
}
use bricoler.Lua.{
  Bytes, Value, nil, boolean, integer, float, string, Vm, M, done, undefined, pure, raise, bad_arg,
  bad_element, ◌>>=◌,
}

module _ {W : Type 0} where
  -- The stack's slots from the bottom: the arguments, then what the call has pushed.
  abbrev pub slots : Vm W → List Value
  slots vm = vm.args ++ reverse vm.stack

  abbrev pub lua_gettop : M W ℕ
  lua_gettop vm = done (length vm.args + length vm.stack) vm

  -- The value at a positive address; none where the address is above the top.
  abbrev pub at_index : ℕ → Vm W → Option Value
  at_index zero vm = none
  at_index (suc i) vm = get_elem? (slots vm) i

  abbrev pub push : Value → M W (Unit {0})
  push v vm = elim vm.room [
    | zero ↦ undefined
    | suc r ↦ done tt (record vm { stack = v ∷ vm.stack; room = r })
  ]

  -- lua_pop(L, 1)
  abbrev pub lua_pop : M W (Unit {0})
  lua_pop vm = elim vm.stack [
    | [] ↦ undefined
    | v ∷ rest ↦ done tt (record vm { stack = rest; room = suc vm.room })
  ]

  -- The value at address -1.
  abbrev pub top_value : M W Value
  top_value vm = elim vm.stack [ [] ↦ undefined | v ∷ rest ↦ done v vm ]

  abbrev pub lua_pushnil : M W (Unit {0})
  lua_pushnil = push nil

  abbrev pub lua_pushboolean : Bool → M W (Unit {0})
  lua_pushboolean b = push (boolean b)

  abbrev pub lua_pushinteger : ℤ → M W (Unit {0})
  lua_pushinteger z = push (integer z)

  abbrev pub lua_pushlstring : Bytes → M W (Unit {0})
  lua_pushlstring s = push (string s)

-- A C string ends before its first NUL.
abbrev pub c_str : Bytes → Bytes
c_str [] = []
c_str (b ∷ bs) = if b == 0 then [] else b ∷ c_str bs

-- lua_pushstring of a C string that is held in a buffer.
abbrev pub lua_pushstring : {W : Type 0} → Bytes → M W (Unit {0})
lua_pushstring s = push (string (c_str s))

-- How Lua converts between numbers and strings, and between its integers and floats: the integer
-- that a string or a float is, the string of a number, the float that a string is, and a float
-- without its fraction, which is none for infinities and NaN.
pub record Conversions : Type 0 where
  pub to_integer : Bytes → Option ℤ
  pub of_integer : ℤ → Bytes
  pub float_to_integer : ℕ → Option ℤ
  pub of_float : ℕ → Bytes
  pub to_float : Bytes → Option ℕ
  pub truncate : ℕ → Option ℤ

-- The string that lua_tolstring finds at a value: strings and numbers have one.
abbrev pub string_of : Conversions → Value → Option Bytes
string_of c (string s) = some s
string_of c (integer z) = some (c.of_integer z)
string_of c (float x) = some (c.of_float x)
string_of c _ = none

-- The bytes of a value of the type LUA_TSTRING.
abbrev pub string_bytes : Value → Option Bytes
string_bytes (string s) = some s
string_bytes _ = none

abbrev pub integer_of : Conversions → Value → Option ℤ
integer_of c (integer z) = some z
integer_of c (string s) = c.to_integer s
integer_of c (float x) = c.float_to_integer x
integer_of c _ = none

-- The conversion of a lua_Number to an integer type, less the fraction: none where that is undefined
-- for every type.
abbrev pub float_of : Conversions → Option ℕ → Option ℤ
float_of c none = some (pos 0)
float_of c (some x) = c.truncate x

-- The same of lua_tonumber: 0 for what is no number. An integer that fits an int is the float as it
-- is, and one that does not is out of its range as a float, too.
abbrev pub truncated : Conversions → Value → Option ℤ
truncated c (integer z) = some z
truncated c (float x) = c.truncate x
truncated c (string s) = float_of c (c.to_float s)
truncated c _ = some (pos 0)

abbrev pub is_none_or_nil : Option Value → Bool
is_none_or_nil none = true
is_none_or_nil (some nil) = true
is_none_or_nil (some v) = false

abbrev pub bind_option {ℓ κ} : {A : Type ℓ} {B : Type κ} → Option A → (A → Option B) → Option B
bind_option none f = none
bind_option (some a) f = f a

abbrev pub map_option {ℓ κ} : {A : Type ℓ} {B : Type κ} → (A → B) → Option A → Option B
map_option f none = none
map_option f (some a) = some (f a)

-- A pointer to a C string in an array: NULL, the characters, or a string whose value is not on the
-- stack any more.
pub data Slot : Type 0 where
  null : Slot
  chars : Bytes → Slot
  dangling : Slot

-- lua_tostring of an element of a table, once it is popped: the table keeps a string, but what
-- lua_tostring makes of a number is kept by the stack only.
abbrev pub slot_of : Value → Slot
slot_of (string s) = chars (c_str s)
slot_of (integer z) = dangling
slot_of (float x) = dangling
slot_of _ = null

module _ {W : Type 0} where
  -- The result of a check of argument `i`.
  abbrev pub or_bad_arg : {A : Type 0} → ℕ → Option A → M W A
  or_bad_arg i none = raise (bad_arg i)
  or_bad_arg i (some a) = pure a

  -- luaL_checklstring, with all bytes of the string
  abbrev pub lual_checklstring : Conversions → ℕ → M W Bytes
  lual_checklstring c i vm = or_bad_arg i (bind_option (at_index i vm) λ v. string_of c v) vm

  -- luaL_checkstring, for a caller that reads its result as a C string
  abbrev pub lual_checkstring : Conversions → ℕ → M W Bytes
  lual_checkstring c i = do s ← lual_checklstring c i; pure (c_str s)

  abbrev pub or_bad_element : {A : Type 0} → Option A → M W A
  or_bad_element none = raise bad_element
  or_bad_element (some a) = pure a

  abbrev pub lual_checkinteger : Conversions → ℕ → M W ℤ
  lual_checkinteger c i vm = or_bad_arg i (bind_option (at_index i vm) λ v. integer_of c v) vm

  abbrev pub lual_optinteger : Conversions → ℕ → ℤ → M W ℤ
  lual_optinteger c i d vm =
      if is_none_or_nil (at_index i vm) then done d vm else lual_checkinteger c i vm

  -- luaL_optinteger(L, -1, d)
  abbrev pub top_optinteger : Conversions → ℤ → M W ℤ
  top_optinteger c d vm = elim vm.stack [
    | [] ↦ undefined
    | v ∷ _ ↦ if is_none_or_nil (some v) then done d vm else or_bad_element (integer_of c v) vm
  ]

  -- luaL_checkinteger(L, -1)
  abbrev pub top_checkinteger : Conversions → M W ℤ
  top_checkinteger c vm = elim vm.stack [
    | [] ↦ undefined
    | v ∷ _ ↦ or_bad_element (integer_of c v) vm
  ]

  -- lua_tostring(L, -1), for a caller that keeps the pointer when the value is popped.
  abbrev pub top_tostring : M W Slot
  top_tostring vm = elim vm.stack [ [] ↦ undefined | v ∷ _ ↦ done (slot_of v) vm ]

  abbrev pub lual_argcheck : Bool → ℕ → M W (Unit {0})
  lual_argcheck true i = pure tt
  lual_argcheck false i = raise (bad_arg i)
