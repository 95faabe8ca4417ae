-- ===== src/Lua.antt =====
-- The state that a C function of the library works on when Lua calls it: the call's arguments and
-- stack, the tables and userdata that it can reach, the blocks that it has from malloc(3), errno,
-- and the world of the operating system.
pub mod Stack
pub mod Tables
pub mod Cells
pub mod Traversal
pub mod Lookup
use bricoler.Base.{
  ℕ, zero, suc, ℤ, String, List, [], ◌∷◌, ◌++◌, Bool, Option, length, take, reverse, ◌+◌,
}

-- Bytes of a Lua string.
abbrev pub Bytes : Type 0
Bytes = List ℕ

-- A table is older than the running call, or the n-th that the call has made.
pub data TableRef : Type 0 where
  old : ℕ → TableRef
  new : ℕ → TableRef

-- `cfunction` is a C function by its name, and `float` a number of Lua's type float by the bits that
-- represent it. Lua's functions and threads reach the library's code as `other` only.
pub data Value : Type 0 where
  nil : Value
  boolean : Bool → Value
  integer : ℤ → Value
  float : ℕ → Value
  string : Bytes → Value
  table : TableRef → Value
  userdata : ℕ → Value
  cfunction : String → Value
  other : Value

pub data Key : Type 0 where
  index : ℕ → Key
  name : Bytes → Key

-- The entries with a value other than nil, in the order in which lua_next visits them.
abbrev pub Table : Type 0
Table = List (Key × Value)

-- The metatables of the library; `no_meta` is a userdata that has none yet.
pub data Meta : Type 0 where
  no_meta : Meta
  sys_fd : Meta
  file_actions : Meta
  spawnattr : Meta

-- A userdata: its metatable, and the int that it holds (a descriptor, or a libc object's handle).
pub record Cell : Type 0 where
  pub meta : Meta
  pub content : ℤ

pub record Vm (W : Type 0) : Type 0 where
  pub args : List Value
  pub stack : List Value
  pub room : ℕ
  pub tables : ℕ → Table
  pub locals : List Table
  pub cells : ℕ → Cell
  pub next_cell : ℕ
  -- The metatables that the registry has.
  pub registered : Meta → Bool
  pub live : ℕ
  pub errno : ℕ
  pub world : W

-- What lua_error carries out of a call.
pub data Raise : Type 0 where
  bad_arg : ℕ → Raise
  bad_element : Raise
  message : String → Raise

-- A call returns, raises a Lua error, fails an assertion, does what C or the Lua manual leaves
-- undefined, such as pushing onto a full stack, or is gone: execve(2) has replaced the process.
pub data Run (W : Type 0) (A : Type 0) : Type 0 where
  done : A → Vm W → Run W A
  raised : Raise → Vm W → Run W A
  aborted : Run W A
  undefined : Run W A
  gone : W → Run W A

abbrev pub M : Type 0 → Type 0 → Type 0
M W A = Vm W → Run W A

module _ {W A : Type 0} where
  abbrev pub pure : A → M W A
  pure a vm = done a vm

  abbrev pub raise : Raise → M W A
  raise r vm = raised r vm

  abbrev pub abort : M W A
  abort vm = aborted

  abbrev pub undef : M W A
  undef vm = undefined

module _ {W A B : Type 0} where
  abbrev pub and_then : Run W A → (A → M W B) → Run W B
  and_then (done a vm) f = f a vm
  and_then (raised r vm) f = raised r vm
  and_then aborted f = aborted
  and_then undefined f = undefined
  and_then (gone w) f = gone w

  infixl 5 ◌>>=◌ ◌>>◌
  abbrev pub ◌>>=◌ : M W A → (A → M W B) → M W B
  ◌>>=◌ m f vm = and_then (m vm) f

  abbrev pub ◌>>◌ : M W A → M W B → M W B
  m >> k = m >>= λ _. k

-- assert(3)
abbrev pub assert : {W : Type 0} → Bool → M W (Unit {0})
assert b vm = elim b [ Bool.true ↦ done tt vm | Bool.false ↦ aborted ]

-- Lua enters a C function with its arguments and LUA_MINSTACK free slots.
abbrev pub lua_minstack : ℕ
lua_minstack = 20

abbrev pub enter : {W : Type 0} → List Value → Vm W → Vm W
enter args vm = record vm { args = args; stack = []; room = lua_minstack; locals = [] }

-- The `n` values that a C function returns to Lua by `return (n)`, the first one first.
abbrev pub results : {W : Type 0} → ℕ → Vm W → List Value
results n vm = reverse (take n vm.stack)
