-- ===== src/Contract.antt =====
-- What a call of a C function means to the Lua program: the values it returns or the error it
-- raises, the blocks from malloc(3) that are live behind it, and the state of the system. The
-- contracts of the modules below are stated in these terms, with no stack in sight.
pub mod Files
pub mod Query
pub mod Io
pub mod Sysctl
pub mod ByName
pub mod Fd
pub mod Making
pub mod Spawn
pub mod Vectors
pub mod Lifetime
pub mod Blocks
pub mod Launch
pub mod Process
pub mod Modules
pub mod Metatables
pub mod Poll
pub mod Revents
pub mod Search
pub mod Addresses
pub mod Hints
pub mod Getaddrinfo
pub mod Binding
pub mod Balance
use bricoler.Base.{
  ℕ, zero, suc, ℤ, pos, List, [], ◌∷◌, Bool, true, false, Option, none, some, get_elem?,
}
use bricoler.Lua.{
  Bytes, Value, nil, boolean, integer, string, Vm, M, Run, done, raised, aborted, undefined, gone,
  Raise, bad_arg, enter, results,
}
use bricoler.Lua.Stack.{c_str, string_of, integer_of, bind_option, map_option, is_none_or_nil}
use bricoler.Os.{Os, Ret, ok, fail}

pub data Outcome (W : Type 0) : Type 0 where
  returned : List Value → ℕ → W → Outcome W
  failed : Raise → ℕ → W → Outcome W
  crashed : Outcome W
  ill : Outcome W
  replaced : W → Outcome W

module _ {W : Type 0} where
  abbrev pub finish : Run W ℕ → Outcome W
  finish (done n vm) = returned (results n vm) vm.live vm.world
  finish (raised r vm) = failed r vm.live vm.world
  finish aborted = crashed
  finish undefined = ill
  finish (gone w) = replaced w

  -- Lua calls the function `f` with the arguments `args`.
  abbrev pub call : M W ℕ → List Value → Vm W → Outcome W
  call f args vm = finish (f (enter args vm))

-- What the check functions of Lua read of the arguments.
abbrev pub string_arg : {W : Type 0} → Os W → List Value → ℕ → Option Bytes
string_arg os args i = bind_option (get_elem? args i) λ v. string_of os.conversions v

abbrev pub c_string_arg : {W : Type 0} → Os W → List Value → ℕ → Option Bytes
c_string_arg os args i = map_option c_str (string_arg os args i)

abbrev pub integer_arg : {W : Type 0} → Os W → List Value → ℕ → Option ℤ
integer_arg os args i = bind_option (get_elem? args i) λ v. integer_of os.conversions v

abbrev pub optinteger_arg : {W : Type 0} → Os W → List Value → ℕ → ℤ → Option ℤ
optinteger_arg os args i d = elim (is_none_or_nil (get_elem? args i)) [
  | true ↦ some d
  | false ↦ integer_arg os args i
]

-- Argument `i` is bad, or the call goes on with it.
abbrev pub with_arg : {W A : Type 0} → ℕ → Option A → Vm W → (A → Outcome W) → Outcome W
with_arg i none vm k = failed (bad_arg i) vm.live vm.world
with_arg i (some a) vm k = k a

-- The error triple.
abbrev pub error_values : {W : Type 0} → Os W → ℕ → List Value
error_values os e = nil ∷ string (c_str (os.strerror e)) ∷ integer (pos e) ∷ []

-- A wrapper's reply to what the system call did: the values for its result, or the error triple.
-- No block is allocated or freed.
abbrev pub reply : {W A : Type 0} → Os W → (A → List Value) → Vm W → Ret A × W → Outcome W
reply os f vm (ok a, w) = returned (f a) vm.live w
reply os f vm (fail e, w) = returned (error_values os e) vm.live w

abbrev pub true_values : Unit {0} → List Value
true_values _ = boolean true ∷ []
