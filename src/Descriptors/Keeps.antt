-- ===== src/Descriptors/Keeps.antt =====
-- Rules for the parts of a C function: a run keeps the ownership of descriptors unless the process
-- ends in it.
pub mod Others
pub mod Tables
pub mod Userdata
pub mod Io
pub mod Files
pub mod Spawn
pub mod Query
pub mod Launch
pub mod Addresses
pub mod Owners
pub mod Modules
use bricoler.Base.{
  ℕ, zero, suc, ℤ, pos, ◌≡◌, refl, List, [], ◌∷◌, Bool, true, false, Option, some, none,
  if◌then◌else◌,
}
use bricoler.Lua.{
  Value, Vm, Table, Meta, Cell, M, Run, Raise, done, raised, aborted, undefined, gone, pure, raise,
  enter, assert, ◌>>=◌, ◌>>◌, and_then,
}
use bricoler.Lua.Stack.{push, or_bad_arg, or_bad_element, lua_pop, lual_argcheck}
use bricoler.Lua.Cells.{free, allocated}
use bricoler.Os.{Os, Ret, ok, fail, ret_in, malloc}
use bricoler.Descriptors.{KeepsOpen, Owned}
use bricoler.Descriptors.Ownership.{Owned-world}

module _ {W : Type 0} (os : Os W) where
  -- No descriptor that was open is closed.
  pub record ClosesNone (w w' : W) : Type 0 where
    pub keeps : KeepsOpen os (λ _. ⊥) w w'

  -- Ownership is about these parts of a state.
  pub record OwnedParts (cells : ℕ → Cell) (next : ℕ) (registered : Meta → Bool) (w : W)
      : Type 0 where
    pub owned :
        (vm : Vm W)
        → Owned os
            (record vm { cells = cells; next_cell = next; registered = registered; world = w })

  abbrev pub Parts : Vm W → Type 0
  Parts vm = OwnedParts vm.cells vm.next_cell vm.registered vm.world

  abbrev pub Kept : {A : Type 0} → Run W A → Type 0
  Kept (done a vm) = Parts vm
  Kept (raised r vm) = Parts vm
  Kept _ = Unit

  pub record Keeps {A : Type 0} (r : Run W A) : Type 0 where
    pub kept : Kept r

  pub Parts-moves :
      (cells : ℕ → Cell) (next : ℕ) (registered : Meta → Bool) (w w' : W)
      → OwnedParts cells next registered w
      → ClosesNone w w'
      → OwnedParts cells next registered w'
  Parts-moves cells next registered w w' p c = record {
    owned = λ vm.
        Owned-world os
          (record vm { cells = cells; next_cell = next; registered = registered; world = w }) _ refl
          refl refl c.keeps (p.owned vm);
  }

  module _ {A : Type 0} where
    pub Keeps-done : (a : A) (vm : Vm W) → Parts vm → Keeps (done a vm)
    Keeps-done a vm p = record { kept = p }

    pub Keeps-raised : (r : Raise) (vm : Vm W) → Parts vm → Keeps {A = A} (raised r vm)
    Keeps-raised r vm p = record { kept = p }

    pub Keeps-undefined : Keeps {A = A} undefined
    Keeps-undefined = record { kept = tt }

    pub Keeps-aborted : Keeps {A = A} aborted
    Keeps-aborted = record { kept = tt }

    pub Keeps-or_bad_arg : (i : ℕ) (a : Option A) (vm : Vm W) → Parts vm → Keeps (or_bad_arg i a vm)
    Keeps-or_bad_arg i none vm p = record { kept = p }
    Keeps-or_bad_arg i (some a) vm p = record { kept = p }

    pub Keeps-or_bad_element : (a : Option A) (vm : Vm W) → Parts vm → Keeps (or_bad_element a vm)
    Keeps-or_bad_element none vm p = record { kept = p }
    Keeps-or_bad_element (some a) vm p = record { kept = p }

    pub Keeps-if :
        (b : Bool) (m n : M W A) (vm : Vm W)
        → Keeps (m vm)
        → Keeps (n vm)
        → Keeps ((if b then m else n) vm)
    Keeps-if true m n vm k l = k
    Keeps-if false m n vm k l = l

    pub Keeps-if_run : (b : Bool) (m n : Run W A) → Keeps m → Keeps n → Keeps (if b then m else n)
    Keeps-if_run true m n k l = k
    Keeps-if_run false m n k l = l

    pub Keeps-elim_bool :
        (b : Bool) (m n : M W A) (vm : Vm W)
        → Keeps (m vm)
        → Keeps (n vm)
        → Keeps ((elim b as (λ _. M W A) [ true ↦ m | false ↦ n ]) vm)
    Keeps-elim_bool true m n vm k l = k
    Keeps-elim_bool false m n vm k l = l

  pub Keeps-assert : (b : Bool) (vm : Vm W) → Parts vm → Keeps (assert b vm)
  Keeps-assert true vm p = record { kept = p }
  Keeps-assert false vm p = record { kept = tt }

  pub Keeps-argcheck : (b : Bool) (i : ℕ) (vm : Vm W) → Parts vm → Keeps (lual_argcheck b i vm)
  Keeps-argcheck true i vm p = record { kept = p }
  Keeps-argcheck false i vm p = record { kept = p }

  pub Keeps-push : (v : Value) (vm : Vm W) → Parts vm → Keeps (push v vm)
  Keeps-push v vm p = room vm.room vm p
    where
      room : (n : ℕ) (vm : Vm W) → Parts vm → Keeps (push v (record vm { room = n }))
      room zero vm p = record { kept = tt }
      room (suc n) vm p = record { kept = p }

  pub Keeps-free : (vm : Vm W) → Parts vm → Keeps (free vm)
  Keeps-free vm p = live vm.live vm p
    where
      live : (n : ℕ) (vm : Vm W) → Parts vm → Keeps (free (record vm { live = n }))
      live zero vm p = record { kept = tt }
      live (suc n) vm p = record { kept = p }

  pub Keeps-pop : (vm : Vm W) → Parts vm → Keeps (lua_pop vm)
  Keeps-pop vm p = stack vm.stack vm p
    where
      stack : (s : List Value) (vm : Vm W) → Parts vm → Keeps (lua_pop (record vm { stack = s }))
      stack [] vm p = record { kept = tt }
      stack (v ∷ s) vm p = record { kept = p }

  module _ {A B : Type 0} where
    pub Keeps-and_then :
        (r : Run W A) (f : A → M W B)
        → Keeps r
        → ((a : A) (vm : Vm W) → Parts vm → Keeps (f a vm))
        → Keeps (and_then r f)
    Keeps-and_then (done a vm) f k l = l a vm k.kept
    Keeps-and_then (raised e vm) f k l = record { kept = k.kept }
    Keeps-and_then aborted f k l = record { kept = tt }
    Keeps-and_then undefined f k l = record { kept = tt }
    Keeps-and_then (gone w) f k l = record { kept = tt }

    -- A system call, and what its caller does with a result and with -1.
    pub Keeps-syscall :
        (r : Ret A × W) (vm : Vm W) (f : Option A → M W B)
        → Parts vm
        → ClosesNone vm.world r.1
        → ((a : A) (vm : Vm W) → Parts vm → Keeps (f (some a) vm))
        → ((vm : Vm W) → Parts vm → Keeps (f none vm))
        → Keeps (and_then (ret_in r vm) f)
    Keeps-syscall (ok a, w) vm f p c k l =
        k a (record vm { world = w }) (Parts-moves _ _ _ vm.world w p c)
    Keeps-syscall (fail e, w) vm f p c k l =
        l (record vm { errno = e; world = w }) (Parts-moves _ _ _ vm.world w p c)

  pub Keeps-malloc :
      {B : Type 0} (n : ℕ) (vm : Vm W) (f : Bool → M W B)
      → Parts vm
      → ClosesNone vm.world (os.malloc n vm.world).1
      → ((vm : Vm W) → Parts vm → Keeps (f true vm))
      → ((vm : Vm W) → Parts vm → Keeps (f false vm))
      → Keeps (and_then (malloc os n vm) f)
  Keeps-malloc {B = B} n vm f p c k l = split (os.malloc n vm.world) c
    where
      split :
          (r : Ret (Unit {0}) × W)
          → ClosesNone vm.world r.1
          → Keeps (
              and_then
                (and_then (ret_in r vm) λ got. elim got as (λ _. M W Bool) [
                  | none ↦ pure false
                  | some _ ↦ (allocated >> pure true)
                ])
                f)
      split (ok a, w) c =
          k (record vm { live = suc vm.live; world = w }) (Parts-moves _ _ _ vm.world w p c)
      split (fail e, w) c =
          l (record vm { errno = e; world = w }) (Parts-moves _ _ _ vm.world w p c)

pub ruleset keeps_rules = (
  Parts-moves, Keeps-done, Keeps-raised, Keeps-undefined, Keeps-aborted, Keeps-or_bad_arg,
  Keeps-or_bad_element, Keeps-assert, Keeps-argcheck, Keeps-if, Keeps-if_run, Keeps-elim_bool,
  Keeps-push, Keeps-free, Keeps-pop, Keeps-malloc, Keeps-syscall, Keeps-and_then,
)
