-- ===== src/Contract/Balance.antt =====
-- Rules for contracts of calls that leave as many blocks behind as they found.
pub mod Made
use bricoler.Base.{
  ℕ, suc, zero, ℤ, pos, negsuc, ◌≡◌, refl, subst, sym, ap, String, List, [], ◌∷◌, Bool, true, false,
  Option, none, some, if◌then◌else◌, All, end, ◌&◌,
}
use bricoler.Lua.{Bytes, Value, Vm, Table, M, Raise, bad_arg}
use bricoler.Os.{
  Os, Ret, Syscall, Stat, ok, fail, exited, signaled, stopped, other_status, WaitStatus,
}
use bricoler.Contract.{Outcome, returned, failed, crashed, ill, replaced, call, with_arg, reply}
use bricoler.Contract.Io.{with_block, status_outcome, wait_outcome}
use bricoler.Contract.Query.{stat_table, stat_contract, table_reply}
use bricoler.Contract.Spawn.{status_reply, value_reply, while_open}

-- The call does nothing undefined, and where it comes back there are `live` blocks.
abbrev pub Balanced : {W : Type 0} → ℕ → Outcome W → Type 0
Balanced live (returned vs n w) = n ≡ live
Balanced live (failed r n w) = n ≡ live
Balanced live crashed = Unit
Balanced live ill = ⊥
Balanced live (replaced w) = Unit

pub record Balances {W : Type 0} (live : ℕ) (o : Outcome W) : Type 0 where
  pub balanced : Balanced live o

module _ {W : Type 0} where
  pub Balances-returned : (live : ℕ) (vs : List Value) (w : W) → Balances live (returned vs live w)
  Balances-returned live vs w = record { balanced = refl }

  pub Balances-failed : (live : ℕ) (r : Raise) (w : W) → Balances live (failed r live w)
  Balances-failed live r w = record { balanced = refl }

  pub Balances-crashed : (live : ℕ) → Balances {W = W} live crashed
  Balances-crashed live = record { balanced = tt }

  pub Balances-with_arg :
      {A : Type 0} (i : ℕ) (a : Option A) (vm : Vm W) (k : A → Outcome W)
      → ((a : A) → Balances vm.live (k a))
      → Balances vm.live (with_arg i a vm k)
  Balances-with_arg i none vm k h = record { balanced = refl }
  Balances-with_arg i (some a) vm k h = h a

  pub Balances-if :
      (live : ℕ) (b : Bool) (o o' : Outcome W)
      → Balances live o
      → Balances live o'
      → Balances live (if b then o else o')
  Balances-if live true o o' h h' = h
  Balances-if live false o o' h h' = h'

  pub Balances-elim_bool :
      (live : ℕ) (b : Bool) (o o' : Outcome W)
      → Balances live o
      → Balances live o'
      → Balances live (elim b as (λ _. Outcome W) [ true ↦ o | false ↦ o' ])
  Balances-elim_bool live true o o' h h' = h
  Balances-elim_bool live false o o' h h' = h'

  pub by : {live : ℕ} {o o' : Outcome W} → o ≡ o' → Balances live o' → Balances live o
  by {live = live} e h = subst (λ x. Balances live x) (sym e) h

module _ {W : Type 0} (os : Os W) (vm : Vm W) where
  pub Balances-reply :
      {A : Type 0} (f : A → List Value) (r : Ret A × W) → Balances vm.live (reply os f vm r)
  Balances-reply f (ok a, w) = record { balanced = refl }
  Balances-reply f (fail e, w) = record { balanced = refl }

  pub Balances-with_block :
      {A : Type 0} (f : A → List Value) (fn : Syscall W A) (r : Ret (Unit {0}) × W)
      → Balances vm.live (with_block os vm f fn r)
  Balances-with_block f fn (ok a, w) = Balances-reply f (fn w)
  Balances-with_block f fn (fail e, w) = record { balanced = refl }

  pub Balances-status : (r : ℕ × W) → Balances vm.live (status_reply os vm r)
  Balances-status (zero, w) = record { balanced = refl }
  Balances-status (suc e, w) = record { balanced = refl }

  pub Balances-value : (r : (ℕ × ℤ) × W) → Balances vm.live (value_reply os vm r)
  Balances-value ((zero, z), w) = record { balanced = refl }
  Balances-value ((suc e, z), w) = record { balanced = refl }

  pub Balances-while_open :
      (fd : ℤ) (k : Outcome W) → Balances vm.live k → Balances vm.live (while_open os vm fd k)
  Balances-while_open fd k h =
      Balances-elim_bool vm.live (os.is_open fd vm.world) k crashed h (Balances-crashed vm.live)

  pub Balances-table :
      {A : Type 0} (f : A → Table) (r : Ret A × W)
      → Balances vm.live (table_reply os vm f r).outcome
  Balances-table f (ok a, w) = record { balanced = refl }
  Balances-table f (fail e, w) = record { balanced = refl }

  pub Balances-status_outcome :
      (pid : ℤ) (s : WaitStatus) (w : W) → Balances vm.live (status_outcome os vm pid s w)
  Balances-status_outcome pid (exited z) w = record { balanced = refl }
  Balances-status_outcome pid (signaled z) w = record { balanced = refl }
  Balances-status_outcome pid (stopped z) w = record { balanced = refl }
  Balances-status_outcome pid other_status w = record { balanced = tt }

  pub Balances-wait : (r : Ret (ℤ × ℤ) × W) → Balances vm.live (wait_outcome os vm r)
  Balances-wait (fail e, w) = record { balanced = refl }
  Balances-wait (ok (pos zero, status), w) = record { balanced = refl }
  Balances-wait (ok (pos (suc n), status), w) =
      Balances-status_outcome (pos (suc n)) (os.wait_status status) w
  Balances-wait (ok (negsuc n, status), w) =
      Balances-status_outcome (negsuc n) (os.wait_status status) w

  pub Balances-stat :
      (fn : Bytes → Syscall W Stat) (path : Option Bytes)
      → Balances vm.live (stat_contract os vm fn path).outcome
  Balances-stat fn none = record { balanced = refl }
  Balances-stat fn (some path) = Balances-table stat_table (fn path vm.world)

pub ruleset balance_rules = (
  Balances-returned, Balances-failed, Balances-crashed, Balances-with_arg, Balances-if,
  Balances-elim_bool, Balances-reply, Balances-with_block, Balances-status, Balances-value,
  Balances-wait, Balances-while_open,
)
