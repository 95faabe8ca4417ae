-- ===== src/Descriptors/Blocks.antt =====
-- Any sequence of calls of functions that leave the blocks as they were: none is left behind.
use bricoler.Base.{ℕ, String, ◌≡◌, refl, ◌∙◌, List, subst, some, false}
use bricoler.Lua.{Value, Vm, M, Run, enter}
use bricoler.Os.{Os}
use bricoler.Contract.{finish, call}
use bricoler.Contract.Balance.{Balanced, Balances}
use bricoler.Library.Functions.{find}
use bricoler.Library.Callable.{callable}
use bricoler.Library.Frugal.{unbalanced, mem, callable-Frugal}
use bricoler.Descriptors.Calls.{Step, returns, raises, elsewhere, Reach, here, next}

module _ {W : Type 0} (os : Os W) where
  -- The calls of a sequence are all of functions that are not in the list.
  abbrev pub BalancedStep : {vm vm' : Vm W} → Step os vm vm' → Type 0
  BalancedStep (returns f m args n e c) = mem f unbalanced ≡ false
  BalancedStep (raises f m args r e c) = mem f unbalanced ≡ false
  BalancedStep (elsewhere tables w h) = Unit

  abbrev pub BalancedCalls : {vm vm' : Vm W} → Reach os vm vm' → Type 0
  BalancedCalls here = Unit
  BalancedCalls (next reach step) = BalancedCalls reach × BalancedStep step

  left_by :
      (f : String) (m : M W ℕ) (args : List Value) (vm : Vm W) (r : Run W ℕ)
      → find f (callable os) ≡ some m
      → m (enter args vm) ≡ r
      → mem f unbalanced ≡ false
      → Balanced vm.live (finish r)
  left_by f m args vm r e c h =
      subst (λ r. Balanced vm.live (finish r)) c (callable-Frugal os f m e h args vm).balanced

  Step-live : {vm vm' : Vm W} (step : Step os vm vm') → BalancedStep step → vm'.live ≡ vm.live
  Step-live {vm = vm} (returns f m args n e c) h = left_by f m args vm _ e c h
  Step-live {vm = vm} (raises f m args r e c) h = left_by f m args vm _ e c h
  Step-live (elsewhere tables w h) u = refl

  calls-live : {vm vm' : Vm W} (reach : Reach os vm vm') → BalancedCalls reach → vm'.live ≡ vm.live
  calls-live here h = refl
  calls-live (next reach step) h = Step-live step h.1 ∙ calls-live reach h.0

  -- Behind any sequence of calls of functions of the modules and of luaopen_ functions, a call of
  -- another one, with any arguments, does nothing undefined, and where it comes back as many blocks
  -- are live as there were before the sequence; all calls are of functions other than execve, glob,
  -- sysctl, sysctlbyname, poll, posix_spawn, posix_spawnp, and those that make or destroy file
  -- actions and spawn attributes.
  pub calls-balanced :
      {vm vm' : Vm W} (reach : Reach os vm vm') (f : String) (m : M W ℕ) (args : List Value)
      → BalancedCalls reach
      → find f (callable os) ≡ some m
      → mem f unbalanced ≡ false
      → Balances vm.live (call m args vm')
  calls-balanced {vm' = vm'} reach f m args h e q =
      subst (λ n. Balances n (call m args vm')) (calls-live reach h)
        (callable-Frugal os f m e q args vm')
