-- ===== src/Descriptors/Keeps/Tables.antt =====
-- Rules for the reads and assignments of tables, the reads of the stack's top, and the two loops
-- that fill a module's table.
use bricoler.Base.{suc, ℤ, String, List, [], ◌∷◌, Option, some, none, if◌then◌else◌}
use bricoler.Lua.{
  Value, TableRef, old, new, Key, Table, Vm, M, Run, undefined, done, raised, bad_element, Meta,
}
use bricoler.Lua.Stack.{
  Conversions, top_value, top_tostring, top_optinteger, top_checkinteger, integer_of, slot_of,
  is_none_or_nil, or_bad_element,
}
use bricoler.Lua.Tables.{
  as_key, as_table, assign_to, assign_in, settable_in, check_top_table, next_loop,
}
use bricoler.Lua.Cells.{check_top_udata, as_userdata}
use bricoler.Os.{Os, lual_setfuncs, add_constants}
use bricoler.Descriptors.Keeps.{keeps_rules, Parts, Keeps}

module _ {W : Type 0} (os : Os W) where
  pub Keeps-assign_to :
      (k : Key) (v : Value) (t : Option TableRef) (s : List Value) (vm : Vm W)
      → Parts os vm
      → Keeps os (assign_to k v t s vm)
  Keeps-assign_to k v none s vm p = record { kept = tt }
  Keeps-assign_to k v (some (old i)) s vm p = record { kept = p }
  Keeps-assign_to k v (some (new i)) s vm p = record { kept = p }

  pub Keeps-assign_in :
      (k : Key) (s : List Value) (vm : Vm W) → Parts os vm → Keeps os (assign_in k s vm)
  Keeps-assign_in k [] vm p = record { kept = tt }
  Keeps-assign_in k (v ∷ []) vm p = record { kept = tt }
  Keeps-assign_in k (v ∷ w ∷ s) vm p = Keeps-assign_to k v (as_table w) (w ∷ s) vm p

  pub Keeps-settable_in : (s : List Value) (vm : Vm W) → Parts os vm → Keeps os (settable_in s vm)
  Keeps-settable_in [] vm p = record { kept = tt }
  Keeps-settable_in (v ∷ []) vm p = record { kept = tt }
  Keeps-settable_in (v ∷ k ∷ []) vm p = record { kept = tt }
  Keeps-settable_in (v ∷ k ∷ w ∷ s) vm p = key (as_key k)
    where
      key :
          (k : Option Key)
          → Keeps os (elim k as (λ _. Run W (Unit {0})) [
            | none ↦ undefined
            | some key ↦ assign_to key v (as_table w) (w ∷ s) (record vm { room = suc vm.room })
          ])
      key none = record { kept = tt }
      key (some k) = Keeps-assign_to k v (as_table w) (w ∷ s) (record vm { room = suc vm.room }) p

  -- A read of the value at the top, where there is one.
  pub Keeps-at_top :
      {A : Type 0} (s : List Value) (f : Value → Run W A)
      → ((v : Value) → Keeps os (f v))
      → Keeps os (elim s as (λ _. Run W A) [ [] ↦ undefined | v ∷ _ ↦ f v ])
  Keeps-at_top [] f k = record { kept = tt }
  Keeps-at_top (v ∷ s) f k = k v

  Keeps-found :
      {A : Type 0} (o : Option A) (vm : Vm W)
      → Parts os vm
      → Keeps os (elim o as (λ _. Run W A) [ none ↦ raised bad_element vm | some a ↦ done a vm ])
  Keeps-found none vm p = record { kept = p }
  Keeps-found (some a) vm p = record { kept = p }

  pub Keeps-elim_option :
      {A B : Type 0} (o : Option A) (m : M W B) (f : A → M W B) (vm : Vm W)
      → Keeps os (m vm)
      → ((a : A) → Keeps os (f a vm))
      → Keeps os ((elim o as (λ _. M W B) [ none ↦ m | some a ↦ f a ]) vm)
  Keeps-elim_option none m f vm k l = k
  Keeps-elim_option (some a) m f vm k l = l a

  pub Keeps-setfuncs :
      (tab : List (String × String)) (vm : Vm W) → Parts os vm → Keeps os (lual_setfuncs tab vm)
  Keeps-setfuncs [] vm p = record { kept = p }
  Keeps-setfuncs ((n, f) ∷ tab) vm p =
      search (keeps_rules, Keeps-assign_in, Keeps-setfuncs tab) depth 20

  pub Keeps-constants :
      (cs : List String) (vm : Vm W) → Parts os vm → Keeps os (add_constants os cs vm)
  Keeps-constants [] vm p = record { kept = p }
  Keeps-constants (c ∷ cs) vm p = search (keeps_rules, Keeps-assign_in, Keeps-constants cs) depth 20

  -- A loop by lua_next, where each round keeps the ownership.
  pub Keeps-next_loop :
      {S : Type 0} (body : S → M W S) (a : S) (es : Table) (vm : Vm W)
      → ((a : S) (vm : Vm W) → Parts os vm → Keeps os (body a vm))
      → Parts os vm
      → Keeps os (next_loop body a es vm)
  Keeps-next_loop body a [] vm k p = search keeps_rules depth 20
  Keeps-next_loop {S = S} body a ((x, v) ∷ es) vm k p =
      let rest : (a : S) (vm : Vm W) → Parts os vm → Keeps os (next_loop body a es vm) =
        λ a vm p. Keeps-next_loop body a es vm k p in
      search (keeps_rules, rest, k) depth 20

  pub Keeps-top_value : (vm : Vm W) → Parts os vm → Keeps os (top_value vm)
  Keeps-top_value vm p = Keeps-at_top vm.stack (λ v. done v vm) (λ v. search keeps_rules depth 10)

  pub Keeps-top_tostring : (vm : Vm W) → Parts os vm → Keeps os (top_tostring vm)
  Keeps-top_tostring vm p =
      Keeps-at_top vm.stack (λ v. done (slot_of v) vm) (λ v. search keeps_rules depth 10)

  pub Keeps-top_optinteger :
      (c : Conversions) (d : ℤ) (vm : Vm W) → Parts os vm → Keeps os (top_optinteger c d vm)
  Keeps-top_optinteger c d vm p =
      Keeps-at_top vm.stack
        (λ v. if is_none_or_nil (some v) then done d vm else or_bad_element (integer_of c v) vm)
        (λ v. search keeps_rules depth 10)

  pub Keeps-top_checkinteger :
      (c : Conversions) (vm : Vm W) → Parts os vm → Keeps os (top_checkinteger c vm)
  Keeps-top_checkinteger c vm p =
      Keeps-at_top vm.stack (λ v. or_bad_element (integer_of c v) vm)
        (λ v. search keeps_rules depth 10)

  pub Keeps-check_top_table : (vm : Vm W) → Parts os vm → Keeps os (check_top_table vm)
  Keeps-check_top_table vm p = Keeps-at_top vm.stack _ (λ v. Keeps-found (as_table v) vm p)

  pub Keeps-check_top_udata : (m : Meta) (vm : Vm W) → Parts os vm → Keeps os (check_top_udata m vm)
  Keeps-check_top_udata m vm p =
      Keeps-at_top vm.stack _ (λ v. Keeps-found (as_userdata m vm v) vm p)

pub ruleset table_rules = (
  keeps_rules, Keeps-assign_in, Keeps-settable_in, Keeps-top_value, Keeps-top_tostring,
  Keeps-top_optinteger, Keeps-top_checkinteger, Keeps-check_top_table, Keeps-check_top_udata,
  Keeps-setfuncs, Keeps-constants, Keeps-next_loop,
)
