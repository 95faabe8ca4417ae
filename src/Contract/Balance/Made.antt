-- ===== src/Contract/Balance/Made.antt =====
-- Contracts of calls that make tables or ask for a limit: as many blocks are left as there were.
use bricoler.Base.{
  ℕ, zero, suc, ℤ, pos, negsuc, ◌≡◌, refl, ap, Option-cases, String, List, Option, none, some, inl,
  inr, Bool-cases, not, ◌||◌, leb_ℤ, to_int, codes,
}
use bricoler.Lua.{enter, Value, Vm, Table, name}
use bricoler.Lua.Stack.{is_none_or_nil, bind_option}
use bricoler.Lua.Tables.{as_table, table_at, raw_get}
use bricoler.Os.{Os, Ret, Addrinfo, Hints, int_min, int_max, ok, fail}
use bricoler.Contract.Balance.{Balances}
use bricoler.Contract.Query.{Made, limit_reply}
use bricoler.Contract.Hints.{addresses, with_hint, table_hints, hint_value}
use bricoler.Contract.Getaddrinfo.{with_hints}

-- The outcome of a call that makes tables.
pub outcome_of : {W : Type 0} {m m' : Made W} → m ≡ m' → m.outcome ≡ m'.outcome
outcome_of e = ap (λ m. m.outcome) e

module _ {W : Type 0} (os : Os W) where
  pub Balances-addresses :
      (live : ℕ) (r : (ℤ × List Addrinfo) × W) → Balances live (addresses os live r).outcome
  Balances-addresses live ((pos zero, res), w) = record { balanced = refl }
  Balances-addresses live ((pos (suc n), res), w) = record { balanced = refl }
  Balances-addresses live ((negsuc n, res), w) = record { balanced = refl }

  pub Balances-limit : (vm : Vm W) (r : Ret (Option ℤ) × W) → Balances vm.live (limit_reply os vm r)
  Balances-limit vm (ok (some value), w) = record { balanced = refl }
  Balances-limit vm (ok none, w) = record { balanced = refl }
  Balances-limit vm (fail e, w) = record { balanced = refl }

  pub Balances-with_hint :
      (vm : Vm W) (f : String) (t : Table) (k : ℤ → Made W)
      → ((z : ℤ) → Balances vm.live (k z).outcome)
      → Balances vm.live (with_hint os vm f t k).outcome
  Balances-with_hint vm f t k h = elim (Option-cases (hint_value os (raw_get (name (codes f)) t))) [
    | inl q ↦ rw (q, with_hint) (record { balanced = refl })
    | inr (z, q) ↦
        rw (q, with_hint)
          (elim (Bool-cases (not (leb_ℤ int_min z) || not (leb_ℤ z int_max))) [
            | inl b ↦ rw b (record { balanced = refl })
            | inr b ↦ rw b (h (to_int z))
          ])
  ]

  pub Balances-table_hints :
      (vm : Vm W) (t : Table) (k : Hints → Made W)
      → ((hints : Hints) → Balances vm.live (k hints).outcome)
      → Balances vm.live (table_hints os vm t k).outcome
  Balances-table_hints vm t k h =
      let hints : ℤ → ℤ → ℤ → ℤ → Hints =
        λ a b c d. record { flags = a; family = b; socktype = c; protocol = d } in
      let last : ℤ → ℤ → ℤ → Made W =
        λ a b c. with_hint os vm "protocol" t λ d. k (hints a b c d) in
      let third : ℤ → ℤ → Made W = λ a b. with_hint os vm "socktype" t λ c. last a b c in
      let second : ℤ → Made W = λ a. with_hint os vm "family" t λ b. third a b in
      Balances-with_hint vm "flags" t second λ a. Balances-with_hint vm "family" t (third a) λ b.
        Balances-with_hint vm "socktype" t (last a b)
          λ c. Balances-with_hint vm "protocol" t (λ d. k (hints a b c d)) λ d. h (hints a b c d)

  pub Balances-with_hints :
      (vm : Vm W) (args : List Value) (v : Option Value) (k : Hints → Made W)
      → ((hints : Hints) → Balances vm.live (k hints).outcome)
      → Balances vm.live (with_hints os vm args v k).outcome
  Balances-with_hints vm args v k h = elim (Bool-cases (is_none_or_nil v)) [
    | inl b ↦ rw (b, with_hints) (h _)
    | inr b ↦
        rw (b, with_hints)
          (elim (Option-cases (bind_option v λ x. as_table x)) [
            | inl q ↦ rw q (record { balanced = refl })
            | inr (t, q) ↦ rw q (Balances-table_hints vm (table_at t (enter args vm)) k h)
          ])
  ]
