-- ===== src/Descriptors/Keeps/Addresses.antt =====
-- getaddrinfo keeps the ownership of descriptors.
use bricoler.Base.{ℕ, zero, suc, ◌+◌, ℤ, pos, negsuc, String, List, [], ◌∷◌, Option, some, none}
use bricoler.Lua.{Bytes, Value, TableRef, Vm, enter, M}
use bricoler.Os.{Os, Addrinfo, Hints}
use bricoler.Descriptors.Keeps.{keeps_rules, Parts, Keeps, Keeps-and_then}
use bricoler.Descriptors.Keeps.Tables.{table_rules, Keeps-elim_option}
use bricoler.Descriptors.Keeps.Others.{Others}
use bricoler.Getaddrinfo.{
  get_int_field, with_int_field, read_hints, hints_arg, set_int, set_canonname, push_addrinfo,
  push_results, finish_getaddrinfo, call_getaddrinfo, l_getaddrinfo,
}

module _ {W : Type 0} (os : Os W) where
  Keeps-get_int_field :
      (t : TableRef) (field : String) (vm : Vm W)
      → Parts os vm
      → Keeps os (get_int_field os t field vm)
  unfolding get_int_field
  Keeps-get_int_field t field vm p = search table_rules depth 30

  Keeps-with_int_field :
      (t : TableRef) (field : String) (k : ℤ → M W (Option Hints)) (vm : Vm W)
      → ((z : ℤ) (vm : Vm W) → Parts os vm → Keeps os (k z vm))
      → Parts os vm
      → Keeps os (with_int_field os t field k vm)
  unfolding with_int_field
  Keeps-with_int_field t field k vm l p =
      Keeps-and_then os _ _ (Keeps-get_int_field t field vm p)
        λ got vm q. Keeps-elim_option os got _ _ vm (search keeps_rules depth 5) (λ z. l z vm q)

  Keeps-read_hints : (t : TableRef) (vm : Vm W) → Parts os vm → Keeps os (read_hints os t vm)
  unfolding read_hints
  Keeps-read_hints t vm p = search (keeps_rules, Keeps-with_int_field) depth 20

  Keeps-hints_arg : (v : Option Value) (vm : Vm W) → Parts os vm → Keeps os (hints_arg os v vm)
  unfolding hints_arg
  Keeps-hints_arg v vm p = search (table_rules, Keeps-read_hints) depth 20

  Keeps-set_canonname :
      (s : Option Bytes) (vm : Vm W) → Parts os vm → Keeps os (set_canonname os s vm)
  unfolding set_canonname
  Keeps-set_canonname none vm p = search keeps_rules depth 5
  Keeps-set_canonname (some s) vm p = search table_rules depth 20

  Keeps-set_int :
      (field : String) (z : ℤ) (vm : Vm W) → Parts os vm → Keeps os (set_int os field z vm)
  unfolding set_int
  Keeps-set_int field z vm p = search table_rules depth 20

  Keeps-push_addrinfo :
      (i : ℕ) (ai : Addrinfo) (vm : Vm W) → Parts os vm → Keeps os (push_addrinfo os i ai vm)
  unfolding push_addrinfo
  Keeps-push_addrinfo i ai vm p = search (table_rules, Keeps-set_int, Keeps-set_canonname) depth 30

  Keeps-push_results :
      (i : ℕ) (res : List Addrinfo) (vm : Vm W) → Parts os vm → Keeps os (push_results os i res vm)
  unfolding push_results
  Keeps-push_results i [] vm p = search keeps_rules depth 5
  Keeps-push_results i (ai ∷ res) vm p =
      search (keeps_rules, Keeps-push_addrinfo, Keeps-push_results (i + 1) res) depth 10

  Keeps-finish :
      (r : ℤ × List Addrinfo) (vm : Vm W) → Parts os vm → Keeps os (finish_getaddrinfo os r vm)
  unfolding finish_getaddrinfo
  Keeps-finish (pos zero, res) vm p = search (table_rules, Keeps-push_results) depth 20
  Keeps-finish (pos (suc n), res) vm p = search keeps_rules depth 20
  Keeps-finish (negsuc n, res) vm p = search keeps_rules depth 20

  Keeps-call :
      Others os
      → (h s : Option Bytes) (hints : Option Hints) (vm : Vm W) → Parts os vm
      → Keeps os (call_getaddrinfo os h s hints vm)
  unfolding call_getaddrinfo
  Keeps-call o h s none vm p = search keeps_rules depth 5
  Keeps-call o h s (some hints) vm p = search (keeps_rules, o.getaddrinfo, Keeps-finish) depth 20

module _ {W : Type 0} (os : Os W) (o : Others os) (args : List Value) (vm : Vm W)
    (p : Parts os vm) where
  pub l_getaddrinfo-Keeps : Keeps os (l_getaddrinfo os (enter args vm))
  unfolding l_getaddrinfo
  l_getaddrinfo-Keeps = search (keeps_rules, Keeps-hints_arg os, Keeps-call os o) depth 25
