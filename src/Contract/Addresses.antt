-- ===== src/Contract/Addresses.antt =====
-- lib/freebsd/getaddrinfo/lua_getaddrinfo.c as the Lua program sees it: the array of the addresses.
use bricoler.Base.{
  ℕ, suc, ◌+◌, ◌≡◌, refl, ap, ◌∙◌, pos, List, [], ◌∷◌, ◌++◌, append-nil, append_assoc, Option, some,
  none, arith, length, length-append, get_elem?, set, codes, String, inl, inr, Option-cases,
}
use bricoler.Lua.{
  Bytes, Value, Vm, Key, Table, table, new, done, string, integer, index, name, ◌>>◌, and_then,
}
use bricoler.Lua.Stack.{c_str}
use bricoler.Lua.Tables.{raw_set, lua_settable}
use bricoler.Os.{Os, Addrinfo}
use bricoler.Contract.Query.{field}
use bricoler.Contract.Search.{Below, raw_set-Below, Below-append}
use bricoler.Getaddrinfo.{set_canonname, push_addrinfo, push_results}

get_elem?-last : {A : Type 0} (xs : List A) (x : A) → get_elem? (xs ++ x ∷ []) (length xs) ≡ some x
get_elem?-last [] x = refl
get_elem?-last (y ∷ xs) x = get_elem?-last xs x

set-last : {A : Type 0} (xs : List A) (x y : A) → set (xs ++ x ∷ []) (length xs) y ≡ xs ++ y ∷ []
set-last [] x y = refl
set-last (z ∷ xs) x y = ap (λ t. z ∷ t) (set-last xs x y)

-- The table of one address.
abbrev pub canonname_entry : Option Bytes → Table
canonname_entry none = []
canonname_entry (some s) = field "canonname" (string (c_str s)) ∷ []

abbrev pub addr_table : Addrinfo → Table
addr_table ai =
    field "flags" (integer ai.ai_flags)
    ∷ field "family" (integer ai.ai_family)
    ∷ field "socktype" (integer ai.ai_socktype)
    ∷ field "protocol" (integer ai.ai_protocol)
    ∷ field "addrlen" (integer (pos (length ai.ai_addr)))
    ∷ field "addr" (string ai.ai_addr)
    ∷ canonname_entry ai.ai_canonname

-- The new tables i+1, ..., as the elements i+1, ... of the result.
abbrev pub array_of : ℕ → List Addrinfo → Table
array_of i [] = []
array_of i (ai ∷ res) = (index (i + 1), table (new (i + 1))) ∷ array_of (i + 1) res

abbrev pub addr_tables : List Addrinfo → List Table
addr_tables [] = []
addr_tables (ai ∷ res) = addr_table ai ∷ addr_tables res

module _ {W : Type 0} (os : Os W) where
  -- An assignment to the last of the new tables.
  fill_last :
      (es : List Table) (x : Table) (k : String) (v : Value)
      → set (es ++ x ∷ []) (length es) (
          raw_set
            (name (codes k))
            v
            (elim (get_elem? (es ++ x ∷ []) (length es)) [ none ↦ [] | some t ↦ t ]))
        ≡ es ++ raw_set (name (codes k)) v x ∷ []
  fill_last es x k v =
      rw (get_elem?-last es x, raw_set) (set-last es x (raw_set (name (codes k)) v x))

  -- The state of the loop, above the values that the hints have left on the stack.
  abbrev looping : Vm W → List Value → Table → List Table → ℕ → Vm W
  looping vm s t es r = record vm {
    stack = table (new 0) ∷ s;
    room = suc (suc (suc (suc r)));
    locals = t ∷ es;
  }

  abbrev with_canonname : Option Bytes → Table → Table
  with_canonname none x = x
  with_canonname (some c) x = raw_set (name (codes "canonname")) (string (c_str c)) x

  -- The end of a round: the name, where there is one, and the assignment to the array.
  last_lem :
      (vm : Vm W) (s : List Value) (t : Table) (es : List Table) (i r : ℕ) (c : Option Bytes)
      (x : Table)
      → Below i t
      → (set_canonname os c >> lua_settable) (record vm {
        stack = table (new (suc (length es))) ∷ integer (pos (i + 1)) ∷ table (new 0) ∷ s;
        room = suc (suc r);
        locals = t ∷ (es ++ x ∷ []);
      })
        ≡ done tt (
            looping vm s
              (t ++ (index (i + 1), table (new (suc (length es)))) ∷ [])
              (es ++ with_canonname c x ∷ [])
              r)
  unfolding set_canonname
  last_lem vm s t es i r none x h = rw (raw_set-Below i (table (new (suc (length es)))) t h) refl
  last_lem vm s t es i r (some c) x h =
      rw (fill_last es x "canonname" (string (c_str c)))
        (rw (raw_set-Below i (table (new (suc (length es)))) t h) refl)

  push_addrinfo_lem :
      (vm : Vm W) (s : List Value) (t : Table) (es : List Table) (i r : ℕ) (ai : Addrinfo)
      → Below i t
      → push_addrinfo os (i + 1) ai (looping vm s t es r)
        ≡ done tt (
            looping vm s
              (t ++ (index (i + 1), table (new (suc (length es)))) ∷ [])
              (es ++ addr_table ai ∷ [])
              r)
  unfolding push_addrinfo
  push_addrinfo_lem vm s t es i r ai h =
      let x₁ = field "flags" (integer ai.ai_flags) ∷ [] in
      let x₂ = x₁ ++ field "family" (integer ai.ai_family) ∷ [] in
      let x₃ = x₂ ++ field "socktype" (integer ai.ai_socktype) ∷ [] in
      let x₄ = x₃ ++ field "protocol" (integer ai.ai_protocol) ∷ [] in
      let x₅ = x₄ ++ field "addrlen" (integer (pos (length ai.ai_addr))) ∷ [] in
      let x₆ = x₅ ++ field "addr" (string ai.ai_addr) ∷ [] in
      rw (fill_last es [] "flags" (integer ai.ai_flags)) (
        rw (fill_last es x₁ "family" (integer ai.ai_family)) (
          rw (fill_last es x₂ "socktype" (integer ai.ai_socktype)) (
            rw (fill_last es x₃ "protocol" (integer ai.ai_protocol)) (
              rw (fill_last es x₄ "addrlen" (integer (pos (length ai.ai_addr)))) (
                rw (fill_last es x₅ "addr" (string ai.ai_addr)) (
                  let whole : with_canonname ai.ai_canonname x₆ ≡ addr_table ai =
                    elim (Option-cases ai.ai_canonname) [
                      | inl q ↦ rw q refl
                      | inr (c, q) ↦ rw q refl
                    ] in
                  rw whole at (last_lem vm s t es i r ai.ai_canonname x₆ h)))))))

  pub push_results_lem :
      (vm : Vm W) (s : List Value) (t : Table) (es : List Table) (i r : ℕ) (res : List Addrinfo)
      → Below i t
      → length es ≡ i
      → push_results os (i + 1) res (looping vm s t es r)
        ≡ done tt (looping vm s (t ++ array_of i res) (es ++ addr_tables res) r)
  unfolding push_results
  push_results_lem vm s t es i r [] h l = rw (append-nil t, append-nil es) refl
  push_results_lem vm s t es i r (ai ∷ res) h l =
      let n : suc (length es) ≡ i + 1 = omega (arith, l) in
      let here = push_addrinfo_lem vm s t es i r ai h in
      let entry : Key × Value = (index (i + 1), table (new (i + 1))) in
      let ih =
        push_results_lem vm s (t ++ entry ∷ []) (es ++ addr_table ai ∷ []) (i + 1) r res
          (Below-append i (table (new (i + 1))) t h)
          (omega (arith, l, length-append es (addr_table ai ∷ []))) in
      ap (λ run. and_then run (λ _. push_results os (i + 1 + 1) res)) (rw n at here)
      ∙ (rw
          (
            append_assoc t (entry ∷ []) (array_of (i + 1) res),
            append_assoc es (addr_table ai ∷ []) (addr_tables res),
          )
          at ih)
