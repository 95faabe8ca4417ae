-- ===== src/Contract/Hints.antt =====
-- lib/freebsd/getaddrinfo/lua_getaddrinfo.c: the hints that are read from a table, and the reply to
-- getaddrinfo(3).
use bricoler.Base.{
  ℕ, zero, suc, ◌≡◌, refl, ℤ, pos, negsuc, List, [], ◌∷◌, ◌++◌, true, false, not, ◌||◌, leb_ℤ,
  to_int, Option, some, none, codes, String, inl, inr, Option-cases, Bool-cases, if◌then◌else◌,
}
use bricoler.Lua.{
  Bytes, Value, Vm, M, Run, Table, TableRef, old, new, table, enter, string, integer, nil, name,
  bad_element, ◌>>=◌,
}
use bricoler.Lua.Stack.{c_str, integer_of, is_none_or_nil}
use bricoler.Lua.Tables.{raw_get, table_at}
use bricoler.Os.{Os, Addrinfo, Hints, int_min, int_max}
use bricoler.Contract.{returned, finish}
use bricoler.Contract.Query.{Made, locals_of}
use bricoler.Contract.Search.{refused}
use bricoler.Contract.Addresses.{array_of, addr_tables, push_results_lem}
use bricoler.Getaddrinfo.{
  with_int_field, read_hints, null_if_empty, finish_getaddrinfo, call_getaddrinfo,
}

module _ {W : Type 0} (os : Os W) where
  abbrev pub made_by : Run W ℕ → Made W
  made_by run = record { outcome = finish run; made = locals_of run }

  -- The new array with a new table for each address, or nil, the message and the number.
  abbrev pub addresses : ℕ → (ℤ × List Addrinfo) × W → Made W
  addresses live ((pos zero, res), w) = record {
    outcome = returned (table (new 0) ∷ []) live w;
    made = array_of 0 res ∷ addr_tables res;
  }
  addresses live ((error, res), w) = record {
    outcome = returned (nil ∷ string (c_str (os.gai_strerror error)) ∷ integer error ∷ []) live w;
    made = [];
  }

  -- The state above the values that the hints have left on the stack.
  abbrev above : List Value → ℕ → List Value → Vm W → Vm W
  above s r args vm = record (enter args vm) { stack = s; room = r }

  finish_lem :
      (s : List Value) (r : ℕ) (args : List Value) (vm : Vm W) (answer : ℤ × List Addrinfo) (w : W)
      → made_by (
          finish_getaddrinfo os answer
            (above s (suc (suc (suc (suc (suc r))))) args (record vm { world = w })))
        ≡ addresses vm.live (answer, w)
  unfolding finish_getaddrinfo
  finish_lem s r args vm (pos zero, res) w =
      rw
        (push_results_lem os (record (enter args vm) { live = suc vm.live; world = w }) s [] [] 0 r
          res tt refl)
        refl
  finish_lem s r args vm (pos (suc n), res) w = refl
  finish_lem s r args vm (negsuc n, res) w = refl

  -- A field of the hints: 0 where it is nil.
  abbrev pub hint_value : Value → Option ℤ
  hint_value v = elim (is_none_or_nil (some v)) [
    | true ↦ some (pos 0)
    | false ↦ integer_of os.conversions v
  ]

  abbrev pub too_large : String → Vm W → Made W
  too_large f vm = record {
    outcome =
        returned
          (nil
            ∷ string (c_str (codes f ++ codes " too large"))
            ∷ integer (pos (os.error_number "EINVAL"))
            ∷ [])
          vm.live vm.world;
    made = [];
  }

  -- The field is no number, or does not fit an int, or the call goes on with it.
  abbrev pub with_hint : Vm W → String → Table → (ℤ → Made W) → Made W
  with_hint vm f t k = elim (hint_value (raw_get (name (codes f)) t)) [
    | none ↦ refused os bad_element vm
    | some z ↦ elim (not (leb_ℤ int_min z) || not (leb_ℤ z int_max)) [
      | true ↦ too_large f vm
      | false ↦ k (to_int z)
    ]
  ]

  frame :
      (t : TableRef) (s : List Value) (r : ℕ) (args : List Value) (vm : Vm W)
      → table_at t (above s r args vm) ≡ table_at t (enter args vm)
  frame (old i) s r args vm = refl
  frame (new i) s r args vm = refl

  hint_lem :
      (t : TableRef) (f : String) (k : ℤ → M W (Option Hints)) (h v : Option Bytes) (s : List Value)
      (r : ℕ) (args : List Value) (vm : Vm W) (K : ℤ → Made W)
      → ((z : ℤ)
          → made_by (
              (k z >>= call_getaddrinfo os h v) (
                above
                  (raw_get (name (codes f)) (table_at t (enter args vm)) ∷ s)
                  (suc (suc (suc r)))
                  args
                  vm))
            ≡ K z)
      → made_by (
          (with_int_field os t f k >>= call_getaddrinfo os h v)
            (above s (suc (suc (suc (suc r)))) args vm))
        ≡ with_hint vm f (table_at t (enter args vm)) K
  unfolding with_int_field call_getaddrinfo
  hint_lem t f k h v s r args vm K next =
      rw (frame t s (suc (suc (suc (suc r)))) args vm)
        (elim (Bool-cases (is_none_or_nil (some value))) [
          | inl b ↦ rw (b, if◌then◌else◌, with_hint) (next (pos 0))
          | inr b ↦
              rw (b, if◌then◌else◌, with_hint)
                (elim (Option-cases (integer_of os.conversions value)) [
                  | inl q ↦ rw q refl
                  | inr (z, q) ↦
                      rw (q, ◌>>=◌)
                        (elim (Bool-cases (not (leb_ℤ int_min z) || not (leb_ℤ z int_max))) [
                          | inl c ↦ rw (c, if◌then◌else◌) refl
                          | inr c ↦ rw (c, if◌then◌else◌) (next (to_int z))
                        ])
                ])
        ])
    where
      value : Value
      value = raw_get (name (codes f)) (table_at t (enter args vm))

  -- The four fields of a table, in the order in which they are read.
  abbrev pub table_hints : Vm W → Table → (Hints → Made W) → Made W
  table_hints vm t k = with_hint vm "flags" t λ flags. with_hint vm "family" t λ family.
      with_hint vm "socktype" t λ socktype. with_hint vm "protocol" t λ protocol.
        k (record { flags = flags; family = family; socktype = socktype; protocol = protocol })

  -- The reply of getaddrinfo(3); an empty name is NULL.
  abbrev pub asked : Vm W → Bytes → Bytes → Hints → Made W
  asked vm host service hints =
      addresses vm.live
        (os.getaddrinfo (null_if_empty os host) (null_if_empty os service) hints vm.world)

  pub asked_lem :
      (s : List Value) (r : ℕ) (args : List Value) (vm : Vm W) (host service : Bytes)
      (hints : Hints)
      → made_by (
          call_getaddrinfo os
            (null_if_empty os host)
            (null_if_empty os service)
            (some hints)
            (above s (suc (suc (suc (suc (suc r))))) args vm))
        ≡ asked vm host service hints
  unfolding call_getaddrinfo
  asked_lem s r args vm host service hints =
      let answer =
        os.getaddrinfo (null_if_empty os host) (null_if_empty os service) hints vm.world in
      finish_lem s r args vm answer.0 answer.1

  pub table_hints_lem :
      (t : TableRef) (args : List Value) (vm : Vm W) (host service : Bytes)
      → made_by (
          (read_hints os t
              >>= call_getaddrinfo os (null_if_empty os host) (null_if_empty os service))
            (enter args vm))
        ≡ table_hints vm (table_at t (enter args vm)) (asked vm host service)
  unfolding read_hints
  table_hints_lem t args vm host service =
      let h = null_if_empty os host in
      let v = null_if_empty os service in
      let entry : String → Value = λ f. raw_get (name (codes f)) (table_at t (enter args vm)) in
      hint_lem t "flags" _ h v [] 16 args vm _ λ flags.
        hint_lem t "family" _ h v (entry "flags" ∷ []) 15 args vm _ λ family.
          hint_lem t "socktype" _ h v (entry "family" ∷ entry "flags" ∷ []) 14 args vm _ λ socktype.
            hint_lem t "protocol" _ h v (entry "socktype" ∷ entry "family" ∷ entry "flags" ∷ []) 13
              args vm _
              λ protocol.
                asked_lem
                  (entry "protocol" ∷ entry "socktype" ∷ entry "family" ∷ entry "flags" ∷ []) 11
                  args vm host service
                  (record {
                    flags = flags;
                    family = family;
                    socktype = socktype;
                    protocol = protocol;
                  })
