-- ===== src/Contract/Getaddrinfo.antt =====
-- l_getaddrinfo of lib/freebsd/getaddrinfo/lua_getaddrinfo.c for all arguments.
use bricoler.Base.{
  ◌≡◌, refl, List, [], ◌∷◌, append-nil, true, false, Option, some, none, inl, inr, Option-cases,
  Bool-cases, get_elem?, if◌then◌else◌,
}
use bricoler.Lua.{Bytes, Value, Vm, enter, bad_arg, ◌>>=◌}
use bricoler.Lua.Stack.{c_str, string_of, is_none_or_nil, bind_option, at_index}
use bricoler.Lua.Tables.{table_at, as_table}
use bricoler.Os.{Os, Hints}
use bricoler.Contract.{c_string_arg}
use bricoler.Contract.Query.{Made, call_made}
use bricoler.Contract.Search.{refused}
use bricoler.Getaddrinfo.{l_getaddrinfo, hints_arg, no_hints, null_if_empty, call_getaddrinfo}
use bricoler.Contract.Hints.{made_by, table_hints, asked, asked_lem, table_hints_lem}

module _ {W : Type 0} (os : Os W) where
  abbrev pub with_hints : Vm W → List Value → Option Value → (Hints → Made W) → Made W
  with_hints vm args v k = elim (is_none_or_nil v) [
    | true ↦ k (no_hints os)
    | false ↦ elim (bind_option v λ x. as_table x) [
      | none ↦ refused os (bad_arg 3) vm
      | some t ↦ table_hints os vm (table_at t (enter args vm)) k
    ]
  ]

  hints_lem :
      (args : List Value) (vm : Vm W) (host service : Bytes)
      → made_by os (
          ((λ vm'. hints_arg os (at_index 3 vm') vm')
              >>= call_getaddrinfo os (null_if_empty os host) (null_if_empty os service))
            (enter args vm))
        ≡ with_hints vm args (get_elem? args 2) (asked os vm host service)
  unfolding hints_arg
  hints_lem args vm host service =
      rw (append-nil args) (elim (Bool-cases (is_none_or_nil (get_elem? args 2))) [
        | inl b ↦
            rw (b, if◌then◌else◌, with_hints)
              (asked_lem os [] 15 args vm host service (no_hints os))
        | inr b ↦
            rw (b, if◌then◌else◌, with_hints)
              (rw (append-nil args)
                (elim (Option-cases (bind_option (get_elem? args 2) λ x. as_table x)) [
                  | inl q ↦ rw q refl
                  | inr (t, q) ↦ rw q (table_hints_lem os t args vm host service)
                ]))
      ])

  -- For all arguments: getaddrinfo reports a host or a service that is no string and hints that are
  -- no table, raises an error for a hint that is no number, returns nil, a message and EINVAL for the
  -- first hint that does not fit an int, and otherwise asks getaddrinfo(3) with these hints, those
  -- that are nil and absent ones being 0. Then it returns a new array with a new table for each
  -- address, in their order, and the list of results is freed; or nil, the message and the number.
  pub l_getaddrinfo-array :
      (args : List Value) (vm : Vm W)
      → call_made (l_getaddrinfo os) args vm ≡ (elim (c_string_arg os args 0) [
        | none ↦ refused os (bad_arg 1) vm
        | some host ↦ elim (c_string_arg os args 1) [
          | none ↦ refused os (bad_arg 2) vm
          | some service ↦ with_hints vm args (get_elem? args 2) (asked os vm host service)
        ]
      ])
  unfolding l_getaddrinfo
  l_getaddrinfo-array [] vm = refl
  l_getaddrinfo-array (h ∷ []) vm = elim (Option-cases (string_of os.conversions h)) [
    | inl q ↦ rw q refl
    | inr (x, q) ↦ rw q refl
  ]
  l_getaddrinfo-array (h ∷ v ∷ rest) vm = elim (Option-cases (string_of os.conversions h)) [
    | inl q ↦ rw q refl
    | inr (x, q) ↦ rw q (elim (Option-cases (string_of os.conversions v)) [
      | inl q ↦ rw q refl
      | inr (y, q) ↦ rw q (hints_lem (h ∷ v ∷ rest) vm (c_str x) (c_str y))
    ])
  ]
