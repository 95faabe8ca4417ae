-- ===== src/Contract/Sysctl.antt =====
-- lib/freebsd/sys/sysctl/lua_sysctl.c as the Lua program sees it: the number or the string of a
-- value, and the block that stays behind.
use bricoler.Base.{
  ℕ, suc, ◌+◌, ◌*◌, ◌<◌, ◌≤◌, ◌≡◌, ℤ, pos, List, [], ◌∷◌, ◌++◌, Bool, true, false, Option, some,
  none, arith, length, length-append, take, ltb, leb, ◌==◌, ◌%◌, leb_ℤ, ◌&&◌, codes, inl, inr,
  Bool-cases,
}
use bricoler.Lua.{
  Bytes, Value, Vm, done, Table, TableRef, table, nil, integer, string, message, enter, ◌>>=◌,
  assert,
}
use bricoler.Lua.Stack.{c_str, truncated}
use bricoler.Lua.Tables.{table_at}
use bricoler.Lua.Traversal.{fold_values, AllFine, for_next-fold, for_next-count}
use bricoler.Os.{
  Os, Ret, Ret-cases, syscall, malloc, ok, fail, CtlType, type_string, int_min, int_max,
}
use bricoler.Contract.{Outcome, returned, failed, crashed, call, finish}
use bricoler.Sys.Sysctl.{
  le_value, int_type, int_value, IntType, fmtval, l_sysctl, count_oid, fill_oid, with_oid,
  first_sysctl,
}

module _ {W : Type 0} (os : Os W) where
  -- The number that lua_tonumber finds at an element of the argument, less its fraction: 0 where there
  -- is no number, and for what no integer type holds.
  abbrev pub element : Value → ℤ
  element v = elim (truncated os.conversions v) [ none ↦ pos 0 | some z ↦ z ]

  abbrev in_int : Option ℤ → Bool
  in_int none = false
  in_int (some z) = leb_ℤ int_min z && leb_ℤ z int_max

  abbrev pub oid_of : Table → List ℤ
  oid_of = fold_values (λ oid v. oid ++ element v ∷ []) []

  abbrev pub IntElement : Value → Type 0
  IntElement v = in_int (truncated os.conversions v) ≡ true

  -- The elements fit an int.
  abbrev pub InRange : Table → Type 0
  InRange [] = Unit
  InRange ((k, v) ∷ es) = IntElement v × InRange es

  -- They do, and there is room for another.
  abbrev FitsInt : List ℤ → Value → Type 0
  FitsInt oid v = IntElement v × (length oid < os.ctl_maxname)

  -- The outcome of fmtval on a buffer, with `live` blocks.
  abbrev pub int_outcome : Option IntType → Bytes → ℕ → W → Outcome W
  int_outcome none buf live w = returned (nil ∷ []) live w
  int_outcome (some t) buf live w = elim (length buf == t.0) [
    | true ↦ returned (integer (int_value t buf) ∷ []) live w
    | false ↦ crashed
  ]

  abbrev pub value_outcome : CtlType → Bytes → ℕ → W → Outcome W
  value_outcome type_string buf live w = elim (ltb (length (c_str buf)) (length buf)) [
    | true ↦ returned (string (c_str buf) ∷ []) live w
    | false ↦ crashed
  ]
  value_outcome c buf live w = int_outcome (int_type c) buf live w

  abbrev pub format_outcome : Bytes → ℕ → Ret (ℕ × Bytes) × W → Outcome W
  format_outcome buf live (fail e, w) = failed (message "failed to resolve OIDFMT") live w
  format_outcome buf live (ok fmt, w) =
      value_outcome (os.ctltype (le_value (take 4 fmt.1) % 16)) buf live w

  abbrev pub fmtval_outcome : List ℤ → Bytes → ℕ → W → Outcome W
  fmtval_outcome oid buf live w =
      format_outcome buf live
        (os.sysctl (os.constant "CTL_SYSCTL" ∷ os.constant "CTL_SYSCTL_OIDFMT" ∷ oid) (some 512) w)

  abbrev pub too_long : Vm W → Outcome W
  too_long vm =
      returned (nil ∷ string (codes "sysctl OID is longer than CTLMAXNAME") ∷ []) vm.live vm.world

  -- nil and the message of the error.
  abbrev pub message_outcome : ℕ → ℕ → W → Outcome W
  message_outcome e live w = returned (nil ∷ string (c_str (os.strerror e)) ∷ []) live w

  abbrev pub second_outcome : List ℤ → ℕ → Ret (ℕ × Bytes) × W → Outcome W
  second_outcome oid live (fail e, w) = message_outcome e live w
  second_outcome oid live (ok r, w) = fmtval_outcome oid (take r.0 r.1) (suc live) w

  abbrev pub buffer_outcome : List ℤ → ℕ → ℕ → Ret (Unit {0}) × W → Outcome W
  buffer_outcome oid size live (fail e, w) = failed (message "malloc") live w
  buffer_outcome oid size live (ok _, w) = second_outcome oid live (os.sysctl oid (some size) w)

  abbrev pub first_outcome : List ℤ → ℕ → Ret (ℕ × Bytes) × W → Outcome W
  first_outcome oid live (fail e, w) = message_outcome e live w
  first_outcome oid live (ok r, w) = elim (ltb 0 r.0) [
    | true ↦ buffer_outcome oid (r.0 * 2) live (os.malloc (r.0 * 2) w)
    | false ↦ crashed
  ]

  InRange-AllFine :
      (es : Table) (oid : List ℤ)
      → InRange es
      → length oid + length es ≤ os.ctl_maxname
      → AllFine (λ oid v. oid ++ element v ∷ []) FitsInt oid es
  InRange-AllFine [] oid fine h = tt
  InRange-AllFine ((k, v) ∷ es) oid (fits, fine) h = (
    (fits, omega (arith, h)),
    InRange-AllFine es (oid ++ element v ∷ []) fine
        (omega (arith, h, length-append oid (element v ∷ []))),
  )

  pub length-oid :
      (es : Table) (oid : List ℤ)
      → length (fold_values (λ oid v. oid ++ element v ∷ []) oid es) ≡ length oid + length es
  length-oid [] oid = omega arith
  length-oid ((k, v) ∷ es) oid =
      omega (arith, length-oid es (oid ++ element v ∷ []), length-append oid (element v ∷ []))

  fill_oid_lem :
      (t : TableRef) (args : List Value) (vm : Vm W)
      → AllFine (λ oid v. oid ++ element v ∷ []) FitsInt [] (table_at t (enter args vm))
      → fill_oid os t (enter args vm) ≡ done (oid_of (table_at t (enter args vm))) (enter args vm)
  unfolding fill_oid
  fill_oid_lem t args vm fine =
      for_next-fold t args vm (λ oid v. oid ++ element v ∷ []) _ FitsInt
        (λ a v vm s r h. ground (arith, h)) [] fine

  pub fmtval-outcome :
      (oid : List ℤ) (buf : Bytes) (args : List Value) (vm : Vm W)
      → length oid ≤ os.ctl_maxname
      → finish (fmtval os oid buf (enter args vm)) ≡ fmtval_outcome oid buf vm.live vm.world
  unfolding fmtval int_type
  fmtval-outcome oid buf args vm h =
      let b : leb (length oid + 2) (os.ctl_maxname + 2) ≡ true = ground (arith, h) in
      rw (b, ◌>>=◌) (ground arith)

  pub first_sysctl-outcome :
      (oid : List ℤ) (args : List Value) (vm : Vm W)
      → length oid ≤ os.ctl_maxname
      → finish ((syscall (os.sysctl oid none) >>= first_sysctl os oid) (enter args vm))
        ≡ first_outcome oid vm.live (os.sysctl oid none vm.world)
  unfolding first_sysctl
  first_sysctl-outcome oid args vm h = elim (Ret-cases (os.sysctl oid none vm.world)) [
    | inr (e, q) ↦ rw q (ground arith)
    | inl (a, q) ↦ rw q (elim (Bool-cases (ltb 0 a.0)) [
      | inr b ↦ rw b (ground arith)
      | inl b ↦ rw b (elim (Ret-cases (os.malloc (a.0 * 2) (os.sysctl oid none vm.world).1)) [
        | inr (e, m) ↦ rw (m, assert) (ground arith)
        | inl (u, m) ↦
            rw (m, assert)
              (elim (Ret-cases (
                os.sysctl oid (some (a.0 * 2))
                  (os.malloc (a.0 * 2) (os.sysctl oid none vm.world).1).1)) [
                    | inr (e, r) ↦ rw (r, malloc) (ground arith)
                    | inl (x, r) ↦
                        rw (r, malloc)
                          (ground (
                            arith,
                            fmtval-outcome oid (take x.0 x.1) args
                                (record vm {
                                  live = suc vm.live;
                                  world =
                                      (os.sysctl oid (some (a.0 * 2))
                                        (os.malloc (a.0 * 2) (os.sysctl oid none vm.world).1).1).1;
                                })
                                h,
                          ))
                  ])
      ])
    ])
  ]

  too_long_lem :
      (t : TableRef) (rest : List Value) (vm : Vm W)
      → os.ctl_maxname < length (table_at t (enter (table t ∷ rest) vm))
      → call (l_sysctl os) (table t ∷ rest) vm ≡ too_long vm
  unfolding l_sysctl count_oid
  too_long_lem t rest vm h = rw (for_next-count t (table t ∷ rest) vm) (ground (arith, h))

  pub short_lem :
      (t : TableRef) (rest : List Value) (vm : Vm W)
      → InRange (table_at t (enter (table t ∷ rest) vm))
      → length (table_at t (enter (table t ∷ rest) vm)) ≤ os.ctl_maxname
      → call (l_sysctl os) (table t ∷ rest) vm ≡ (
          let oid = oid_of (table_at t (enter (table t ∷ rest) vm)) in
          first_outcome oid vm.live (os.sysctl oid none vm.world))
  unfolding l_sysctl count_oid with_oid
  short_lem t rest vm fine h =
      let es : Table = table_at t (enter (table t ∷ rest) vm) in
      let b : ltb os.ctl_maxname (length es) ≡ false = ground (arith, h) in
      rw (for_next-count t (table t ∷ rest) vm) (
        rw (b, ◌>>=◌)
          (rw (fill_oid_lem t (table t ∷ rest) vm (InRange-AllFine es [] fine (omega (arith, h))))
            (first_sysctl-outcome _ _ vm (omega (arith, h, length-oid es [])))))

  -- Of tables whose elements fit an int, each read as lua_tonumber does, less its fraction and 0
  -- for what is no number: one of more than CTL_MAXNAME elements is refused with a message. One of
  -- at most CTL_MAXNAME is read without a write beyond the array, and the outcome is the message of
  -- a failed call, the value by its format, an error where malloc fails or the format is not found,
  -- or a failed assertion where the size is 0 or does not fit the format. The buffer of oldlen * 2
  -- bytes is left behind every value, and behind a format that is not found; no block is left
  -- otherwise.
  pub l_sysctl-outcome :
      (t : TableRef) (rest : List Value) (vm : Vm W)
      → InRange (table_at t (enter (table t ∷ rest) vm))
      → call (l_sysctl os) (table t ∷ rest) vm ≡ (
          let es = table_at t (enter (table t ∷ rest) vm) in
          elim (ltb os.ctl_maxname (length es)) [
            | true ↦ too_long vm
            | false ↦ first_outcome (oid_of es) vm.live (os.sysctl (oid_of es) none vm.world)
          ])
  l_sysctl-outcome t rest vm fine =
      let es : Table = table_at t (enter (table t ∷ rest) vm) in
      elim (Bool-cases (ltb os.ctl_maxname (length es))) [
        | inl b ↦ rw b (too_long_lem t rest vm (ground (arith, b)))
        | inr b ↦ rw b (short_lem t rest vm fine (ground (arith, b)))
      ]
