-- ===== src/Contract/Search.antt =====
-- lib/freebsd/glob/lua_glob.c as the Lua program sees it.
use bricoler.Base.{
  ℕ, zero, suc, ◌+◌, ◌≤◌, ◌≡◌, refl, ap, ℤ, pos, negsuc, List, [], ◌∷◌, ◌++◌, append-nil,
  append_assoc, true, false, some, none, arith, leb_ℤ, ◌&&◌, if◌then◌else◌, to_int, ◌==◌, inl, inr,
  Bool-cases, Option-cases,
}
use bricoler.Lua.{
  Bytes, Value, Vm, Table, table, new, done, enter, string, integer, nil, index, name, message,
  bad_arg, Raise,
}
use bricoler.Lua.Stack.{c_str, string_of, integer_of, is_none_or_nil}
use bricoler.Lua.Tables.{raw_set}
use bricoler.Os.{Os, int_min, int_max}
use bricoler.Contract.{returned, failed, ill, c_string_arg, optinteger_arg}
use bricoler.Contract.Query.{Made, call_made}
use bricoler.Glob.{l_glob, call_glob, push_paths, finish_glob}

-- The strings as the elements i+1, i+2, ... of a table.
abbrev pub array_from : ℕ → List Bytes → Table
array_from i [] = []
array_from i (path ∷ paths) = (index (i + 1), string (c_str path)) ∷ array_from (i + 1) paths

-- Every key of the table is an index of at most `i`.
abbrev pub Below : ℕ → Table → Type 0
Below i [] = Unit
Below i ((index j, v) ∷ es) = (j ≤ i) × Below i es
Below i ((name s, v) ∷ es) = ⊥

pub raw_set-Below :
    (i : ℕ) (v : Value) (t : Table)
    → Below i t
    → raw_set (index (i + 1)) v t ≡ t ++ (index (i + 1), v) ∷ []
raw_set-Below i v [] h = refl
raw_set-Below i v ((index j, w) ∷ es) h = elim (Bool-cases (j == i + 1)) [
  | inl e ↦ absurd (ground (arith, e, h.0))
  | inr e ↦ rw e (ap (λ t. (index j, w) ∷ t) (raw_set-Below i v es h.1))
]
raw_set-Below i v ((name s, w) ∷ es) h = absurd h

pub Below-append :
    (i : ℕ) (v : Value) (t : Table) → Below i t → Below (i + 1) (t ++ (index (i + 1), v) ∷ [])
Below-append i v [] h = (omega arith, tt)
Below-append i v ((index j, w) ∷ es) h = (omega (arith, h.0), Below-append i v es h.1)
Below-append i v ((name s, w) ∷ es) h = h

module _ {W : Type 0} (os : Os W) where
  push_paths_lem :
      (paths : List Bytes) (i : ℕ) (vm : Vm W) (t : Table) (r : ℕ)
      → Below i t
      → push_paths os i paths
          (record vm { stack = table (new 0) ∷ []; room = suc r; locals = t ∷ [] })
        ≡ done tt (record vm {
          stack = table (new 0) ∷ [];
          room = suc r;
          locals = (t ++ array_from i paths) ∷ [];
        })
  unfolding push_paths
  push_paths_lem [] i vm t r h = rw (append-nil t) refl
  push_paths_lem (path ∷ paths) i vm t r h =
      let v = string (c_str path) in
      rw (raw_set-Below i v t h) (
        rw (append_assoc t ((index (i + 1), v) ∷ []) (array_from (i + 1) paths)) at
          (push_paths_lem paths (i + 1) vm (t ++ (index (i + 1), v) ∷ []) r (Below-append i v t h)))

  -- A block for the list of the paths, where there is one.
  abbrev pub with_list : List Bytes → ℕ → ℕ
  with_list [] n = n
  with_list (path ∷ paths) n = suc n

  -- The new array of the paths, or nil and the number that glob(3) returns.
  abbrev pub glob_made : ℕ → (ℤ × List Bytes) × W → Made W
  glob_made live ((pos zero, paths), w) = record {
    outcome = returned (table (new 0) ∷ []) live w;
    made = array_from 0 paths ∷ [];
  }
  glob_made live ((ret, paths), w) = record {
    outcome = returned (nil ∷ integer ret ∷ []) (with_list paths live) w;
    made = [];
  }

  finish_glob_lem :
      (args : List Value) (vm : Vm W) (r : ℤ × List Bytes) (w : W)
      → call_made (λ vm. finish_glob os r vm) args (record vm { world = w })
        ≡ glob_made vm.live (r, w)
  unfolding finish_glob
  finish_glob_lem args vm (pos zero, paths) w =
      rw
        (push_paths_lem paths 0 (enter args (record vm { live = suc vm.live; world = w })) [] 18 tt)
        refl
  finish_glob_lem args vm (pos (suc n), []) w = refl
  finish_glob_lem args vm (pos (suc n), path ∷ paths) w = refl
  finish_glob_lem args vm (negsuc n, []) w = refl
  finish_glob_lem args vm (negsuc n, path ∷ paths) w = refl

  -- The call of glob(3) and what follows.
  abbrev pub glob_outcome : Bytes → ℤ → Vm W → Made W
  glob_outcome path flags vm = elim (os.glob_reads flags) [
    | true ↦ record { outcome = ill; made = [] }
    | false ↦ glob_made vm.live (os.glob path flags vm.world)
  ]

  globbed :
      (args : List Value) (vm : Vm W) (s : Bytes) (flags : ℤ)
      → call_made (call_glob os (c_str s) flags) args vm ≡ glob_outcome (c_str s) flags vm
  unfolding call_glob
  globbed args vm s flags = elim (Bool-cases (os.glob_reads flags)) [
    | inl b ↦ rw (b, glob_outcome, if◌then◌else◌) refl
    | inr b ↦
        let r = os.glob (c_str s) flags vm.world in
        rw (b, glob_outcome, if◌then◌else◌) (finish_glob_lem args vm r.0 r.1)
  ]

  abbrev pub refused : Raise → Vm W → Made W
  refused r vm = record { outcome = failed r vm.live vm.world; made = [] }

  -- For all arguments: glob reports a bad one, raises an error for flags outside the range of int,
  -- or does what is undefined for flags with which glob(3) reads the structure that the code does
  -- not initialise, or returns a new table whose elements 1, 2, ... are the paths in the order of
  -- glob(3), and frees the list, or nil and the number that glob(3) returns, and leaves the list of
  -- what a failed glob(3) had found.
  pub l_glob-array :
      (args : List Value) (vm : Vm W)
      → call_made (l_glob os) args vm ≡ (elim (c_string_arg os args 0) [
        | none ↦ refused (bad_arg 1) vm
        | some path ↦ elim (optinteger_arg os args 1 (pos 0)) [
          | none ↦ refused (bad_arg 2) vm
          | some flags ↦
              if leb_ℤ int_min flags && leb_ℤ flags int_max
              then glob_outcome path (to_int flags) vm
              else refused (message "flags too large") vm
        ]
      ])
  unfolding l_glob
  l_glob-array [] vm = refl
  l_glob-array (v ∷ []) vm = elim (Option-cases (string_of os.conversions v)) [
    | inl q ↦ rw q refl
    | inr (s, q) ↦ rw q (globbed (v ∷ []) vm s (to_int (pos 0)))
  ]
  l_glob-array (v ∷ x ∷ rest) vm = elim (Option-cases (string_of os.conversions v)) [
    | inl q ↦ rw q refl
    | inr (s, q) ↦ rw q (elim (Bool-cases (is_none_or_nil (some x))) [
      | inl b ↦ rw b (globbed (v ∷ x ∷ rest) vm s (to_int (pos 0)))
      | inr b ↦ rw b (elim (Option-cases (integer_of os.conversions x)) [
        | inl q₂ ↦ rw q₂ refl
        | inr (flags, q₂) ↦ rw q₂ (elim (Bool-cases (leb_ℤ int_min flags)) [
          | inr lo ↦ rw (lo, if◌then◌else◌) (refl)
          | inl lo ↦
              rw (lo, if◌then◌else◌)
                (elim (Bool-cases (leb_ℤ flags int_max)) [
                  | inr hi ↦ rw (hi, if◌then◌else◌) (refl)
                  | inl hi ↦ rw (hi, if◌then◌else◌) (globbed (v ∷ x ∷ rest) vm s (to_int flags))
                ])
        ])
      ])
    ])
  ]
