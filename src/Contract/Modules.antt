-- ===== src/Contract/Modules.antt =====
-- The luaopen_ functions: the table of a module binds each of its names to its function or constant.
use bricoler.Base.{
  ℕ, suc, ◌≡◌, refl, ◌∙◌, List, [], ◌∷◌, ◌++◌, String, codes, arith, Bool, true, ◌&&◌, not, inl,
  inr, Bool-cases,
}
use bricoler.Lua.{Bytes, Value, Vm, Table, table, integer, cfunction, new, name, done}
use bricoler.Lua.Tables.{raw_get, raw_set, bytes_eq}
use bricoler.Lua.Lookup.{raw_get-raw_set_same, raw_get-raw_set_other}
use bricoler.Os.{Os, add_constants, lual_setfuncs}

abbrev pub Entries : Type 0
Entries = List (String × Value)

-- The entries that luaL_setfuncs makes, and those of the constants.
abbrev pub function_entries : List (String × String) → Entries
function_entries [] = []
function_entries ((n, f) ∷ tab) = (n, cfunction f) ∷ function_entries tab

abbrev pub constant_entries : {W : Type 0} → Os W → List String → Entries
constant_entries os [] = []
constant_entries os (c ∷ cs) = (c, integer (os.constant c)) ∷ constant_entries os cs

abbrev pub set_all : Entries → Table → Table
set_all [] t = t
set_all ((n, v) ∷ es) t = set_all es (raw_set (name (codes n)) v t)

-- The name is none of those of the entries.
abbrev pub absent : Bytes → Entries → Bool
absent s [] = true
absent s ((n, v) ∷ es) = not (bytes_eq (codes n) s) && absent s es

abbrev pub distinct : Entries → Bool
distinct [] = true
distinct ((n, v) ∷ es) = absent (codes n) es && distinct es

-- The table binds each name to the value of its entry.
abbrev pub Bound : Table → Entries → Type 0
Bound t [] = Unit
Bound t ((n, v) ∷ es) = (raw_get (name (codes n)) t ≡ v) × Bound t es

raw_get-set_all :
    (s : Bytes) (es : Entries) (t : Table)
    → absent s es ≡ true
    → raw_get (name s) (set_all es t) ≡ raw_get (name s) t
raw_get-set_all s [] t h = refl
raw_get-set_all s ((n, v) ∷ es) t h = elim (Bool-cases (bytes_eq (codes n) s)) [
  | inl e ↦ absurd (ground (arith, h, e))
  | inr e ↦
      raw_get-set_all s es (raw_set (name (codes n)) v t) (ground (arith, h, e))
      ∙ raw_get-raw_set_other (codes n) s v t e
]

pub set_all-Bound : (es : Entries) (t : Table) → distinct es ≡ true → Bound (set_all es t) es
set_all-Bound [] t h = tt
set_all-Bound ((n, v) ∷ es) t h = (
  raw_get-set_all (codes n) es _ (ground (arith, h)) ∙ raw_get-raw_set_same (codes n) v t,
  set_all-Bound es _ (ground (arith, h)),
)

module _ {W : Type 0} where
  pub lual_setfuncs_lem :
      (tab : List (String × String)) (vm : Vm W) (t : Table) (r : ℕ)
      → lual_setfuncs tab (record vm { stack = table (new 0) ∷ []; room = suc r; locals = t ∷ [] })
        ≡ done tt (record vm {
          stack = table (new 0) ∷ [];
          room = suc r;
          locals = set_all (function_entries tab) t ∷ [];
        })
  lual_setfuncs_lem [] vm t r = refl
  lual_setfuncs_lem ((n, f) ∷ tab) vm t r =
      lual_setfuncs_lem tab vm (raw_set (name (codes n)) (cfunction f) t) r

  pub add_constants_lem :
      (os : Os W) (cs : List String) (vm : Vm W) (t : Table) (r : ℕ)
      → add_constants os cs
          (record vm { stack = table (new 0) ∷ []; room = suc r; locals = t ∷ [] })
        ≡ done tt (record vm {
          stack = table (new 0) ∷ [];
          room = suc r;
          locals = set_all (constant_entries os cs) t ∷ [];
        })
  add_constants_lem os [] vm t r = refl
  add_constants_lem os (c ∷ cs) vm t r =
      add_constants_lem os cs vm (raw_set (name (codes c)) (integer (os.constant c)) t) r

pub set_all-append :
    (es fs : Entries) (t : Table) → set_all (es ++ fs) t ≡ set_all fs (set_all es t)
set_all-append [] fs t = refl
set_all-append ((n, v) ∷ es) fs t = set_all-append es fs (raw_set (name (codes n)) v t)

module _ {W : Type 0} (os : Os W) (args : List Value) (vm : Vm W) where
  abbrev pub module_entries : List (String × String) → List String → Entries
  module_entries tab cs = function_entries tab ++ constant_entries os cs
