-- ===== src/Lua/Tables.antt =====
-- Tables: construction, access by index and by name, and traversal.
use bricoler.Base.{
  ℕ, zero, suc, ◌+◌, pos, String, List, [], ◌∷◌, ◌++◌, Bool, true, false, Option, none, some,
  length, get_elem?, set, if◌then◌else◌, ◌==◌, ◌&&◌, codes,
}
use bricoler.Lua.{
  Bytes, Value, nil, integer, string, table, TableRef, old, new, Key, index, name, Table, Vm, M,
  done, undefined, pure, raise, bad_element, ◌>>=◌, ◌>>◌,
}
use bricoler.Lua.Stack.{push, lua_pop, at_index, or_bad_arg, bind_option}

abbrev pub bytes_eq : Bytes → Bytes → Bool
bytes_eq [] [] = true
bytes_eq (a ∷ xs) (b ∷ ys) = a == b && bytes_eq xs ys
bytes_eq _ _ = false

abbrev pub key_eq : Key → Key → Bool
key_eq (index i) (index j) = i == j
key_eq (name s) (name t) = bytes_eq s t
key_eq _ _ = false

-- nil at a key that is not there
abbrev pub raw_get : Key → Table → Value
raw_get k [] = nil
raw_get k ((j, v) ∷ es) = if key_eq j k then v else raw_get k es

-- The value stored is never nil in the library's code.
abbrev pub raw_set : Key → Value → Table → Table
raw_set k v [] = (k, v) ∷ []
raw_set k v ((j, w) ∷ es) = if key_eq j k then (k, v) ∷ es else (j, w) ∷ raw_set k v es

-- The border that lua_rawlen finds: the count of elements at 1, 2, ... before the first nil.
abbrev pub is_nil : Value → Bool
is_nil nil = true
is_nil _ = false

abbrev pub border : ℕ → ℕ → Table → ℕ
border zero i t = i
border (suc fuel) i t =
    let more = border fuel (i + 1) t in if is_nil (raw_get (index (i + 1)) t) then i else more

abbrev pub key_value : Key → Value
key_value (index i) = integer (pos i)
key_value (name s) = string s

-- The key that a value on the stack stands for.
abbrev pub as_key : Value → Option Key
as_key (integer (pos i)) = some (index i)
as_key (string s) = some (name s)
as_key _ = none

abbrev pub as_table : Value → Option TableRef
as_table (table r) = some r
as_table _ = none

module _ {W : Type 0} where
  abbrev pub table_at : TableRef → Vm W → Table
  table_at (old i) vm = vm.tables i
  table_at (new i) vm = elim (get_elem? vm.locals i) [ none ↦ [] | some t ↦ t ]

  abbrev pub put_table : TableRef → Table → Vm W → Vm W
  put_table (old i) t vm = record vm { tables = λ j. if j == i then t else vm.tables j }
  put_table (new i) t vm = record vm { locals = set vm.locals i t }

  abbrev pub lua_newtable : M W (Unit {0})
  lua_newtable vm =
      push (table (new (length vm.locals))) (record vm { locals = vm.locals ++ [] ∷ [] })

  -- luaL_checktype(L, i, LUA_TTABLE), with the table that it finds
  abbrev pub lual_checktable : ℕ → M W TableRef
  lual_checktable i vm = or_bad_arg i (bind_option (at_index i vm) λ v. as_table v) vm

  -- luaL_checktype(L, -1, LUA_TTABLE)
  abbrev pub check_top_table : M W TableRef
  check_top_table vm = elim vm.stack [
    | [] ↦ undefined
    | v ∷ _ ↦ elim (as_table v) [ none ↦ raise bad_element vm | some r ↦ done r vm ]
  ]

  abbrev pub lua_rawlen : TableRef → M W ℕ
  lua_rawlen r vm = done (border (length (table_at r vm)) 0 (table_at r vm)) vm

  abbrev pub lua_rawgeti : TableRef → ℕ → M W (Unit {0})
  lua_rawgeti r i vm = push (raw_get (index i) (table_at r vm)) vm

  abbrev pub lua_getfield : TableRef → String → M W (Unit {0})
  lua_getfield r s vm = push (raw_get (name (codes s)) (table_at r vm)) vm

  abbrev pub assign_to : Key → Value → Option TableRef → List Value → M W (Unit {0})
  assign_to k v none rest vm = undefined
  assign_to k v (some r) rest vm =
      done tt
        (put_table r (raw_set k v (table_at r vm)) (record vm { stack = rest; room = suc vm.room }))

  abbrev pub assign_in : Key → List Value → M W (Unit {0})
  assign_in k (v ∷ w ∷ rest) vm = assign_to k v (as_table w) (w ∷ rest) vm
  assign_in k _ vm = undefined

  -- The assignment t[k] = v, with v at the top and t right below it; pops v.
  abbrev pub assign_below : Key → M W (Unit {0})
  assign_below k vm = assign_in k vm.stack vm

  -- lua_setfield(L, -2, s)
  abbrev pub lua_setfield : String → M W (Unit {0})
  lua_setfield s = assign_below (name (codes s))

  -- lua_rawseti(L, -2, i)
  abbrev pub lua_rawseti : ℕ → M W (Unit {0})
  lua_rawseti i = assign_below (index i)

  abbrev pub settable_in : List Value → M W (Unit {0})
  settable_in (v ∷ k ∷ w ∷ rest) vm = elim (as_key k) [
    | none ↦ undefined
    | some key ↦ assign_to key v (as_table w) (w ∷ rest) (record vm { room = suc vm.room })
  ]
  settable_in _ vm = undefined

  -- lua_settable(L, -3): the assignment t[k] = v with v, k and t at the top; pops v and k.
  abbrev pub lua_settable : M W (Unit {0})
  lua_settable vm = settable_in vm.stack vm

  -- `lua_pushnil(L); for (...; lua_next(L, t) != 0; ...) { body }` after the lua_pushnil, over the
  -- entries that lua_next has still to visit. The body gets the value on top, and pops it.
  abbrev pub next_loop : {S : Type 0} → (S → M W S) → S → Table → M W S
  next_loop body s [] = do lua_pop; pure s
  next_loop body s ((k, v) ∷ es) = do
    lua_pop
    push (key_value k)
    push v
    s' ← body s
    next_loop body s' es

  -- The traversal of the table `r`.
  abbrev pub for_next : {S : Type 0} → TableRef → S → (S → M W S) → M W S
  for_next r s body vm = (push nil >> next_loop body s (table_at r vm)) vm
