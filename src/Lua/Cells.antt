-- ===== src/Lua/Cells.antt =====
-- Userdata, and the blocks from malloc(3).
use bricoler.Base.{
  ◌≡◌, refl, ℕ, zero, suc, ℤ, [], ◌∷◌, Bool, true, false, Option, none, some, if◌then◌else◌, ◌==◌,
  String, codes,
}
use bricoler.Lua.{
  Value, userdata, Meta, no_meta, sys_fd, file_actions, spawnattr, Cell, Vm, M, done, undefined,
  other, pure, raise, bad_element, ◌>>◌,
}
use bricoler.Lua.Tables.{lua_newtable, lua_setfield}
use bricoler.Lua.Stack.{
  lua_pushlstring, push, lua_pop, lua_pushnil, at_index, or_bad_arg, bind_option,
}

abbrev pub meta_eq : Meta → Meta → Bool
meta_eq no_meta no_meta = true
meta_eq sys_fd sys_fd = true
meta_eq file_actions file_actions = true
meta_eq spawnattr spawnattr = true
meta_eq _ _ = false

-- The keys of the metatables in the registry.
abbrev pub meta_key : Meta → String
meta_key no_meta = ""
meta_key sys_fd = "freebsd_sys_fd"
meta_key file_actions = "freebsd_posix_spawn_file_actions"
meta_key spawnattr = "freebsd_posix_spawnattr"

pub meta_eq→eq : (m : Meta) → meta_eq m sys_fd ≡ true → m ≡ sys_fd
meta_eq→eq no_meta h = cc
meta_eq→eq sys_fd h = refl
meta_eq→eq file_actions h = cc
meta_eq→eq spawnattr h = cc

module _ {W : Type 0} where
  abbrev pub put_cell : ℕ → Cell → Vm W → Vm W
  put_cell i c vm = record vm { cells = λ j. if j == i then c else vm.cells j }

  -- lua_newuserdata, with the store of its content; the result is the userdata's number.
  abbrev pub lua_newuserdata : ℤ → M W ℕ
  lua_newuserdata z vm =
      let i = vm.next_cell in
      let vm' = put_cell i (record { meta = no_meta; content = z }) vm in
      (push (userdata i) >> pure i) (record vm' { next_cell = suc i })

  -- `luaL_getmetatable(L, key); lua_setmetatable(L, -2);` on the userdata `i` at the top; where the
  -- registry has no such metatable, lua_setmetatable is given nil.
  abbrev pub set_metatable : Meta → ℕ → M W (Unit {0})
  set_metatable m i = do
    lua_pushnil
    lua_pop
    λ vm.
        done tt
          (put_cell i (record (vm.cells i) { meta = if vm.registered m then m else no_meta }) vm)

  abbrev pub register : Meta → M W (Unit {0})
  register m vm =
      done tt (record vm { registered = λ k. if meta_eq k m then true else vm.registered k })

  -- luaL_newmetatable: a new table with its name, which the registry keeps, or the one that is there.
  abbrev pub lual_newmetatable : Meta → M W Bool
  lual_newmetatable m vm = elim (vm.registered m) [
    | true ↦ (push other >> pure false) vm
    | false ↦
        (do
          lua_newtable
          lua_pushlstring (codes (meta_key m))
          lua_setfield "__name"
          register m
          pure true)
          vm
  ]

  abbrev pub as_userdata : Meta → Vm W → Value → Option ℕ
  as_userdata m vm (userdata i) = if meta_eq (vm.cells i).meta m then some i else none
  as_userdata m vm _ = none

  -- luaL_checkudata, with the number of the userdata that it finds
  abbrev pub lual_checkudata : ℕ → Meta → M W ℕ
  lual_checkudata k m vm = or_bad_arg k (bind_option (at_index k vm) λ v. as_userdata m vm v) vm

  -- luaL_checkudata(L, -1, key)
  abbrev pub check_top_udata : Meta → M W ℕ
  check_top_udata m vm = elim vm.stack [
    | [] ↦ undefined
    | v ∷ _ ↦ elim (as_userdata m vm v) [ none ↦ raise bad_element vm | some i ↦ done i vm ]
  ]

  -- `*fdp` and `*fdp = z`
  abbrev pub deref : ℕ → M W ℤ
  deref i vm = done (vm.cells i).content vm

  abbrev pub store : ℕ → ℤ → M W (Unit {0})
  store i z vm = done tt (put_cell i (record (vm.cells i) { content = z }) vm)

  -- A block from malloc(3), calloc(3) or strdup(3) more, and one less.
  abbrev pub allocated : M W (Unit {0})
  allocated vm = done tt (record vm { live = suc vm.live })

  -- free(3) of a block; where there is none it is a double free.
  abbrev pub free : M W (Unit {0})
  free vm = elim vm.live [ zero ↦ undefined | suc n ↦ done tt (record vm { live = n }) ]

  abbrev pub get_errno : M W ℕ
  get_errno vm = done vm.errno vm
