-- ===== src/Contract/Binding.antt =====
-- Two parts of the library together: the addresses of lib/freebsd/getaddrinfo/lua_getaddrinfo.c as
-- the argument of l_bind in lib/freebsd/sys/socket/lua_socket.c.
use bricoler.Base.{
  ℕ, zero, suc, ◌+◌, ◌≡◌, refl, ap, pos, List, [], ◌∷◌, true, false, some, arith, length, get_elem?,
  codes, ◌∙◌, ◌==◌,
}
use bricoler.Lua.{
  Bytes, Value, Vm, Key, Table, table, userdata, sys_fd, new, string, integer, index, name,
}
use bricoler.Lua.Stack.{is_none_or_nil}
use bricoler.Lua.Tables.{raw_get}
use bricoler.Lua.Cells.{meta_eq}
use bricoler.Os.{Os, Addrinfo}
use bricoler.Contract.{call, reply, true_values, c_string_arg}
use bricoler.Contract.Query.{Made, call_made}
use bricoler.Contract.Io.{l_read-reply}
use bricoler.Contract.Addresses.{addr_table, addr_tables, array_of}
use bricoler.Contract.Getaddrinfo.{l_getaddrinfo-array, with_hints}
use bricoler.Getaddrinfo.{l_getaddrinfo, no_hints, null_if_empty}
use bricoler.Sys.Socket.{l_bind}

-- An entry of one of the new tables.
abbrev pub made_entry : List Table → ℕ → Key → Value
made_entry [] i k = raw_get k []
made_entry (t ∷ ts) zero k = raw_get k t
made_entry (t ∷ ts) (suc i) k = made_entry ts i k

array_of-lookup :
    (res : List Addrinfo) (j i m : ℕ) (ai : Addrinfo)
    → get_elem? res i ≡ some ai
    → m ≡ suc (j + i)
    → raw_get (index m) (array_of j res) ≡ table (new m)
array_of-lookup [] j i m ai h e = absurd (cc h)
array_of-lookup (a ∷ res) j zero m ai h e =
    let same : j + 1 ≡ m = omega (arith, e) in
    let here : (j + 1 == m) ≡ true = ground (arith, e) in rw here (ap (λ n. table (new n)) same)
array_of-lookup (a ∷ res) j (suc i) m ai h e =
    let other : (j + 1 == m) ≡ false = ground (arith, e) in
    rw other (array_of-lookup res (j + 1) i m ai h (omega (arith, e)))

addr_tables-lookup :
    (res : List Addrinfo) (i : ℕ) (ai : Addrinfo) (k : Key)
    → get_elem? res i ≡ some ai
    → made_entry (addr_tables res) i k ≡ raw_get k (addr_table ai)
addr_tables-lookup [] i ai k h = absurd (cc h)
addr_tables-lookup (a ∷ res) zero ai k h =
    let same : a ≡ ai = cc h in ap (λ x. raw_get k (addr_table x)) same
addr_tables-lookup (a ∷ res) (suc i) ai k h = addr_tables-lookup res i ai k h

module _ {W : Type 0} (os : Os W) where
  made_lem :
      (args : List Value) (vm : Vm W) (host service : Bytes) (res : List Addrinfo) (w : W)
      → c_string_arg os args 0 ≡ some host
      → c_string_arg os args 1 ≡ some service
      → is_none_or_nil (get_elem? args 2) ≡ true
      → os.getaddrinfo (null_if_empty os host) (null_if_empty os service) (no_hints os) vm.world
        ≡ ((pos 0, res), w)
      → (call_made (l_getaddrinfo os) args vm).made ≡ array_of 0 res ∷ addr_tables res
  made_lem args vm host service res w a b c g =
      ap (λ (m : Made W). m.made) (l_getaddrinfo-array os args vm)
      ∙ rw a (rw b (rw (c, with_hints) (rw g refl)))

  -- An address that getaddrinfo finds without hints comes back to the system as it was: the element
  -- i+1 of the array is the table of the result number i, its addrlen is the number of bytes of that
  -- result's address, and bind, given its addr and a descriptor, passes exactly these bytes to
  -- bind(2) and returns true or the error triple.
  pub l_bind-l_getaddrinfo :
      (args : List Value) (vm : Vm W) (host service : Bytes) (res : List Addrinfo) (w : W) (i : ℕ)
      (ai : Addrinfo) (vm' : Vm W) (d : ℕ)
      → c_string_arg os args 0 ≡ some host
      → c_string_arg os args 1 ≡ some service
      → is_none_or_nil (get_elem? args 2) ≡ true
      → os.getaddrinfo (null_if_empty os host) (null_if_empty os service) (no_hints os) vm.world
        ≡ ((pos 0, res), w)
      → get_elem? res i ≡ some ai
      → meta_eq (vm'.cells d).meta sys_fd ≡ true
      → (let made = (call_made (l_getaddrinfo os) args vm).made in
          (made_entry made 0 (index (suc i)) ≡ table (new (suc i)))
          × (made_entry made (suc i) (name (codes "addrlen")) ≡ integer (pos (length ai.ai_addr)))
          × (call (l_bind os) (userdata d ∷ made_entry made (suc i) (name (codes "addr")) ∷ []) vm'
              ≡ reply os true_values vm' (os.bind (vm'.cells d).content ai.ai_addr vm'.world)))
  l_bind-l_getaddrinfo args vm host service res w i ai vm' d a b c g h m =
      let addr : Value = string ai.ai_addr in
      rw (made_lem args vm host service res w a b c g) (
        array_of-lookup res 0 i (suc i) ai h (omega arith),
        addr_tables-lookup res i ai (name (codes "addrlen")) h,
        (rw (addr_tables-lookup res i ai (name (codes "addr")) h)
            ((l_read-reply os vm' (userdata d ∷ addr ∷ [])).3 ∙ rw m refl)),
      )
