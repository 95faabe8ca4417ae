-- ===== src/Contract/ByName.antt =====
-- l_sysctlbyname of lib/freebsd/sys/sysctl/lua_sysctl.c against l_sysctl, for a value that does not
-- change between the calls.
use bricoler.Base.{
  ℕ, suc, ◌*◌, ◌≤◌, ◌≡◌, refl, ◌∙◌, sym, ℤ, List, [], ◌∷◌, Option, some, none, true, arith, length,
  take, ltb, inl, inr,
}
use bricoler.Lua.{Bytes, Value, Vm, Table, TableRef, table, string, enter, ◌>>=◌}
use bricoler.Lua.Stack.{c_str}
use bricoler.Lua.Tables.{table_at}
use bricoler.Os.{Os, Ret-cases, ok}
use bricoler.Contract.{call}
use bricoler.Contract.Sysctl.{oid_of, InRange, length-oid, first_outcome, fmtval-outcome, short_lem}
use bricoler.Sys.Sysctl.{l_sysctl, l_sysctlbyname}

-- The name and the oid are those of one value, as sysctl(3) describes the two: the name is
-- translated to the oid, and both calls read the same. The value has a size, a buffer of twice the
-- size is large enough for it, and a second read with the size that a first one returned finds the
-- same value.
pub record Names {W : Type 0} (os : Os W) (n : Bytes) (oid : List ℤ) : Type 0 where
  pub translated : (w : W) → os.sysctlnametomib n w ≡ (ok oid, w)
  pub same : (size : Option ℕ) (w : W) → os.sysctlbyname n size w ≡ os.sysctl oid size w
  pub sized : (w w' : W) (r : ℕ × Bytes) → os.sysctl oid none w ≡ (ok r, w') → ltb 0 r.0 ≡ true
  pub large_enough :
      (w w' w'' : W) (r : ℕ × Bytes)
      → os.sysctl oid none w ≡ (ok r, w')
      → (x : ℕ × Bytes) × (os.sysctl oid (some (r.0 * 2)) w''
          ≡ (ok x, (os.sysctl oid (some (r.0 * 2)) w'').1))
  pub stable :
      (size : ℕ) (w w' : W) (r : ℕ × Bytes)
      → os.sysctl oid (some size) w ≡ (ok r, w')
      → os.sysctl oid (some r.0) w' ≡ (ok r, w')

module _ {W : Type 0} (os : Os W) where
  byname_lem :
      (s : Bytes) (rest : List Value) (vm : Vm W) (oid : List ℤ)
      → Names os (c_str s) oid
      → length oid ≤ os.ctl_maxname
      → call (l_sysctlbyname os) (string s ∷ rest) vm
        ≡ first_outcome os oid vm.live (os.sysctl oid none vm.world)
  unfolding l_sysctlbyname
  byname_lem s rest vm oid n h =
      rw (n.same none vm.world, ◌>>=◌)
        (elim (Ret-cases (os.sysctl oid none vm.world)) [
          | inr (e, q) ↦ rw q (ground arith)
          | inl (a, q) ↦
              let w₁ = (os.sysctl oid none vm.world).1 in
              let w₂ = (os.malloc (a.0 * 2) w₁).1 in
              rw q (
                rw (n.sized vm.world w₁ a q, first_outcome)
                  (elim (Ret-cases (os.malloc (a.0 * 2) w₁)) [
                    | inr (e, m) ↦ rw m refl
                    | inl (u, m) ↦
                        let w₃ = (os.sysctl oid (some (a.0 * 2)) w₂).1 in
                        let (x, r) = n.large_enough vm.world w₁ w₂ a q in
                        rw m (
                          rw (n.same (some (a.0 * 2)) w₂, ◌>>=◌)
                            (rw r (
                              rw (n.translated w₃, ◌>>=◌)
                                (rw (n.same (some x.0) w₃, ◌>>=◌)
                                  (rw (n.stable (a.0 * 2) w₂ w₃ x r) (
                                    fmtval-outcome os oid (take x.0 x.1) (string s ∷ rest)
                                      (record vm { live = suc vm.live; world = w₃ }) h))))))
                  ]))
        ])

  -- The table that sysctl gets.
  abbrev entries : TableRef → List Value → Vm W → Table
  entries t others vm = table_at t (enter (table t ∷ others) vm)

  -- sysctlbyname of a name has the outcome that sysctl has of a table with the value's oid: what is
  -- returned or raised, the blocks left and the system are the same. The name and the oid stand for
  -- one value that has a size, fits a buffer of twice that size, and does not change between the
  -- calls; the oid has at most CTL_MAXNAME numbers, and they fit an int.
  pub l_sysctlbyname-l_sysctl :
      (s : Bytes) (rest : List Value) (t : TableRef) (others : List Value) (vm : Vm W)
      → Names os (c_str s) (oid_of os (entries t others vm))
      → InRange os (entries t others vm)
      → length (entries t others vm) ≤ os.ctl_maxname
      → call (l_sysctlbyname os) (string s ∷ rest) vm ≡ call (l_sysctl os) (table t ∷ others) vm
  l_sysctlbyname-l_sysctl s rest t others vm n fine h =
      let es : Table = entries t others vm in
      byname_lem s rest vm (oid_of os es) n (omega (arith, h, length-oid os es []))
      ∙ sym (short_lem os t others vm fine h)
