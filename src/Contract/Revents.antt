-- ===== src/Contract/Revents.antt =====
-- The second loop of l_poll, in lib/freebsd/sys/poll/lua_poll.c: what it writes, and how far the
-- stack goes.
use bricoler.Base.{
  ℕ, zero, suc, ◌+◌, ◌-◌, ◌*◌, ◌<◌, ◌≤◌, ◌≡◌, refl, ℤ, pos, negsuc, List, [], ◌∷◌, true, some,
  arith, length, leb_ℤ, to_int, codes, ◌==◌, if◌then◌else◌, Bool-cases, inl, inr,
}
use bricoler.Lua.{
  Value, Vm, Table, TableRef, old, table, integer, index, name, done, undefined, enter, ◌>>=◌,
}
use bricoler.Lua.Tables.{raw_get, raw_set, table_at}
use bricoler.Lua.Lookup.{raw_get_index-raw_set}
use bricoler.Os.{Os, ok, Pollfd, int_max}
use bricoler.Contract.{returned, ill, call, optinteger_arg}
use bricoler.Contract.Fd.{state_after}
use bricoler.Contract.Poll.{pollfds, nfds, with_array, read_fds_lem}
use bricoler.Sys.Poll.{l_poll, call_poll, finish_poll, write_revents}

-- The tables of the elements i+1, i+2, ... of a table.
abbrev pub Lists : Table → ℕ → List (ℕ × ℤ) → Type 0
Lists t i [] = Unit
Lists t i ((e, r) ∷ ps) = (raw_get (index (i + 1)) t ≡ table (old e)) × Lists t (i + 1) ps

-- The tables with `revents` set in the given ones, in this order.
abbrev pub set_revents : ℕ → ℤ → (ℕ → Table) → ℕ → Table
set_revents e r tables j =
    if j == e then raw_set (name (codes "revents")) (integer r) (tables e) else tables j

abbrev pub written : List (ℕ × ℤ) → (ℕ → Table) → ℕ → Table
written [] tables = tables
written ((e, r) ∷ ps) tables = written ps (set_revents e r tables)

abbrev pub revents : List (ℕ × ℤ) → List ℤ
revents [] = []
revents ((e, r) ∷ ps) = r ∷ revents ps

abbrev left_over : List (ℕ × ℤ) → List Value → List Value
left_over [] s = s
left_over ((e, r) ∷ ps) s = left_over ps (table (old e) ∷ s)

Lists-set_revents :
    (e : ℕ) (r : ℤ) (tables : ℕ → Table) (t i : ℕ) (ps : List (ℕ × ℤ))
    → Lists (tables t) i ps
    → Lists (set_revents e r tables t) i ps
Lists-set_revents e r tables t i [] l = l
Lists-set_revents e r tables t i ((a, b) ∷ ps) l =
    (here, Lists-set_revents e r tables t (i + 1) ps l.1)
  where
    here : raw_get (index (i + 1)) (set_revents e r tables t) ≡ table (old a)
    here = elim (Bool-cases (t == e)) [
      | inl q ↦
          let same : t ≡ e = ground (arith, q) in
          rw q (
            rw (raw_get_index-raw_set (i + 1) (codes "revents") (integer r) (tables e))
              (cc (same, l.0)))
      | inr q ↦ rw q l.0
    ]

-- The room for the pushes of the loop, with `k` slots to spare beside one.
abbrev spare : List (ℕ × ℤ) → ℕ → ℕ
spare [] k = suc k
spare (p ∷ ps) k = suc (spare ps k)

spare_lem : (ps : List (ℕ × ℤ)) (k : ℕ) → spare ps k ≡ suc (length ps + k)
spare_lem [] k = omega arith
spare_lem (p ∷ ps) k = omega (arith, spare_lem ps k)

module _ {W : Type 0} (os : Os W) where
  write_revents_lem :
      (ps : List (ℕ × ℤ)) (t i : ℕ) (vm : Vm W) (tables : ℕ → Table) (s : List Value) (k : ℕ)
      → Lists (tables t) i ps
      → write_revents os
          (old t)
          i
          (revents ps)
          (record vm { tables = tables; stack = s; room = spare ps k })
        ≡ done tt (record vm { tables = written ps tables; stack = left_over ps s; room = suc k })
  unfolding write_revents
  write_revents_lem [] t i vm tables s k l = (refl)
  write_revents_lem ((e, r) ∷ ps) t i vm tables s k l =
      let ih =
        write_revents_lem ps t (i + 1) vm (set_revents e r tables) (table (old e) ∷ s) k
          (Lists-set_revents e r tables t (i + 1) ps l.1) in
      rw l.0 (rw (spare_lem ps k) (rw (spare_lem ps k) at ih))

  overflow_lem :
      (ps : List (ℕ × ℤ)) (t i : ℕ) (vm : Vm W) (tables : ℕ → Table) (s : List Value) (k : ℕ)
      → Lists (tables t) i ps
      → k ≤ length ps
      → 0 < length ps
      → write_revents os (old t) i (revents ps) (record vm { tables = tables; stack = s; room = k })
        ≡ undefined
  unfolding write_revents
  overflow_lem [] t i vm tables s k l h p = absurd (omega (arith, p))
  overflow_lem ((e, r) ∷ ps) t i vm tables s zero l h p = refl
  overflow_lem ((e, r) ∷ ps) t i vm tables s (suc zero) l h p = (rw l.0 refl)
  overflow_lem ((e, r) ∷ ps) t i vm tables s (suc (suc k)) l h p =
      (rw l.0 (
        overflow_lem ps t (i + 1) vm (set_revents e r tables) (table (old e) ∷ s) (suc k)
          (Lists-set_revents e r tables t (i + 1) ps l.1) (omega (arith, h)) (omega (arith, h))))

  -- The loop from the first element on, in a state with the room that Lua gives a call.
  write_all_lem :
      (ps : List (ℕ × ℤ)) (t : ℕ) (vm : Vm W)
      → Lists (vm.tables t) 0 ps
      → vm.room ≡ 20
      → length ps ≤ 19
      → write_revents os (old t) 0 (revents ps) vm
        ≡ done tt (record vm {
          tables = written ps vm.tables;
          stack = left_over ps vm.stack;
          room = suc (19 - length ps);
        })
  write_all_lem ps t vm l r h =
      let same : spare ps (19 - length ps) ≡ vm.room =
        omega (arith, spare_lem ps (19 - length ps), r, h) in
      let all = write_revents_lem ps t 0 vm vm.tables vm.stack (19 - length ps) l in rw same at all

  full_lem :
      (ps : List (ℕ × ℤ)) (t : ℕ) (vm : Vm W)
      → Lists (vm.tables t) 0 ps
      → vm.room ≡ 20
      → 20 ≤ length ps
      → write_revents os (old t) 0 (revents ps) vm ≡ undefined
  full_lem ps t vm l r h =
      overflow_lem ps t 0 vm vm.tables vm.stack vm.room l (omega (arith, r, h)) (omega (arith, h))

  -- The state in which the second loop starts.
  abbrev polled : TableRef → List Value → Vm W → W → W → Vm W
  polled t rest vm w w' = record (enter (table t ∷ rest) (with_array os w vm)) { world = w' }

  l_poll-success :
      (t : TableRef) (rest : List Value) (vm : Vm W) (ps : List Pollfd) (timeout : ℤ) (w w' : W)
      (res : ℕ) (rs : List ℤ)
      → os.malloc (nfds os t (table t ∷ rest) vm * 8) vm.world ≡ (ok tt, w)
      → (let start = enter (table t ∷ rest) (with_array os w vm) in
          pollfds os start (table_at t start) 0 (nfds os t (table t ∷ rest) vm) ≡ some ps)
      → optinteger_arg os (table t ∷ rest) 1 (negsuc 0) ≡ some timeout
      → leb_ℤ timeout int_max ≡ true
      → os.poll ps (to_int timeout) w ≡ (ok (res, rs), w')
      → l_poll os (enter (table t ∷ rest) vm)
        ≡ finish_poll os t (some (res, rs)) (polled t rest vm w w')
  unfolding l_poll call_poll
  l_poll-success t [] vm ps timeout w w' res rs m h a b p = rw m (
      rw (read_fds_lem os t (table t ∷ []) (with_array os w vm) _ 0 [] ps h, ◌>>=◌)
        (ground (arith, a, b, p)))
  l_poll-success t (x ∷ rest) vm ps timeout w w' res rs m h a b p = rw m (
      rw (read_fds_lem os t (table t ∷ x ∷ rest) (with_array os w vm) _ 0 [] ps h, ◌>>=◌)
        (ground (arith, a, b, p)))

  module _ (t : ℕ) (rest : List Value) (vm : Vm W) (ps : List Pollfd) (timeout : ℤ) (w w' : W)
      (replies : List (ℕ × ℤ)) (res : ℕ)
      (allocated : os.malloc (nfds os (old t) (table (old t) ∷ rest) vm * 8) vm.world ≡ (ok tt, w))
      (array : (let start = enter (table (old t) ∷ rest) (with_array os w vm) in
        pollfds os start (table_at (old t) start) 0 (nfds os (old t) (table (old t) ∷ rest) vm)
        ≡ some ps))
      (given : optinteger_arg os (table (old t) ∷ rest) 1 (negsuc 0) ≡ some timeout)
      (fits : leb_ℤ timeout int_max ≡ true)
      (success : os.poll ps (to_int timeout) w ≡ (ok (res, revents replies), w'))
      (elements : Lists (vm.tables t) 0 replies) where
    -- Where poll(2) succeeds on at most 19 elements, its count is returned, the array is freed, and
    -- the reply of each element stands under "revents" in its table; no other table changes. The
    -- elements of the argument are all descriptors with events that fit.
    pub l_poll-done :
        length replies ≤ 19
        → (call (l_poll os) (table (old t) ∷ rest) vm
            ≡ returned (integer (pos res) ∷ []) vm.live w')
          × ((state_after (l_poll os (enter (table (old t) ∷ rest) vm)) vm).tables
              ≡ written replies vm.tables)
    unfolding finish_poll
    l_poll-done n =
        rw
          (l_poll-success (old t) rest vm ps timeout w w' res (revents replies) allocated array
            given fits success)
          (rw (write_all_lem replies t (polled (old t) rest vm w w') elements refl n, ◌>>=◌)
            (refl, refl))

    -- On 20 elements and more the call pushes a value onto a full stack, and what it does then is
    -- not defined: each element is left there.
    pub l_poll-overflow : 20 ≤ length replies → call (l_poll os) (table (old t) ∷ rest) vm ≡ ill
    unfolding finish_poll
    l_poll-overflow n =
        rw
          (l_poll-success (old t) rest vm ps timeout w w' res (revents replies) allocated array
            given fits success)
          (rw (full_lem replies t (polled (old t) rest vm w w') elements refl n, ◌>>=◌) refl)
