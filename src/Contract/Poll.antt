-- ===== src/Contract/Poll.antt =====
-- lib/freebsd/sys/poll/lua_poll.c as the Lua program sees it: the array that poll(2) is given, and
-- the replies before it and where it fails.
use bricoler.Base.{
  ℕ, zero, suc, ◌+◌, ◌*◌, ◌≡◌, ℤ, pos, negsuc, List, [], ◌∷◌, ◌++◌, append-nil, append_assoc, true,
  false, Option, some, none, arith, length, leb_ℤ, ◌||◌, not, to_short, to_int, codes, inl, inr,
  Option-cases,
}
use bricoler.Lua.{
  Value, Vm, Table, TableRef, done, enter, table, string, integer, nil, index, name, sys_fd, ◌>>=◌,
}
use bricoler.Lua.Stack.{integer_of, bind_option}
use bricoler.Lua.Tables.{table_at, as_table, raw_get, border}
use bricoler.Lua.Cells.{as_userdata}
use bricoler.Os.{Os, ok, fail, Pollfd, shrt_min, shrt_max, int_max}
use bricoler.Contract.{returned, call, optinteger_arg, error_values}
use bricoler.Sys.Poll.{l_poll, read_fds, call_poll}

module _ {W : Type 0} (os : Os W) where
  -- The struct pollfd for an element of the argument: a table with a descriptor userdata and events
  -- that fit a short.
  abbrev pub event_pollfd : ℤ → ℤ → Option Pollfd
  event_pollfd fd events = elim (not (leb_ℤ events shrt_max) || not (leb_ℤ shrt_min events)) [
    | true ↦ none
    | false ↦ some (record { fd = fd; events = to_short events })
  ]

  abbrev pub pollfd_of : Vm W → Value → Option Pollfd
  pollfd_of vm v = bind_option (as_table v) λ e.
      bind_option (as_userdata sys_fd vm (raw_get (name (codes "fd")) (table_at e vm))) λ i.
        bind_option (integer_of os.conversions (raw_get (name (codes "events")) (table_at e vm)))
          λ events. event_pollfd (vm.cells i).content events

  -- The array for the elements i+1, ..., i+n of a table.
  abbrev pub pollfds : Vm W → Table → ℕ → ℕ → Option (List Pollfd)
  pollfds vm t i zero = some []
  pollfds vm t i (suc n) =
      bind_option (pollfd_of vm (raw_get (index (i + 1)) t))
        λ p. bind_option (pollfds vm t (i + 1) n) λ ps. some (p ∷ ps)

  pub read_fds_lem :
      (t : TableRef) (args : List Value) (vm : Vm W) (n i : ℕ) (fds ps : List Pollfd)
      → pollfds (enter args vm) (table_at t (enter args vm)) i n ≡ some ps
      → read_fds os t n i fds (enter args vm) ≡ done (some (fds ++ ps)) (enter args vm)
  unfolding read_fds
  read_fds_lem t args vm zero i fds ps h = (ground (arith, h, append-nil fds))
  read_fds_lem t args vm (suc n) i fds ps h =
      let start = enter args vm in
      let v = raw_get (index (i + 1)) (table_at t start) in
      elim (Option-cases (pollfd_of start v)) [
        | inl q ↦ absurd (cc (rw q at h))
        | inr (p, q) ↦ elim (Option-cases (pollfds start (table_at t start) (i + 1) n)) [
          | inl r ↦ absurd (cc (rw (q, r) at h))
          | inr (rest, r) ↦
              let ih = read_fds_lem t args vm n (i + 1) (fds ++ p ∷ []) rest r in
              let same : p ∷ rest ≡ ps = cc (rw (q, r) at h) in
              (ground (arith, q, same, ih, append_assoc fds (p ∷ []) rest))
        ]
      ]

  -- The length of the argument, and the state behind calloc(3).
  abbrev pub nfds : TableRef → List Value → Vm W → ℕ
  nfds t args vm = border (length (table_at t (enter args vm))) 0 (table_at t (enter args vm))

  abbrev pub with_array : W → Vm W → Vm W
  with_array w vm = record vm { live = suc vm.live; world = w }

  -- A timeout above INT_MAX is refused with EINVAL and without a call of poll(2); the array is left
  -- behind. The elements of the argument are all descriptors with events that fit.
  pub l_poll-timeout :
      (t : TableRef) (rest : List Value) (vm : Vm W) (ps : List Pollfd) (timeout : ℤ) (w : W)
      → os.malloc (nfds t (table t ∷ rest) vm * 8) vm.world ≡ (ok tt, w)
      → (let start = enter (table t ∷ rest) (with_array w vm) in
          pollfds start (table_at t start) 0 (nfds t (table t ∷ rest) vm) ≡ some ps)
      → optinteger_arg os (table t ∷ rest) 1 (negsuc 0) ≡ some timeout
      → leb_ℤ timeout int_max ≡ false
      → call (l_poll os) (table t ∷ rest) vm
        ≡ returned
            (nil
              ∷ string (codes "timeout too large")
              ∷ integer (pos (os.error_number "EINVAL"))
              ∷ [])
            (suc vm.live)
            w
  unfolding l_poll call_poll
  l_poll-timeout t [] vm ps timeout w m h a b = rw m (
      rw (read_fds_lem t (table t ∷ []) (with_array w vm) _ 0 [] ps h, ◌>>=◌)
        (ground (arith, a, b)))
  l_poll-timeout t (x ∷ rest) vm ps timeout w m h a b = rw m (
      rw (read_fds_lem t (table t ∷ x ∷ rest) (with_array w vm) _ 0 [] ps h, ◌>>=◌)
        (ground (arith, a, b)))

  -- Otherwise poll(2) gets the array of all the elements and the timeout, cut to an int; where it
  -- fails the error triple is returned, and the array is freed.
  pub l_poll-fails :
      (t : TableRef) (rest : List Value) (vm : Vm W) (ps : List Pollfd) (timeout : ℤ) (w w' : W)
      (e : ℕ)
      → os.malloc (nfds t (table t ∷ rest) vm * 8) vm.world ≡ (ok tt, w)
      → (let start = enter (table t ∷ rest) (with_array w vm) in
          pollfds start (table_at t start) 0 (nfds t (table t ∷ rest) vm) ≡ some ps)
      → optinteger_arg os (table t ∷ rest) 1 (negsuc 0) ≡ some timeout
      → leb_ℤ timeout int_max ≡ true
      → os.poll ps (to_int timeout) w ≡ (fail e, w')
      → call (l_poll os) (table t ∷ rest) vm ≡ returned (error_values os e) vm.live w'
  unfolding l_poll call_poll
  l_poll-fails t [] vm ps timeout w w' e m h a b p = rw m (
      rw (read_fds_lem t (table t ∷ []) (with_array w vm) _ 0 [] ps h, ◌>>=◌)
        (ground (arith, a, b, p)))
  l_poll-fails t (x ∷ rest) vm ps timeout w w' e m h a b p = rw m (
      rw (read_fds_lem t (table t ∷ x ∷ rest) (with_array w vm) _ 0 [] ps h, ◌>>=◌)
        (ground (arith, a, b, p)))
