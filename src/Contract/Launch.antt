-- ===== src/Contract/Launch.antt =====
-- posix_spawn and posix_spawnp of lib/freebsd/posix_spawn/lua_posix_spawn.c, called with a command
-- and with tables for the vectors.
use bricoler.Base.{
  ℕ, zero, suc, ◌≡◌, refl, ℤ, List, ◌∷◌, append-nil, Bool, true, false, some, arith, inl, inr, ◌⊎◌,
  Bool-cases,
}
use bricoler.Lua.{Bytes, Value, Vm, TableRef, M, table, userdata, file_actions, ◌>>=◌, bad_arg}
use bricoler.Lua.Stack.{c_str, string_of}
use bricoler.Lua.Cells.{meta_eq}
use bricoler.Os.{Os}
use bricoler.Contract.{Outcome, returned, failed, call, error_values}
use bricoler.PosixSpawn.{l_posix_spawn, l_posix_spawnp, l_posix_spawn1, with_attr, actions_arg}
use bricoler.Contract.Vectors.{launched, given, fresh}
use bricoler.Contract.Blocks.{launched_lem}

Init-cases :
    {W : Type 0} (r : (ℕ × ℤ) × W)
    → ((x : ℕ × ℤ) × (r ≡ ((suc x.0, x.1), r.1))) ⊎ ((h : ℤ) × (r ≡ ((zero, h), r.1)))
Init-cases ((zero, h), w) = inr (h, refl)
Init-cases ((suc e, h), w) = inl ((e, h), refl)

module _ {W : Type 0} (os : Os W) where
  -- What posix_spawn_file_actions_init(3) gave.
  abbrev pub own_launched :
      Bool → Bytes → ℤ → TableRef → List Value → List Value → Vm W → (ℕ × ℤ) × W → Outcome W
  own_launched path file attr t rest args vm ((zero, h), w) =
      launched os path file attr (fresh os h) t rest args vm w
  own_launched path file attr t rest args vm ((suc e, h), w) =
      returned (error_values os (suc e)) (suc vm.live) w

  -- posix_spawnp where `path` is true, and posix_spawn where it is false.
  abbrev pub spawner : Bool → M W ℕ
  spawner true = l_posix_spawnp os
  spawner false = l_posix_spawn os

  given_lem :
      (path : Bool) (c : Value) (t : TableRef) (rest : List Value) (vm : Vm W) (i : ℕ)
      (file : Bytes) (attr : ℤ) (w : W)
      → os.spawnattr_init vm.world ≡ ((zero, attr), w)
      → string_of os.conversions c ≡ some file
      → call (l_posix_spawn1 os path) (c ∷ userdata i ∷ table t ∷ rest) vm
        ≡ (elim (meta_eq (vm.cells i).meta file_actions) [
          | true ↦
              launched os path
                (c_str file)
                attr
                (given os (vm.cells i).content)
                t
                rest
                (c ∷ userdata i ∷ table t ∷ rest)
                vm
                w
          | false ↦ failed (bad_arg 2) (suc vm.live) w
        ])
  unfolding l_posix_spawn1 with_attr actions_arg
  given_lem path c t rest vm i file attr w a s = rw a (
      rw (s, ◌>>=◌)
        (elim (Bool-cases (meta_eq (vm.cells i).meta file_actions)) [
          | inr b ↦ rw b refl
          | inl b ↦
              rw (b, ◌>>=◌)
                (launched_lem os path (c_str file) attr (given os (vm.cells i).content) t rest
                  (c ∷ userdata i ∷ table t ∷ rest) vm w (λ n w'. refl)
                  (λ n w'. rw (append-nil rest) refl))
        ]))

  own_lem :
      (path : Bool) (c : Value) (t : TableRef) (rest : List Value) (vm : Vm W) (file : Bytes)
      (attr : ℤ) (w : W)
      → os.spawnattr_init vm.world ≡ ((zero, attr), w)
      → string_of os.conversions c ≡ some file
      → call (l_posix_spawn1 os path) (c ∷ table t ∷ rest) vm
        ≡ own_launched path
            (c_str file)
            attr
            t
            rest
            (c ∷ table t ∷ rest)
            vm
            (os.file_actions_init w)
  unfolding l_posix_spawn1 with_attr actions_arg
  own_lem path c t rest vm file attr w a s = rw a (
      rw (s, ◌>>=◌)
        (elim (Init-cases (os.file_actions_init w)) [
          | inl (e, q) ↦ rw (q, ◌>>=◌) (ground arith)
          | inr (h, q) ↦
              rw (q, ◌>>=◌)
                (launched_lem os path (c_str file) attr (fresh os h) t rest (c ∷ table t ∷ rest) vm
                  (os.file_actions_init w).1 (λ n w'. refl) (λ n w'. rw (append-nil rest) refl))
        ]))

  -- posix_spawn and posix_spawnp of a command, with attributes that were initialised: with the file
  -- actions of a userdata before the table of the vector, those are given to posix_spawn(3), and a
  -- userdata of another kind is bad argument 2; with the table at once, the call makes and destroys
  -- its own. The vector is the elements 1, 2, ... of the table, the environment that of the next
  -- table or the caller's; a number among the strings of either that posix_spawn(3) reads makes the
  -- call undefined, because the string that lua_tostring makes of it is gone with the popped value.
  -- The id or the error triple is returned with no block left once posix_spawn(3) was called, and
  -- an assertion fails where an object cannot be destroyed; before that, a bad environment and a
  -- failed allocation leave the attributes behind, and what else was made.
  pub l_posix_spawn-outcome :
      (path : Bool) (c : Value) (t : TableRef) (rest : List Value) (vm : Vm W) (i : ℕ)
      (file : Bytes) (attr : ℤ) (w : W)
      → os.spawnattr_init vm.world ≡ ((zero, attr), w)
      → string_of os.conversions c ≡ some file
      → (call (spawner path) (c ∷ userdata i ∷ table t ∷ rest) vm
          ≡ (elim (meta_eq (vm.cells i).meta file_actions) [
            | true ↦
                launched os path
                  (c_str file)
                  attr
                  (given os (vm.cells i).content)
                  t
                  rest
                  (c ∷ userdata i ∷ table t ∷ rest)
                  vm
                  w
            | false ↦ failed (bad_arg 2) (suc vm.live) w
          ]))
        × (call (spawner path) (c ∷ table t ∷ rest) vm
            ≡ own_launched path
                (c_str file)
                attr
                t
                rest
                (c ∷ table t ∷ rest)
                vm
                (os.file_actions_init w))
  unfolding l_posix_spawn l_posix_spawnp
  l_posix_spawn-outcome true c t rest vm i file attr w a s =
      (given_lem true c t rest vm i file attr w a s, own_lem true c t rest vm file attr w a s)
  l_posix_spawn-outcome false c t rest vm i file attr w a s =
      (given_lem false c t rest vm i file attr w a s, own_lem false c t rest vm file attr w a s)
