-- ===== src/Lua/Traversal.antt =====
-- Loops over the entries of a table by lua_next.
use bricoler.Base.{
  ℕ, suc, ◌+◌, ◌≡◌, refl, ap, ◌∙◌, List, [], ◌∷◌, ◌++◌, arith, length, sym, length-append,
  append-nil, append_assoc, ◌<◌, ◌≤◌,
}
use bricoler.Lua.{Value, nil, Table, TableRef, Vm, M, done, pure, enter, ◌>>◌}
use bricoler.Lua.Stack.{lua_pop}
use bricoler.Lua.Tables.{next_loop, key_value, for_next, table_at}

module _ {S : Type 0} where
  -- What the values of the entries make of `a`, by `f`.
  abbrev pub fold_values : (S → Value → S) → S → Table → S
  fold_values f a [] = a
  fold_values f a ((k, v) ∷ es) = fold_values f (f a v) es

  -- Each value is fine for the accumulator that it meets.
  abbrev pub AllFine : (S → Value → S) → (S → Value → Type 0) → S → Table → Type 0
  AllFine f Fine a [] = Unit
  AllFine f Fine a ((k, v) ∷ es) = Fine a v × AllFine f Fine (f a v) es

module _ {W : Type 0} where
  -- A loop whose body takes each value into account by `f`, and pops it.
  pub next_loop-fold :
      {S : Type 0} (f : S → Value → S) (body : S → M W S) (Fine : S → Value → Type 0)
      → ((a : S) (v : Value) (vm : Vm W) (s : List Value) (r : ℕ)
          → Fine a v
          → body a (record vm { stack = v ∷ s; room = r })
            ≡ done (f a v) (record vm { stack = s; room = suc r }))
      → (es : Table) (a : S) → AllFine f Fine a es
      → (vm : Vm W) (x : Value) (s : List Value) (r : ℕ)
      → next_loop body a es (record vm { stack = x ∷ s; room = suc r })
        ≡ done (fold_values f a es) (record vm { stack = s; room = suc (suc r) })
  next_loop-fold f body Fine step [] a fine vm x s r = refl
  next_loop-fold f body Fine step ((k, v) ∷ es) a fine vm x s r =
      rw (step a v vm (key_value k ∷ s) r fine.0)
        (next_loop-fold f body Fine step es (f a v) fine.1 vm (key_value k) s r)

pub AllFine-unit :
    {S : Type 0} (f : S → Value → S) (a : S) (es : Table) → AllFine f (λ _ _. Unit {0}) a es
AllFine-unit f a [] = tt
AllFine-unit f a ((k, v) ∷ es) = (tt, AllFine-unit f (f a v) es)

-- Counting visits each entry once.
pub fold_values-count : (n : ℕ) (es : Table) → fold_values (λ n _. n + 1) n es ≡ n + length es
fold_values-count n [] = omega arith
fold_values-count n ((k, v) ∷ es) = omega (arith, fold_values-count (n + 1) es)

module _ {W : Type 0} (t : TableRef) (args : List Value) (vm : Vm W) where
  -- A traversal from the start of a call leaves the call's state as it was.
  pub for_next-fold :
      {S : Type 0} (f : S → Value → S) (body : S → M W S) (Fine : S → Value → Type 0)
      → ((a : S) (v : Value) (vm : Vm W) (s : List Value) (r : ℕ)
          → Fine a v
          → body a (record vm { stack = v ∷ s; room = r })
            ≡ done (f a v) (record vm { stack = s; room = suc r }))
      → (a : S) → AllFine f Fine a (table_at t (enter args vm))
      → for_next t a body (enter args vm)
        ≡ done (fold_values f a (table_at t (enter args vm))) (enter args vm)
  for_next-fold f body Fine step a fine =
      next_loop-fold f body Fine step (table_at t (enter args vm)) a fine (enter args vm) nil [] 18

  -- The loop that only counts gives the count of the entries.
  pub for_next-count :
      for_next t 0 (λ n. (do lua_pop; pure (n + 1))) (enter args vm)
      ≡ done (length (table_at t (enter args vm))) (enter args vm)
  for_next-count =
      for_next-fold (λ n _. n + 1) _ (λ _ _. Unit {0}) (λ a v vm s r _. refl) 0 (AllFine-unit _ 0 _)
      ∙ ap (λ n. done n (enter args vm))
          (omega (arith, fold_values-count 0 (table_at t (enter args vm))))

module _ {A : Type 0} (f : Value → A) where
  -- The values of the entries, in their order.
  abbrev pub values_by : Table → List A
  values_by [] = []
  values_by ((k, v) ∷ es) = f v ∷ values_by es

  -- A loop that appends collects them.
  pub fold_values-append :
      (xs : List A) (es : Table) → fold_values (λ xs v. xs ++ f v ∷ []) xs es ≡ xs ++ values_by es
  fold_values-append xs [] = sym (append-nil xs)
  fold_values-append xs ((k, v) ∷ es) =
      fold_values-append (xs ++ f v ∷ []) es ∙ append_assoc xs (f v ∷ []) (values_by es)

  -- Each value finds room in an array for as many as there are entries.
  pub AllFine-room :
      (n : ℕ) (xs : List A) (es : Table)
      → length xs + length es ≤ n
      → AllFine (λ xs v. xs ++ f v ∷ []) (λ xs v. length xs < n) xs es
  AllFine-room n xs [] h = tt
  AllFine-room n xs ((k, v) ∷ es) h = (
    omega (arith, h),
    AllFine-room n (xs ++ f v ∷ []) es (omega (arith, h, length-append xs (f v ∷ []))),
  )
