-- ===== src/Tasks/Outcome.antt =====
-- The two outcomes of add_inputs of bricoler, where every needed task is sound.
use bricoler.Base.{
  ℕ, zero, suc, String, ◌≡◌, refl, subst, ◌↔◌, ◌⊎◌, inl, inr, List, [], ◌∷◌, Memᴰ, All, end, ◌&◌,
  Bool, Option, some,
}
use mathlib.Core.List as List
use bricoler.Tasks.{stack_overflow, Result, ok, err}
use bricoler.Tasks.Parameter.{Numbers}
use bricoler.Tasks.Schedule.{Task, Schedule, for_inputs, add_inputs}
use bricoler.Tasks.Needs.{
  Needs, itself, input, Sound, Chain, empty, link, Adds, check_dependencies-ok, schedule-Adds,
}

module _ (numbers : Numbers) (tasks : String → Option (Task numbers)) (which : String → Bool) where
  -- Some of the names needs it.
  abbrev pub AnyNeeds : List String → String → Type 0
  AnyNeeds is m = (i : String) × Memᴰ i is × Needs numbers tasks which i m

  -- add_inputs either overflows, above a chain as long as the stack is deep, or adds what is needed.
  abbrev pub Outcome : ℕ → String → Schedule numbers → Result (Schedule numbers) → Type 0
  Outcome d n s r =
      ((r ≡ err stack_overflow) × Chain numbers tasks which d n)
      ⊎ ((s' : Schedule numbers) × (r ≡ ok s')
          × Adds numbers tasks which (λ m. Needs numbers tasks which n m) s s')

  abbrev Outcomes : ℕ → List String → Schedule numbers → Result (Schedule numbers) → Type 0
  Outcomes d is s r =
      ((r ≡ err stack_overflow) × ((i : String) × Memᴰ i is × Chain numbers tasks which d i))
      ⊎ ((s' : Schedule numbers) × (r ≡ ok s') × Adds numbers tasks which (AnyNeeds is) s s')

  Adds-trans :
      (P Q R : String → Type 0) (s s₁ s₂ : Schedule numbers)
      → ((m : String) → (P m ⊎ Q m) ↔ R m)
      → Adds numbers tasks which P s s₁
      → Adds numbers tasks which Q s₁ s₂
      → Adds numbers tasks which R s s₂
  Adds-trans P Q R s s₁ s₂ same one two m = (
    λ h. elim ((two m).0 h) [
      | inl before ↦ elim ((one m).0 before) [
        | inl old ↦ inl old
        | inr p ↦ inr ((same m).0 (inl p))
      ]
      | inr q ↦ inr ((same m).0 (inr q))
    ],
    λ h. elim h [
      | inl old ↦ (two m).1 (inl ((one m).1 (inl old)))
      | inr r ↦ elim ((same m).1 r) [
        | inl p ↦ (two m).1 (inl ((one m).1 (inr p)))
        | inr q ↦ (two m).1 (inr q)
      ]
    ],
  )

  AnyNeeds-cons :
      (i : String) (is : List String) (m : String)
      → (Needs numbers tasks which i m ⊎ AnyNeeds is m) ↔ AnyNeeds (i ∷ is) m
  AnyNeeds-cons i is m = (
    λ h. elim h [ inl w ↦ (i, Memᴰ.head refl, w) | inr (j, there, w) ↦ (j, Memᴰ.tail there, w) ],
    λ h. elim (List.Memᴰ.cases_cons h.1) [
      | inl same ↦ inl (subst (λ x. Needs numbers tasks which x m) same h.2)
      | inr there ↦ inr (h.0, there, h.2)
    ],
  )

  All-members :
      {P : String → Type 0} (xs : List String) → ((x : String) → Memᴰ x xs → P x) → All P xs
  All-members [] f = end
  All-members (x ∷ xs) f = f x (Memᴰ.head refl) & All-members xs (λ y k. f y (Memᴰ.tail k))

  for_inputs-Outcomes :
      (add : Task numbers → Schedule numbers → Result (Schedule numbers)) (d : ℕ) (is : List String)
      (s : Schedule numbers)
      → All
          (λ i.
            (t : Task numbers) × (tasks i ≡ some t)
            × ((s₁ : Schedule numbers) → Outcome d i s₁ (add t s₁)))
          is
      → Outcomes d is s (for_inputs numbers tasks which add is s)
  unfolding for_inputs
  for_inputs-Outcomes add d [] s end = inr (
    s,
    refl,
    λ m. (
      λ h. inl h,
      λ h. elim h [ inl old ↦ old | inr (i, there, w) ↦ absurd (List.Memᴰ.not-nil there) ],
    ),
  )
  for_inputs-Outcomes add d (i ∷ is) s (h & hs) = elim (h.2 s) [
    | inl (over, chain) ↦ inl (rw (for_inputs, h.1, over) refl, (i, Memᴰ.head refl, chain))
    | inr (s₁, e, adds) ↦ elim (for_inputs-Outcomes add d is s₁ hs) [
      | inl (over, (j, there, chain)) ↦
          inl (rw (for_inputs, h.1, e) over, (j, Memᴰ.tail there, chain))
      | inr (s₂, e₂, adds₂) ↦ inr (
        s₂,
        rw (for_inputs, h.1, e) e₂,
        Adds-trans _ _ _ s s₁ s₂ (λ m. AnyNeeds-cons i is m) adds adds₂,
      )
    ]
  ]

  Needs-first :
      (n : String) (k : Sound numbers tasks which n) (m : String)
      → Needs numbers tasks which n m
      → AnyNeeds k.task.inputs m ⊎ (n ≡ m)
  Needs-first n k m itself = inr refl
  Needs-first n k m (input {i = i} {t = t} e there w) =
      let same : t ≡ k.task = cc (e, k.defined) in
      inl (i, subst (λ x. Memᴰ i x.inputs) same there, w)

  -- A task needs itself and what its inputs need.
  Needs-unfold :
      (n : String) (k : Sound numbers tasks which n) (m : String)
      → (AnyNeeds k.task.inputs m ⊎ (n ≡ m)) ↔ Needs numbers tasks which n m
  Needs-unfold n k m = (
    λ h. elim h [
      | inl (i, there, w) ↦ input k.defined there w
      | inr same ↦ subst (λ x. Needs numbers tasks which n x) same itself
    ],
    Needs-first n k m,
  )

  pub add_inputs-Outcome :
      (d : ℕ) (n : String)
      (sound : (m : String) → Needs numbers tasks which n m → Sound numbers tasks which m)
      (s : Schedule numbers)
      → Outcome d n s (add_inputs numbers tasks which d (sound n itself).task s)
  unfolding add_inputs
  add_inputs-Outcome zero n sound s = inl (refl, empty)
  add_inputs-Outcome (suc d) n sound s =
      let k : Sound numbers tasks which n = sound n itself in
      let inputs = for_inputs-Outcomes (add_inputs numbers tasks which d) d k.task.inputs s (
        All-members k.task.inputs (λ i there.
          let below : (m : String) → Needs numbers tasks which i m → Sound numbers tasks which m =
            λ m w. sound m (input k.defined there w) in
          ((below i itself).task, (below i itself).defined, add_inputs-Outcome d i below))) in
      elim inputs [
        | inl (over, (i, there, chain)) ↦ inl (rw over refl, link k.defined there chain)
        | inr (s₁, e, adds) ↦
            let found = schedule-Adds numbers tasks which n s₁ k in
            inr (
              found.0,
              rw e (
                  rw (check_dependencies-ok numbers tasks which k.task.dependencies k.in_path)
                    found.1),
              Adds-trans _ _ _ s s₁ found.0 (Needs-unfold n k) adds found.2,
            )
      ]
