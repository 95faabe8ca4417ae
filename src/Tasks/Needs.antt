-- ===== src/Tasks/Needs.antt =====
-- The tasks that a target needs, the chains of inputs below it, and what add_inputs of bricoler does
-- where every needed task is sound.
use bricoler.Base.{
  ℕ, zero, suc, String, ◌≡◌, refl, sym, ◌∙◌, subst, ◌↔◌, ◌⊎◌, inl, inr, List, [], ◌∷◌, Memᴰ, All,
  end, ◌&◌, Bool, true, Option, some, str_eq, eq_iff, Bool-cases,
}
use bricoler.Tasks.{ok}
use bricoler.Tasks.Parameter.{Numbers, Parameter, Args, construct}
use bricoler.Tasks.Schedule.{
  Task, Entry, Schedule, scheduled, make_parameters, schedule, check_dependencies,
}

module _ (numbers : Numbers) (tasks : String → Option (Task numbers)) (which : String → Bool) where
  -- The second is the first, or an input of what it needs.
  pub data Needs : String → String → Type 0 where
    itself : {n : String} → Needs n n
    input :
        {n i m : String} {t : Task numbers}
        → tasks n ≡ some t
        → Memᴰ i t.inputs
        → Needs i m
        → Needs n m

  -- The task is defined under its name, what it depends on is in PATH, and its parameters can be made.
  pub record Sound (n : String) : Type 0 where
    pub task : Task numbers
    pub defined : tasks n ≡ some task
    pub named : task.name ≡ n
    pub in_path : All (λ dep. which dep ≡ true) task.dependencies
    pub constructible :
        All (λ e. (p : Parameter numbers) × (construct numbers e.1 ≡ ok p)) task.parameters

  -- A chain of so many inputs.
  pub data Chain : ℕ → String → Type 0 where
    empty : {n : String} → Chain zero n
    link :
        {d : ℕ} {n i : String} {t : Task numbers}
        → tasks n ≡ some t
        → Memᴰ i t.inputs
        → Chain d i
        → Chain (suc d) n

  -- The second schedule has what the first has, and the names of the property.
  abbrev pub Adds : (String → Type 0) → Schedule numbers → Schedule numbers → Type 0
  Adds P s s' =
      (m : String) → (scheduled numbers m s' ≡ true) ↔ ((scheduled numbers m s ≡ true) ⊎ P m)

  make_parameters-ok :
      (ps : List (String × Args numbers))
      → All (λ e. (p : Parameter numbers) × (construct numbers e.1 ≡ ok p)) ps
      → (qs : List (String × Parameter numbers)) × (make_parameters numbers ps ≡ ok qs)
  unfolding make_parameters
  make_parameters-ok [] end = ([], refl)
  make_parameters-ok ((k, args) ∷ ps) (h & hs) =
      let rest = make_parameters-ok ps hs in ((k, h.0) ∷ rest.0, rw h.1 (rw rest.1 refl))

  pub check_dependencies-ok :
      (deps : List String)
      → All (λ dep. which dep ≡ true) deps
      → check_dependencies numbers tasks which deps ≡ ok tt
  unfolding check_dependencies
  check_dependencies-ok [] end = refl
  check_dependencies-ok (dep ∷ deps) (h & hs) = rw h (check_dependencies-ok deps hs)

  -- The names of a schedule with one entry more.
  entry-Adds :
      (n : String) (e : Entry numbers) (s : Schedule numbers)
      → e.name ≡ n
      → Adds (λ m. n ≡ m) s (e ∷ s)
  unfolding scheduled
  entry-Adds n e s same m = (
    λ h. elim (Bool-cases (str_eq e.name m)) [
      | inl found ↦ inr (sym same ∙ (eq_iff e.name m).0 found)
      | inr other ↦ inl (rw other at h)
    ],
    λ h. elim h [
      | inl before ↦ elim (Bool-cases (str_eq e.name m)) [
        | inl found ↦ rw found refl
        | inr other ↦ rw other before
      ]
      | inr here ↦ rw ((eq_iff e.name m).1 (same ∙ here)) refl
    ],
  )

  pub schedule-Adds :
      (n : String) (s : Schedule numbers) (k : Sound n)
      → (s' : Schedule numbers) × (schedule numbers k.task s ≡ ok s') × Adds (λ m. n ≡ m) s s'
  unfolding schedule
  schedule-Adds n s k = elim (Bool-cases (scheduled numbers k.task.name s)) [
    | inl old ↦
        let same_there : (m : String) → n ≡ m → scheduled numbers m s ≡ true =
          λ m here. subst (λ x. scheduled numbers x s ≡ true) (k.named ∙ here) old in
        (
          s,
          rw old refl,
          λ m. (λ h. inl h, λ h. elim h [ inl before ↦ before | inr here ↦ same_there m here ]),
        )
    | inr new ↦
        let made = make_parameters-ok k.task.parameters k.constructible in
        let e : Entry numbers = record { name = k.task.name; parameters = made.0 } in
        (e ∷ s, rw new (rw made.1 refl), entry-Adds n e s k.named)
  ]
