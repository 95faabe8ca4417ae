-- ===== src/Tasks/Plans.antt =====
-- The schedule of a target of bricoler: acyclic inputs are all scheduled, cyclic ones overflow the
-- stack.
use bricoler.Base.{
  ℕ, zero, suc, String, ◌≡◌, ◌≢◌, subst, Option-cases, ◌↔◌, ◌≤◌, ◌<◌, inl, inr, List, [], ◌∷◌, Memᴰ,
  Option, some, Bool, true, arith,
}
use bricoler.Tasks.{stack_overflow, Result, ok, err, Result-cases}
use bricoler.Tasks.Parameter.{Numbers}
use bricoler.Tasks.Schedule.{Task, Schedule, scheduled, for_inputs, add_inputs, plan}
use bricoler.Tasks.Needs.{Needs, itself, input, Sound, Chain, empty, link}
use bricoler.Tasks.Outcome.{add_inputs-Outcome}

module _ (numbers : Numbers) (tasks : String → Option (Task numbers)) (which : String → Bool) where
  abbrev pub AllSound : String → Type 0
  AllSound target = (m : String) → Needs numbers tasks which target m → Sound numbers tasks which m

  -- The rank falls from every needed task to its inputs.
  abbrev pub Falls : (String → ℕ) → String → Type 0
  Falls rank target =
      (n i : String) (t : Task numbers)
      → Needs numbers tasks which target n
      → tasks n ≡ some t
      → Memᴰ i t.inputs
      → rank i < rank n

  -- Every task of the set has an input in the set.
  abbrev pub Cyclic : (String → Type 0) → Type 0
  Cyclic P =
      (n : String)
      → P n
      → (t : Task numbers) × (tasks n ≡ some t) × ((i : String) × Memᴰ i t.inputs × P i)

  Chain-rank :
      (rank : String → ℕ) (d : ℕ) (n : String)
      → Falls rank n
      → Chain numbers tasks which d n
      → d ≤ rank n
  Chain-rank rank zero n falls empty = omega arith
  Chain-rank rank (suc d) n falls (link {i = i} {t = t} e there rest) =
      let lower = falls n i t itself e there in
      let below = Chain-rank rank d i (λ m j u w. falls m j u (input e there w)) rest in
      omega (arith, lower, below)

  Cyclic-Chain :
      (P : String → Type 0) → Cyclic P → (d : ℕ) (n : String) → P n → Chain numbers tasks which d n
  Cyclic-Chain P cyclic zero n p = empty
  Cyclic-Chain P cyclic (suc d) n p =
      let step = cyclic n p in link step.1 step.2.1 (Cyclic-Chain P cyclic d step.2.0 step.2.2)

  for_inputs-cons :
      (add : Task numbers → Schedule numbers → Result (Schedule numbers)) (j : String)
      (is : List String) (s s' : Schedule numbers)
      → for_inputs numbers tasks which add (j ∷ is) s ≡ ok s'
      → (t : Task numbers) × (tasks j ≡ some t)
        × ((s₁ : Schedule numbers) × (add t s ≡ ok s₁)
            × (for_inputs numbers tasks which add is s₁ ≡ ok s'))
  unfolding for_inputs
  for_inputs-cons add j is s s' e = elim (Option-cases (tasks j)) [
    | inl missing ↦ absurd (cc (rw (for_inputs, missing) at e))
    | inr (t, defined) ↦ elim (Result-cases (add t s)) [
      | inl (x, bad) ↦ absurd (cc (rw (for_inputs, defined, bad) at e))
      | inr (s₁, good) ↦ (t, defined, (s₁, good, rw (for_inputs, defined, good) at e))
    ]
  ]

  -- A loop over the inputs fails where one of them does.
  for_inputs-fails :
      (add : Task numbers → Schedule numbers → Result (Schedule numbers)) (i : String)
      (is : List String) (s s' : Schedule numbers)
      → Memᴰ i is
      → ((t : Task numbers) → tasks i ≡ some t → (s₁ s₂ : Schedule numbers) → add t s₁ ≢ ok s₂)
      → for_inputs numbers tasks which add is s ≢ ok s'
  for_inputs-fails add i [] s s' there fails e = elim there [ ]
  for_inputs-fails add i (j ∷ is) s s' (Memᴰ.head same) fails e =
      let first = for_inputs-cons add j is s s' e in
      fails first.0 (rw same first.1) s first.2.0 first.2.1
  for_inputs-fails add i (j ∷ is) s s' (Memᴰ.tail there) fails e =
      let first = for_inputs-cons add j is s s' e in
      for_inputs-fails add i is first.2.0 s' there fails first.2.2

  add_inputs-fails :
      (d : ℕ) (n : String)
      → Chain numbers tasks which d n
      → (t : Task numbers) → tasks n ≡ some t
      → (s s' : Schedule numbers) → add_inputs numbers tasks which d t s ≢ ok s'
  unfolding add_inputs
  add_inputs-fails zero n empty t e s s' h = cc h
  add_inputs-fails (suc d) n (link {i = i} {t = u} e₀ there rest) t e s s' h =
      let same : u ≡ t = cc (e₀, e) in
      elim (Result-cases
        (for_inputs numbers tasks which (add_inputs numbers tasks which d) t.inputs s)) [
          | inl (x, bad) ↦ absurd (cc (rw bad at h))
          | inr (s₁, good) ↦
              for_inputs-fails (add_inputs numbers tasks which d) i t.inputs s s₁
                (subst (λ x. Memᴰ i x.inputs) same there) (add_inputs-fails d i rest) good
        ]

  -- Where every needed task is sound, the stack overflows just above the chains of its depth.
  plan-overflows :
      (target : String) (depth : ℕ)
      → AllSound target
      → Chain numbers tasks which depth target
      → plan numbers tasks which depth target ≡ err stack_overflow
  unfolding plan
  plan-overflows target depth sound chain =
      let k : Sound numbers tasks which target = sound target itself in
      elim (add_inputs-Outcome numbers tasks which depth target sound []) [
        | inl (over, _) ↦ rw (plan, k.defined) over
        | inr (s, e, _) ↦ absurd (add_inputs-fails depth target chain k.task k.defined [] s e)
      ]

  -- Where every needed task is sound, a rank falls from each needed task to its inputs and the stack
  -- has room for more calls than the target's rank, the schedule is built, and what it has is just
  -- what the target needs: itself and the inputs of what it needs.
  pub plan-schedules :
      (target : String) (depth : ℕ) (rank : String → ℕ)
      → AllSound target
      → Falls rank target
      → rank target < depth
      → (s : Schedule numbers) × (plan numbers tasks which depth target ≡ ok s)
        × ((m : String) → (scheduled numbers m s ≡ true) ↔ Needs numbers tasks which target m)
  unfolding plan scheduled
  plan-schedules target depth rank sound falls room =
      let k : Sound numbers tasks which target = sound target itself in
      elim (add_inputs-Outcome numbers tasks which depth target sound []) [
        | inl (_, chain) ↦
            let deep = Chain-rank rank depth target falls chain in
            absurd (omega (arith, deep, room))
        | inr (s, e, adds) ↦ (
          s,
          rw (plan, k.defined) e,
          λ m. (
            λ h. elim ((adds m).0 h) [ inl bad ↦ absurd (cc bad) | inr w ↦ w ],
            λ w. (adds m).1 (inr w),
          ),
        )
      ]

  -- Where every needed task is sound and the target is in a set of tasks each of which has an input
  -- in the set, the stack overflows however deep it is.
  pub plan-cyclic :
      (target : String) (P : String → Type 0)
      → AllSound target
      → Cyclic P
      → P target
      → (depth : ℕ) → plan numbers tasks which depth target ≡ err stack_overflow
  plan-cyclic target P sound cyclic p depth =
      plan-overflows target depth sound (Cyclic-Chain P cyclic depth target p)
