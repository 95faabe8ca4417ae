-- ===== src/Tasks/Precedence.antt =====
-- Which setting of bricoler's command line a parameter has in the end.
use bricoler.Base.{
  ◌≡◌, refl, sym, ap, subst, ◌∙◌, List, [], ◌∷◌, ◌++◌, false, Option, some, Option-cases,
  if◌then◌else◌, codes, All, end, ◌&◌, Bool-cases, inl, inr,
}
use bricoler.Lua.Tables.{bytes_eq}
use bricoler.Lua.Lookup.{bytes_eq→eq}
use bricoler.Tasks.{ok, Result-cases}
use bricoler.Tasks.Parameter.{Text, Numbers, string, Parameter, check_valid, convert, bind}
use bricoler.Tasks.Schedule.{Schedule}
use bricoler.Tasks.Settings.{match}
use bricoler.Tasks.CommandLine.{
  Parameters, bind_parameter, bind_setting, command_line, find_parameter, parameter_at,
}

module _ (numbers : Numbers) where
  -- The parameter has the value of the setting.
  pub record SetTo (v : Text) (o : Option (Parameter numbers)) : Type 0 where
    pub parameter : Parameter numbers
    pub found : o ≡ some parameter
    pub from_command_line : parameter.source ≡ "command line"
    pub converted : convert numbers parameter.type (string v) ≡ ok parameter.value

  bind-SetTo :
      (v : Text) (x y : Parameter numbers)
      → bind numbers x (string v) "command line" ≡ ok y
      → SetTo v (some y)
  unfolding bind
  bind-SetTo v x y e = elim (Result-cases (check_valid numbers x.valid (string v))) [
    | inl (_, bad) ↦ absurd (cc (rw bad at e))
    | inr (_, good) ↦ elim (Result-cases (convert numbers x.type (string v))) [
      | inl (_, bad) ↦ absurd (cc (rw (good, bad) at e))
      | inr (w, right) ↦
          let same : record x { source = "command line"; value = w } ≡ y =
            cc (rw (good, right) at e) in
          subst (λ r. SetTo v (some r)) same
            (record { parameter = _; found = refl; from_command_line = refl; converted = right })
    ]
  ]

  bind_parameter-SetTo :
      (p v : Text) (ps qs : Parameters numbers)
      → bind_parameter numbers p v ps ≡ ok qs
      → SetTo v (find_parameter numbers p qs)
  unfolding bind_parameter find_parameter
  bind_parameter-SetTo p v [] qs e = absurd (cc e)
  bind_parameter-SetTo p v ((k, x) ∷ ps) qs e = elim (Bool-cases (bytes_eq (codes k) p)) [
    | inl here ↦ elim (Result-cases (bind numbers x (string v) "command line")) [
      | inl (_, bad) ↦ absurd (cc (rw (here, bad) at e))
      | inr (y, good) ↦
          let same : (k, y) ∷ ps ≡ qs = cc (rw (here, good) at e) in
          subst (λ l. SetTo v (find_parameter numbers p l)) same (rw here (bind-SetTo v x y good))
    ]
    | inr later ↦ elim (Result-cases (bind_parameter numbers p v ps)) [
      | inl (_, bad) ↦ absurd (cc (rw (later, bad) at e))
      | inr (others, good) ↦
          let same : (k, x) ∷ others ≡ qs = cc (rw (later, good) at e) in
          subst (λ l. SetTo v (find_parameter numbers p l)) same
            (rw later (bind_parameter-SetTo p v ps others good))
    ]
  ]

  bind_setting-SetTo :
      (t p v : Text) (s s' : Schedule numbers)
      → bind_setting numbers t p v s ≡ ok s'
      → SetTo v (parameter_at numbers t p s')
  unfolding bind_setting parameter_at
  bind_setting-SetTo t p v [] s' e = absurd (cc e)
  bind_setting-SetTo t p v (x ∷ s) s' e = elim (Bool-cases (bytes_eq (codes x.name) t)) [
    | inl here ↦ elim (Result-cases (bind_parameter numbers p v x.parameters)) [
      | inl (_, bad) ↦ absurd (cc (rw (here, bad) at e))
      | inr (qs, good) ↦
          let same : record x { parameters = qs } ∷ s ≡ s' = cc (rw (here, good) at e) in
          subst (λ l. SetTo v (parameter_at numbers t p l)) same
            (rw here (bind_parameter-SetTo p v x.parameters qs good))
    ]
    | inr later ↦ elim (Result-cases (bind_setting numbers t p v s)) [
      | inl (_, bad) ↦ absurd (cc (rw (later, bad) at e))
      | inr (others, good) ↦
          let same : x ∷ others ≡ s' = cc (rw (later, good) at e) in
          subst (λ l. SetTo v (parameter_at numbers t p l)) same
            (rw later (bind_setting-SetTo t p v s others good))
    ]
  ]

  bind_parameter-other :
      (p p' v : Text) (ps qs : Parameters numbers)
      → bind_parameter numbers p' v ps ≡ ok qs
      → ¬ (p' ≡ p)
      → find_parameter numbers p qs ≡ find_parameter numbers p ps
  unfolding bind_parameter find_parameter
  bind_parameter-other p p' v [] qs e other = absurd (cc e)
  bind_parameter-other p p' v ((k, x) ∷ ps) qs e other = elim (Bool-cases (bytes_eq (codes k) p')) [
    | inl here ↦ elim (Result-cases (bind numbers x (string v) "command line")) [
      | inl (_, bad) ↦ absurd (cc (rw (here, bad) at e))
      | inr (y, good) ↦
          let same : (k, y) ∷ ps ≡ qs = cc (rw (here, good) at e) in
          let apart : bytes_eq (codes k) p ≡ false = elim (Bool-cases (bytes_eq (codes k) p)) [
            | inl q ↦
                absurd (other (sym (bytes_eq→eq (codes k) p' here) ∙ bytes_eq→eq (codes k) p q))
            | inr q ↦ q
          ] in
          subst (λ l. find_parameter numbers p l ≡ find_parameter numbers p ((k, x) ∷ ps)) same
            (rw apart refl)
    ]
    | inr later ↦ elim (Result-cases (bind_parameter numbers p' v ps)) [
      | inl (_, bad) ↦ absurd (cc (rw (later, bad) at e))
      | inr (others, good) ↦
          let same : (k, x) ∷ others ≡ qs = cc (rw (later, good) at e) in
          let ih = bind_parameter-other p p' v ps others good other in
          subst (λ l. find_parameter numbers p l ≡ find_parameter numbers p ((k, x) ∷ ps)) same
            (ap (λ o. if bytes_eq (codes k) p then some x else o) ih)
    ]
  ]

  bind_setting-other :
      (t p t' p' v : Text) (s s' : Schedule numbers)
      → bind_setting numbers t' p' v s ≡ ok s'
      → (t' ≡ t → ¬ (p' ≡ p))
      → parameter_at numbers t p s' ≡ parameter_at numbers t p s
  unfolding bind_setting parameter_at
  bind_setting-other t p t' p' v [] s' e other = absurd (cc e)
  bind_setting-other t p t' p' v (x ∷ s) s' e other =
      elim (Bool-cases (bytes_eq (codes x.name) t')) [
        | inl here ↦ elim (Result-cases (bind_parameter numbers p' v x.parameters)) [
          | inl (_, bad) ↦ absurd (cc (rw (here, bad) at e))
          | inr (qs, good) ↦
              let same : record x { parameters = qs } ∷ s ≡ s' = cc (rw (here, good) at e) in
              subst (λ l. parameter_at numbers t p l ≡ parameter_at numbers t p (x ∷ s)) same
                (elim (Bool-cases (bytes_eq (codes x.name) t)) [
                  | inl q ↦ rw q (
                      bind_parameter-other p p' v x.parameters qs good (
                        other (
                          sym (bytes_eq→eq (codes x.name) t' here)
                          ∙ bytes_eq→eq (codes x.name) t q)))
                  | inr q ↦ rw q refl
                ])
        ]
        | inr later ↦ elim (Result-cases (bind_setting numbers t' p' v s)) [
          | inl (_, bad) ↦ absurd (cc (rw (later, bad) at e))
          | inr (others, good) ↦
              let same : x ∷ others ≡ s' = cc (rw (later, good) at e) in
              let ih = bind_setting-other t p t' p' v s others good other in
              subst (λ l. parameter_at numbers t p l ≡ parameter_at numbers t p (x ∷ s)) same
                (ap
                  (λ o.
                    if bytes_eq (codes x.name) t then find_parameter numbers p x.parameters else o)
                  ih)
        ]
      ]

  command_line-cons :
      (y : Text) (ys : List Text) (s s' : Schedule numbers)
      → command_line numbers (y ∷ ys) s ≡ ok s'
      → (found : Text × Text × Text) × (match y ≡ some found)
        × ((s₁ : Schedule numbers) × (bind_setting numbers found.0 found.1 found.2 s ≡ ok s₁)
            × (command_line numbers ys s₁ ≡ ok s'))
  unfolding command_line
  command_line-cons y ys s s' e = elim (Option-cases (match y)) [
    | inl bad ↦ absurd (cc (rw (command_line, bad) at e))
    | inr (found, m) ↦ elim (Result-cases (bind_setting numbers found.0 found.1 found.2 s)) [
      | inl (_, bad) ↦ absurd (cc (rw (command_line, m, bad) at e))
      | inr (s₁, good) ↦ (found, m, (s₁, good, rw (command_line, m, good) at e))
    ]
  ]

  -- The setting, where it is one, is not of this parameter.
  abbrev pub Elsewhere : Text → Text → Text → Type 0
  Elsewhere t p y =
      (found : Text × Text × Text) → match y ≡ some found → found.0 ≡ t → ¬ (found.1 ≡ p)

  command_line-others :
      (t p : Text) (ys : List Text) (s s' : Schedule numbers)
      → All (Elsewhere t p) ys
      → command_line numbers ys s ≡ ok s'
      → parameter_at numbers t p s' ≡ parameter_at numbers t p s
  unfolding command_line
  command_line-others t p [] s s' end e =
      let same : s ≡ s' = cc e in ap (λ l. parameter_at numbers t p l) (sym same)
  command_line-others t p (y ∷ ys) s s' (other & others) e =
      let (found, m, (s₁, first, rest)) = command_line-cons y ys s s' e in
      command_line-others t p ys s₁ s' others rest
      ∙ bind_setting-other t p found.0 found.1 found.2 s s₁ first (other found m)

  -- Where the loop over the settings of the command line ends without an error, the last setting of a
  -- parameter has won: the parameter's value is that setting's, converted to the parameter's type, and
  -- its source is the command line.
  pub command_line-last :
      (xs ys : List Text) (x t p v : Text) (s s' : Schedule numbers)
      → match x ≡ some (t, p, v)
      → All (Elsewhere t p) ys
      → command_line numbers (xs ++ x ∷ ys) s ≡ ok s'
      → SetTo v (parameter_at numbers t p s')
  command_line-last [] ys x t p v s s' m others e =
      let (found, m', (s₁, first, rest)) = command_line-cons x ys s s' e in
      let same : found ≡ (t, p, v) = cc (m, m') in
      let set : SetTo v (parameter_at numbers t p s₁) = bind_setting-SetTo t p v s s₁ (
        subst (λ (f : Text × Text × Text). bind_setting numbers f.0 f.1 f.2 s ≡ ok s₁) same
          first) in
      subst (λ o. SetTo v o) (sym (command_line-others t p ys s₁ s' others rest)) set
  command_line-last (x₀ ∷ xs) ys x t p v s s' m others e =
      let (found, m', (s₁, first, rest)) = command_line-cons x₀ (xs ++ x ∷ ys) s s' e in
      command_line-last xs ys x t p v s₁ s' m others rest
