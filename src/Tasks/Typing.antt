-- ===== src/Tasks/Typing.antt =====
-- The type of a parameter's value: what bind has let through and converted.
use bricoler.Base.{
  String, ◌≡◌, refl, ◌∙◌, subst, List, [], ◌∷◌, Bool, true, false, Option, none, some,
  if◌then◌else◌, Bool-cases, Option-cases, inl, inr, arith,
}
use bricoler.Tasks.{Result, ok, ◌>>=◌, Result-cases}
use bricoler.Tasks.Parameter.{
  Numbers, Value, boolean, number, string, object, tonumber, Parameter, check_valid, has_type,
  to_boolean, convert, bind, Args, fresh, inferred, construct, bound,
}

module _ (numbers : Numbers) where
  abbrev pub is_boolean : Value numbers → Bool
  is_boolean (boolean b) = true
  is_boolean _ = false

  abbrev pub is_number : Value numbers → Bool
  is_number (number n) = true
  is_number _ = false

  -- A value as a parameter of the type promises it.
  abbrev pub fits : Option String → Value numbers → Bool
  fits t v =
      if has_type numbers t "boolean"
      then is_boolean v
      else if has_type numbers t "number"
      then is_number v
      else true

  -- The value comes by conversion from a valid one, and is of the parameter's type.
  pub record Justified (p : Parameter numbers) : Type 0 where
    pub given : Value numbers
    pub accepted : check_valid numbers p.valid given ≡ ok tt
    pub converted : convert numbers p.type given ≡ ok p.value
    pub typed : fits p.type p.value ≡ true

  -- Values bound one after the other, each with its source.
  abbrev pub bind_all :
      Parameter numbers → List (Value numbers × String) → Result (Parameter numbers)
  bind_all p [] = ok p
  bind_all p ((v, source) ∷ vs) = bind numbers p v source >>= λ q. bind_all q vs

  -- The type of the parameter, inferred from the default where none is given.
  abbrev pub declared : Args numbers → Option String
  declared args = elim args.default [ none ↦ args.type | some v ↦ inferred numbers args.type v ]

  to_boolean-typed : (v w : Value numbers) → to_boolean numbers v ≡ ok w → is_boolean w ≡ true
  unfolding to_boolean
  to_boolean-typed (boolean b) w e = ground (arith)
  to_boolean-typed (string s) w e = ground (arith)
  to_boolean-typed (number n) w e = ground arith
  to_boolean-typed (object t i) w e = ground arith

  convert-fits :
      (t : Option String) (v w : Value numbers) → convert numbers t v ≡ ok w → fits t w ≡ true
  unfolding convert
  convert-fits t v w e = elim (Bool-cases (has_type numbers t "boolean")) [
    | inl b ↦ rw b (to_boolean-typed v w (rw b at e))
    | inr b ↦ elim (Bool-cases (has_type numbers t "number")) [
      | inl n ↦ (elim (Option-cases (tonumber numbers v)) [
        | inl o ↦ ground (arith, rw (b, n, o) at e)
        | inr (k, o) ↦ ground (arith, rw (b, n, o) at e)
      ])
      | inr n ↦ ground arith
    ]
  ]

  abbrev Carries : Parameter numbers → Parameter numbers → Type 0
  Carries p q = Justified q × (q.type ≡ p.type)

  bind-Carries :
      (p q : Parameter numbers) (v : Value numbers) (source : String)
      → bind numbers p v source ≡ ok q
      → Carries p q
  unfolding bind
  bind-Carries p q v source e = elim (Result-cases (check_valid numbers p.valid v)) [
    | inl (x, bad) ↦ ground (arith, rw bad at e)
    | inr (_, good) ↦ elim (Result-cases (convert numbers p.type v)) [
      | inl (x, bad) ↦ ground (arith, rw (good, bad) at e)
      | inr (w, right) ↦
          let same : record p { source = source; value = w } ≡ q = cc (rw (good, right) at e) in
          subst (λ r. Carries p r) same
            (
              record {
                given = v;
                accepted = good;
                converted = right;
                typed = convert-fits p.type v w right;
              },
              refl,
            )
    ]
  ]

  bind_all-Carries :
      (p q : Parameter numbers) (vs : List (Value numbers × String))
      → bind_all p vs ≡ ok q
      → (bound numbers p ≡ true → Justified p)
      → (bound numbers q ≡ true → Justified q) × (q.type ≡ p.type)
  bind_all-Carries p q [] e j =
      let same : p ≡ q = cc e in
      subst (λ r. (bound numbers r ≡ true → Justified r) × (r.type ≡ p.type)) same (j, refl)
  bind_all-Carries p q ((v, source) ∷ vs) e j = elim (Result-cases (bind numbers p v source)) [
    | inl (x, bad) ↦ absurd (cc (rw bad at e))
    | inr (r, good) ↦
        let first = bind-Carries p r v source good in
        let rest = bind_all-Carries r q vs (rw good at e) (λ _. first.0) in
        (rest.0, rest.1 ∙ first.1)
  ]

  construct-Carries :
      (args : Args numbers) (p : Parameter numbers)
      → construct numbers args ≡ ok p
      → (bound numbers p ≡ true → Justified p) × (p.type ≡ declared args)
  unfolding construct bound
  construct-Carries args p e = elim (Option-cases args.default) [
    | inl missing ↦
        let same : fresh numbers args ≡ p = cc (rw missing at e) in
        rw missing (
          subst (λ r. (bound numbers r ≡ true → Justified r) × (r.type ≡ args.type)) same
            (λ bad. absurd (cc bad), refl))
    | inr (v, set) ↦
        let first =
          bind-Carries (record (fresh numbers args) { type = inferred numbers args.type v }) p v
            "default" (rw set at e) in
        ((λ _. first.0), rw set first.1)
  ]

  -- Once a parameter is made and any values are bound to it, a value that it has comes by
  -- conversion from one that its test accepts, and is a boolean or a number where its type says so;
  -- the type is the given one, or that of the default.
  pub bind_all-typed :
      (args : Args numbers) (vs : List (Value numbers × String)) (p : Parameter numbers)
      → construct numbers args >>= (λ q. bind_all q vs) ≡ ok p
      → (bound numbers p ≡ true → Justified p) × (p.type ≡ declared args)
  bind_all-typed args vs p e = elim (Result-cases (construct numbers args)) [
    | inl (x, bad) ↦ absurd (cc (rw bad at e))
    | inr (q, good) ↦
        let first = construct-Carries args q good in
        let rest = bind_all-Carries q p vs (rw good at e) first.0 in (rest.0, rest.1 ∙ first.1)
  ]
