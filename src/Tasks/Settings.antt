-- ===== src/Tasks/Settings.antt =====
-- The settings of parameters on bricoler's command line, "<task>:<param>=<value>": the match of the
-- pattern "([^=:]+):([^=]+)=(.*)" in the constructor of TaskSchedule.
use bricoler.Base.{
  ℕ, ◌≡◌, refl, ap, ◌∙◌, [], ◌∷◌, ◌++◌, Bool, true, false, not, Option, none, some, if◌then◌else◌,
  ◌==◌, ◌||◌, All, end, ◌&◌, arith, Bool-cases, inl, inr,
}
use bricoler.Tasks.Parameter.{Text}

-- ':' and '='
abbrev pub colon : ℕ
colon = 58

abbrev pub equals : ℕ
equals = 61

-- The longest prefix of characters of the class, and what follows it: the classes of the pattern do
-- not hold the character that has to follow them, so that no shorter prefix can match.
unfoldable pub span : (ℕ → Bool) → Text → Text × Text
span class [] = ([], [])
span class (c ∷ s) =
    let rest = span class s in if class c then (c ∷ rest.0, rest.1) else ([], c ∷ s)

abbrev pub in_task : ℕ → Bool
in_task c = not (c == equals || c == colon)

abbrev pub in_param : ℕ → Bool
in_param c = not (c == equals)

abbrev stopped : ℕ → Text × Text → Option (Text × Text)
stopped stop ([], rest) = none
stopped stop (c ∷ field, []) = none
stopped stop (c ∷ field, d ∷ rest) = if d == stop then some (c ∷ field, rest) else none

-- class+ and the character behind it.
unfoldable pub match_field : (ℕ → Bool) → ℕ → Text → Option (Text × Text)
unfolding span
match_field class stop s = stopped stop (span class s)

-- A match that begins with the text: the task, the parameter and the value.
unfoldable pub match_at : Text → Option (Text × Text × Text)
unfolding match_field
match_at s = elim (match_field in_task colon s) [
  | none ↦ none
  | some (t, rest) ↦ elim (match_field in_param equals rest) [
    | none ↦ none
    | some (p, v) ↦ some (t, p, v)
  ]
]

abbrev or_else :
    Option (Text × Text × Text) → Option (Text × Text × Text) → Option (Text × Text × Text)
or_else none later = later
or_else (some found) later = some found

-- s:match(pattern), the first match in the text.
unfoldable pub match : Text → Option (Text × Text × Text)
unfolding match_at
match [] = none
match (c ∷ s) = or_else (match_at (c ∷ s)) (match s)

-- A setting, as the message of the command line describes it.
abbrev pub setting : Text → Text → Text → Text
setting t p v = t ++ (colon ∷ p ++ equals ∷ v)

span-stop :
    (class : ℕ → Bool) (stop : ℕ) (s rest : Text)
    → All (λ c. class c ≡ true) s
    → class stop ≡ false
    → span class (s ++ stop ∷ rest) ≡ (s, stop ∷ rest)
unfolding span
span-stop class stop [] rest end h = rw h refl
span-stop class stop (c ∷ s) rest (k & ks) h = rw (k, span-stop class stop s rest ks h) refl

match_field-stop :
    (class : ℕ → Bool) (stop c : ℕ) (s rest : Text)
    → All (λ c. class c ≡ true) (c ∷ s)
    → class stop ≡ false
    → match_field class stop (c ∷ s ++ stop ∷ rest) ≡ some (c ∷ s, rest)
unfolding match_field
match_field-stop class stop c s rest ks h =
    rw (span-stop class stop (c ∷ s) rest ks h) (ground arith)

match_at-found :
    (s t rest p v : Text)
    → match_field in_task colon s ≡ some (t, rest)
    → match_field in_param equals rest ≡ some (p, v)
    → match_at s ≡ some (t, p, v)
unfolding match_at
match_at-found s t rest p v h k = rw (match_at, h, k) refl

match_at-none : (s : Text) → match_field in_task colon s ≡ none → match_at s ≡ none
unfolding match_at
match_at-none s h = rw (match_at, h) refl

span-equals :
    (s rest : Text)
    → All (λ c. (c == colon) ≡ false) s
    → (u : Text) × (v : Text) × (span in_task (s ++ equals ∷ rest) ≡ (u, equals ∷ v))
unfolding span
span-equals [] rest end = ([], rest, refl)
span-equals (c ∷ s) rest (k & ks) = elim (Bool-cases (in_task c)) [
  | inl b ↦ let (u, v, e) = span-equals s rest ks in (c ∷ u, v, rw (b, e) refl)
  | inr b ↦
      let same : c ≡ equals = ground (arith, b, k) in
      ([], s ++ equals ∷ rest, rw b (ap (λ x. ([], x ∷ s ++ equals ∷ rest)) same))
]

-- No match begins where the task's characters run into an equals sign.
match_field-equals :
    (s rest : Text)
    → All (λ c. (c == colon) ≡ false) s
    → match_field in_task colon (s ++ equals ∷ rest) ≡ none
unfolding match_field
match_field-equals s rest ks =
    let (u, v, e) = span-equals s rest ks in ap (λ x. stopped colon x) e ∙ stopped-equals u v
  where
    stopped-equals : (u v : Text) → stopped colon (u, equals ∷ v) ≡ none
    stopped-equals [] v = refl
    stopped-equals (c ∷ u) v = refl

match-skips :
    (s rest : Text) → All (λ c. (c == colon) ≡ false) s → match (s ++ equals ∷ rest) ≡ match rest
unfolding match
match-skips [] rest end =
    ap (λ o. or_else o (match rest))
      (match_at-none (equals ∷ rest) (match_field-equals [] rest end))
match-skips (c ∷ s) rest (k & ks) =
    ap (λ o. or_else o (match (s ++ equals ∷ rest)))
      (match_at-none (c ∷ s ++ equals ∷ rest) (match_field-equals (c ∷ s) rest (k & ks)))
    ∙ match-skips s rest ks

setting-found :
    (t p v : Text) (c d : ℕ)
    → All (λ x. in_task x ≡ true) (c ∷ t)
    → All (λ x. in_param x ≡ true) (d ∷ p)
    → match_at (setting (c ∷ t) (d ∷ p) v) ≡ some (c ∷ t, d ∷ p, v)
setting-found t p v c d k l =
    match_at-found (setting (c ∷ t) (d ∷ p) v) (c ∷ t) (d ∷ p ++ equals ∷ v) (d ∷ p) v
      (match_field-stop in_task colon c t (d ∷ p ++ equals ∷ v) k refl)
      (match_field-stop in_param equals d p v l refl)

-- A setting of a task, a parameter and a value is taken apart into the three, for any task without
-- ':' and '=' and parameter without '=', both not empty, and any value; and text before it that
-- ends in '=' and has no ':' is skipped.
pub match-setting :
    (junk t p v : Text) (c d : ℕ)
    → All (λ x. (x == colon) ≡ false) junk
    → All (λ x. in_task x ≡ true) (c ∷ t)
    → All (λ x. in_param x ≡ true) (d ∷ p)
    → (match (setting (c ∷ t) (d ∷ p) v) ≡ some (c ∷ t, d ∷ p, v))
      × (match (junk ++ equals ∷ setting (c ∷ t) (d ∷ p) v) ≡ some (c ∷ t, d ∷ p, v))
unfolding match
match-setting junk t p v c d j k l =
    let whole : match (setting (c ∷ t) (d ∷ p) v) ≡ some (c ∷ t, d ∷ p, v) =
      ap (λ o. or_else o (match (setting t (d ∷ p) v))) (setting-found t p v c d k l) in
    (whole, match-skips junk _ j ∙ whole)
