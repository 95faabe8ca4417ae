-- ===== src/Tests/Tasks.antt =====
-- Concrete tasks of bricoler: a virtual machine from an image and a source tree, and a cycle of two.
use bricoler.Base.{
  codes, ℕ, ◌≡◌, refl, ◌∙◌, sym, ap, subst, String, List, [], ◌∷◌, Memᴰ, All, end, ◌&◌, Bool, true,
  false, Option, none, some, ◌==◌, if◌then◌else◌, str_eq, ◌↔◌, ◌<◌, arith,
}
use bricoler.Lua.Tables.{bytes_eq}
use bricoler.Tasks.{stack_overflow, Result, ok, err}
use bricoler.Tasks.Parameter.{
  Text, Numbers, Value, number, string, predicate, Parameter, Args, construct, bind, bound,
}
use bricoler.Tasks.Typing.{Justified, declared, bind_all-typed}
use bricoler.Tasks.Schedule.{Task, Schedule, scheduled, plan}
use bricoler.Tasks.Needs.{Needs, itself, input, Sound}
use bricoler.Tasks.Settings.{match, match-setting}
use bricoler.Tasks.CommandLine.{command_line, parameter_at}
use bricoler.Tasks.Precedence.{SetTo, Elsewhere, command_line-last}
use bricoler.Tasks.Plans.{AllSound, Cyclic, plan-schedules, plan-cyclic}

-- Numbers of one digit.
abbrev numbers : Numbers
numbers = record {
  Number = ℕ;
  number_eq = λ a b. a == b;
  to_number = λ s.
      if bytes_eq s (codes "4") then some 4 else if bytes_eq s (codes "8") then some 8 else none;
}

abbrev jobs_args : Args numbers
jobs_args = record { default = some (number 4); type = none; valid = none; required = false }

abbrev jobs : Parameter numbers
jobs = record {
  type = some "number";
  valid = predicate (λ v. some true);
  required = false;
  source = "specified on the command line";
  value = number 8;
}

bind_all-typed_example :
    (bound numbers jobs ≡ true → Justified numbers jobs) × (jobs.type ≡ declared numbers jobs_args)
unfolding bricoler.Tasks.Parameter.construct
bind_all-typed_example =
    bind_all-typed numbers jobs_args ((string (codes "8"), "specified on the command line") ∷ [])
      jobs refl

abbrev task : String → List String → List String → Task numbers
task name inputs dependencies = record {
  name = name;
  inputs = inputs;
  dependencies = dependencies;
  parameters = ("jobs", jobs_args) ∷ [];
}

abbrev vm : Task numbers
vm = task "vm" ("image" ∷ "src" ∷ []) ("bhyve" ∷ [])

abbrev image : Task numbers
image = task "image" ("src" ∷ []) []

abbrev src : Task numbers
src = task "src" [] ("git" ∷ [])

abbrev tasks : String → Option (Task numbers)
tasks n =
    if str_eq n "vm"
    then some vm
    else if str_eq n "image"
    then some image
    else if str_eq n "src"
    then some src
    else none

abbrev which : String → Bool
which dep = if str_eq dep "git" then true else str_eq dep "bhyve"

-- A set that has the inputs of its tasks has all that they need.
Needs-closed :
    (ts : String → Option (Task numbers)) (P : String → Type 0)
    → ((n i : String) (t : Task numbers) → P n → ts n ≡ some t → Memᴰ i t.inputs → P i)
    → (n m : String) → P n
    → Needs numbers ts which n m
    → P m
Needs-closed ts P closed n m p itself = p
Needs-closed ts P closed n m p (input {i = i} {t = t} e there w) =
    Needs-closed ts P closed i m (closed n i t p e there) w

abbrev names : List String
names = "vm" ∷ "image" ∷ "src" ∷ []

abbrev rank : String → ℕ
rank n = if str_eq n "vm" then 2 else if str_eq n "image" then 1 else 0

All-lookup : {P : String → Type 0} {i : String} {is : List String} → All P is → Memᴰ i is → P i
All-lookup end there = elim there [ ]
All-lookup {P = P} (h & hs) (Memᴰ.head e) = subst (λ x. P x) (sym e) h
All-lookup (h & hs) (Memᴰ.tail there) = All-lookup hs there

-- What holds of the inputs of the task of a name.
inputs_at :
    (ts : String → Option (Task numbers)) (P : String → String → Type 0) (a : String)
    (u : Task numbers)
    → ts a ≡ some u
    → All (λ i. P a i) u.inputs
    → (n i : String) (t : Task numbers) → n ≡ a
    → ts n ≡ some t
    → Memᴰ i t.inputs
    → P n i
inputs_at ts P a u known all n i t p e there =
    let same : t ≡ u = cc (e, known, ap ts p) in
    subst (λ x. P x i) (sym p) (All-lookup all (subst (λ x. Memᴰ i x.inputs) same there))

abbrev Lower : String → String → Type 0
Lower n i = Memᴰ i names × (rank i < rank n)

inputs-Lower :
    (n i : String) (t : Task numbers)
    → Memᴰ n names
    → tasks n ≡ some t
    → Memᴰ i t.inputs
    → Lower n i
inputs-Lower n i t (Memᴰ.head p) e there =
    inputs_at tasks Lower "vm" vm refl
      ((Memᴰ.tail (Memᴰ.head refl), omega arith)
        & (Memᴰ.tail (Memᴰ.tail (Memᴰ.head refl)), omega arith)
        & end)
      n i t p e there
inputs-Lower n i t (Memᴰ.tail (Memᴰ.head p)) e there =
    inputs_at tasks Lower "image" image refl
      ((Memᴰ.tail (Memᴰ.tail (Memᴰ.head refl)), omega arith) & end) n i t p e there
inputs-Lower n i t (Memᴰ.tail (Memᴰ.tail (Memᴰ.head p))) e there =
    inputs_at tasks Lower "src" src refl end n i t p e there
inputs-Lower n i t (Memᴰ.tail (Memᴰ.tail (Memᴰ.tail none_left))) e there = elim none_left [ ]

needed-names : (m : String) → Needs numbers tasks which "vm" m → Memᴰ m names
needed-names m w =
    Needs-closed tasks (λ x. Memᴰ x names) (λ n i t p e there. (inputs-Lower n i t p e there).0)
      "vm" m (Memᴰ.head refl) w

abbrev jobs_made : (p : Parameter numbers) × (construct numbers jobs_args ≡ ok p)
jobs_made = (record jobs { source = "default"; value = number 4 }, unfold construct bind in refl)

-- A task is sound under the name that it is found under.
Sound-at :
    (ts : String → Option (Task numbers)) (a m : String) (is deps : List String)
    → ts a ≡ some (task a is deps)
    → All (λ dep. which dep ≡ true) deps
    → m ≡ a
    → Sound numbers ts which m
Sound-at ts a m is deps e h p =
    subst (λ x. Sound numbers ts which x) (sym p)
      (record {
        task = task a is deps;
        defined = e;
        named = refl;
        in_path = h;
        constructible = jobs_made & end;
      })

vm-Sound : AllSound numbers tasks which "vm"
vm-Sound m w = elim (needed-names m w) [
  | Memᴰ.head p ↦ Sound-at tasks "vm" m _ _ refl (refl & end) p
  | Memᴰ.tail (Memᴰ.head p) ↦ Sound-at tasks "image" m _ _ refl end p
  | Memᴰ.tail (Memᴰ.tail (Memᴰ.head p)) ↦ Sound-at tasks "src" m _ _ refl (refl & end) p
  | Memᴰ.tail (Memᴰ.tail (Memᴰ.tail none_left)) ↦ elim none_left [ ]
]

abbrev Scheduled : Task numbers → Type 0
Scheduled t =
    (s : Schedule numbers) × (plan numbers tasks which 3 t.name ≡ ok s)
    × ((m : String) → (scheduled numbers m s ≡ true) ↔ Needs numbers tasks which t.name m)

plan-schedules_example : Scheduled vm
plan-schedules_example =
    plan-schedules numbers tasks which "vm" 3 rank vm-Sound
      (λ n i t w e there. (inputs-Lower n i t (needed-names n w) e there).1) (omega arith)

-- Two tasks that are inputs of each other.
abbrev cycle : String → Option (Task numbers)
cycle n =
    if str_eq n "a"
    then some (task "a" ("b" ∷ []) [])
    else if str_eq n "b"
    then some (task "b" ("a" ∷ []) [])
    else none

abbrev both : List String
both = "a" ∷ "b" ∷ []

inputs-both :
    (n i : String) (t : Task numbers)
    → Memᴰ n both
    → cycle n ≡ some t
    → Memᴰ i t.inputs
    → Memᴰ i both
inputs-both n i t (Memᴰ.head p) e there =
    inputs_at cycle (λ _ j. Memᴰ j both) "a" (task "a" ("b" ∷ []) []) refl
      (Memᴰ.tail (Memᴰ.head refl) & end) n i t p e there
inputs-both n i t (Memᴰ.tail (Memᴰ.head p)) e there =
    inputs_at cycle (λ _ j. Memᴰ j both) "b" (task "b" ("a" ∷ []) []) refl (Memᴰ.head refl & end) n
      i t p e there
inputs-both n i t (Memᴰ.tail (Memᴰ.tail none_left)) e there = elim none_left [ ]

cycle-Sound : AllSound numbers cycle which "a"
cycle-Sound m w =
    elim (Needs-closed cycle (λ x. Memᴰ x both) inputs-both "a" m (Memᴰ.head refl) w) [
      | Memᴰ.head p ↦ Sound-at cycle "a" m _ _ refl end p
      | Memᴰ.tail (Memᴰ.head p) ↦ Sound-at cycle "b" m _ _ refl end p
      | Memᴰ.tail (Memᴰ.tail none_left) ↦ elim none_left [ ]
    ]

cycle-Cyclic : Cyclic numbers cycle which (λ n. Memᴰ n both)
cycle-Cyclic n (Memᴰ.head p) =
    (task "a" ("b" ∷ []) [], ap cycle p, ("b", Memᴰ.head refl, Memᴰ.tail (Memᴰ.head refl)))
cycle-Cyclic n (Memᴰ.tail (Memᴰ.head p)) =
    (task "b" ("a" ∷ []) [], ap cycle p, ("a", Memᴰ.head refl, Memᴰ.head refl))
cycle-Cyclic n (Memᴰ.tail (Memᴰ.tail none_left)) = elim none_left [ ]

plan-cyclic_example : plan numbers cycle which 1000 "a" ≡ err stack_overflow
plan-cyclic_example =
    plan-cyclic numbers cycle which "a" (λ n. Memᴰ n both) cycle-Sound cycle-Cyclic (Memᴰ.head refl)
      1000

-- "x=vm:jobs=8", in which the match begins behind "x=".
match-setting_example :
    (match (codes "vm:jobs=8") ≡ some (codes "vm", codes "jobs", codes "8"))
    × (match (codes "x=vm:jobs=8") ≡ some (codes "vm", codes "jobs", codes "8"))
match-setting_example =
    match-setting (codes "x") (codes "m") (codes "obs") (codes "8") 118 106 (refl & end)
      (refl & refl & end) (refl & refl & refl & refl & end)

abbrev vm_with : Parameter numbers → Schedule numbers
vm_with p = record { name = "vm"; parameters = ("name", label "x") ∷ ("jobs", p) ∷ [] } ∷ []
  where
    label : String → Parameter numbers
    label v = record {
      type = some "string";
      valid = predicate (λ v. some true);
      required = true;
      source = "command line";
      value = string (codes v);
    }

abbrev eight_jobs : Parameter numbers
eight_jobs = record jobs { source = "command line" }

abbrev is_jobs : Option (Text × Text × Text) → Bool
is_jobs none = true
is_jobs (some found) = bytes_eq found.1 (codes "jobs")

name-Elsewhere : Elsewhere numbers (codes "vm") (codes "jobs") (codes "vm:name=x")
unfolding match
name-Elsewhere found m _ p =
    let e : false ≡ true = ap (λ o. is_jobs o) m ∙ ap (λ x. bytes_eq x (codes "jobs")) p in cc e

-- The number of jobs is set twice, and the name behind that.
command_line-last_example :
    SetTo numbers
      (codes "8")
      (parameter_at numbers (codes "vm") (codes "jobs") (vm_with eight_jobs))
unfolding command_line match bind
command_line-last_example =
    command_line-last numbers (codes "vm:jobs=4" ∷ []) (codes "vm:name=x" ∷ []) (codes "vm:jobs=8")
      (codes "vm") (codes "jobs") (codes "8") (vm_with jobs_made.0) (vm_with eight_jobs) refl
      (name-Elsewhere & end) refl
