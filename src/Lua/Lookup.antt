-- ===== src/Lua/Lookup.antt =====
-- Access to a table by a name after an assignment by a name.
use bricoler.Base.{
  ℕ, ap, ◌≡◌, refl, [], ◌∷◌, true, false, arith, ◌==◌, if◌then◌else◌, inl, inr, Bool-cases,
}
use bricoler.Lua.{Bytes, Value, index, name, Table}
use bricoler.Lua.Tables.{bytes_eq, key_eq, raw_get, raw_set}

pub bytes_eq_refl : (s : Bytes) → bytes_eq s s ≡ true
bytes_eq_refl [] = refl
bytes_eq_refl (b ∷ s) = (ground (arith, bytes_eq_refl s))

pub bytes_eq→eq : (s t : Bytes) → bytes_eq s t ≡ true → s ≡ t
bytes_eq→eq [] [] h = refl
bytes_eq→eq [] (b ∷ t) h = cc
bytes_eq→eq (a ∷ s) [] h = cc
bytes_eq→eq (a ∷ s) (b ∷ t) h = elim (Bool-cases (a == b)) [
  | inr n ↦ absurd (ground (arith, h, n))
  | inl e ↦
      let q : a ≡ b = ground (arith, e) in
      let r : s ≡ t = bytes_eq→eq s t (ground (arith, h, e)) in cc (q, r)
]

pub raw_get-raw_set_same :
    (s : Bytes) (v : Value) (t : Table) → raw_get (name s) (raw_set (name s) v t) ≡ v
raw_get-raw_set_same s v [] = rw (bytes_eq_refl s) refl
raw_get-raw_set_same s v ((j, w) ∷ es) = elim (Bool-cases (key_eq j (name s))) [
  | inl e ↦ rw e (rw (bytes_eq_refl s) refl)
  | inr n ↦ rw n (rw n (raw_get-raw_set_same s v es))
]

pub raw_get-raw_set_other :
    (s r : Bytes) (v : Value) (t : Table)
    → bytes_eq s r ≡ false
    → raw_get (name r) (raw_set (name s) v t) ≡ raw_get (name r) t
raw_get-raw_set_other s r v [] h = rw h refl
raw_get-raw_set_other s r v ((index i, w) ∷ es) h = (raw_get-raw_set_other s r v es h)
raw_get-raw_set_other s r v ((name j, w) ∷ es) h = elim (Bool-cases (bytes_eq j s)) [
  | inl e ↦ rw e (rw h (rw (bytes_eq→eq j s e) (rw h refl)))
  | inr n ↦ rw n (ap (λ x. if bytes_eq j r then w else x) (raw_get-raw_set_other s r v es h))
]

-- An assignment by a name leaves the elements by index alone.
pub raw_get_index-raw_set :
    (i : ℕ) (s : Bytes) (v : Value) (t : Table)
    → raw_get (index i) (raw_set (name s) v t) ≡ raw_get (index i) t
raw_get_index-raw_set i s v [] = refl
raw_get_index-raw_set i s v ((index j, w) ∷ es) =
    ap (λ x. if j == i then w else x) (raw_get_index-raw_set i s v es)
raw_get_index-raw_set i s v ((name j, w) ∷ es) = elim (Bool-cases (bytes_eq j s)) [
  | inl e ↦ rw e refl
  | inr n ↦ rw n (raw_get_index-raw_set i s v es)
]
