-- ===== src/Library/Callable.antt =====
-- What a Lua program can call: the C functions of lib/freebsd and the luaopen_ functions, by name.
use bricoler.Base.{
  ℕ, String, ◌≡◌, List, [], ◌∷◌, ◌++◌, some, All, end, ◌&◌, subst, arith, str_eq, eq_iff,
  Bool-cases, inl, inr,
}
use bricoler.Lua.{M}
use bricoler.Os.{Os}
use bricoler.Library.{Module, freebsd_meta, sys_modules}
use bricoler.Library.Functions.{find, functions}

module _ {W : Type 0} where
  abbrev pub loaders : List (Module W) → List (String × M W ℕ)
  loaders [] = []
  loaders (m ∷ ms) = (m.module_name, m.luaopen) ∷ loaders ms

  abbrev pub callable : Os W → List (String × M W ℕ)
  callable os = functions os ++ loaders (freebsd_meta os ∷ sys_modules os)

module _ {A : Type 0} where
  -- What holds of all entries holds of the one that is found.
  pub find-All :
      (P : String → A → Type 0) (f : String) (fs : List (String × A)) (m : A)
      → All (λ e. P e.0 e.1) fs
      → find f fs ≡ some m
      → P f m
  unfolding find
  find-All P f [] m end e = absurd (cc e)
  find-All P f ((n, m₀) ∷ fs) m (h & hs) e = elim (Bool-cases (str_eq n f)) [
    | inl same ↦
        let p : m₀ ≡ m = ground (arith, rw same at e) in
        subst (λ x. P f x) p (subst (λ x. P x m₀) ((eq_iff n f).0 same) h)
    | inr more ↦ find-All P f fs m hs (rw more at e)
  ]

pub All-append {ℓ κ} :
    {A : Type ℓ} {P : A → Type κ} (xs ys : List A) → All P xs → All P ys → All P (xs ++ ys)
All-append [] ys end k = k
All-append (x ∷ xs) ys (h & hs) k = h & All-append xs ys hs k
