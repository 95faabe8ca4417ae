-- ===== src/Base/Int.antt =====
-- Signed integers over the native numbers, and the conversions of C between the integer types.
use Prim.Native.Nat.{ℕ, suc, ◌+◌, ◌-◌, ◌*◌, ◌%◌, ◌^◌, ◌≤◌, ◌<◌}
use mathlib.Core.Path.{◌≡◌}
use mathlib.Core.Bool.{Bool, false}
use native.Mathlib.Nat.{mod-eq_of_lt}
use native.Mathlib.Omega.{arith}
use bricoler.Base.Tests.{ltb, leb, if◌then◌else◌}

-- `negsuc n` is -(n + 1).
pub data ℤ : Type 0 where
  pos : ℕ → ℤ
  negsuc : ℕ → ℤ

abbrev pub pos_part : ℤ → ℕ
pos_part (pos n) = n
pos_part (negsuc n) = 0

abbrev pub neg_part : ℤ → ℕ
neg_part (pos n) = 0
neg_part (negsuc n) = suc n

infix 50 ◌≤ℤ◌
abbrev pub ◌≤ℤ◌ : ℤ → ℤ → Type 0
a ≤ℤ b = pos_part a + neg_part b ≤ pos_part b + neg_part a

abbrev pub leb_ℤ : ℤ → ℤ → Bool
leb_ℤ a b = leb (pos_part a + neg_part b) (pos_part b + neg_part a)

-- The comparison `x == -1`.
abbrev pub is_neg_one : ℤ → Bool
is_neg_one (pos n) = false
is_neg_one (negsuc n) = leb n 0

-- The conversion to an unsigned type of `m` values: reduction modulo `m`.
abbrev pub to_unsigned : ℕ → ℤ → ℕ
to_unsigned m (pos n) = n % m
to_unsigned m (negsuc n) = m - 1 - n % m

-- A bit pattern below `2 * h`, read as a signed integer of that width.
abbrev pub signed_of : ℕ → ℕ → ℤ
signed_of h u = if ltb u h then pos u else negsuc (2 * h - 1 - u)

-- The conversion to the signed type with the values -h .. h - 1.
abbrev pub wrap_signed : ℕ → ℤ → ℤ
wrap_signed h z = signed_of h (to_unsigned (2 * h) z)

-- `(int)`, `(short)` and `(lua_Integer)`.
abbrev pub to_int : ℤ → ℤ
to_int = wrap_signed (2 ^ 31)

abbrev pub to_short : ℤ → ℤ
to_short = wrap_signed (2 ^ 15)

abbrev pub to_int64 : ℤ → ℤ
to_int64 = wrap_signed (2 ^ 63)

-- What the tests `z < lo || z > hi` of the source let pass.
abbrev pub InRange : ℕ → ℤ → Type 0
InRange h z = (neg_part z ≤ h) × (pos_part z < h)

-- A value that fits is converted to itself.
pub wrap_signed_self : (h : ℕ) (z : ℤ) → InRange h z → wrap_signed h z ≡ z
wrap_signed_self h (pos n) r = rw (mod-eq_of_lt {n = n} {m = 2 * h} (omega arith)) (ground arith)
wrap_signed_self h (negsuc n) r = rw (mod-eq_of_lt {n = n} {m = 2 * h} (omega arith)) (ground arith)

-- Every converted value fits.
pub wrap_signed-InRange : (h : ℕ) (z : ℤ) → 0 < h → InRange h (wrap_signed h z)
wrap_signed-InRange h z p = ground arith
