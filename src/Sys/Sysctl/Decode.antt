-- ===== src/Sys/Sysctl/Decode.antt =====
-- The integers that FMTVAL_INT reads from a buffer, against their representation in memory.
use bricoler.Base.{
  ℕ, zero, suc, ◌-◌, ◌*◌, ◌/◌, ◌%◌, ◌^◌, ◌<◌, ℤ, pos, negsuc, pos_part, neg_part, InRange, ◌≡◌,
  refl, ap, subst, [], ◌∷◌, Bool, true, false, Option, some, none, arith, to_int64, to_unsigned,
  length,
}
use native.Mathlib.Nat.{pow-suc}
use bricoler.Lua.{Bytes}
use bricoler.Os.{
  CtlType, type_string, type_u8, type_s8, type_u16, type_s16, type_u32, type_s32, type_u64,
  type_s64, type_uint, type_int, type_ulong, type_long, other_type,
}
use bricoler.Sys.Sysctl.{le_value, IntType, int_type, int_value}

-- The `n` bytes of an unsigned integer, the lowest first.
pub le_bytes : ℕ → ℕ → Bytes
le_bytes zero v = []
le_bytes (suc n) v = (v % 256) ∷ le_bytes n (v / 256)

pub length-le_bytes : (n v : ℕ) → length (le_bytes n v) ≡ n
unfolding le_bytes
length-le_bytes zero v = refl
length-le_bytes (suc n) v = ap suc (length-le_bytes n (v / 256))

pub le_value-le_bytes : (n v : ℕ) → v < 256 ^ n → le_value (le_bytes n v) ≡ v
unfolding le_value le_bytes
le_value-le_bytes zero v h = omega arith
le_value-le_bytes (suc n) v h =
    let h' : v < 256 ^ n * 256 = rw pow-suc at h in
    omega (arith, le_value-le_bytes n (v / 256) (omega arith))

-- An integer of the type `t`, as the compiler stores it: two's complement.
pub c_bytes : IntType → ℤ → Bytes
c_bytes t z = le_bytes t.0 (to_unsigned (256 ^ t.0) z)

-- The values of the type.
abbrev pub Fits : IntType → ℤ → Type 0
Fits (size, true) z = InRange (2 ^ (8 * size - 1)) z
Fits (size, false) z = (neg_part z ≡ 0) × (pos_part z < 256 ^ size)

-- The integer types are 1, 2, 4 and 8 bytes wide.
pub data Width : ℕ → Type 0 where
  one : Width 1
  two : Width 2
  four : Width 4
  eight : Width 8

unsigned_lt : (n : ℕ) (z : ℤ) → 0 < 256 ^ n → to_unsigned (256 ^ n) z < 256 ^ n
unsigned_lt n (pos k) h = omega arith
unsigned_lt n (negsuc k) h = omega arith

decoded :
    (n : ℕ) (z : ℤ)
    → 0 < 256 ^ n
    → le_value (le_bytes n (to_unsigned (256 ^ n) z)) ≡ to_unsigned (256 ^ n) z
decoded n z h = le_value-le_bytes n (to_unsigned (256 ^ n) z) (unsigned_lt n z h)

int_value-c_bytes-Width :
    (n : ℕ) (s : Bool) (z : ℤ)
    → Width n
    → Fits (n, s) z
    → int_value (n, s) (c_bytes (n, s) z) ≡ to_int64 z
unfolding int_value c_bytes
int_value-c_bytes-Width n true (pos k) one f = rw (decoded 1 (pos k) (omega arith)) (ground arith)
int_value-c_bytes-Width n true (pos k) two f = rw (decoded 2 (pos k) (omega arith)) (ground arith)
int_value-c_bytes-Width n true (pos k) four f = rw (decoded 4 (pos k) (omega arith)) (ground arith)
int_value-c_bytes-Width n true (pos k) eight f = rw (decoded 8 (pos k) (omega arith)) (ground arith)
int_value-c_bytes-Width n true (negsuc k) one f =
    rw (decoded 1 (negsuc k) (omega arith)) (ground arith)
int_value-c_bytes-Width n true (negsuc k) two f =
    rw (decoded 2 (negsuc k) (omega arith)) (ground arith)
int_value-c_bytes-Width n true (negsuc k) four f =
    rw (decoded 4 (negsuc k) (omega arith)) (ground arith)
int_value-c_bytes-Width n true (negsuc k) eight f =
    rw (decoded 8 (negsuc k) (omega arith)) (ground arith)
int_value-c_bytes-Width n false (pos k) one f = rw (decoded 1 (pos k) (omega arith)) (ground arith)
int_value-c_bytes-Width n false (pos k) two f = rw (decoded 2 (pos k) (omega arith)) (ground arith)
int_value-c_bytes-Width n false (pos k) four f = rw (decoded 4 (pos k) (omega arith)) (ground arith)
int_value-c_bytes-Width n false (pos k) eight f =
    rw (decoded 8 (pos k) (omega arith)) (ground arith)
int_value-c_bytes-Width n false (negsuc k) one f =
    rw (decoded 1 (negsuc k) (omega arith)) (ground arith)
int_value-c_bytes-Width n false (negsuc k) two f =
    rw (decoded 2 (negsuc k) (omega arith)) (ground arith)
int_value-c_bytes-Width n false (negsuc k) four f =
    rw (decoded 4 (negsuc k) (omega arith)) (ground arith)
int_value-c_bytes-Width n false (negsuc k) eight f =
    rw (decoded 8 (negsuc k) (omega arith)) (ground arith)

abbrev WidthOf : Option IntType → Type 0
WidthOf none = Unit
WidthOf (some t) = Width t.0

-- The width of each integer type of the switch.
int_type-Width : (c : CtlType) (t : IntType) → int_type c ≡ some t → Width t.0
unfolding int_type
int_type-Width type_u8 t e = subst (λ (o : Option IntType). WidthOf o) e one
int_type-Width type_s8 t e = subst (λ (o : Option IntType). WidthOf o) e one
int_type-Width type_u16 t e = subst (λ (o : Option IntType). WidthOf o) e two
int_type-Width type_s16 t e = subst (λ (o : Option IntType). WidthOf o) e two
int_type-Width type_u32 t e = subst (λ (o : Option IntType). WidthOf o) e four
int_type-Width type_s32 t e = subst (λ (o : Option IntType). WidthOf o) e four
int_type-Width type_u64 t e = subst (λ (o : Option IntType). WidthOf o) e eight
int_type-Width type_s64 t e = subst (λ (o : Option IntType). WidthOf o) e eight
int_type-Width type_uint t e = subst (λ (o : Option IntType). WidthOf o) e four
int_type-Width type_int t e = subst (λ (o : Option IntType). WidthOf o) e four
int_type-Width type_ulong t e = subst (λ (o : Option IntType). WidthOf o) e eight
int_type-Width type_long t e = subst (λ (o : Option IntType). WidthOf o) e eight
int_type-Width type_string t e = cc
int_type-Width other_type t e = cc

-- For each integer CTLTYPE, an integer of its C type that the system has stored in the buffer is
-- what FMTVAL_INT gives to Lua, sign and all; a uint64_t above 2^63 - 1 is reduced to lua_Integer.
-- The representation has the size that the assertion asks for.
pub int_value-c_bytes :
    (c : CtlType) (t : IntType) (z : ℤ)
    → int_type c ≡ some t
    → Fits t z
    → (int_value t (c_bytes t z) ≡ to_int64 z) × (length (c_bytes t z) ≡ t.0)
unfolding c_bytes
int_value-c_bytes c (n, s) z e f = (
  unfold c_bytes in int_value-c_bytes-Width n s z (int_type-Width c (n, s) e) f,
  length-le_bytes n _,
)
