-- ===== src/Base/Int.antt =====
-- Signed integers over the native numbers, under the library's names (its ℤ stands on the unary ℕ),
-- with the signed division, shift and 64-bit range of C.
use native.Mathlib.Nat.{zero-div}
use zmk_pointing_tools.Base.{
  ℕ, zero, suc, ◌+◌, ◌-◌, ◌*◌, ◌/◌, ◌%◌, ◌^◌, ◌≤◌, ◌<◌, ◌≡◌, refl, sym, true, ◌∙◌, ◌⊎◌, inl, inr,
  Bool, arith, ltb, leb, ◌==◌, if◌then◌else◌,
}

-- `negsuc n` is -(n + 1).
pub data ℤ : Type 0 where
  pos : ℕ → ℤ
  negsuc : ℕ → ℤ

abbrev pub pos_part : ℤ → ℕ
pos_part (pos n) = n
pos_part (negsuc n) = 0

abbrev pub neg_part : ℤ → ℕ
neg_part (pos n) = 0
neg_part (negsuc n) = suc n

-- The absolute value.
abbrev pub nat_abs : ℤ → ℕ
nat_abs (pos n) = n
nat_abs (negsuc n) = suc n

-- -n
abbrev pub neg_of_ℕ : ℕ → ℤ
neg_of_ℕ zero = pos 0
neg_of_ℕ (suc n) = negsuc n

-- a - b, as an integer.
abbrev pub sub_ℕ : ℕ → ℕ → ℤ
sub_ℕ a b = if leb b a then pos (a - b) else negsuc (b - a - 1)

infixl 65 ◌+ℤ◌ ◌-ℤ◌
infixl 70 ◌*ℤ◌
infix 50 ◌≤ℤ◌ ◌<ℤ◌
unfoldable pub ◌+ℤ◌ : ℤ → ℤ → ℤ
a +ℤ b = sub_ℕ (pos_part a + pos_part b) (neg_part a + neg_part b)

unfoldable pub ◌-ℤ◌ : ℤ → ℤ → ℤ
a -ℤ b = sub_ℕ (pos_part a + neg_part b) (neg_part a + pos_part b)

unfoldable pub ◌*ℤ◌ : ℤ → ℤ → ℤ
pos a *ℤ pos b = pos (a * b)
pos a *ℤ negsuc b = neg_of_ℕ (a * suc b)
negsuc a *ℤ pos b = neg_of_ℕ (suc a * b)
negsuc a *ℤ negsuc b = pos (suc a * suc b)

-- The `/` of C by a positive number: towards zero.
unfoldable pub tdiv : ℤ → ℕ → ℤ
tdiv (pos a) b = pos (a / b)
tdiv (negsuc a) b = neg_of_ℕ (suc a / b)

-- The `%` of C by a positive number: with the sign of the dividend.
unfoldable pub tmod : ℤ → ℕ → ℤ
tmod (pos a) b = pos (a % b)
tmod (negsuc a) b = neg_of_ℕ (suc a % b)

-- (uint64_t)a for an int64_t
abbrev pub to_uint64 : ℤ → ℕ
to_uint64 (pos n) = n
to_uint64 (negsuc n) = 2 ^ 64 - 1 - n

-- The `>>` of C, an arithmetic shift: the floor of a / 2 ^ k.
unfoldable pub asr : ℤ → ℕ → ℤ
asr (pos a) k = pos (a / 2 ^ k)
asr (negsuc a) k = negsuc (a / 2 ^ k)

abbrev pub ◌≤ℤ◌ : ℤ → ℤ → Type 0
a ≤ℤ b = pos_part a + neg_part b ≤ pos_part b + neg_part a

abbrev pub ◌<ℤ◌ : ℤ → ℤ → Type 0
a <ℤ b = pos_part a + neg_part b < pos_part b + neg_part a

abbrev pub ltb_ℤ : ℤ → ℤ → Bool
ltb_ℤ a b = ltb (pos_part a + neg_part b) (pos_part b + neg_part a)

abbrev pub eqb_ℤ : ℤ → ℤ → Bool
eqb_ℤ a b = pos_part a + neg_part b == pos_part b + neg_part a

-- INT64_MAX and INT64_MIN
abbrev pub int64_max : ℤ
int64_max = pos (2 ^ 63 - 1)

abbrev pub int64_min : ℤ
int64_min = negsuc (2 ^ 63 - 1)

-- The values that an `int64_t` holds.
abbrev pub IsInt64 : ℤ → Type 0
IsInt64 a = (pos_part a < 2 ^ 63) × (neg_part a ≤ 2 ^ 63)

-- An integer brought into the range from `lo` to `hi`.
abbrev pub clamp_ℤ : ℤ → ℤ → ℤ → ℤ
clamp_ℤ lo hi a = if ltb_ℤ hi a then hi else if ltb_ℤ a lo then lo else a

-- One lemma for each operation lets `omega` work with the operations shut, at any depth.
pub +ℤ_parts :
    (a b : ℤ)
    → pos_part (a +ℤ b) + neg_part a + neg_part b ≡ neg_part (a +ℤ b) + pos_part a + pos_part b
unfolding ◌+ℤ◌
+ℤ_parts a b = ground arith

pub -ℤ_parts :
    (a b : ℤ)
    → pos_part (a -ℤ b) + neg_part a + pos_part b ≡ neg_part (a -ℤ b) + pos_part a + neg_part b
unfolding ◌-ℤ◌
-ℤ_parts a b = ground arith

pub eq_of_parts : (a b : ℤ) → pos_part a + neg_part b ≡ pos_part b + neg_part a → a ≡ b
eq_of_parts a b h = ground arith

pub zero_of_eqb : (a : ℤ) → eqb_ℤ a (pos 0) ≡ true → a ≡ pos 0
zero_of_eqb a h = ground arith

pub parts_disjoint : (a : ℤ) → (pos_part a ≡ 0) ⊎ (neg_part a ≡ 0)
parts_disjoint (pos n) = inr refl
parts_disjoint (negsuc n) = inl refl

pub ruleset int_laws = (arith, +ℤ_parts, -ℤ_parts, eq_of_parts)

pub neg_of_ℕ_parts : (n : ℕ) → (pos_part (neg_of_ℕ n) ≡ 0) × (neg_part (neg_of_ℕ n) ≡ n)
neg_of_ℕ_parts zero = (refl, refl)
neg_of_ℕ_parts (suc n) = (refl, refl)

pub tdiv_parts :
    (a : ℤ) (b : ℕ)
    → (pos_part (tdiv a b) ≡ pos_part a / b) × (neg_part (tdiv a b) ≡ neg_part a / b)
unfolding tdiv
tdiv_parts (pos a) b = (refl, sym (zero-div b))
tdiv_parts (negsuc a) b = let (p, q) = neg_of_ℕ_parts (suc a / b) in (p ∙ sym (zero-div b), q)

pub *ℤ_pos_parts :
    (a : ℤ) (m : ℕ)
    → (pos_part (a *ℤ pos m) ≡ pos_part a * m) × (neg_part (a *ℤ pos m) ≡ neg_part a * m)
unfolding ◌*ℤ◌
*ℤ_pos_parts (pos a) m = (refl, omega arith)
*ℤ_pos_parts (negsuc a) m = omega (arith, neg_of_ℕ_parts (suc a * m))
