-- ===== src/Decimal/Trim.antt =====
-- The trimming and the sign of `usdTextToMicroCeil` on a plain decimal.
use mathlib.Core.List.{reverse, reverse-cons, reverse-reverse}
use agentfi.Base.{
  ℕ, ◌*◌, ◌≡◌, refl, Bool, true, false, ◌||◌, inl, inr, List, [], ◌∷◌, Text, some, arith, all,
  split, trim, trim_start, is_space, cons_head, ◌==◌, Bool-cases, all-append,
}
use agentfi.Decimal.{
  dot, is_digit, digits1, decimal_shape, is_policy_decimal, usd_text_to_micro_ceil, ceil_trimmed,
  ceil_parts,
}
use agentfi.Decimal.Shape.{Shape, integral, fractional, decimal_shape-Shape}
use agentfi.Decimal.Rounding.{numerator, scale, IsCeil, ceil_parts-IsCeil}

abbrev is_unit : ℕ → Bool
is_unit c = is_digit c || c == dot

cons_head-all :
    (c : ℕ) (ps : List Text)
    → all (all is_digit) (cons_head c ps) ≡ true
    → (is_digit c ≡ true) × (all (all is_digit) ps ≡ true)
cons_head-all c [] h = ground arith
cons_head-all c (p ∷ ps) h = ground arith

units_of_split : (s : Text) → all (all is_digit) (split dot s) ≡ true → all is_unit s ≡ true
unfolding split
units_of_split [] h = refl
units_of_split (c ∷ s) h = elim (Bool-cases (c == dot)) [
  | inl e ↦ ground (arith, units_of_split s)
  | inr e ↦
      let (head, rest) = cons_head-all c (split dot s) (rw e at h) in
      rw (head, units_of_split s rest) refl
]

Shape-all : (parts : List Text) → Shape parts → all (all is_digit) parts ≡ true
Shape-all parts (integral w e h) = rw (e, h)
Shape-all parts (fractional w f e h k) = rw (e, h, k)

pub decimal_units : (s : Text) → is_policy_decimal s ≡ true → all is_unit s ≡ true
unfolding is_policy_decimal
decimal_units s h = units_of_split s (Shape-all (split dot s) (decimal_shape-Shape (split dot s) h))

unit-not-space : (c : ℕ) → is_unit c ≡ true → is_space c ≡ false
unfolding is_digit is_space
unit-not-space c h = ground arith

trim_start_units : (s : Text) → all is_unit s ≡ true → trim_start s ≡ s
unfolding trim_start
trim_start_units [] h = refl
trim_start_units (c ∷ s) h = rw (unit-not-space c (ground arith), trim_start)

all-reverse : (p : ℕ → Bool) (s : Text) → all p s ≡ true → all p (reverse s) ≡ true
all-reverse p [] h = refl
all-reverse p (c ∷ s) h =
    rw (reverse-cons c s)
      (all-append p (reverse s) (c ∷ []) (all-reverse p s (ground arith)) (ground arith))

trim_units : (s : Text) → all is_unit s ≡ true → trim s ≡ s
unfolding trim
trim_units s h =
    rw (trim_start_units s h, trim_start_units (reverse s) (all-reverse is_unit s h))
      (reverse-reverse s)

unit-not-minus : (c : ℕ) → is_unit c ≡ true → (c == b'-') ≡ false
unfolding is_digit
unit-not-minus c h = ground arith

pub ceil_trimmed_decimal :
    (s : Text) → is_policy_decimal s ≡ true → ceil_trimmed s ≡ some (ceil_parts (split dot s))
unfolding ceil_trimmed is_policy_decimal
ceil_trimmed_decimal [] h = cc
ceil_trimmed_decimal (c ∷ s) h =
    let u = decimal_units (c ∷ s) h in
    let m : (c == b'-') ≡ false = unit-not-minus c (ground arith) in rw m (rw h)

nil-not-decimal : is_policy_decimal [] ≡ false
unfolding is_policy_decimal decimal_shape digits1 split
nil-not-decimal = refl

pub usd_text_decimal :
    (s : Text)
    → is_policy_decimal s ≡ true
    → usd_text_to_micro_ceil (some s) ≡ some (ceil_parts (split dot s))
unfolding usd_text_to_micro_ceil
usd_text_decimal [] h = cc (nil-not-decimal)
usd_text_decimal (c ∷ s) h =
    rw (trim_units (c ∷ s) (decimal_units (c ∷ s) h)) (ceil_trimmed_decimal (c ∷ s) h)

-- A stored volume that is a plain decimal is read in micro-dollars rounded up: the reading is the
-- quotient, rounded up, of a million times the written value.
pub usd_text_to_micro_ceil_lem :
    (raw : Text)
    → is_policy_decimal raw ≡ true
    → (m : ℕ) × (usd_text_to_micro_ceil (some raw) ≡ some m)
      × IsCeil m (numerator (split dot raw) * 1_000_000) (scale (split dot raw))
unfolding is_policy_decimal
usd_text_to_micro_ceil_lem raw h = (
  ceil_parts (split dot raw),
  usd_text_decimal raw h,
  ceil_parts-IsCeil (split dot raw) (decimal_shape-Shape (split dot raw) h),
)
