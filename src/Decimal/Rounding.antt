-- ===== src/Decimal/Rounding.antt =====
-- The conversions to fixed point against the rational number that a decimal text denotes:
-- `numerator / scale`.
use native.Mathlib.Nat.{mul-lt-mul_of_pos_right}
use mathlib.Core.List.{append_assoc}
use agentfi.Base.{
  ℕ, zero, suc, ◌+◌, ◌-◌, ◌*◌, ◌≤◌, ◌<◌, ◌≡◌, refl, sym, ap, ◌∙◌, true, inl, inr, List, [], ◌∷◌,
  ◌++◌, Text, some, arith, length, take, drop, replicate, all, split, Bool-cases, ltb,
  length-append, length-replicate, take_all, take-append_le, take-append-drop, length-drop,
  all-drop, if◌then◌else◌, ltb→lt, ltb-false,
}
use agentfi.Decimal.{
  dot, micro_digits, is_digit, is_policy_decimal, whole_part, fraction_part, big_int, pad_end,
  fixed_parts, fixed_point, policy_decimal_to_micro, has_nonzero, ceil_parts,
}
use agentfi.Decimal.Digits.{
  pow10, pow10_pos, pow10_add, big_int-append, big_int-replicate, big_int_lt, big_int_nil,
  has_nonzero-false, has_nonzero-true,
}
use agentfi.Decimal.Shape.{Shape, integral, fractional, decimal_shape-Shape}

abbrev pub numerator : List Text → ℕ
numerator parts = big_int (whole_part parts ++ fraction_part parts)

abbrev pub scale : List Text → ℕ
scale parts = pow10 (length (fraction_part parts))

-- `q` is the quotient of `n` by `s`, rounded down.
abbrev pub IsFloor : ℕ → ℕ → ℕ → Type 0
IsFloor q n s = (q * s ≤ n) × (n < (q + 1) * s)

pub padded :
    (w f : Text) (d : ℕ)
    → length f ≤ d
    → big_int (w ++ take d (pad_end d f)) * pow10 (length f) ≡ big_int (w ++ f) * pow10 d
padded w f d h =
    let zeros : Text = replicate (d - length f) b'0' in
    let full : take d (pad_end d f) ≡ f ++ zeros =
      take_all d (f ++ zeros)
        (omega (arith, length-append f zeros, length-replicate {A = ℕ} (d - length f) b'0')) in
    let e : d ≡ (d - length f) + length f = omega arith in
    rw
      (
        full,
        ← append_assoc,
        big_int-append (w ++ f) zeros,
        big_int-replicate,
        length-replicate {A = ℕ} (d - length f) b'0',
      )
      (omega (
        arith,
        ap pow10 e,
        pow10_add (d - length f) (length f),
        ap (λ (t : ℕ). big_int (w ++ f) * t) (ap pow10 e ∙ pow10_add (d - length f) (length f)),
      ))

scaled :
    (q p d n r l : ℕ)
    → l ≡ d * p
    → n ≡ q * p + r
    → r < p
    → 0 < d
    → (n * d ≡ q * l + r * d) × (r * d < l)
scaled q p d n r l el en lt pos =
    rw (el, en) (omega arith, omega (arith, mul-lt-mul_of_pos_right lt pos))

drop_all : (d : ℕ) (f : Text) → length f ≤ d → drop d f ≡ []
drop_all zero [] h = refl
drop_all zero (c ∷ f) h = absurd (omega arith)
drop_all (suc d) [] h = refl
drop_all (suc d) (c ∷ f) h = drop_all d f (omega arith)

-- The value at `d` decimals is what is kept and what is cut off, which is less than one unit.
abbrev Splits : Text → Text → ℕ → Type 0
Splits w f d =
    (big_int (w ++ f) * pow10 d
      ≡ big_int (w ++ take d (pad_end d f)) * pow10 (length f) + big_int (drop d f) * pow10 d)
    × (big_int (drop d f) * pow10 d < pow10 (length f))

cut : (w f : Text) (d : ℕ) → d < length f → all is_digit f ≡ true → Splits w f d
cut w f d h digits =
    let t = take d f in
    let u = drop d f in
    let none_added : take d (pad_end d f) ≡ t = take-append_le d f _ (omega arith) in
    let len : length f ≡ d + length u = omega (arith, length-drop d f) in
    let whole : big_int (w ++ f) ≡ big_int (w ++ t) * pow10 (length u) + big_int u =
      ap (λ s. big_int (w ++ s)) (sym (take-append-drop d f))
      ∙ ap big_int (sym (append_assoc w t u))
      ∙ big_int-append (w ++ t) u in
    rw none_added (
      scaled _ (pow10 (length u)) (pow10 d) _ (big_int u) _ (ap pow10 len ∙ pow10_add d (length u))
        whole (big_int_lt u (all-drop is_digit d f digits)) (pow10_pos d))

fraction-Splits : (w f : Text) (d : ℕ) → all is_digit f ≡ true → Splits w f d
fraction-Splits w f d digits = elim (Bool-cases (ltb d (length f))) [
  | inl longer ↦ cut w f d (ltb→lt d (length f) longer) digits
  | inr fits ↦
      let short = ltb-false d (length f) fits in
      rw (drop_all d f short, big_int_nil)
        (omega (arith, padded w f d short), omega (arith, pow10_pos (length f)))
]

pub fixed_parts-IsFloor :
    (parts : List Text) (d : ℕ)
    → Shape parts
    → IsFloor (fixed_parts parts d) (numerator parts * pow10 d) (scale parts)
unfolding fixed_parts
fixed_parts-IsFloor parts d (integral w e digits) =
    rw e (omega (arith, fraction-Splits w [] d refl))
fixed_parts-IsFloor parts d (fractional w f e _ digits) =
    rw e (omega (arith, fraction-Splits w f d digits))

-- A limit that is a plain decimal is read in micro-dollars rounded down: the reading is the
-- quotient, rounded down, of a million times the written value.
pub policy_decimal_to_micro-IsFloor :
    (raw : Text)
    → is_policy_decimal raw ≡ true
    → (m : ℕ) × (policy_decimal_to_micro (some raw) ≡ some m)
      × IsFloor m (numerator (split dot raw) * 1_000_000) (scale (split dot raw))
unfolding policy_decimal_to_micro is_policy_decimal fixed_point
policy_decimal_to_micro-IsFloor raw h = (
  fixed_parts (split dot raw) micro_digits,
  rw h,
  fixed_parts-IsFloor (split dot raw) micro_digits (decimal_shape-Shape (split dot raw) h),
)

-- `q` is the quotient of `n` by `s`, rounded up.
abbrev pub IsCeil : ℕ → ℕ → ℕ → Type 0
IsCeil q n s = (n ≤ q * s) × (q * s < n + s)

IsCeil-fraction :
    (w f : Text)
    → all is_digit f ≡ true
    → IsCeil
        (if has_nonzero (drop micro_digits f)
          then big_int (w ++ take micro_digits (pad_end micro_digits f)) + 1
          else big_int (w ++ take micro_digits (pad_end micro_digits f)))
        (big_int (w ++ f) * pow10 micro_digits)
        (pow10 (length f))
IsCeil-fraction w f digits =
    let cut_off : all is_digit (drop micro_digits f) ≡ true =
      all-drop is_digit micro_digits f digits in
    elim (Bool-cases (has_nonzero (drop micro_digits f))) [
      | inl some_cut ↦ rw some_cut (
          omega
            (arith, fraction-Splits w f micro_digits digits, has_nonzero-true _ cut_off some_cut))
      | inr none_cut ↦ rw none_cut (
          omega
            (arith, fraction-Splits w f micro_digits digits, has_nonzero-false _ cut_off none_cut))
    ]

pub ceil_parts-IsCeil :
    (parts : List Text)
    → Shape parts
    → IsCeil (ceil_parts parts) (numerator parts * 1_000_000) (scale parts)
unfolding ceil_parts fixed_parts
ceil_parts-IsCeil parts (integral w e digits) = rw e (IsCeil-fraction w [] refl)
ceil_parts-IsCeil parts (fractional w f e _ digits) = rw e (IsCeil-fraction w f digits)
