-- ===== src/Decimal/Print.antt =====
-- Printing micro-dollars and reading them back.
use agentfi.Base.{
  ℕ, zero, suc, ◌+◌, ◌-◌, ◌/◌, ◌%◌, ◌≤◌, ◌<◌, ◌≡◌, refl, ap, ◌∙◌, true, false, inl, inr, [], ◌∷◌,
  ◌++◌, Text, some, arith, length, take, drop, replicate, all, split, is_empty, ltb, Bool-cases,
  all-append, length-append, length-replicate, ltb→lt, ltb-false, take-append,
}
use agentfi.Decimal.{
  dot, is_digit, digits1, decimal_shape, is_policy_decimal, usd_text_to_micro_ceil, ceil_parts,
  has_nonzero, policy_decimal_to_micro, fixed_point, fixed_parts, pad_end, big_int, pad_start,
  show_digits, show_ℕ, micro_to_usd6,
}
use agentfi.Decimal.Digits.{pow10, big_int-append, big_int-replicate}
use agentfi.Decimal.Shape.{split_digits, split-append_dot}
use agentfi.Decimal.Trim.{usd_text_decimal}

digit_of : (n : ℕ) → n < 10 → is_digit (b'0' + n) ≡ true
unfolding is_digit
digit_of n h = ground arith

big_int_digit : (n : ℕ) → big_int ((b'0' + n) ∷ []) ≡ n
unfolding big_int
big_int_digit n = omega arith

pub show_digits_value : (f n : ℕ) → n < f → big_int (show_digits f n) ≡ n
unfolding show_digits
show_digits_value zero n h = elim h [ ]
show_digits_value (suc f) n h = elim (Bool-cases (ltb n 10)) [
  | inl small ↦ rw small (big_int_digit n)
  | inr large ↦
      let big = ltb-false n 10 large in
      rw large (
        rw
          (
            big_int-append (show_digits f (n / 10)) ((b'0' + n % 10) ∷ []),
            show_digits_value f (n / 10) (omega arith),
            big_int_digit (n % 10),
          )
          (omega arith))
]

pub show_digits-all : (f n : ℕ) → all is_digit (show_digits f n) ≡ true
unfolding show_digits
show_digits-all zero n = refl
show_digits-all (suc f) n = elim (Bool-cases (ltb n 10)) [
  | inl small ↦ rw small (rw (digit_of n (ltb→lt n 10 small)) refl)
  | inr large ↦ rw large (
      all-append is_digit (show_digits f (n / 10)) _ (show_digits-all f (n / 10))
        (rw (digit_of (n % 10) (omega arith)) refl))
]

append_one-not-empty : (s : Text) (c : ℕ) → is_empty (s ++ c ∷ []) ≡ false
append_one-not-empty [] c = refl
append_one-not-empty (x ∷ s) c = refl

show_digits-not-empty : (f n : ℕ) → is_empty (show_digits (suc f) n) ≡ false
unfolding show_digits
show_digits-not-empty f n = elim (Bool-cases (ltb n 10)) [
  | inl small ↦ rw small
  | inr large ↦ rw large (append_one-not-empty (show_digits f (n / 10)) (b'0' + n % 10))
]

-- A number below `10 ^ (k + 1)` has at most `k + 1` digits.
length-show_digits : (k f n : ℕ) → n < pow10 (suc k) → length (show_digits f n) ≤ suc k
unfolding show_digits
length-show_digits k zero n h = omega arith
length-show_digits zero (suc f) n h =
    let small : ltb n 10 ≡ true = ground arith in rw small (omega arith)
length-show_digits (suc k) (suc f) n h = elim (Bool-cases (ltb n 10)) [
  | inl small ↦ rw small (omega arith)
  | inr large ↦ rw large (
      omega (
        arith,
        length-append (show_digits f (n / 10)) ((b'0' + n % 10) ∷ []),
        length-show_digits k f (n / 10) (omega arith),
      ))
]

not-empty_of_length : (s : Text) → 0 < length s → is_empty s ≡ false
not-empty_of_length [] h = absurd (omega arith)
not-empty_of_length (c ∷ s) h = refl

no_rest : has_nonzero [] ≡ false
unfolding has_nonzero
no_rest = refl

all-replicate : (n : ℕ) → all is_digit (replicate n b'0') ≡ true
unfolding is_digit
all-replicate zero = refl
all-replicate (suc n) = all-replicate n

abbrev cents : ℕ → Text
cents m = pad_start 6 (show_ℕ (m % 1_000_000))

length-cents : (m : ℕ) → length (cents m) ≡ 6
unfolding show_ℕ
length-cents m =
    let r = m % 1_000_000 in
    let s = show_digits (suc r) r in
    omega (
      arith,
      length-append (replicate (6 - length s) b'0') s,
      length-replicate {A = ℕ} (6 - length s) b'0',
      length-show_digits 5 (suc r) r (omega arith),
    )

cents-all : (m : ℕ) → all is_digit (cents m) ≡ true
unfolding show_ℕ
cents-all m =
    all-append is_digit (replicate _ b'0') _ (all-replicate _)
      (show_digits-all (suc (m % 1_000_000)) (m % 1_000_000))

cents_value : (m : ℕ) → big_int (cents m) ≡ m % 1_000_000
unfolding show_ℕ
cents_value m =
    let r = m % 1_000_000 in
    let s = show_digits (suc r) r in
    rw
      (
        big_int-append (replicate (6 - length s) b'0') s,
        big_int-replicate (6 - length s),
        show_digits_value (suc r) r (omega arith),
      )
      (omega arith)

parts_of_print : (m : ℕ) → split dot (micro_to_usd6 m) ≡ show_ℕ (m / 1_000_000) ∷ cents m ∷ []
unfolding micro_to_usd6
parts_of_print m =
    split-append_dot (show_ℕ (m / 1_000_000)) (cents m)
      (unfold show_ℕ in show_digits-all (suc (m / 1_000_000)) (m / 1_000_000))
    ∙ ap (◌∷◌ (show_ℕ (m / 1_000_000))) (split_digits (cents m) (cents-all m))

micro_to_usd6_decimal : (m : ℕ) → is_policy_decimal (micro_to_usd6 m) ≡ true
unfolding is_policy_decimal decimal_shape digits1 show_ℕ
micro_to_usd6_decimal m =
    let q = m / 1_000_000 in
    let nonempty : is_empty (cents m) ≡ false =
      not-empty_of_length (cents m) (omega (arith, length-cents m)) in
    rw (parts_of_print m)
      (rw (show_digits-not-empty q q, show_digits-all (suc q) q, nonempty, cents-all m) refl)

drop_six : (f : Text) → length f ≡ 6 → drop 6 f ≡ []
drop_six f e = sixes 6 f e
  where
    sixes : (n : ℕ) (f : Text) → length f ≡ n → drop n f ≡ []
    sixes zero [] e = refl
    sixes zero (c ∷ f) e = absurd (omega arith)
    sixes (suc n) [] e = refl
    sixes (suc n) (c ∷ f) e = sixes n f (omega arith)

take_six : (f : Text) → length f ≡ 6 → take 6 (pad_end 6 f) ≡ f
take_six f e = take-append 6 f _ e

fixed_of_print : (m : ℕ) → fixed_parts (show_ℕ (m / 1_000_000) ∷ cents m ∷ []) 6 ≡ m
unfolding fixed_parts show_ℕ
fixed_of_print m =
    let q = m / 1_000_000 in
    rw
      (
        take_six (cents m) (length-cents m),
        big_int-append (show_digits (suc q) q) (cents m),
        length-cents m,
        show_digits_value (suc q) q (omega arith),
        cents_value m,
      )
      (omega arith)

-- A volume that is printed with six decimals is read back as the same number of micro-dollars, by
-- the reading that rounds up and by the reading that rounds down.
pub usd_text_to_micro_ceil-micro_to_usd6 :
    (m : ℕ)
    → (usd_text_to_micro_ceil (some (micro_to_usd6 m)) ≡ some m)
      × (policy_decimal_to_micro (some (micro_to_usd6 m)) ≡ some m)
unfolding ceil_parts policy_decimal_to_micro fixed_point
usd_text_to_micro_ceil-micro_to_usd6 m =
    let decimal = micro_to_usd6_decimal m in
    (
      usd_text_decimal (micro_to_usd6 m) decimal
          ∙ rw (parts_of_print m, drop_six (cents m) (length-cents m), fixed_of_print m)
              (rw no_rest),
      rw (decimal, parts_of_print m) (ap some (fixed_of_print m)),
    )
