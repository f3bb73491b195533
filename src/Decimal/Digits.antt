-- ===== src/Decimal/Digits.antt =====
-- The number that a text of digits stands for, and powers of ten.
use native.Mathlib.Nat.{mul_assoc, mul-le-mul_right, zero-add, suc-add}
use agentfi.Base.{
  ℕ, zero, suc, ◌+◌, ◌-◌, ◌*◌, ◌≤◌, ◌<◌, ◌≡◌, refl, true, [], ◌∷◌, ◌++◌, Text, arith, false, inl,
  inr, ◌&&◌, leb, length, replicate, all, &&_elim, Bool-cases,
}
use agentfi.Decimal.{is_digit, big_int, big_int_from, has_nonzero}

abbrev pub pow10 : ℕ → ℕ
pow10 zero = 1
pow10 (suc n) = 10 * pow10 n

pub pow10_pos : (n : ℕ) → 0 < pow10 n
pow10_pos zero = omega arith
pow10_pos (suc n) = omega (arith, pow10_pos n)

pub pow10_add : (m n : ℕ) → pow10 (m + n) ≡ pow10 m * pow10 n
pow10_add zero n = rw (zero-add) (omega arith)
pow10_add (suc m) n = rw (suc-add) (omega (arith, pow10_add m n, mul_assoc 10 (pow10 m) (pow10 n)))

big_int_from_lem :
    (acc : ℕ) (s : Text) → big_int_from acc s ≡ acc * pow10 (length s) + big_int_from 0 s
unfolding big_int_from
big_int_from_lem acc [] = omega arith
big_int_from_lem acc (c ∷ s) =
    grind
      (arith, big_int_from_lem (acc * 10 + (c - b'0')) s, big_int_from_lem (0 * 10 + (c - b'0')) s)

-- Digits after digits.
pub big_int-append : (s t : Text) → big_int (s ++ t) ≡ big_int s * pow10 (length t) + big_int t
unfolding big_int
big_int-append s t = go 0 s
  where
    go :
        (acc : ℕ) (s : Text)
        → big_int_from acc (s ++ t) ≡ big_int_from acc s * pow10 (length t) + big_int_from 0 t
    go acc [] = big_int_from_lem acc t
    go acc (c ∷ s) = go (acc * 10 + (c - b'0')) s

pub big_int-replicate : (n : ℕ) → big_int (replicate n b'0') ≡ 0
unfolding big_int
big_int-replicate zero = refl
big_int-replicate (suc n) = big_int-replicate n

digit_le : (c : ℕ) → is_digit c ≡ true → c - b'0' ≤ 9
unfolding is_digit
digit_le c h = ground arith

pub big_int_lt : (s : Text) → all is_digit s ≡ true → big_int s < pow10 (length s)
unfolding big_int big_int_from
big_int_lt [] h = omega arith
big_int_lt (c ∷ s) h =
    let (d, ds) = &&_elim (is_digit c) (all is_digit s) h in
    omega (
      arith,
      big_int_from_lem (0 * 10 + (c - b'0')) s,
      big_int_lt s ds,
      mul-le-mul_right (pow10 (length s)) (digit_le c d),
    )

pub big_int_nil : big_int [] ≡ 0
unfolding big_int
big_int_nil = refl

big_int_cons : (c : ℕ) (s : Text) → big_int (c ∷ s) ≡ (c - b'0') * pow10 (length s) + big_int s
unfolding big_int big_int_from
big_int_cons c s = omega (arith, big_int_from_lem (0 * 10 + (c - b'0')) s)

-- Digits that are all zero stand for zero, any other digit for more.
pub has_nonzero-false : (s : Text) → all is_digit s ≡ true → has_nonzero s ≡ false → big_int s ≡ 0
unfolding has_nonzero is_digit
has_nonzero-false [] digits h = big_int_nil
has_nonzero-false (c ∷ s) digits h =
    let zero_head : c - b'0' ≡ 0 = ground arith in
    rw (big_int_cons c s, zero_head)
      (omega (arith, has_nonzero-false s (ground arith) (ground arith)))

pub has_nonzero-true : (s : Text) → all is_digit s ≡ true → has_nonzero s ≡ true → 0 < big_int s
unfolding has_nonzero is_digit
has_nonzero-true [] digits h = cc
has_nonzero-true (c ∷ s) digits h = elim (Bool-cases (leb b'1' c && leb c b'9')) [
  | inl hit ↦
      let head : 1 ≤ c - b'0' = ground arith in
      omega
        (arith, big_int_cons c s, mul-le-mul_right (pow10 (length s)) head, pow10_pos (length s))
  | inr miss ↦ omega (arith, big_int_cons c s, has_nonzero-true s (ground arith) (ground arith))
]
