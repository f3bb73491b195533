-- ===== src/Decimal.antt =====
-- Decimal texts of limits and volumes: packages/backend/src/services/policy/policy-numbers.ts,
-- the conversions of usdc-spend-policy.ts and policy-authority.ts, and the printing of
-- micro-dollars in daily-volume.ts.
pub mod Digits
pub mod Shape
pub mod Rounding
pub mod Trim
pub mod Print
use agentfi.Base.{
  ℕ, suc, zero, ◌+◌, ◌-◌, ◌*◌, ◌/◌, ◌%◌, Bool, true, false, ◌&&◌, not, Option, none, some, List, [],
  ◌∷◌, ◌++◌, Text, ltb, leb, ◌==◌, if◌then◌else◌, length, take, drop, replicate, all, any, is_empty,
  split, trim,
}

abbrev pub dot : ℕ
dot = b'.'

abbrev pub micro_digits : ℕ
micro_digits = 6

-- `\d`.
unfoldable pub is_digit : ℕ → Bool
is_digit c = leb b'0' c && leb c b'9'

-- `\d+`.
unfoldable pub digits1 : Text → Bool
digits1 s = not (is_empty s) && all is_digit s

-- `/^\d+(\.\d+)?$/` over the parts between the dots.
unfoldable pub decimal_shape : List Text → Bool
decimal_shape [] = false
decimal_shape (w ∷ []) = digits1 w
decimal_shape (w ∷ f ∷ []) = digits1 w && digits1 f
decimal_shape (w ∷ f ∷ g ∷ r) = false

unfoldable pub is_policy_decimal : Text → Bool
is_policy_decimal s = decimal_shape (split dot s)

-- `const [whole = '0', fraction = ''] = raw.split('.')`.
abbrev pub whole_part : List Text → Text
whole_part [] = b'0' ∷ []
whole_part (w ∷ r) = w

abbrev pub fraction_part : List Text → Text
fraction_part [] = []
fraction_part (w ∷ []) = []
fraction_part (w ∷ f ∷ r) = f

-- `BigInt(s)` of a text of digits.
unfoldable pub big_int_from : ℕ → Text → ℕ
big_int_from acc [] = acc
big_int_from acc (c ∷ s) = big_int_from (acc * 10 + (c - b'0')) s

unfoldable pub big_int : Text → ℕ
unfolding big_int_from
big_int s = big_int_from 0 s

abbrev pub pad_end : ℕ → Text → Text
pad_end n s = s ++ replicate (n - length s) b'0'

abbrev pub pad_start : ℕ → Text → Text
pad_start n s = replicate (n - length s) b'0' ++ s

unfoldable pub fixed_parts : List Text → ℕ → ℕ
fixed_parts parts d = big_int (whole_part parts ++ take d (pad_end d (fraction_part parts)))

-- Fixed point at `d` decimals, rounded down; called on a policy decimal.
unfoldable pub fixed_point : Text → ℕ → ℕ
fixed_point raw d = fixed_parts (split dot raw) d

-- `null` (no limit) for what is absent or no plain decimal.
unfoldable pub policy_decimal_to_micro : Option Text → Option ℕ
policy_decimal_to_micro none = none
policy_decimal_to_micro (some raw) =
    if is_policy_decimal raw then some (fixed_point raw micro_digits) else none

-- `/[1-9]/` somewhere in the text.
unfoldable pub has_nonzero : Text → Bool
has_nonzero s = any (λ c. leb b'1' c && leb c b'9') s

-- Rounded up beyond six decimals.
unfoldable pub ceil_parts : List Text → ℕ
ceil_parts parts =
    if has_nonzero (drop micro_digits (fraction_part parts))
    then fixed_parts parts micro_digits + 1
    else fixed_parts parts micro_digits

-- The text behind an optional minus sign, and whether the sign is there.
abbrev pub is_negative : Text → Bool
is_negative [] = false
is_negative (c ∷ s) = c == b'-'

abbrev pub unsigned : Text → Text
unsigned [] = []
unsigned (c ∷ s) = if c == b'-' then s else c ∷ s

unfoldable pub ceil_trimmed : Text → Option ℕ
ceil_trimmed s =
    let parts = split dot (unsigned s) in
    if decimal_shape parts then some (if is_negative s then 0 else ceil_parts parts) else none

-- `none` is the exception on an unreadable total.
unfoldable pub usd_text_to_micro_ceil : Option Text → Option ℕ
unfolding ceil_trimmed
usd_text_to_micro_ceil none = some 0
usd_text_to_micro_ceil (some []) = some 0
usd_text_to_micro_ceil (some (c ∷ s)) = ceil_trimmed (trim (c ∷ s))

-- `n.toString()` with fuel, least digit last.
unfoldable pub show_digits : ℕ → ℕ → Text
show_digits zero n = []
show_digits (suc fuel) n =
    let more = show_digits fuel (n / 10) ++ (b'0' + n % 10) ∷ [] in
    if ltb n 10 then (b'0' + n) ∷ [] else more

unfoldable pub show_ℕ : ℕ → Text
unfolding show_digits
show_ℕ n = show_digits (suc n) n

-- Micro-dollars with six decimals.
unfoldable pub micro_to_usd6 : ℕ → Text
unfolding show_ℕ
micro_to_usd6 micro =
    show_ℕ (micro / 1_000_000) ++ dot ∷ pad_start micro_digits (show_ℕ (micro % 1_000_000))
