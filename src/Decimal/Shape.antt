-- ===== src/Decimal/Shape.antt =====
-- How decimal texts fall apart at their dot.
use agentfi.Base.{ℕ, ◌≡◌, refl, true, false, List, [], ◌∷◌, ◌++◌, Text, arith, all, split, ◌==◌}
use agentfi.Decimal.{dot, is_digit, digits1, decimal_shape}

digit-ne-dot : (c : ℕ) → is_digit c ≡ true → (c == dot) ≡ false
unfolding is_digit
digit-ne-dot c h = ground arith

-- Digits hold no dot.
pub split_digits : (w : Text) → all is_digit w ≡ true → split dot w ≡ w ∷ []
unfolding split
split_digits [] h = refl
split_digits (c ∷ w) h = ground (arith, split_digits w, digit-ne-dot c)

pub split-append_dot :
    (w t : Text) → all is_digit w ≡ true → split dot (w ++ dot ∷ t) ≡ w ∷ split dot t
unfolding split
split-append_dot [] t h = refl
split-append_dot (c ∷ w) t h = ground (arith, split-append_dot w t, digit-ne-dot c)

-- A decimal is digits, or digits on both sides of one dot.
pub data Shape (parts : List Text) : Type 0 where
  integral : (w : Text) → parts ≡ w ∷ [] → all is_digit w ≡ true → Shape parts
  fractional :
      (w f : Text)
      → parts ≡ w ∷ f ∷ []
      → all is_digit w ≡ true
      → all is_digit f ≡ true
      → Shape parts

digits1-all : (w : Text) → digits1 w ≡ true → all is_digit w ≡ true
unfolding digits1
digits1-all [] h = refl
digits1-all (c ∷ w) h = h

pub decimal_shape-Shape : (parts : List Text) → decimal_shape parts ≡ true → Shape parts
unfolding decimal_shape
decimal_shape-Shape [] h = cc
decimal_shape-Shape (w ∷ []) h = integral w refl (digits1-all w h)
decimal_shape-Shape (w ∷ f ∷ []) h =
    fractional w f refl (digits1-all w (ground arith)) (digits1-all f (ground arith))
decimal_shape-Shape (w ∷ f ∷ g ∷ r) h = cc
