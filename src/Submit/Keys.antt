-- ===== src/Submit/Keys.antt =====
-- wallet-lane.ts, `walletLaneKey`: which wallets share a lane.
use agentfi.Base.{
  ℕ, suc, ◌≡◌, ◌↔◌, refl, sym, ap, ◌∙◌, true, [], ◌∷◌, ◌++◌, Text, all, lower, arith,
}
use agentfi.Decimal.{is_digit, show_ℕ, big_int}
use agentfi.Decimal.Print.{show_digits-all, show_digits_value}
use agentfi.Submit.{wallet_lane_key}

-- Digits before a colon are told apart from what follows it.
digits_colon :
    (xs ys as' bs : Text)
    → all is_digit xs ≡ true
    → all is_digit ys ≡ true
    → xs ++ b':' ∷ as' ≡ ys ++ b':' ∷ bs
    → (xs ≡ ys) × (as' ≡ bs)
unfolding is_digit
digits_colon [] [] as' bs h k e = (refl, cc)
digits_colon [] (y ∷ ys) as' bs h k e = absurd (ground arith)
digits_colon (x ∷ xs) [] as' bs h k e = absurd (ground arith)
digits_colon (x ∷ xs) (y ∷ ys) as' bs h k e =
    let (p, q) = digits_colon xs ys as' bs (ground arith) (ground arith) (cc) in (cc, q)

show_ℕ-digits : (n : ℕ) → all is_digit (show_ℕ n) ≡ true
unfolding show_ℕ
show_ℕ-digits n = show_digits-all (suc n) n

show_ℕ_injective : (m n : ℕ) → show_ℕ m ≡ show_ℕ n → m ≡ n
unfolding show_ℕ
show_ℕ_injective m n e =
    sym (show_digits_value (suc m) m (omega arith))
    ∙ ap big_int e
    ∙ show_digits_value (suc n) n (omega arith)

-- Two wallets share a lane exactly when they are on the same chain and their addresses agree up to
-- the case of letters.
pub wallet_lane_key_iff :
    (chain chain' : ℕ) (from from' : Text)
    → (wallet_lane_key chain from ≡ wallet_lane_key chain' from')
      ↔ ((chain ≡ chain') × (lower from ≡ lower from'))
unfolding wallet_lane_key
wallet_lane_key_iff chain chain' from from' = (
  λ e.
      let (p, q) =
        digits_colon (show_ℕ chain) (show_ℕ chain') (lower from) (lower from') (show_ℕ-digits chain)
          (show_ℕ-digits chain') e in
      (show_ℕ_injective chain chain' p, q),
  λ (p, q). rw (p, q) refl,
)
