-- ===== src/Policy/Tighten/Lists.antt =====
-- Allowlists, as the classifier and the checks compare them.
use agentfi.Base.{
  ◌≡◌, refl, sym, ap, ◌∙◌, ◌⊎◌, inl, inr, Bool, true, false, not, Option, none, some, List, [], ◌∷◌,
  Text, arith, any, is_empty, All, text_eq, text_eq→eq, lower, trim, Bool-cases,
}
use agentfi.Policy.{same_address}
use agentfi.Policy.Usdc.{listed, refuses}
use agentfi.Policy.Authority.{whitelist_loosens, admits, normalize_address}
use agentfi.Policy.Service.{recipient_refused}

-- No stored entry has spaces around it.
abbrev pub AllTrimmed : List Text → Type 0
AllTrimmed = All (λ a. trim a ≡ a)

any-false : {A : Type 0} (p : A → Bool) (xs : List A) → any p xs ≡ false → All (λ x. p x ≡ false) xs
any-false p [] h = tt
any-false p (x ∷ xs) h = (ground arith, any-false p xs (ground arith))

-- An entry that one test finds, in a list whose entries all have a match in another list.
pub any_via :
    (R : Text → Type 0) (p q : Text → Bool) (next cur : List Text)
    → All (λ a. not (admits cur a) ≡ false) next
    → All R next
    → ((a : Text) → R a → p a ≡ true → admits cur a ≡ true → any q cur ≡ true)
    → any p next ≡ true
    → any q cur ≡ true
any_via R p q [] cur h r step e = cc
any_via R p q (a ∷ next) cur h r step e = elim (Bool-cases (p a)) [
  | inl hit ↦ step a r.0 hit (ground arith)
  | inr miss ↦ any_via R p q next cur h.1 r.1 step (ground arith)
]

-- A list that does not loosen: the current one is empty, or every entry of the new one, which is not
-- empty, is in the current one.
pub whitelist_kept :
    (cur next : List Text)
    → whitelist_loosens cur next ≡ false
    → (cur ≡ []) ⊎ ((is_empty next ≡ false) × All (λ a. not (admits cur a) ≡ false) next)
unfolding whitelist_loosens
whitelist_kept [] next h = inl refl
whitelist_kept (c ∷ cur) [] h = cc
whitelist_kept (c ∷ cur) (a ∷ next) h = inr (refl, any-false _ (a ∷ next) h)

admits-listed :
    (cur : List Text) (e a : Text)
    → AllTrimmed cur
    → trim e ≡ e
    → same_address e a ≡ true
    → admits cur e ≡ true
    → listed cur a ≡ true
unfolding admits listed
admits-listed [] e a tc te s h = cc
admits-listed (c ∷ cur) e a tc te s h =
    elim (Bool-cases (text_eq (normalize_address c) (normalize_address e))) [
      | inl hit ↦
          let same : lower c ≡ lower e =
            ap lower (sym tc.0)
            ∙ text_eq→eq (normalize_address c) (normalize_address e) hit
            ∙ ap lower te in
          let found : same_address c a ≡ true = rw same s in rw found
      | inr miss ↦ ground (arith, admits-listed cur e a tc.1 te s)
    ]

-- The lists of the USDC check, where no stored entry has spaces around it.
pub refuses_mono :
    (cur next : List Text) (a : Text)
    → AllTrimmed cur
    → AllTrimmed next
    → whitelist_loosens cur next ≡ false
    → refuses next a ≡ false
    → refuses cur a ≡ false
unfolding refuses listed
refuses_mono cur next a tc tn h r = elim (whitelist_kept cur next h) [
  | inl e ↦ rw e
  | inr (nonempty, admitted) ↦
      let found : any (λ e. same_address e a) next ≡ true = ground arith in
      let here : any (λ e. same_address e a) cur ≡ true =
        any_via (λ e. trim e ≡ e) (λ e. same_address e a) (λ e. same_address e a) next cur admitted
          tn (λ e te s k. admits-listed cur e a tc te s k) found in
      ground arith
]

abbrev matches : Text → Text → Bool
matches r entry = text_eq (lower (trim entry)) (lower r)

admits-matches :
    (cur : List Text) (e r : Text)
    → matches r e ≡ true
    → admits cur e ≡ true
    → any (matches r) cur ≡ true
unfolding admits
admits-matches [] e r s h = cc
admits-matches (c ∷ cur) e r s h =
    elim (Bool-cases (text_eq (normalize_address c) (normalize_address e))) [
      | inl hit ↦
          let same : lower (trim c) ≡ lower (trim e) =
            text_eq→eq (normalize_address c) (normalize_address e) hit in
          let found : matches r c ≡ true = rw same s in rw found
      | inr miss ↦ ground (arith, admits-matches cur e r s)
    ]

pub All-Unit : (xs : List Text) → All (λ a. Unit {0}) xs
All-Unit [] = tt
All-Unit (x ∷ xs) = (tt, All-Unit xs)

-- The recipients of an ordinary transaction, with no condition on the stored entries.
pub recipient_refused_mono :
    (cur next : List Text) (r : Option Text)
    → whitelist_loosens cur next ≡ false
    → recipient_refused next r ≡ false
    → recipient_refused cur r ≡ false
unfolding recipient_refused
recipient_refused_mono cur next none h k = refl
recipient_refused_mono cur next (some []) h k = refl
recipient_refused_mono cur next (some (c ∷ r)) h k = elim (whitelist_kept cur next h) [
  | inl e ↦ rw e
  | inr (nonempty, admitted) ↦
      let found : any (matches (c ∷ r)) next ≡ true = ground arith in
      let here : any (matches (c ∷ r)) cur ≡ true =
        any_via (λ e. Unit {0}) (matches (c ∷ r)) (matches (c ∷ r)) next cur admitted
          (All-Unit next) (λ e u s k. admits-matches cur e (c ∷ r) s k) found in
      ground arith
]
