-- ===== src/Policy/Tighten/Addresses.antt =====
-- Tightening and the checksummed lists of an ordinary transaction.
use agentfi.Base.{
  ◌≡◌, refl, sym, ◌∙◌, inl, inr, Bool, true, false, Option, none, some, List, [], ◌∷◌, Text, arith,
  any, is_empty, All, text_eq, text_eq→eq, lower, trim, Bool-cases, Option-cases,
}
use agentfi.Policy.Floats.{Floats}
use agentfi.Policy.Authority.{whitelist_loosens, admits, normalize_address, on_patch}
use agentfi.Policy.Service.Row.{get_or}
use agentfi.Policy.Service.{get_addresses, list_check, token_check, pass, Refusal}
use agentfi.Policy.Tighten.Lists.{any_via, whitelist_kept, All-Unit}

module _ (fl : Floats) (get_address : Text → Option Text) where
  -- `getAddress` depends on nothing but the trimmed, case-folded text, where it answers.
  abbrev pub ChecksumLaw : Type 0
  ChecksumLaw =
      (a b x y : Text)
      → get_address a ≡ some x
      → get_address b ≡ some y
      → lower (trim a) ≡ lower (trim b)
      → x ≡ y

  -- Every stored entry is an address that `getAddress` accepts.
  abbrev pub AllAddresses : List Text → Type 0
  AllAddresses = All (λ a. (x : Text) × (get_address a ≡ some x))

  addr_is : Text → Text → Bool
  addr_is t a = elim (get_address a) [ none ↦ false | some x ↦ text_eq x t ]

  get_addresses_all :
      (l : List Text)
      → AllAddresses l
      → (xs : List Text) × (get_addresses fl get_address l ≡ some xs)
  unfolding get_addresses
  get_addresses_all [] h = ([], refl)
  get_addresses_all (a ∷ l) h =
      let (xs, e) = get_addresses_all l h.1 in (h.0.0 ∷ xs, rw (h.0.1, get_addresses) (rw e))

  any_addresses :
      (l xs : List Text) (t : Text)
      → get_addresses fl get_address l ≡ some xs
      → any (λ x. text_eq x t) xs ≡ any (addr_is t) l
  unfolding get_addresses addr_is
  any_addresses [] xs t h = ground arith
  any_addresses (a ∷ l) xs t h = elim (Option-cases (get_address a)) [
    | inl e ↦ absurd (ground arith)
    | inr (x, e) ↦ elim (Option-cases (get_addresses fl get_address l)) [
      | inl f ↦ absurd (ground arith)
      | inr (ys, f) ↦ ground (arith, any_addresses l ys t f)
    ]
  ]

  admits_addr :
      (law : ChecksumLaw) (cur : List Text) (e t : Text)
      → AllAddresses cur
      → addr_is t e ≡ true
      → admits cur e ≡ true
      → any (addr_is t) cur ≡ true
  unfolding admits normalize_address addr_is
  admits_addr law [] e t v s h = cc
  admits_addr law (c ∷ cur) e t v s h = elim (Option-cases (get_address e)) [
    | inl gone ↦ absurd (ground arith)
    | inr (x, ex) ↦ elim (Bool-cases (text_eq (lower (trim c)) (lower (trim e)))) [
      | inl hit ↦
          let y≡x : v.0.0 ≡ x =
            law c e v.0.0 x v.0.1 ex (text_eq→eq (lower (trim c)) (lower (trim e)) hit) in
          ground arith
      | inr miss ↦ ground (arith, admits_addr law cur e t v.1 s)
    ]
  ]

  list_check_found :
      (l : List Text) (target : Text) (r : Refusal)
      → is_empty l ≡ false
      → list_check fl get_address l target r ≡ pass
      → (t : Text) × (get_address target ≡ some t) × (any (addr_is t) l ≡ true)
  unfolding list_check
  list_check_found [] target r ne h = cc
  list_check_found (a ∷ l) target r ne h = elim (Option-cases (get_address target)) [
    | inl e ↦ absurd (ground arith)
    | inr (t, e) ↦ elim (Option-cases (get_addresses fl get_address (a ∷ l))) [
      | inl f ↦ absurd (ground arith)
      | inr (xs, f) ↦ (t, e, sym (any_addresses (a ∷ l) xs t f) ∙ ground arith)
    ]
  ]

  list_check-pass :
      (l : List Text) (target t : Text) (r : Refusal)
      → AllAddresses l
      → get_address target ≡ some t
      → any (addr_is t) l ≡ true
      → list_check fl get_address l target r ≡ pass
  unfolding list_check
  list_check-pass [] target t r v e h = refl
  list_check-pass (a ∷ l) target t r v e h =
      let (xs, f) = get_addresses_all (a ∷ l) v in ground (arith, any_addresses (a ∷ l) xs t f)

  pub list_check_mono :
      (law : ChecksumLaw) (cur next : List Text) (target : Text) (r : Refusal)
      → AllAddresses cur
      → whitelist_loosens cur next ≡ false
      → list_check fl get_address next target r ≡ pass
      → list_check fl get_address cur target r ≡ pass
  unfolding list_check
  list_check_mono law cur next target r v h k = elim (whitelist_kept cur next h) [
    | inl e ↦ rw e
    | inr (nonempty, admitted) ↦
        let (t, e, found) = list_check_found next target r nonempty k in
        list_check-pass cur target t r v e (
          any_via (λ a. Unit {0}) (addr_is t) (addr_is t) next cur admitted (All-Unit next)
            (λ a u s m. admits_addr law cur a t v s m) found)
  ]

  pub list_check_patched :
      (law : ChecksumLaw) (cur : List Text) (p : Option (List Text)) (target : Text) (r : Refusal)
      → AllAddresses cur
      → on_patch p (whitelist_loosens cur) ≡ false
      → list_check fl get_address (get_or cur p) target r ≡ pass
      → list_check fl get_address cur target r ≡ pass
  list_check_patched law cur none target r v h k = k
  list_check_patched law cur (some next) target r v h k =
      list_check_mono law cur next target r v h k

  pub token_check_patched :
      (law : ChecksumLaw) (cur : List Text) (p : Option (List Text)) (token : Option Text)
      → AllAddresses cur
      → on_patch p (whitelist_loosens cur) ≡ false
      → token_check fl get_address (get_or cur p) token ≡ pass
      → token_check fl get_address cur token ≡ pass
  unfolding token_check
  token_check_patched law cur p none v h k = refl
  token_check_patched law cur p (some []) v h k = refl
  token_check_patched law cur p (some (c ∷ t)) v h k = list_check_patched law cur p (c ∷ t) _ v h k
