-- ===== src/Sync/Applied.antt =====
-- What the planned entries of one whitelist assign to an address.
use agentfi.Base.{
  ◌≡◌, refl, sym, ap, ◌∙◌, ◌⊎◌, inl, inr, Bool, true, false, ◌||◌, List, [], ◌∷◌, ◌++◌, Text, lower,
  text_eq, text_eq→eq, text_eq_sym, arith, any, Bool-cases,
}
use agentfi.Sync.{mem_text}
use agentfi.Sync.Plan.{lowered, Members, missing_entries, extra_entries, is_member}
use agentfi.Sync.Module.{assign, assign_all}
use agentfi.Sync.Reading.{Reads, matches, Gives}

pub assign_all-append :
    (es fs : List (Text × Bool)) (f : Text → Bool) (x : Text)
    → assign_all (es ++ fs) f x ≡ assign_all fs (assign_all es f) x
unfolding assign_all
assign_all-append [] fs f x = refl
assign_all-append ((a, b) ∷ es) fs f x = assign_all-append es fs (assign (lower a) b f) x

module _ (x : Text) (members : Members) where
  pub missing-Gives : (wanted : List Text) → Gives x true (missing_entries wanted members)
  unfolding missing_entries
  missing-Gives [] = tt
  missing-Gives (a ∷ wanted) = elim (Bool-cases (is_member a members)) [
    | inl present ↦ rw present (missing-Gives wanted)
    | inr absent ↦ rw absent ((λ h. refl), missing-Gives wanted)
  ]

  pub missing-miss :
      (wanted : List Text)
      → mem_text x (lowered wanted) ≡ false
      → any (matches x) (missing_entries wanted members) ≡ false
  unfolding missing_entries
  missing-miss [] h = refl
  missing-miss (a ∷ wanted) h = ground (arith, missing-miss wanted, text_eq_sym x (lower a))

  pub missing-hit :
      (wanted : List Text) (f : Text → Bool)
      → Reads f members wanted
      → mem_text x (lowered wanted) ≡ true
      → (f x ≡ true) ⊎ (any (matches x) (missing_entries wanted members) ≡ true)
  unfolding missing_entries
  missing-hit [] f r h = cc
  missing-hit (a ∷ wanted) f r h = elim (Bool-cases (text_eq (lower a) x)) [
    | inl same ↦ elim (Bool-cases (is_member a members)) [
      | inl present ↦ inl (ap f (sym (text_eq→eq (lower a) x same)) ∙ sym (r.0) ∙ present)
      | inr absent ↦ inr (rw absent (ground (arith, text_eq_sym x (lower a))))
    ]
    | inr other ↦ elim (missing-hit wanted f r.1 (ground arith)) [
      | inl e ↦ inl e
      | inr later ↦ inr (ground arith)
    ]
  ]

  pub extra-Gives :
      (wanted seen history : List Text) → Gives x false (extra_entries wanted seen history members)
  unfolding extra_entries
  extra-Gives wanted seen [] = tt
  extra-Gives wanted seen (a ∷ history) =
      elim (Bool-cases (mem_text (lower a) (lowered wanted) || mem_text (lower a) seen)) [
        | inl known ↦ rw known (extra-Gives wanted seen history)
        | inr fresh ↦ elim (Bool-cases (is_member a members)) [
          | inl present ↦
              rw fresh (rw present ((λ h. refl), extra-Gives wanted (lower a ∷ seen) history))
          | inr absent ↦ rw fresh (rw absent (extra-Gives wanted (lower a ∷ seen) history))
        ]
      ]

  pub extra-wanted :
      (wanted seen history : List Text)
      → mem_text x (lowered wanted) ≡ true
      → any (matches x) (extra_entries wanted seen history members) ≡ false
  unfolding extra_entries
  extra-wanted wanted seen [] h = refl
  extra-wanted wanted seen (a ∷ history) h = elim (Bool-cases (text_eq x (lower a))) [
    | inl same ↦
        let listed : mem_text (lower a) (lowered wanted) ≡ true =
          ap (λ t. mem_text t (lowered wanted)) (sym (text_eq→eq x (lower a) same)) ∙ h in
        rw listed (extra-wanted wanted seen history h)
    | inr other ↦
        ground (
          arith,
          extra-wanted wanted seen history h,
          extra-wanted wanted (lower a ∷ seen) history h,
        )
  ]

  pub extra-miss :
      (wanted seen history : List Text)
      → mem_text x (lowered history) ≡ false
      → any (matches x) (extra_entries wanted seen history members) ≡ false
  unfolding extra_entries
  extra-miss wanted seen [] h = refl
  extra-miss wanted seen (a ∷ history) h =
      let rest : mem_text x (lowered history) ≡ false = ground arith in
      ground (
        arith,
        extra-miss wanted seen history rest,
        extra-miss wanted (lower a ∷ seen) history rest,
        text_eq_sym x (lower a),
      )

  pub extra-hit :
      (wanted seen history : List Text) (f : Text → Bool)
      → Reads f members history
      → mem_text x (lowered wanted) ≡ false
      → mem_text x seen ≡ false
      → mem_text x (lowered history) ≡ true
      → (f x ≡ false) ⊎ (any (matches x) (extra_entries wanted seen history members) ≡ true)
  unfolding extra_entries
  extra-hit wanted seen [] f r u v h = cc
  extra-hit wanted seen (a ∷ history) f r u v h = elim (Bool-cases (text_eq (lower a) x)) [
    | inl same ↦
        let e : lower a ≡ x = text_eq→eq (lower a) x same in
        let fresh : (mem_text (lower a) (lowered wanted) || mem_text (lower a) seen) ≡ false =
          rw e (ground arith) in
        elim (Bool-cases (is_member a members)) [
          | inl present ↦ inr (rw fresh (rw present (ground (arith, text_eq_sym x (lower a)))))
          | inr absent ↦ inl (ap f (sym e) ∙ sym (r.0) ∙ absent)
        ]
    | inr other ↦
        elim (Bool-cases (mem_text (lower a) (lowered wanted) || mem_text (lower a) seen)) [
          | inl known ↦ rw known (extra-hit wanted seen history f r.1 u v (ground arith))
          | inr fresh ↦
              rw fresh
                (elim (extra-hit wanted (lower a ∷ seen) history f r.1 u (ground arith)
                  (ground arith)) [ inl e ↦ inl e | inr later ↦ inr (ground arith) ])
        ]
  ]
