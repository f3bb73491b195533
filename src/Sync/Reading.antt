-- ===== src/Sync/Reading.antt =====
-- What a reading of the module says, and what a list of entries assigns.
use agentfi.Base.{
  ◌≡◌, refl, sym, ap, ◌∙◌, ◌⊎◌, inl, inr, Bool, true, false, none, some, List, [], ◌∷◌, Text, ◌==◌,
  if◌then◌else◌, lower, text_eq, text_eq_sym, text_eq→eq, arith, All, any, Bool-cases, ||_elim,
}
use agentfi.Sync.{mem_text}
use agentfi.Sync.Plan.{
  lowered, Members, is_member, get_member, put_member, read_from, read_members, probe,
  count_is_zero,
}
use agentfi.Sync.Module.{Whitelist, assign, assign_all, view_allowed, IsCounted, member-counted}

get-put :
    (x a : Text) (b : Bool) (m : Members)
    → get_member x (put_member a b m) ≡ (if text_eq a x then some b else get_member x m)
unfolding get_member put_member
get-put x a b [] = refl
get-put x a b ((k, c) ∷ m) = elim (Bool-cases (text_eq k a)) [
  | inl same ↦
      rw (same, text_eq→eq k a same)
        (elim (Bool-cases (text_eq a x)) [ inl hit ↦ rw hit refl | inr miss ↦ rw miss refl ])
  | inr other ↦
      rw (other, get-put x a b m)
        (elim (Bool-cases (text_eq k x)) [
          | inl hit ↦
              let away : text_eq a x ≡ false =
                text_eq_sym a x ∙ ap (λ t. text_eq t a) (sym (text_eq→eq k x hit)) ∙ other in
              rw (hit, away) refl
          | inr miss ↦ rw miss refl
        ])
]

get-read_from :
    (view : Text → Bool) (nothing : Bool) (list : List Text) (acc : Members) (x : Text)
    → get_member x (read_from view nothing list acc) ≡ (
        if mem_text x (lowered list)
        then some (if nothing then false else view x)
        else get_member x acc)
unfolding read_from
get-read_from view nothing [] acc x = refl
get-read_from view nothing (a ∷ rest) acc x =
    let here = put_member (lower a) (if nothing then false else view (lower a)) acc in
    rw
      (
        get-read_from view nothing rest here x,
        get-put x (lower a) (if nothing then false else view (lower a)) acc,
      )
      (elim (Bool-cases (text_eq (lower a) x)) [
        | inl same ↦
            rw (same, text_eq→eq (lower a) x same)
              (elim (Bool-cases (mem_text x (lowered rest))) [
                | inl later ↦ rw later refl
                | inr last ↦ rw last refl
              ])
        | inr other ↦ rw other refl
      ])

viewed :
    (w : Whitelist) (x : Text)
    → IsCounted w
    → (if w.num_allowed == 0 then false else view_allowed w x) ≡ w.allowed x
unfolding view_allowed
viewed w x c = elim (Bool-cases (w.allowed x)) [
  | inl member ↦ ground (arith, member-counted x w c member)
  | inr other ↦ ground arith
]

probed :
    (w : Whitelist) (has : Bool)
    → w.allowed probe ≡ false
    → count_is_zero (if has then some w.num_allowed else none) (view_allowed w probe)
      ≡ (w.num_allowed == 0)
unfolding view_allowed
probed w true p = refl
probed w false p = rw p (ground arith)

-- A reading of the raw membership: what the whitelist holds, for every candidate.
pub get-read_members :
    (w : Whitelist) (has : Bool) (list : List Text) (x : Text)
    → IsCounted w
    → w.allowed probe ≡ false
    → mem_text x (lowered list) ≡ true
    → get_member x (read_members (view_allowed w) (if has then some w.num_allowed else none) list)
      ≡ some (w.allowed x)
unfolding read_members
get-read_members w has list x c p h =
    rw (probed w has p, get-read_from (view_allowed w) (w.num_allowed == 0) list [] x, h)
      (ap some (viewed w x c))

-- The members that a plan reads, for candidates that were all read.
abbrev pub Reads : (Text → Bool) → Members → List Text → Type 0
Reads allowed members = All (λ a. is_member a members ≡ allowed (lower a))

-- What the entries assign: where all entries for an address agree, that is what it gets.
module _ (x : Text) where
  abbrev pub matches : Text × Bool → Bool
  matches e = text_eq x (lower e.0)

  abbrev pub Gives : Bool → List (Text × Bool) → Type 0
  Gives v = All (λ e. matches e ≡ true → e.1 ≡ v)

  pub assigned :
      (entries : List (Text × Bool)) (f : Text → Bool) (v : Bool)
      → Gives v entries
      → (f x ≡ v) ⊎ (any matches entries ≡ true)
      → assign_all entries f x ≡ v
  unfolding assign_all
  assigned [] f v g (inl e) = e
  assigned [] f v g (inr h) = cc
  assigned ((a, b) ∷ entries) f v g h = elim (Bool-cases (text_eq x (lower a))) [
    | inl hit ↦ assigned entries (assign (lower a) b f) v g.1 (inl (rw hit (g.0 hit)))
    | inr miss ↦ elim h [
      | inl e ↦ assigned entries (assign (lower a) b f) v g.1 (inl (rw miss e))
      | inr later ↦ assigned entries (assign (lower a) b f) v g.1 (inr (ground arith))
    ]
  ]

  pub untouched :
      (entries : List (Text × Bool)) (f : Text → Bool)
      → any matches entries ≡ false
      → assign_all entries f x ≡ f x
  unfolding assign_all
  untouched [] f h = refl
  untouched ((a, b) ∷ entries) f h =
      let (miss, rest) = ||_elim (text_eq x (lower a)) (any matches entries) h in
      untouched entries (assign (lower a) b f) rest ∙ rw miss refl
