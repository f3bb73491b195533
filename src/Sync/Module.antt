-- ===== src/Sync/Module.antt =====
-- packages/contracts/src/AgentPolicyModule.sol: the state of one wallet and the calls that the
-- operator sends, where `none` is a revert. An address is its text in lower case.
use agentfi.Base.{
  ℕ, ◌+◌, ◌-◌, ◌≤◌, ◌≡◌, refl, sym, ap, ◌∙◌, inl, inr, Bool, true, false, not, ◌&&◌, ◌||◌, Option,
  none, some, List, [], ◌∷◌, Text, ◌==◌, if◌then◌else◌, lower, text_eq, text_eq→eq, text_eq_refl,
  arith, Bool-cases,
}
use agentfi.Sync.{mem_text}
use agentfi.Sync.Plan.{
  PolicySyncCall, set_policy, emergency_pause, resume, update_contract_whitelist,
  update_token_whitelist, same_flag, PolicyModuleReader, Core,
}

pub record Whitelist : Type 0 where
  pub allowed : Text → Bool
  pub num_allowed : ℕ

pub record ModuleState : Type 0 where
  pub has_policy : Bool
  pub policy : Core
  pub contracts : Whitelist
  pub tokens : Whitelist

abbrev pub assign : Text → Bool → (Text → Bool) → Text → Bool
assign a b allowed x = if text_eq x a then b else allowed x

-- One turn of the loop; a counter of 0 reverts when it is decreased.
unfoldable pub update_entry : Text → Bool → Whitelist → Option Whitelist
update_entry a b w =
    if same_flag (w.allowed a) b
    then some w
    else if b
    then some (record { allowed = assign a b w.allowed; num_allowed = w.num_allowed + 1 })
    else if w.num_allowed == 0
    then none
    else some (record { allowed = assign a b w.allowed; num_allowed = w.num_allowed - 1 })

unfoldable pub update_whitelist : List (Text × Bool) → Whitelist → Option Whitelist
unfolding update_entry
update_whitelist [] w = some w
update_whitelist ((a, b) ∷ entries) w = elim (update_entry (lower a) b w) [
  | none ↦ none
  | some w' ↦ update_whitelist entries w'
]

abbrev pub with_active : Bool → ModuleState → ModuleState
with_active active m = record m { policy = record m.policy { active = active } }

unfoldable pub call_module : PolicySyncCall → ModuleState → Option ModuleState
unfolding update_whitelist
call_module (set_policy wei cooldown active expiry) m =
    if wei == 0
    then none
    else some (record m {
      has_policy = true;
      policy = record {
        max_value_per_tx_wei = wei;
        cooldown_seconds = cooldown;
        active = active;
        expires_at = expiry;
      };
    })
call_module emergency_pause m = some (with_active false m)
call_module resume m = some (with_active true m)
call_module (update_contract_whitelist entries) m = elim (update_whitelist entries m.contracts) [
  | none ↦ none
  | some w ↦ some (record m { contracts = w })
]
call_module (update_token_whitelist entries) m = elim (update_whitelist entries m.tokens) [
  | none ↦ none
  | some w ↦ some (record m { tokens = w })
]

unfoldable pub call_all : List PolicySyncCall → ModuleState → Option ModuleState
unfolding call_module
call_all [] m = some m
call_all (c ∷ calls) m = elim (call_module c m) [ none ↦ none | some m' ↦ call_all calls m' ]

-- An empty list allows everything.
unfoldable pub view_allowed : Whitelist → Text → Bool
view_allowed w a = w.num_allowed == 0 || w.allowed a

abbrev pub views : ModuleState → PolicyModuleReader
views m = record {
  view_has_policy = m.has_policy;
  view_policy = m.policy;
  num_allowed_contracts = m.contracts.num_allowed;
  num_allowed_tokens = m.tokens.num_allowed;
  is_contract_allowed = view_allowed m.contracts;
  is_token_allowed = view_allowed m.tokens;
}

abbrev pub bit : Bool → ℕ
bit true = 1
bit false = 0

unfoldable pub distinct : List Text → Bool
distinct [] = true
distinct (x ∷ xs) = not (mem_text x xs) && distinct xs

unfoldable pub count_allowed : (Text → Bool) → List Text → ℕ
count_allowed allowed [] = 0
count_allowed allowed (x ∷ xs) = bit (allowed x) + count_allowed allowed xs

-- The counter counts the members: no list of different addresses has more of them.
abbrev pub IsCounted : Whitelist → Type 0
IsCounted w = (xs : List Text) → distinct xs ≡ true → count_allowed w.allowed xs ≤ w.num_allowed

count-assign_miss :
    (a : Text) (b : Bool) (allowed : Text → Bool) (xs : List Text)
    → mem_text a xs ≡ false
    → count_allowed (assign a b allowed) xs ≡ count_allowed allowed xs
unfolding count_allowed
count-assign_miss a b allowed [] h = refl
count-assign_miss a b allowed (x ∷ xs) h = ground (arith, count-assign_miss a b allowed xs)

count-assign_hit :
    (a : Text) (b : Bool) (allowed : Text → Bool) (xs : List Text)
    → distinct xs ≡ true
    → mem_text a xs ≡ true
    → count_allowed (assign a b allowed) xs + bit (allowed a) ≡ count_allowed allowed xs + bit b
unfolding count_allowed distinct
count-assign_hit a b allowed [] d h = cc
count-assign_hit a b allowed (x ∷ xs) d h = elim (Bool-cases (text_eq x a)) [
  | inl same ↦
      let e : x ≡ a = text_eq→eq x a same in
      let fresh : mem_text a xs ≡ false = rw (sym e) (ground arith) in
      rw (e, text_eq_refl a) (omega (arith, count-assign_miss a b allowed xs fresh))
  | inr other ↦
      rw other (omega (arith, count-assign_hit a b allowed xs (ground arith) (ground arith)))
]

count_same :
    (a : Text) (f : Text → Bool) (b : Bool) (xs : List Text)
    → f a ≡ b
    → count_allowed (assign a b f) xs ≡ count_allowed f xs
unfolding count_allowed
count_same a f b [] e = refl
count_same a f b (x ∷ xs) e = elim (Bool-cases (text_eq x a)) [
  | inl same ↦ rw (same, text_eq→eq x a same, e) (omega (arith, count_same a f b xs e))
  | inr other ↦ rw other (omega (arith, count_same a f b xs e))
]

pub added-IsCounted :
    (a : Text) (w : Whitelist)
    → IsCounted w
    → w.allowed a ≡ false
    → IsCounted (record { allowed = assign a true w.allowed; num_allowed = w.num_allowed + 1 })
added-IsCounted a w c e xs d = elim (Bool-cases (mem_text a xs)) [
  | inl hit ↦
      let bit_a : bit (w.allowed a) ≡ 0 = ap bit e in
      omega (arith, bit_a, c xs d, count-assign_hit a true w.allowed xs d hit)
  | inr miss ↦ omega (arith, c xs d, count-assign_miss a true w.allowed xs miss)
]

removed-IsCounted :
    (a : Text) (w : Whitelist)
    → IsCounted w
    → w.allowed a ≡ true
    → IsCounted (record { allowed = assign a false w.allowed; num_allowed = w.num_allowed - 1 })
unfolding count_allowed distinct
removed-IsCounted a w c e xs d =
    let bit_a : bit (w.allowed a) ≡ 1 = ap bit e in
    elim (Bool-cases (mem_text a xs)) [
      | inl hit ↦ omega (arith, bit_a, c xs d, count-assign_hit a false w.allowed xs d hit)
      | inr miss ↦ omega (
        arith,
        bit_a,
        c (a ∷ xs) (rw (miss, d) refl),
        count-assign_miss a false w.allowed xs miss,
      )
    ]

pub member-counted :
    (a : Text) (w : Whitelist) → IsCounted w → w.allowed a ≡ true → 1 ≤ w.num_allowed
unfolding count_allowed distinct
member-counted a w c e =
    let bit_a : bit (w.allowed a) ≡ 1 = ap bit e in omega (arith, bit_a, c (a ∷ []) refl)

pub same_flag→eq : (a b : Bool) → same_flag a b ≡ true → a ≡ b
same_flag→eq a b h = ground arith

assign-same : (a : Text) (b : Bool) (f : Text → Bool) → f a ≡ b → (x : Text) → f x ≡ assign a b f x
assign-same a b f e x = elim (Bool-cases (text_eq x a)) [
  | inl same ↦ rw (same, text_eq→eq x a same) e
  | inr other ↦ rw other refl
]

flipped :
    (a : Text) (b : Bool) (w : Whitelist)
    → IsCounted w
    → same_flag (w.allowed a) b ≡ false
    → (w' : Whitelist) × (update_entry a b w ≡ some w')
      × IsCounted w'
      × ((x : Text) → w'.allowed x ≡ assign a b w.allowed x)
unfolding update_entry
flipped a true w c h = (
  record { allowed = assign a true w.allowed; num_allowed = w.num_allowed + 1 },
  rw h refl,
  added-IsCounted a w c (ground arith),
  (λ x. refl),
)
flipped a false w c h =
    let member : w.allowed a ≡ true = ground arith in
    let counted = member-counted a w c member in
    (
      record { allowed = assign a false w.allowed; num_allowed = w.num_allowed - 1 },
      ground arith,
      removed-IsCounted a w c member,
      (λ x. refl),
    )

-- The counter never reverts and goes on counting the members.
pub update_entry_lem :
    (a : Text) (b : Bool) (w : Whitelist)
    → IsCounted w
    → (w' : Whitelist) × (update_entry a b w ≡ some w')
      × IsCounted w'
      × ((x : Text) → w'.allowed x ≡ assign a b w.allowed x)
unfolding update_entry
update_entry_lem a b w c = elim (Bool-cases (same_flag (w.allowed a) b)) [
  | inl same ↦ (w, rw same refl, c, assign-same a b w.allowed (same_flag→eq (w.allowed a) b same))
  | inr flips ↦ flipped a b w c flips
]

unfoldable pub assign_all : List (Text × Bool) → (Text → Bool) → Text → Bool
assign_all [] f x = f x
assign_all ((a, b) ∷ entries) f x = assign_all entries (assign (lower a) b f) x

assign_all-cong :
    (entries : List (Text × Bool)) (f g : Text → Bool)
    → ((x : Text) → f x ≡ g x)
    → (x : Text) → assign_all entries f x ≡ assign_all entries g x
unfolding assign_all
assign_all-cong [] f g e x = e x
assign_all-cong ((a, b) ∷ entries) f g e x =
    assign_all-cong entries (assign (lower a) b f) (assign (lower a) b g) (λ y. rw (e y) refl) x

-- The whole loop never reverts and assigns its entries in order.
pub update_whitelist_lem :
    (entries : List (Text × Bool)) (w : Whitelist)
    → IsCounted w
    → (w' : Whitelist) × (update_whitelist entries w ≡ some w')
      × IsCounted w'
      × ((x : Text) → w'.allowed x ≡ assign_all entries w.allowed x)
unfolding update_whitelist assign_all
update_whitelist_lem [] w c = (w, refl, c, (λ x. refl))
update_whitelist_lem ((a, b) ∷ entries) w c =
    let (w1, e1, c1, f1) = update_entry_lem (lower a) b w c in
    let (w2, e2, c2, f2) = update_whitelist_lem entries w1 c1 in
    (
      w2,
      rw (e1, update_whitelist) e2,
      c2,
      (λ x. f2 x ∙ assign_all-cong entries w1.allowed (assign (lower a) b w.allowed) f1 x),
    )
