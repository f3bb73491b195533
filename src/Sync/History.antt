-- ===== src/Sync/History.antt =====
-- packages/backend/src/services/policy/policy-sync.ts: the addresses that earlier syncs sent.
use agentfi.Base.{
  ◌≡◌, refl, sym, ap, ◌∙◌, inl, inr, Bool, ◌&&◌, ◌||◌, Option, none, some, List, [], ◌∷◌, ◌++◌,
  Text, arith, lower, text_eq, text_eq→eq, any, All, if◌then◌else◌, Bool-cases,
}
use agentfi.Sync.{is_address, mem_text}
use agentfi.Sync.Plan.{update_contract_whitelist, update_token_whitelist, lowered}
use agentfi.Sync.Superseded.{PolicySyncMetadata}
use agentfi.Sync.Exact.{ChangesCase}

-- The entries of a row's whitelist call; a row that is no sync has no metadata.
abbrev pub contract_entries : Option PolicySyncMetadata → List (Text × Bool)
contract_entries none = []
contract_entries (some meta) = elim meta.call [ update_contract_whitelist es ↦ es | _ ↦ [] ]

abbrev pub token_entries : Option PolicySyncMetadata → List (Text × Bool)
token_entries none = []
token_entries (some meta) = elim meta.call [ update_token_whitelist es ↦ es | _ ↦ [] ]

-- `Map.set` with the address in lower case: the keys, in order of insertion.
unfoldable pub add_key : Text → List Text → List Text
add_key a keys = if mem_text (lower a) keys then keys else keys ++ (lower a ∷ [])

unfoldable pub add_entries : List (Text × Bool) → List Text → List Text
unfolding add_key is_address
add_entries [] keys = keys
add_entries ((a, b) ∷ es) keys =
    let next = if is_address a then add_key a keys else keys in add_entries es next

unfoldable pub collect :
    (Option PolicySyncMetadata → List (Text × Bool))
    → List (Option PolicySyncMetadata)
    → List Text
    → List Text
unfolding add_entries
collect entries [] keys = keys
collect entries (row ∷ rows) keys = collect entries rows (add_entries (entries row) keys)

-- The value of a key is its checksummed spelling.
abbrev pub spell : (Text → Text) → List Text → List Text
spell get_address [] = []
spell get_address (k ∷ keys) = get_address k ∷ spell get_address keys

unfoldable pub sync_history :
    (Text → Text) → List (Option PolicySyncMetadata) → List Text × List Text
unfolding collect
sync_history get_address rows = (
  spell get_address (collect contract_entries rows []),
  spell get_address (collect token_entries rows []),
)

-- Whether a call names an address.
abbrev pub names : Text → List (Text × Bool) → Bool
names x es = any (λ e. is_address e.0 && text_eq (lower e.0) x) es

module _ (x : Text) where
  any-append :
      (keys : List Text) (k : Text)
      → mem_text x (keys ++ (k ∷ [])) ≡ (mem_text x keys || text_eq k x)
  any-append [] k = ground arith
  any-append (l ∷ keys) k = ground (arith, any-append keys k)

  any-add_key :
      (a : Text) (keys : List Text)
      → mem_text x (add_key a keys) ≡ (text_eq (lower a) x || mem_text x keys)
  unfolding add_key
  any-add_key a keys = elim (Bool-cases (mem_text (lower a) keys)) [
    | inl known ↦ rw known (elim (Bool-cases (text_eq (lower a) x)) [
      | inl same ↦ rw same (ap (λ t. mem_text t keys) (sym (text_eq→eq (lower a) x same)) ∙ known)
      | inr other ↦ rw other refl
    ])
    | inr fresh ↦ rw fresh (ground (arith, any-append keys (lower a)))
  ]

  any-add_entries :
      (es : List (Text × Bool)) (keys : List Text)
      → mem_text x (add_entries es keys) ≡ (names x es || mem_text x keys)
  unfolding add_entries
  any-add_entries [] keys = refl
  any-add_entries ((a, b) ∷ es) keys = elim (Bool-cases (is_address a)) [
    | inl good ↦ rw good (ground (arith, any-add_entries es (add_key a keys), any-add_key a keys))
    | inr bad ↦ rw bad (any-add_entries es keys)
  ]

  any-collect :
      (entries : Option PolicySyncMetadata → List (Text × Bool))
      (rows : List (Option PolicySyncMetadata)) (keys : List Text)
      → mem_text x (collect entries rows keys)
        ≡ (any (λ row. names x (entries row)) rows || mem_text x keys)
  unfolding collect
  any-collect entries [] keys = refl
  any-collect entries (row ∷ rows) keys = ground (
    arith,
    any-collect entries rows (add_entries (entries row) keys),
    any-add_entries (entries row) keys,
  )

module _ (get_address : Text → Text) (cased : ChangesCase get_address) where
  abbrev Spelled : List Text → Type 0
  Spelled = All (λ k. lower (get_address k) ≡ k)

  append-Spelled : (keys : List Text) (a : Text) → Spelled keys → Spelled (keys ++ (lower a ∷ []))
  append-Spelled [] a h = (cased a, tt)
  append-Spelled (k ∷ keys) a h = (h.0, append-Spelled keys a h.1)

  add_entries-Spelled :
      (es : List (Text × Bool)) (keys : List Text) → Spelled keys → Spelled (add_entries es keys)
  unfolding add_entries add_key
  add_entries-Spelled [] keys h = h
  add_entries-Spelled ((a, b) ∷ es) keys h = elim (Bool-cases (is_address a)) [
    | inl good ↦ elim (Bool-cases (mem_text (lower a) keys)) [
      | inl known ↦ rw (good, known) (add_entries-Spelled es keys h)
      | inr fresh ↦
          rw (good, fresh)
            (add_entries-Spelled es (keys ++ (lower a ∷ [])) (append-Spelled keys a h))
    ]
    | inr bad ↦ rw bad (add_entries-Spelled es keys h)
  ]

  collect-Spelled :
      (entries : Option PolicySyncMetadata → List (Text × Bool))
      (rows : List (Option PolicySyncMetadata)) (keys : List Text)
      → Spelled keys
      → Spelled (collect entries rows keys)
  unfolding collect
  collect-Spelled entries [] keys h = h
  collect-Spelled entries (row ∷ rows) keys h =
      collect-Spelled entries rows (add_entries (entries row) keys)
        (add_entries-Spelled (entries row) keys h)

  spell_lem : (keys : List Text) → Spelled keys → lowered (spell get_address keys) ≡ keys
  spell_lem [] h = refl
  spell_lem (k ∷ keys) h = cc (h.0, spell_lem keys h.1)

-- The history names an address exactly when some row's whitelist call of its kind sent it, given a
-- checksum that changes the case of letters only.
pub sync_history_lem :
    (get_address : Text → Text) (rows : List (Option PolicySyncMetadata)) (x : Text)
    → ChangesCase get_address
    → (mem_text x (lowered (sync_history get_address rows).0)
        ≡ any (λ row. names x (contract_entries row)) rows)
      × (mem_text x (lowered (sync_history get_address rows).1)
          ≡ any (λ row. names x (token_entries row)) rows)
unfolding sync_history
sync_history_lem get_address rows x cased = (sent contract_entries, sent token_entries)
  where
    sent :
        (entries : Option PolicySyncMetadata → List (Text × Bool))
        → mem_text x (lowered (spell get_address (collect entries rows [])))
          ≡ any (λ row. names x (entries row)) rows
    sent entries =
        ap (mem_text x) (
          spell_lem get_address cased (collect entries rows [])
            (collect-Spelled get_address cased entries rows [] tt))
        ∙ ground (arith, any-collect x entries rows [])
