-- ===== src/Submit.antt =====
-- packages/backend/src/services/transaction/submitter.service.ts: the nonce, the signature and the
-- broadcast of one transaction inside its wallet's lane. The nodes, the signer, the serializer and
-- the hash are parameters; a call that throws answers `none`.
pub mod Noted
pub mod Order
pub mod Sent
pub mod Keys
use agentfi.Base.{
  ℕ, ◌+◌, ◌*◌, ◌/◌, Bool, true, false, ◌||◌, Option, none, some, List, [], ◌∷◌, ◌++◌, Text, leb,
  if◌then◌else◌, lower,
}
use agentfi.Decimal.{show_ℕ}
use agentfi.Lane.Nonces.{NonceStore}

-- `walletLaneKey`, which is `evaluatorLaneKey` too.
unfoldable pub wallet_lane_key : ℕ → Text → Text
wallet_lane_key chain_id from = show_ℕ chain_id ++ b':' ∷ lower from

pub record SubmitParams : Type 0 where
  pub chain_id : ℕ
  pub wallet_id : ℕ
  pub from : Text
  pub to : Text
  pub call_data : Text
  pub value : ℕ
  pub gas_limit : Option ℕ

pub record SubmissionResult : Type 0 where
  pub tx_hash : Text
  pub nonce : ℕ

pub record UnsignedTx : Type 0 where
  pub chain_id : ℕ
  pub nonce : ℕ
  pub to : Text
  pub value : ℕ
  pub call_data : Text
  pub gas : ℕ
  pub gas_price : ℕ

-- `SubmitterClient`: the answers of one node during a submit.
pub record SubmitterClient : Type 0 where
  pub estimate_gas : SubmitParams → Option ℕ
  pub transaction_count : Text → Option ℕ  -- pending
  pub gas_price : Option ℕ
  pub chain_id : Option ℕ
  pub send_raw_transaction : Text → Option Text
  pub get_transaction : Text → Bool

-- What a submit calls besides the nonce store.
pub record SubmitterDeps : Type 0 where
  pub primary : SubmitterClient
  pub secondary : SubmitterClient
  pub serialize : UnsignedTx → Text
  pub sign_transaction : ℕ → Text → ℕ → Option Text
  pub keccak : Text → Text
  pub on_before_broadcast : Text → Bool  -- false where it throws
  pub reads_nonce : Bool  -- false where the nonce store throws, or there is none
  pub records_nonce : Bool

-- What a submit did outside: the hook called with a hash, a signed transaction sent to a node.
pub data Act : Type 0 where
  announced : Text → Act
  sent_primary : Text → Act
  sent_secondary : Text → Act

infixl 5 ◌>>=◌
abbrev pub ◌>>=◌ : {A B : Type 0} → Option A → (A → Option B) → Option B
none >>= f = none
some a >>= f = f a

abbrev pub given_or : Option ℕ → Option ℕ → Option ℕ
given_or none o = o
given_or (some n) o = some n

-- `lastUsed === null ? pendingCount : Math.max(pendingCount, lastUsed + 1)`.
unfoldable pub next_nonce : ℕ → Option ℕ → ℕ
next_nonce pending none = pending
next_nonce pending (some last) = if leb (last + 1) pending then pending else last + 1

-- `lastUsed(laneKey).catch(() => null)`.
abbrev pub or_null : (answers : Bool) → Option ℕ → Option ℕ
or_null true last = last
or_null false last = none

-- The transaction to sign, unless a read throws.
unfoldable pub prepare : SubmitParams → SubmitterClient → Option ℕ → Option UnsignedTx
prepare params node last = do
  gas ← given_or params.gas_limit (node.estimate_gas params)
  pending ← node.transaction_count params.from
  price ← node.gas_price
  chain ← node.chain_id
  some (record {
    chain_id = chain;
    nonce = next_nonce pending last;
    to = params.to;
    value = params.value;
    call_data = params.call_data;
    gas = gas;
    gas_price = price * 12 / 10;
  })

abbrev pub is_known : SubmitterDeps → Text → Bool
is_known deps hash = deps.primary.get_transaction hash || deps.secondary.get_transaction hash

-- The answers of the two nodes: a hash, or a throw.
unfoldable pub after_sends :
    SubmitterDeps → Text → Option Text → Option Text → Option Text × List Act
after_sends deps signed (some hash) _ = (some hash, sent_primary signed ∷ [])
after_sends deps signed none (some hash) =
    (some hash, sent_primary signed ∷ sent_secondary signed ∷ [])
after_sends deps signed none none = (
  if is_known deps (deps.keccak signed) then some (deps.keccak signed) else none,
  sent_primary signed ∷ sent_secondary signed ∷ [],
)

-- `broadcast`: the hash, or a throw, and what was sent.
unfoldable pub broadcast : SubmitterDeps → Text → Option Text × List Act
unfolding after_sends
broadcast deps signed =
    after_sends deps signed (deps.primary.send_raw_transaction signed)
      (deps.secondary.send_raw_transaction signed)

pub record Submitted (S : Type 0) : Type 0 where
  pub outcome : Option SubmissionResult
  pub acts : List Act
  pub nonces : S

module _ {S : Type 0} (store : NonceStore S) where
  -- After the broadcast: a hash is recorded with its nonce, unless the store throws.
  unfoldable pub conclude :
      (records : Bool) → ℕ → Text → ℕ → S → Option Text × List Act → Submitted S
  conclude records done_at key nonce s (none, acts) = record {
    outcome = none;
    acts = acts;
    nonces = s;
  }
  conclude records done_at key nonce s (some hash, acts) = record {
    outcome = some (record { tx_hash = hash; nonce = nonce });
    acts = acts;
    nonces = if records then store.record_used s done_at key nonce else s;
  }

  -- From the signature on: the hook, then the broadcast.
  unfoldable pub send_signed : SubmitterDeps → ℕ → Text → ℕ → S → Option Text → Submitted S
  unfolding conclude broadcast
  send_signed deps done_at key nonce s none = record { outcome = none; acts = []; nonces = s }
  send_signed deps done_at key nonce s (some signed) =
      if deps.on_before_broadcast (deps.keccak signed)
      then conclude deps.records_nonce done_at key nonce s
          ((broadcast deps signed).0, announced (deps.keccak signed) ∷ (broadcast deps signed).1)
      else record { outcome = none; acts = announced (deps.keccak signed) ∷ []; nonces = s }

  unfoldable pub sign_and_send :
      SubmitParams → SubmitterDeps → ℕ → Text → S → Option UnsignedTx → Submitted S
  unfolding send_signed
  sign_and_send params deps done_at key s none = record { outcome = none; acts = []; nonces = s }
  sign_and_send params deps done_at key s (some tx) =
      send_signed deps done_at key tx.nonce s
        (deps.sign_transaction params.wallet_id (deps.serialize tx) params.chain_id)

  -- `submitInLane`, which reads the nonce at `read_at` and records it at `done_at`.
  unfoldable pub submit_in_lane :
      SubmitParams → SubmitterDeps → (read_at done_at : ℕ) → S → Submitted S
  unfolding prepare sign_and_send wallet_lane_key
  submit_in_lane params deps read_at done_at s =
      let key = wallet_lane_key params.chain_id params.from in
      sign_and_send params deps done_at key s
        (prepare params deps.primary (or_null deps.reads_nonce (store.last_used s read_at key)))
