-- ===== src/TxKnown.antt =====
-- packages/backend/src/services/transaction/tx-known.ts: whether any node knows a transaction, from
-- the nodes' answers in the order in which they come.
use agentfi.Base.{
  ℕ, zero, suc, ◌+◌, ◌-◌, ◌≤◌, ◌<◌, ◌≡◌, refl, ◌∙◌, Bool, true, false, Option, none, some, List, [],
  ◌∷◌, Text, codes, text_eq, ltb, ◌==◌, if◌then◌else◌, any, take, length, is_some, arith,
}

-- An error as the names along its causes. A wrapper may carry `TransactionNotFoundError` so.
abbrev pub Failure : Type 0
Failure = List Text

unfoldable pub is_not_found : Failure → Bool
is_not_found err = any (text_eq (codes "TransactionNotFoundError")) (take 5 err)

-- A node returned the transaction, or its call failed.
pub data Answer : Type 0 where
  found : Answer
  raised : Failure → Answer

-- The promise is fulfilled, or rejected with the number of nodes that could not be asked.
pub data KnownVerdict : Type 0 where
  known : Bool → KnownVerdict
  unavailable : ℕ → KnownVerdict

pub record Lookup : Type 0 where
  pub pending : ℕ
  pub errored : ℕ
  pub settled : Option KnownVerdict

-- `done`: a node has failed.
unfoldable pub done : Lookup → Lookup
done s =
    if is_some s.settled
    then s
    else if ltb 0 (s.pending - 1)
    then record s { pending = s.pending - 1 }
    else record s {
      pending = s.pending - 1;
      settled = some (if s.errored == 0 then known false else unavailable s.errored);
    }

-- A failure, which tells that the transaction is not found, or does not.
unfoldable pub on_failure : Bool → Lookup → Lookup
unfolding done
on_failure true s = done s
on_failure false s = done (record s { errored = s.errored + 1 })

unfoldable pub on_answer : Lookup → Answer → Lookup
unfolding on_failure is_not_found
on_answer s found = if is_some s.settled then s else record s { settled = some (known true) }
on_answer s (raised err) = on_failure (is_not_found err) s

unfoldable pub on_answers : Lookup → List Answer → Lookup
unfolding on_answer
on_answers s [] = s
on_answers s (a ∷ as') = on_answers (on_answer s a) as'

-- `isTransactionKnownToAny` once the given answers of `nodes` nodes have come.
unfoldable pub is_transaction_known_to_any : ℕ → List Answer → Option KnownVerdict
unfolding on_answers
is_transaction_known_to_any zero answers = some (unavailable 0)
is_transaction_known_to_any (suc n) answers =
    (on_answers (record { pending = suc n; errored = 0; settled = none }) answers).settled

abbrev pub is_found : Answer → Bool
is_found found = true
is_found (raised err) = false

abbrev pub errors : List Answer → ℕ
errors [] = 0
errors (found ∷ as') = errors as'
errors (raised err ∷ as') = (if is_not_found err then 0 else 1) + errors as'

abbrev settled_at : ℕ → ℕ → KnownVerdict → Lookup
settled_at pending errored v = record { pending = pending; errored = errored; settled = some v }

abbrev open_at : ℕ → ℕ → Lookup
open_at pending errored = record { pending = pending; errored = errored; settled = none }

failure_stays :
    (pending errored : ℕ) (v : KnownVerdict) (as' : List Answer) (b : Bool)
    → ((e : ℕ) → (on_answers (settled_at pending e v) as').settled ≡ some v)
    → (on_answers (on_failure b (settled_at pending errored v)) as').settled ≡ some v
unfolding on_failure done
failure_stays pending errored v as' true ih = ih errored
failure_stays pending errored v as' false ih = ih (errored + 1)

settled_stays :
    (pending errored : ℕ) (v : KnownVerdict) (as' : List Answer)
    → (on_answers (settled_at pending errored v) as').settled ≡ some v
unfolding on_answers on_answer
settled_stays pending errored v [] = refl
settled_stays pending errored v (found ∷ as') = settled_stays pending errored v as'
settled_stays pending errored v (raised err ∷ as') =
    failure_stays pending errored v as' (is_not_found err) (λ e. settled_stays pending e v as')

-- What is decided once these answers, with `errored` failures before them, have come.
abbrev pub decided : ℕ → ℕ → List Answer → Option KnownVerdict
decided pending errored as' =
    if any is_found as'
    then some (known true)
    else if ltb (length as') pending
    then none
    else some
        (if errored + errors as' == 0 then known false else unavailable (errored + errors as'))

-- A failure while more nodes are to come, and the failure of the last one.
failure_more :
    (n errored : ℕ) (as' : List Answer) (b : Bool)
    → ((e : ℕ) → (on_answers (open_at (suc n) e) as').settled ≡ decided (suc n) e as')
    → (on_answers (on_failure b (open_at (suc (suc n)) errored)) as').settled
      ≡ decided (suc n) (errored + (if b then 0 else 1)) as'
unfolding on_failure done
failure_more n errored as' true ih = ground (arith, ih errored)
failure_more n errored as' false ih = ground (arith, ih (errored + 1))

failure_last :
    (errored : ℕ) (b : Bool)
    → (on_failure b (open_at 1 errored)).settled ≡ decided 0 (errored + (if b then 0 else 1)) []
unfolding on_failure done
failure_last errored true = ground arith
failure_last errored false = ground arith

decided_raised :
    (n errored x : ℕ) (as' : List Answer) (err : Failure)
    → x ≡ (if is_not_found err then 0 else 1)
    → decided n (errored + x) as' ≡ decided (suc n) errored (raised err ∷ as')
decided_raised n errored x as' err e =
    let regroup : errored + x + errors as' ≡ errored + (x + errors as') = omega arith in
    let shift : ltb (length as') n ≡ ltb (suc (length as')) (suc n) = ground arith in
    rw (← e, regroup, shift) refl

answers_lem :
    (n errored : ℕ) (as' : List Answer)
    → length as' ≤ suc n
    → (on_answers (open_at (suc n) errored) as').settled ≡ decided (suc n) errored as'
unfolding on_answers on_answer
answers_lem n errored [] le = ground arith
answers_lem n errored (found ∷ as') le = settled_stays (suc n) errored (known true) as'
answers_lem zero errored (raised err ∷ []) le =
    failure_last errored (is_not_found err) ∙ decided_raised 0 errored _ [] err refl
answers_lem zero errored (raised err ∷ a ∷ as') le = absurd (omega arith)
answers_lem (suc n) errored (raised err ∷ as') le =
    failure_more n errored as' (is_not_found err) (λ e. answers_lem n e as' (omega arith))
    ∙ decided_raised (suc n) errored _ as' err refl

-- Whether a transaction is known is decided by the answers that have come, in any order: known
-- once a node has returned it, else open while a node has not answered, else unknown where every
-- node says not found, else unavailable with the number of nodes that could not be asked.
pub is_transaction_known_to_any_lem :
    (nodes : ℕ) (answers : List Answer)
    → 0 < nodes
    → length answers ≤ nodes
    → is_transaction_known_to_any nodes answers ≡ decided nodes 0 answers
unfolding is_transaction_known_to_any
is_transaction_known_to_any_lem zero answers pos le = absurd (omega arith)
is_transaction_known_to_any_lem (suc n) answers pos le = answers_lem n 0 answers le
