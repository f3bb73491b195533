-- ===== src/Lane/System.antt =====
-- wallet-lane.ts: any number of processes that take, check and free one lane, in any interleaving
-- of their calls, with crashes, lost replies, and clocks that differ by a constant.
use agentfi.Base.{ℕ, suc, ◌+◌, ◌≡◌, ◌==◌, Bool, true, false, Option, some, Text, if◌then◌else◌}
use agentfi.Redis.{LaneRedis}
use agentfi.Lane.{
  Reply, failed, answered, assert_held_script, release_script, assert_redis_lease_held, held, lost,
  LeaseLostReason,
}

-- Where a process stands, with what it remembers: the number of its token among those drawn, the
-- time before its `SET`, the deadline of its lease.
pub data Client : Type 0 where
  idle : Client
  asking : (token attempt_at : ℕ) → Client  -- `SET NX PX` sent
  asked : (token attempt_at : ℕ) (ok : Bool) → Client  -- its answer on the way
  holding : (token local_deadline : ℕ) → Client  -- the lease is returned
  checking : (token local_deadline called_at : ℕ) (min : Option ℕ) → Client  -- the script is sent
  checked : (token local_deadline called_at : ℕ) (min : Option ℕ) (reply : Reply) → Client
  cleared : (token local_deadline : ℕ) (until : ℕ) → Client  -- `assertHeld` resolved
  releasing : (token : ℕ) → Client  -- compare and delete sent

-- `clock` is the server's time; `issued` counts the drawn tokens.
pub record System (R : Type 0) : Type 0 where
  pub store : R
  pub clock : ℕ
  pub issued : ℕ
  pub client : ℕ → Client

abbrev pub update : (ℕ → Client) → ℕ → Client → ℕ → Client
update f i c j = if j == i then c else f j

module _ {R : Type 0} where
  abbrev pub become : ℕ → Client → System R → System R
  become i c s = record s { client = update s.client i c }

-- What a lane is made of: the commands, its key, its time to live, the tokens that `randomUUID`
-- draws, and how far each process's clock is ahead of the server's.
pub record Setting (R : Type 0) : Type 0 where
  pub redis : LaneRedis R
  pub key : Text
  pub ttl : ℕ
  pub uuid : ℕ → Text
  pub skew : ℕ → ℕ

module _ {R : Type 0} (lane : Setting R) where
  abbrev pub local : System R → ℕ → ℕ
  local s i = s.clock + lane.skew i

  -- `SET NX PX` of process `i`, with its token.
  abbrev pub set_lane : System R → ℕ → R × Bool
  set_lane s token = lane.redis.set_nx s.store s.clock lane.key (lane.uuid token) lane.ttl

  abbrev pub ask_script : System R → ℕ → ℕ → Reply
  ask_script s token min =
      answered (assert_held_script lane.redis s.store s.clock lane.key (lane.uuid token) min)

  abbrev pub free_lane : System R → ℕ → R
  free_lane s token = (release_script lane.redis s.store s.clock lane.key (lane.uuid token)).0

  -- One step: time passes, or process `i` goes on.
  pub data Step (s : System R) : System R → Type 0 where
    tick : (d : ℕ) → Step s (record s { clock = s.clock + d })
    crash : (i : ℕ) → Step s (become i idle s)
    ask :
        (i : ℕ)
        → s.client i ≡ idle
        → Step s (record s {
          issued = suc s.issued;
          client = update s.client i (asking s.issued (local s i));
        })
    set :
        (i token at : ℕ)
        → s.client i ≡ asking token at
        → Step s (record s {
          store = (set_lane s token).0;
          client = update s.client i (asked token at (set_lane s token).1);
        })
    retry :
        (i token at : ℕ)
        → s.client i ≡ asked token at false
        → Step s (become i (asking token (local s i)) s)
    grant :
        (i token at : ℕ)
        → s.client i ≡ asked token at true
        → Step s (become i (holding token (at + lane.ttl)) s)
    check :
        (i token deadline : ℕ) (min : Option ℕ)
        → s.client i ≡ holding token deadline
        → Step s (become i (checking token deadline (local s i) min) s)
    script :
        (i token deadline called min : ℕ)
        → s.client i ≡ checking token deadline called (some min)
        → Step s (become i (checked token deadline called (some min) (ask_script s token min)) s)
    no_script :
        (i token deadline called : ℕ) (min : Option ℕ)
        → s.client i ≡ checking token deadline called min
        → Step s (become i (checked token deadline called min failed) s)
    pass :
        (i token deadline called min : ℕ) (reply : Reply)
        → s.client i ≡ checked token deadline called (some min) reply
        → assert_redis_lease_held deadline called (local s i) (some min) reply ≡ held
        → Step s (become i (cleared token deadline (s.clock + min)) s)
    refuse :
        (i token deadline called : ℕ) (min : Option ℕ) (reply : Reply) (why : LeaseLostReason)
        → s.client i ≡ checked token deadline called min reply
        → assert_redis_lease_held deadline called (local s i) min reply ≡ lost why
        → Step s (become i (holding token deadline) s)
    proceed :
        (i token deadline until : ℕ)
        → s.client i ≡ cleared token deadline until
        → Step s (become i (holding token deadline) s)
    give_up :
        (i token deadline : ℕ)
        → s.client i ≡ holding token deadline
        → Step s (become i (releasing token) s)
    free :
        (i token : ℕ)
        → s.client i ≡ releasing token
        → Step s (record s { store = free_lane s token; client = update s.client i idle })

  abbrev pub start : R → ℕ → System R
  start r now = record { store = r; clock = now; issued = 0; client = λ _. idle }

  -- From a store where the lane is as it may be, with every process idle.
  pub data Reach : System R → Type 0 where
    begin : (r : R) (now : ℕ) → Reach (start r now)
    later : {s t : System R} → Reach s → Step s t → Reach t
