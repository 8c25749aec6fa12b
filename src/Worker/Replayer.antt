-- ===== src/Worker/Replayer.antt =====
-- worker/dlq_replayer.py: `replay_one`; Batch is `_process_replay_batch`.
pub mod Batch
pub mod Steps
pub mod Offsets
pub mod Limit
use cloud_portfolio.Prelude.{
  ℕ, ◌+◌, Bool, true, false, ◌||◌, not, Option, none, some, List, [], ◌∷◌, ◌++◌, leb, if◌then◌else◌,
  Text, codes,
}
use cloud_portfolio.Errors.{Error, Result, ok, err, other_error, runtime_error}
use cloud_portfolio.Json.{Value, null, str, obj, Fields, get, put, value_eq, same_type}
use cloud_portfolio.Json.Checks.{
  short_text, positive_bigint, counter_bigint, get_or, number, max_postgres_bigint,
}
use cloud_portfolio.Json.Structure.{validate_json_structure, max_json_wire_nesting_depth}
use cloud_portfolio.Database.Tables.{Database}
use cloud_portfolio.Database.Tx.{Tx}
use cloud_portfolio.Database.Session.{Fault, in_transaction}
use cloud_portfolio.Store.Claim.{
  ClaimState, claimed, persisted, published, in_progress, claim_dlq_replay,
  mark_dlq_replay_published, release_dlq_replay_claim,
}
use cloud_portfolio.Worker.Outbox.{Send, acknowledged, refused, unanswered}
use cloud_portfolio.Worker.World.{World}
use cloud_portfolio.Worker.Handle.{Outcome, success, rejected}
use cloud_portfolio.Worker.Notice.{is_invalid_kafka_payload}
use cloud_portfolio.Worker.Batch.{Message, Calls, Progress, process_worker_batch}

unfoldable pub aliases_differ : Option Value → Option Value → Bool
unfolding value_eq same_type
aliases_differ (some a) (some b) = not (same_type a b) || not (value_eq a b)
aliases_differ _ _ = false

-- `_has_conflicting_event_aliases`
unfoldable pub has_conflicting_event_aliases : Fields → Bool
unfolding aliases_differ get
has_conflicting_event_aliases d =
    aliases_differ (get (codes "stream_id") d) (get (codes "room_id") d)
    || (aliases_differ (get (codes "actor_id") d) (get (codes "user_id") d)
        || aliases_differ (get (codes "stream_seq") d) (get (codes "room_seq") d))

-- A dead job that may be replayed.
pub record Candidate : Type 0 where
  pub job : Fields
  pub request_id : Text
  pub room_id : ℕ
  pub replay_count : ℕ

-- `if "room_id" not in job_payload and "stream_id" in job_payload`
unfoldable pub with_room_id : Fields → Fields
unfolding get put
with_room_id d = elim (get (codes "room_id") d) [
  | some v ↦ d
  | none ↦ elim (get (codes "stream_id") d) [ none ↦ d | some v ↦ put (codes "room_id") v d ]
]

unfoldable pub counted : ℕ → Fields → Text → ℕ → Option ℕ → Option Candidate
counted max_count d request_id room_id none = none
counted max_count d request_id room_id (some n) =
    if leb max_count n || leb max_postgres_bigint n
    then none
    else some (record { job = d; request_id = request_id; room_id = room_id; replay_count = n })

unfoldable pub identified : ℕ → Fields → Option Text → Option ℕ → Option Candidate
unfolding counted counter_bigint get_or
identified max_count d (some request_id) (some room_id) =
    counted max_count d request_id room_id
      (counter_bigint (some (get_or (codes "replay_count") (number 0) d)))
identified max_count d _ _ = none

unfoldable pub aliased_candidate : ℕ → Fields → Option Candidate
unfolding identified with_room_id short_text positive_bigint get
aliased_candidate max_count d =
    let d' = with_room_id d in
    identified max_count d' (short_text 80 (get (codes "request_id") d'))
      (positive_bigint (get (codes "room_id") d'))

unfoldable pub structured_candidate : ℕ → Fields → Result (Unit {0}) → Option Candidate
unfolding has_conflicting_event_aliases aliased_candidate
structured_candidate max_count d (err e) = none
structured_candidate max_count d (ok u) =
    if has_conflicting_event_aliases d then none else aliased_candidate max_count d

-- The checks of `replay_one`; `none` where the record is skipped.
unfoldable pub candidate : ℕ → Value → Option Candidate
unfolding is_invalid_kafka_payload structured_candidate validate_json_structure
candidate max_count (obj d) =
    if is_invalid_kafka_payload d
    then none
    else structured_candidate max_count d
        (validate_json_structure max_json_wire_nesting_depth (obj d))
candidate max_count _ = none

-- How one replay fares: its three transactions, its send, its token and its times.
pub record Replay : Type 0 where
  pub claim_fault : Fault
  pub release_fault : Fault
  pub mark_fault : Fault
  pub send : Send
  pub token : Text
  pub claimed_at : ℕ
  pub marked_at : ℕ
  pub replayed_at : Text

-- The job of the next generation.
unfoldable pub replayed_job : Text → Candidate → Fields
unfolding put
replayed_job replayed_at c = put (codes "next_retry_at") null (
    put (codes "retry_count") (number 0) (
      put (codes "replayed_at") (str replayed_at)
        (put (codes "replay_count") (number (c.replay_count + 1)) c.job)))

unfoldable pub kept {ℓ} : {A : Type ℓ} → Database → Result (A × Database) → Result A × Database
kept db (ok (a, db')) = (ok a, db')
kept db (err e) = (err e, db)

unfoldable pub claim_tx : Replay → Candidate → Tx ClaimState
unfolding kept claim_dlq_replay
claim_tx r c db = kept db (claim_dlq_replay c.request_id c.replay_count r.token r.claimed_at db)

unfoldable pub mark_tx : Replay → Candidate → Text → Tx Bool
unfolding kept mark_dlq_replay_published
mark_tx r c token db =
    kept db (mark_dlq_replay_published c.request_id c.replay_count token r.marked_at db)

unfoldable pub released : Database → Result Database → Result (Unit {0}) × Database
released db (ok db') = (ok tt, db')
released db (err e) = (err e, db)

unfoldable pub release_tx : Candidate → Text → Tx (Unit {0})
unfolding released release_dlq_replay_claim
release_tx c token db = released db (release_dlq_replay_claim c.request_id c.replay_count token db)

-- After a send that raised: the claim is released, if that works, and the exception goes on.
release : Replay → Candidate → Text → Error → World → Result Bool × World
unfolding release_tx in_transaction
release r c token e w = (
  err e,
  record w { database = (in_transaction r.release_fault (release_tx c token) w.database).1 },
)

-- After a send that returned: the claim is marked, and an exception of that is only logged.
finalize : Replay → Candidate → Text → World → Result Bool × World
unfolding mark_tx in_transaction
finalize r c token w = (
  ok true,
  record w { database = (in_transaction r.mark_fault (mark_tx r c token) w.database).1 },
)

sent : Replay → Candidate → World → World
unfolding replayed_job
sent r c w = record w { ingress = w.ingress ++ (c.room_id, replayed_job r.replayed_at c) ∷ [] }

unfoldable pub publish_claimed : Replay → Candidate → Text → World → Send → Result Bool × World
unfolding finalize release sent
publish_claimed r c token w acknowledged = finalize r c token (sent r c w)
publish_claimed r c token w (refused e) = release r c token e w
publish_claimed r c token w (unanswered e) = release r c token e (sent r c w)

-- `ReplayClaimInProgress`
abbrev pub replay_claim_in_progress : Error
replay_claim_in_progress = other_error (codes "ReplayClaimInProgress")

unfoldable pub after_claim : Replay → Candidate → World → Result ClaimState → Result Bool × World
unfolding publish_claimed
after_claim r c w (err e) = (err e, w)
after_claim r c w (ok persisted) = (ok false, w)
after_claim r c w (ok published) = (ok false, w)
after_claim r c w (ok in_progress) = (err replay_claim_in_progress, w)
after_claim r c w (ok (claimed token)) = publish_claimed r c token w r.send

unfoldable pub replay_candidate : Replay → Option Candidate → World → Result Bool × World
unfolding after_claim claim_tx in_transaction
replay_candidate r none w = (ok false, w)
replay_candidate r (some c) w =
    let (s, db) = in_transaction r.claim_fault (claim_tx r c) w.database in
    after_claim r c (record w { database = db }) s

module _ (loads : Text → Option Value) (max_count : ℕ) where
  unfoldable pub loaded_candidate : Option Value → Option Candidate
  unfolding candidate
  loaded_candidate none = none
  loaded_candidate (some v) = candidate max_count v

  unfoldable pub read_candidate : Value → Option Candidate
  unfolding loaded_candidate
  read_candidate (obj d) = candidate max_count (obj d)
  read_candidate (str s) = loaded_candidate (loads s)
  read_candidate v = none

  -- `replay_one`
  unfoldable pub replay_one : Replay → Value → World → Result Bool × World
  unfolding read_candidate replay_candidate
  replay_one r raw w = replay_candidate r (read_candidate raw) w
