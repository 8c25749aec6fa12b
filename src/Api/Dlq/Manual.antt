-- ===== src/Api/Dlq/Manual.antt =====
-- portfolio/api.py: `_claim_manual_replay`, `_replay_dlq_payload`, and what
-- `replay_ingress_dlq_event` does once it has found the item. The claim, its release and its mark are
-- those of portfolio/state_store.py; an exception of the first is passed on, those of the others are
-- only logged.
pub mod Sent
pub mod Final
pub mod Once
pub mod Agreement
pub mod Eligible
pub mod Exclusion
use cloud_portfolio.Prelude.{
  ℕ, ◌+◌, min, Bool, true, false, Option, none, some, ltb, if◌then◌else◌, pos, Text, codes,
}
use cloud_portfolio.Errors.{Error, Result, ok, err}
use cloud_portfolio.Json.{Value, null, int, str, Fields, get, put}
use cloud_portfolio.Json.Checks.{get_or, number, max_postgres_bigint}
use cloud_portfolio.Database.Session.{in_transaction}
use cloud_portfolio.Store.Claim.{ClaimState, claimed, persisted, published, in_progress}
use cloud_portfolio.Worker.World.{World}
use cloud_portfolio.Worker.Replayer.{Candidate, Replay, claim_tx, mark_tx, release_tx, replayed_job}
use cloud_portfolio.Api.Answer.{Answer, done, failed, Failure, http, uncaught, publish_ingress_job}
use cloud_portfolio.Api.Dlq.Item.{DlqItem, safe_optional_positive_int, selected_event_field}

-- The response of a replay, of which `replay_requested` is the status.
pub record Replayed : Type 0 where
  pub request_id : Text
  pub stream_id : ℕ
  pub replay_count : ℕ
  pub replayed_at : Text

abbrev blocked : Failure
blocked = http 409 (codes "DLQ event is blocked by replay guard")

-- `str(item["request_id"])`
unfoldable pub printed_id : Option Text → Text
printed_id none = codes "None"
printed_id (some s) = s

module _ (max_count : ℕ) where
  unfoldable pub replay_limit : ℕ
  replay_limit = min max_count max_postgres_bigint

  -- A counter below the limit.
  unfoldable pub open_count : Value → Option ℕ
  unfolding replay_limit
  open_count (int (pos n)) = if ltb n replay_limit then some n else none
  open_count _ = none

  -- `_replay_dlq_payload` up to the send: the job and where it goes.
  unfoldable pub replay_of : Option ℕ → Option ℕ → DlqItem → Answer Candidate
  replay_of none n item = failed (http 409 (codes "DLQ event is missing stream id"))
  replay_of (some stream_id) none item = failed blocked
  replay_of (some stream_id) (some n) item = done (record {
    job = item.payload;
    request_id = printed_id item.request_id;
    room_id = stream_id;
    replay_count = n;
  })

  unfoldable pub replay_payload : DlqItem → Answer Candidate
  unfolding replay_of open_count safe_optional_positive_int selected_event_field get_or
  replay_payload item =
      if item.replayable
      then replay_of
          (safe_optional_positive_int
            (selected_event_field item.payload (codes "stream_id") (codes "room_id")))
          (open_count (get_or (codes "replay_count") (number 0) item.payload)) item
      else failed blocked

  claim_answer : Result ClaimState → Answer Text
  claim_answer (err e) = failed (uncaught e)
  claim_answer (ok persisted) = failed (http 409 (codes "DLQ event is already persisted"))
  claim_answer (ok published) = failed (http 409 (codes "DLQ replay was already requested"))
  claim_answer (ok in_progress) = failed (http 409 (codes "DLQ replay is already in progress"))
  claim_answer (ok (claimed token)) = done token

  -- What the claim is about: the request, and its count as the generation.
  pub subject : DlqItem → Candidate
  unfolding printed_id
  subject item = record {
    job = item.payload;
    request_id = printed_id item.request_id;
    room_id = 0;
    replay_count = item.replay_count;
  }

  -- `_claim_manual_replay`
  claim_manual_replay : Replay → DlqItem → World → Answer Text × World
  unfolding replay_limit subject claim_tx claim_answer in_transaction
  claim_manual_replay r item w =
      let (s, db) = in_transaction r.claim_fault (claim_tx r (subject item)) w.database in
      if item.replayable
      then if ltb item.replay_count replay_limit
        then (claim_answer s, record w { database = db })
        else (failed blocked, w)
      else (failed blocked, w)

  -- The claim is released, if that works, and the exception goes on.
  release_claim : Replay → DlqItem → Text → Failure → World → Answer Replayed × World
  unfolding subject release_tx in_transaction
  release_claim r item token f w = (
    failed f,
    record w {
      database = (in_transaction r.release_fault (release_tx (subject item) token) w.database).1;
    },
  )

  -- The claim is marked, if that works.
  mark_claim : Replay → DlqItem → Text → Candidate → World → Answer Replayed × World
  unfolding subject mark_tx in_transaction
  mark_claim r item token c w = (
    done (record {
      request_id = c.request_id;
      stream_id = c.room_id;
      replay_count = c.replay_count + 1;
      replayed_at = r.replayed_at;
    }),
    record w {
      database = (in_transaction r.mark_fault (mark_tx r (subject item) token) w.database).1;
    },
  )

  after_send :
      Replay → DlqItem → Text → Candidate → Result (Unit {0}) × World → Answer Replayed × World
  unfolding release_claim mark_claim
  after_send r item token c (ok u, w) = mark_claim r item token c w
  after_send r item token c (err e, w) =
      release_claim r item token (http 503 (codes "Kafka unavailable")) w

  after_payload : Replay → DlqItem → Text → World → Answer Candidate → Answer Replayed × World
  unfolding release_claim after_send publish_ingress_job replayed_job
  after_payload r item token w (failed f) = release_claim r item token f w
  after_payload r item token w (done c) =
      after_send r item token c
        (publish_ingress_job r.send c.room_id (replayed_job r.replayed_at c) w)

  after_claim : Replay → DlqItem → Answer Text × World → Answer Replayed × World
  unfolding after_payload replay_payload
  after_claim r item (failed f, w) = (failed f, w)
  after_claim r item (done token, w) = after_payload r item token w (replay_payload item)

  unfoldable pub replay_item : Replay → DlqItem → World → Answer Replayed × World
  unfolding claim_manual_replay after_claim
  replay_item r item w = after_claim r item (claim_manual_replay r item w)
