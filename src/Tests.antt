-- ===== src/Tests.antt =====
-- The theorems at concrete inputs: a room of one member, and the calls of the worker on it.
mod Requests
mod Replays
mod Reads
use cloud_portfolio.Prelude.{Text}
use cloud_portfolio.Prelude.{
  ◌⊎◌, ℕ, zero, suc, ◌==◌, ◌+◌, ◌≤◌, ◌≡◌, refl, Bool, true, false, Option, none, some, List, [],
  ◌∷◌, ◌++◌, leb, ◌&&◌, codes, arith, inr, length,
}
use cloud_portfolio.Errors.{Result, ok, err, operational_error, runtime_error}
use cloud_portfolio.Json.{Value, null, str, obj, arr, nil, Fields, end, field}
use cloud_portfolio.Json.Checks.{number}
use cloud_portfolio.Json.Structure.{validate_json_structure}
use cloud_portfolio.Json.Structure.Sound.{validate_json_structure-Decides, Decides, fits}
use cloud_portfolio.Database.Tables.{Database, Message, Moment}
use cloud_portfolio.Database.Session.{healthy, fails}
use cloud_portfolio.Store.Status.{upsert_request_status, load_request_status}
use cloud_portfolio.Store.Status.Owner.{
  load_request_status-upsert, upsert_request_status-owner, owner_at,
}
use cloud_portfolio.Store.Claim.{
  ClaimState, claimed, persisted, published, in_progress, claim_dlq_replay,
  mark_dlq_replay_published,
}
use cloud_portfolio.Store.Claim.Published.{mark_dlq_replay_published-IsFinal}
use cloud_portfolio.Store.Claim.History.{LeaseSteps, LaterSteps, claims, next, stop}
use cloud_portfolio.Store.Claim.Exclusive.{claim_dlq_replay-Excludes}
use cloud_portfolio.Worker.Job.{Job}
use cloud_portfolio.Worker.Persist.{find_message, find_slot, last_seq}
use cloud_portfolio.Worker.Transaction.{Times, persist_ingress_job}
use cloud_portfolio.Worker.Transaction.Invariant.{IsConsistent, persist_ingress_job-IsConsistent}
use cloud_portfolio.Worker.Transaction.Once.{
  Written, persist_ingress_job-Written, persist_ingress_job-once,
}
use cloud_portfolio.Worker.Outbox.{acknowledged, committed, Relay, relay_once, first_due}
use cloud_portfolio.Worker.Outbox.Relayed.{IsSound, message_ids, relay_once-IsSound}
use cloud_portfolio.Worker.Outbox.Order.{IsFirst, first_due-IsFirst}
use cloud_portfolio.Worker.World.{World, Round, retry_delay_ms}
use cloud_portfolio.Worker.Handle.{Outcome, success, handle_validated_job}
use cloud_portfolio.Worker.Handle.Outcomes.{IsSettled, handle_validated_job-IsSettled}
use cloud_portfolio.Worker.Handle.Delays.{retry_delay_ms-bounds}
use cloud_portfolio.Worker.Replayer.{Replay, candidate}
use cloud_portfolio.Worker.Replayer.Batch.{ReplayCounts, process_replay_batch}
use cloud_portfolio.Worker.Replayer.Offsets
use cloud_portfolio.Worker.Replayer.Limit.{IsLimited, candidate-IsLimited}
use cloud_portfolio.Worker.Replayer.Offsets.{process_replay_batch-IsAccountedFor}
use cloud_portfolio.Worker.Batch
use cloud_portfolio.Worker.Batch.{Calls, accepted, declined, Progress, process_worker_batch}
use cloud_portfolio.Worker.Batch.Offsets.{IsAccountedFor, process_worker_batch-IsAccountedFor}

abbrev job : Job
job = record {
  request_id = codes "r1";
  route = codes "POST:/v2/streams/1/events";
  room_id = 1;
  user_id = 7;
  room_seq = none;
  schema_version = 2;
  event_type = codes "order.created";
  payload = field (codes "order") (str (codes "o1")) end;
  metadata = end;
  body = codes "";
  x_idempotency_key = some (codes "k1");
  retry_count = 0;
  replay_count = 0;
  next_retry_at = none;
  queued_at = none;
  replayed_at = none;
  payment_id = none;
}

-- The room 1 with its member 7, and no event.
abbrev room : Database
room = record {
  rooms = 1 ∷ [];
  users = 7 ∷ [];
  members = (1, 7) ∷ [];
  sequences = [];
  messages = [];
  next_message_id = 1;
  cached = [];
  statuses = [];
  outbox = [];
  attempts = [];
  intake = [];
  receipts = [];
  jsonb = λ d. d;
}

abbrev noon : Moment
noon = record { seconds = 43200; iso = codes "2026-01-01T12:00:00+00:00" }

abbrev times : Times
times = record {
  database = noon;
  before_commit = codes "2026-01-01T12:00:00+00:00";
  after_commit = codes "2026-01-01T12:00:01+00:00";
}

no_slot : (room_seq : ℕ) → false ≡ (leb 1 room_seq && leb room_seq 0)
no_slot room_seq = ground arith

room-IsConsistent : IsConsistent room
unfolding find_slot last_seq
room-IsConsistent = record {
  gapless = λ room_id room_seq. no_slot room_seq;
  ids = tt;
  announced = tt;
  requests = tt;
}

persist_ingress_job-IsConsistent_example :
    IsConsistent (persist_ingress_job healthy times job room).1
persist_ingress_job-IsConsistent_example =
    persist_ingress_job-IsConsistent healthy times job room room-IsConsistent

persist_ingress_job-Written_example :
    Written job room (persist_ingress_job healthy times job room).1
persist_ingress_job-Written_example = persist_ingress_job-Written healthy times job room

-- What the job leaves: one event, one status, one intent.
abbrev lengths : Database → ℕ × ℕ × ℕ
lengths db = (length db.messages, length db.statuses, length db.outbox)

job_is_stored : lengths (persist_ingress_job healthy times job room).1 ≡ (1, 1, 1)
unfolding persist_ingress_job
job_is_stored = refl

abbrev stored_row : Message
stored_row = record {
  id = 1;
  request_id = codes "r1";
  room_id = 1;
  user_id = 7;
  event_type = codes "order.created";
  category = none;
  payment_id = none;
  schema_version = 2;
  payload = some (field (codes "order") (str (codes "o1")) end);
  metadata = end;
  body = codes "";
  room_seq = 1;
  created_at = codes "2026-01-01T12:00:00+00:00";
}

abbrev room_with_event : Database
room_with_event = record room {
  sequences = record { room_id = 1; last_seq = 1 } ∷ [];
  messages = stored_row ∷ [];
  next_message_id = 2;
}

found : find_message job.request_id room_with_event ≡ some stored_row
unfolding find_message
found = refl

persist_ingress_job-once_example :
    ((persist_ingress_job healthy times job room_with_event).1.messages ≡ room_with_event.messages)
    × ((persist_ingress_job healthy times job room_with_event).1.sequences
        ≡ room_with_event.sequences)
persist_ingress_job-once_example =
    persist_ingress_job-once healthy times job room_with_event stored_row found

-- The database fails in the first round, and answers in the second.
abbrev rounds : ℕ → Round
rounds n = record {
  times = times;
  persist_fault = elim n [ zero ↦ fails operational_error 1 | suc m ↦ healthy ];
  status_fault = healthy;
  send = acknowledged;
  clock = 1000;
  failed_at = codes "2026-01-01T12:00:02+00:00";
  retry_at = codes "2026-01-01T12:00:03+00:00";
}

abbrev world : World
world = record { database = room; dlq = []; ingress = [] }

handle_validated_job-IsSettled_example :
    IsSettled world (handle_validated_job 3 (some 500) rounds job world)
handle_validated_job-IsSettled_example =
    handle_validated_job-IsSettled 3 (some 500) rounds job world room-IsConsistent

abbrev ended_well : Option (Result Outcome × World) → Bool
ended_well (some (ok success, w)) = length w.database.messages == 1 && length w.dlq == 0
ended_well _ = false

job_succeeds : ended_well (handle_validated_job 3 (some 500) rounds job world) ≡ true
unfolding handle_validated_job
job_succeeds = refl

retry_delay_ms-bounds_example :
    (1 ≤ retry_delay_ms (some 500) 2)
    × (retry_delay_ms (some 500) 2 ≤ retry_delay_ms (some 500) 9)
    × (retry_delay_ms (some 500) 9 ≤ 60000)
retry_delay_ms-bounds_example = retry_delay_ms-bounds (some 500) 2 9 (omega arith)

abbrev a_value : Value
a_value = obj (field (codes "a") (arr nil) end)

validate_json_structure-Decides_example :
    Decides (fits 1 0 a_value) (validate_json_structure 1 a_value)
validate_json_structure-Decides_example = validate_json_structure-Decides 1 a_value

-- A status of a request of the user 7, and the row that it leaves.
abbrev status : Fields
status = field (codes "status") (str (codes "queued")) (field (codes "user_id") (number 7) end)

abbrev stored_status : Fields
stored_status = field (codes "status") (str (codes "queued")) (
    field (codes "user_id") (number 7)
      (field (codes "request_id") (str (codes "r1")) (field (codes "actor_id") (number 7) end)))

abbrev with_status : Database
with_status = record room {
  statuses = record { request_id = codes "r1"; user_id = some 7; status_json = stored_status } ∷ [];
}

status_written : upsert_request_status (codes "r1") status room ≡ (ok stored_status, with_status)
unfolding upsert_request_status
status_written = refl

load_request_status-upsert_example :
    load_request_status (codes "r1") with_status ≡ some stored_status
load_request_status-upsert_example =
    load_request_status-upsert (codes "r1") status stored_status room with_status status_written

owner_is : owner_at (codes "r1") with_status.statuses ≡ some 7
unfolding owner_at
owner_is = refl

-- Another user's status of the same request.
abbrev other_status : Fields
other_status =
    field (codes "status") (str (codes "failed")) (field (codes "user_id") (number 8) end)

upsert_request_status-owner_example :
    owner_at (codes "r1") (upsert_request_status (codes "r1") other_status with_status).1.statuses
    ≡ some 7
upsert_request_status-owner_example =
    upsert_request_status-owner (codes "r1") (codes "r1") other_status 7 with_status owner_is

-- The claim of the first replayer, at the time 100, and a call of the second at 130.
abbrev with_claim : Database
with_claim = record room {
  intake =
      record {
        route = codes "POST:/v1/dlq/ingress/replay";
        idem_key = codes "r1:0";
        request_id = codes "claimed:t1:r1";
        created_at = 100;
      }
      ∷ [];
}

claim_given :
    claim_dlq_replay (codes "r1") 0 (codes "t1") 100 room ≡ ok (claimed (codes "t1"), with_claim)
unfolding claim_dlq_replay
claim_given = refl

claim_refused :
    claim_dlq_replay (codes "r1") 0 (codes "t2") 120 with_claim ≡ ok (in_progress, with_claim)
unfolding claim_dlq_replay
claim_refused = refl

claim_refused_again :
    claim_dlq_replay (codes "r1") 0 (codes "t3") 130 with_claim ≡ ok (in_progress, with_claim)
unfolding claim_dlq_replay
claim_refused_again = refl

-- Within the lease, the second replayer asks.
lease_steps : LeaseSteps (codes "r1") (codes "t1") 100 with_claim with_claim
lease_steps = next (claims (codes "r1") 0 (codes "t2") 120 (omega arith) claim_refused) stop

claim_dlq_replay-Excludes_example :
    (◌≡◌ {A = ClaimState × Database} (in_progress, with_claim) (in_progress, with_claim))
    ⊎ (◌≡◌ {A = ClaimState × Database} (in_progress, with_claim) (persisted, with_claim))
claim_dlq_replay-Excludes_example =
    claim_dlq_replay-Excludes (codes "r1") 0 (codes "t1") (codes "t3") (codes "t1") 100 130 room
      with_claim with_claim (in_progress, with_claim) claim_given lease_steps (omega arith)
      claim_refused_again

-- The first replayer marks the replay as published, and the second asks a day later.
abbrev with_published : Database
with_published = record room {
  intake =
      record {
        route = codes "POST:/v1/dlq/ingress/replay";
        idem_key = codes "r1:0";
        request_id = codes "published:r1";
        created_at = 110;
      }
      ∷ [];
}

mark_takes :
    mark_dlq_replay_published (codes "r1") 0 (codes "t1") 110 with_claim ≡ ok (true, with_published)
unfolding mark_dlq_replay_published
mark_takes = refl

claim_is_over :
    claim_dlq_replay (codes "r1") 0 (codes "t2") 86400 with_published
    ≡ ok (published, with_published)
unfolding claim_dlq_replay
claim_is_over = refl

later_claim :
    claim_dlq_replay (codes "r1") 0 (codes "t3") 500 with_published ≡ ok (published, with_published)
unfolding claim_dlq_replay
later_claim = refl

later_steps : LaterSteps with_published with_published
later_steps = next (claims (codes "r1") 0 (codes "t3") 500 tt later_claim) stop

mark_dlq_replay_published-IsFinal_example :
    (true ≡ true)
    × ((◌≡◌ {A = ClaimState × Database} (published, with_published) (persisted, with_published))
        ⊎ (◌≡◌ {A = ClaimState × Database} (published, with_published) (published, with_published)))
mark_dlq_replay_published-IsFinal_example =
    mark_dlq_replay_published-IsFinal (codes "r1") 0 (codes "t1") (codes "t2") (codes "t1") 100 110
      86400 room with_claim with_claim with_published with_published (published, with_published)
      true claim_given lease_steps mark_takes later_steps claim_is_over

abbrev relay : Relay
relay = record {
  outbox =
      record {
        message_id = 1;
        room_id = 1;
        payload = end;
        next_attempt_at = 5;
        attempts = 0;
        last_error = none;
        published_at = none;
      }
      ∷ [];
  topic = [];
}

abbrev unlocked : ℕ → Bool
unlocked n = false

relay_once-IsSound_example :
    (message_ids (relay_once unlocked acknowledged committed 9 relay).1.outbox
      ≡ message_ids relay.outbox)
    × IsSound (relay_once unlocked acknowledged committed 9 relay).1
relay_once-IsSound_example =
    relay_once-IsSound unlocked acknowledged committed 9 relay
      (record { distinct = (tt, tt); sent = (tt, tt) })

first_due-IsFirst_example : IsFirst unlocked 9 relay.outbox (first_due unlocked 9 relay.outbox)
first_due-IsFirst_example = first_due-IsFirst unlocked 9 relay.outbox

-- Two records of the partition 0, of which the second fails.
abbrev first_record : Batch.Message Bool
first_record = record { partition = 0; offset = 10; value = true }

abbrev second_record : Batch.Message Bool
second_record = record { partition = 0; offset = 11; value = false }

abbrev handler : Batch.Message Bool → ℕ → Result Outcome × ℕ
handler m n = elim m.value [ true ↦ (ok success, n + 1) | false ↦ (err runtime_error, n) ]

abbrev calls : Batch.Message Bool → Calls
calls m = record { commit = accepted; seek = none }

abbrev progress : Progress ℕ
progress = record {
  world = 0;
  committed = λ p. 10;
  position = λ p. 12;
  failed = [];
  handled = [];
  processed = 0;
  failures = 0;
  is_healthy = true;
}

abbrev records : List (List (Batch.Message Bool))
records = (first_record ∷ second_record ∷ []) ∷ []

flattened : Batch.flatten records ≡ (first_record ∷ []) ++ second_record ∷ []
unfolding Batch.flatten
flattened = refl

process_worker_batch-IsAccountedFor_example :
    IsAccountedFor 0 11 (process_worker_batch handler calls records progress)
process_worker_batch-IsAccountedFor_example =
    process_worker_batch-IsAccountedFor handler calls records progress (first_record ∷ [])
      second_record [] flattened (inr (omega arith), tt) (omega arith)

-- The same offsets with a dead letter that is skipped, and one whose claim fails.
abbrev no_json : Text → Option Value
no_json s = none

abbrev dead_letter : Batch.Message Value
dead_letter = record { partition = 0; offset = 10; value = null }

abbrev second_letter : Batch.Message Value
second_letter = record {
  partition = 0;
  offset = 11;
  value =
      obj (field (codes "request_id") (str (codes "r1")) (field (codes "room_id") (number 1) end));
}

abbrev replays : Batch.Message Value → Replay
replays m = record {
  claim_fault = fails operational_error 0;
  release_fault = healthy;
  mark_fault = healthy;
  send = acknowledged;
  token = codes "t1";
  claimed_at = 100;
  marked_at = 110;
  replayed_at = codes "2026-01-01T12:00:00+00:00";
}

abbrev replay_calls : Batch.Message Value → Calls
replay_calls m = record { commit = accepted; seek = none }

abbrev replay_progress : Progress ReplayCounts
replay_progress = record {
  world = record { world = world; moved = 0; claims_in_progress = 0; failures = 0 };
  committed = λ p. 10;
  position = λ p. 12;
  failed = [];
  handled = [];
  processed = 0;
  failures = 0;
  is_healthy = true;
}

abbrev letters : List (List (Batch.Message Value))
letters = (dead_letter ∷ second_letter ∷ []) ∷ []

flattened_letters : Batch.flatten letters ≡ (dead_letter ∷ []) ++ second_letter ∷ []
unfolding Batch.flatten
flattened_letters = refl

process_replay_batch-IsAccountedFor_example :
    Offsets.IsAccountedFor 0 11
      (process_replay_batch no_json 3 replays replay_calls true letters replay_progress)
process_replay_batch-IsAccountedFor_example =
    process_replay_batch-IsAccountedFor no_json 3 true replays replay_calls letters replay_progress
      (dead_letter ∷ []) second_letter [] flattened_letters (inr (omega arith), tt) (omega arith)

candidate-IsLimited_example : IsLimited 3 second_letter.value (candidate 3 second_letter.value)
candidate-IsLimited_example = candidate-IsLimited 3 second_letter.value
