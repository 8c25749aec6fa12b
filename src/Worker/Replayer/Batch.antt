-- ===== src/Worker/Replayer/Batch.antt =====
-- worker/dlq_replayer.py: `_process_replay_batch`, with its `_commit_processed_record`. Records, calls of
-- the Kafka client and the consumer are those of Worker/Batch.
use cloud_portfolio.Prelude.{
  ℕ, suc, ◌+◌, Bool, true, false, Option, none, some, List, [], ◌∷◌, if◌then◌else◌, Text, codes,
  text_eq,
}
use cloud_portfolio.Errors.{Error, Result, ok, err, other_error, runtime_error}
use cloud_portfolio.Json.{Value}
use cloud_portfolio.Worker.World.{World}
use cloud_portfolio.Worker.Batch.{
  Message, Reply, accepted, declined, unanswered, Calls, Progress, assign, has_failed, flatten,
}
use cloud_portfolio.Worker.Replayer.{Replay, replay_one}

-- The world, with the count of the batch and the counters of its failures.
pub record ReplayCounts : Type 0 where
  pub world : World
  pub moved : ℕ
  pub claims_in_progress : ℕ
  pub failures : ℕ

unfoldable pub is_claim_in_progress : Error → Bool
unfolding text_eq
is_claim_in_progress (other_error name) = text_eq name (codes "ReplayClaimInProgress")
is_claim_in_progress e = false

-- `except ReplayClaimInProgress`; a seek that raises ends the batch.
unfoldable pub claim_in_progress :
    Option Error → Message Value → Progress ReplayCounts → Result (Unit {0}) × Progress ReplayCounts
unfolding assign
claim_in_progress (some e) message p = (err e, record p { failed = message.partition ∷ p.failed })
claim_in_progress none message p = (
  ok tt,
  record p {
    failed = message.partition ∷ p.failed;
    position = assign p.position message.partition message.offset;
    world = record p.world { claims_in_progress = suc p.world.claims_in_progress };
  },
)

-- `except Exception`; a seek that raises is logged and ends the batch.
unfoldable pub replay_failed :
    Option Error → Message Value → Progress ReplayCounts → Result (Unit {0}) × Progress ReplayCounts
unfolding assign
replay_failed (some e) message p = (err e, record p { failed = message.partition ∷ p.failed })
replay_failed none message p = (
  ok tt,
  record p {
    failed = message.partition ∷ p.failed;
    position = assign p.position message.partition message.offset;
    world = record p.world { failures = suc p.world.failures };
  },
)

unfoldable pub excepted :
    Error
    → Option Error
    → Message Value
    → Progress ReplayCounts
    → Result (Unit {0}) × Progress ReplayCounts
unfolding is_claim_in_progress claim_in_progress replay_failed
excepted e seek message p =
    if is_claim_in_progress e
    then claim_in_progress seek message p
    else replay_failed seek message p

-- `_commit_processed_record` where the call takes effect.
unfoldable pub commit_processed_record :
    Message Value → Progress ReplayCounts → Progress ReplayCounts
unfolding assign
commit_processed_record message p = record p {
  committed = assign p.committed message.partition (message.offset + 1);
}

-- `if replayed: moved += 1`
unfoldable pub count_moved : Bool → Progress ReplayCounts → Progress ReplayCounts
count_moved true p = record p { world = record p.world { moved = suc p.world.moved } }
count_moved false p = p

unfoldable pub commit_replayed :
    Reply
    → Option Error
    → Bool
    → Message Value
    → Progress ReplayCounts
    → Result (Unit {0}) × Progress ReplayCounts
unfolding commit_processed_record count_moved excepted
commit_replayed accepted seek replayed message p =
    (ok tt, count_moved replayed (commit_processed_record message p))
commit_replayed (declined e) seek replayed message p = excepted e seek message p
commit_replayed (unanswered e) seek replayed message p =
    excepted e seek message (commit_processed_record message p)

unfoldable pub after_replay :
    Calls
    → Message Value
    → Progress ReplayCounts
    → Result Bool
    → Result (Unit {0}) × Progress ReplayCounts
unfolding excepted commit_replayed
after_replay calls message p (err e) = excepted e calls.seek message p
after_replay calls message p (ok replayed) =
    commit_replayed calls.commit calls.seek replayed message
      (record p { handled = (message.partition, message.offset) ∷ p.handled })

unfoldable pub next_letter :
    Result (Unit {0}) × Progress ReplayCounts
    → (Progress ReplayCounts → Result (Unit {0}) × Progress ReplayCounts)
    → Result (Unit {0}) × Progress ReplayCounts
next_letter (ok u, p) more = more p
next_letter (err e, p) more = (err e, p)

unfoldable pub counted_batch :
    Result (Unit {0}) × Progress ReplayCounts → Result ℕ × Progress ReplayCounts
counted_batch (ok u, p) = (ok p.world.moved, p)
counted_batch (err e, p) = (err e, p)

module _ (loads : Text → Option Value) (max_count : ℕ) (replays : Message Value → Replay)
    (calls : Message Value → Calls) where
  unfoldable pub replay_letter :
      Message Value → Progress ReplayCounts → Result (Unit {0}) × Progress ReplayCounts
  unfolding replay_one after_replay
  replay_letter message p =
      let (r, w) = replay_one loads max_count (replays message) message.value p.world.world in
      after_replay (calls message) message (record p { world = record p.world { world = w } }) r

  -- A record of a partition that has failed is passed over.
  unfoldable pub visit_letter :
      Message Value → Progress ReplayCounts → Result (Unit {0}) × Progress ReplayCounts
  unfolding replay_letter
  visit_letter message p =
      if has_failed message.partition p.failed then (ok tt, p) else replay_letter message p

  unfoldable pub replay_letters :
      List (Message Value) → Progress ReplayCounts → Result (Unit {0}) × Progress ReplayCounts
  unfolding visit_letter next_letter
  replay_letters [] p = (ok tt, p)
  replay_letters (message ∷ messages) p =
      next_letter (visit_letter message p) (replay_letters messages)

  -- `_process_replay_batch`; the first argument is the answer of `ping_db`.
  unfoldable pub process_replay_batch :
      Bool → List (List (Message Value)) → Progress ReplayCounts → Result ℕ × Progress ReplayCounts
  unfolding replay_letters counted_batch flatten
  process_replay_batch false records p = (err runtime_error, p)
  process_replay_batch true records p = counted_batch (
      replay_letters (flatten records)
        (record p { failed = []; world = record p.world { moved = 0 } }))
