-- ===== src/Worker/Batch.antt =====
-- worker/main.py: `_process_worker_batch`, with `_commit_processed_record` and `_seek_failed_record`.
pub mod Steps
pub mod Offsets
use cloud_portfolio.Prelude.{
  ℕ, suc, ◌+◌, Bool, true, false, ◌&&◌, ◌||◌, not, Option, none, some, List, [], ◌∷◌, ◌++◌, any,
  ◌==◌, if◌then◌else◌,
}
use cloud_portfolio.Errors.{Error, Result, ok, err}
use cloud_portfolio.Worker.Handle.{Outcome, success, rejected, dlq}

-- A record of the topic that the consumer reads.
pub record Message {ℓ} (V : Type ℓ) : Type ℓ where
  pub partition : ℕ
  pub offset : ℕ
  pub value : V

-- How the calls of the Kafka client fare for one record: the commit is done, is refused, or is done
-- and the call raises; the seek returns or raises.
pub data Reply : Type 0 where
  accepted : Reply
  declined unanswered : Error → Reply

pub record Calls : Type 0 where
  pub commit : Reply
  pub seek : Option Error

-- The consumer: the committed offset and the position of each partition; the partitions that have
-- failed in this batch; the gauges; `handled` lists the records whose handler has returned.
pub record Progress {ℓ} (S : Type ℓ) : Type ℓ where
  pub world : S
  pub committed : ℕ → ℕ
  pub position : ℕ → ℕ
  pub failed : List ℕ
  pub handled : List (ℕ × ℕ)
  pub processed : ℕ
  pub failures : ℕ
  pub is_healthy : Bool

unfoldable pub assign : (ℕ → ℕ) → ℕ → ℕ → ℕ → ℕ
assign f p n q = if q == p then n else f q

abbrev pub has_failed : ℕ → List ℕ → Bool
has_failed p failed = any (λ q. q == p) failed

abbrev pub was_handled : ℕ → ℕ → List (ℕ × ℕ) → Bool
was_handled p o log = any (λ e. e.0 == p && e.1 == o) log

-- The `else` branch: the gauges of a record that is done.
count_record {ℓ} : {S : Type ℓ} → Progress S → Progress S
count_record p = record p {
  processed = suc p.processed;
  is_healthy = elim p.failed [ [] ↦ true | q ∷ qs ↦ p.is_healthy ];
}

-- The records that `poll` returns, partition by partition.
unfoldable pub flatten {ℓ} : {A : Type ℓ} → List (List A) → List A
flatten [] = []
flatten (ms ∷ rest) = ms ++ flatten rest

module _ {ℓ κ} {S : Type ℓ} {V : Type κ} where
  -- `failed_partitions.add`, the seek back to the record, and the gauges of a failure. A seek that
  -- raises ends the batch.
  unfoldable pub fail_with : Option Error → Message V → Progress S → Result (Unit {0}) × Progress S
  unfolding assign
  fail_with (some e) message p = (err e, record p { failed = message.partition ∷ p.failed })
  fail_with none message p = (
    ok tt,
    record p {
      failed = message.partition ∷ p.failed;
      position = assign p.position message.partition message.offset;
      processed = suc p.processed;
      failures = suc p.failures;
      is_healthy = false;
    },
  )

  -- `_commit_processed_record` where the call takes effect: the offset after the record.
  unfoldable pub commit_record : Message V → Progress S → Progress S
  unfolding assign
  commit_record message p = record p {
    committed = assign p.committed message.partition (message.offset + 1);
  }

  commit_with : Reply → Option Error → Message V → Progress S → Result (Unit {0}) × Progress S
  unfolding fail_with commit_record count_record
  commit_with accepted seek message p = (ok tt, count_record (commit_record message p))
  commit_with (declined e) seek message p = fail_with seek message p
  commit_with (unanswered e) seek message p = fail_with seek message (commit_record message p)

  unfoldable pub after_handler :
      Calls → Message V → Progress S → Result Outcome → Result (Unit {0}) × Progress S
  unfolding fail_with commit_with
  after_handler calls message p (err e) = fail_with calls.seek message p
  after_handler calls message p (ok outcome) =
      commit_with calls.commit calls.seek message
        (record p { handled = (message.partition, message.offset) ∷ p.handled })

  module _ (handler : Message V → S → Result Outcome × S) (calls : Message V → Calls) where
    -- One record: the handler, the commit, and what an exception of either does.
    process_record : Message V → Progress S → Result (Unit {0}) × Progress S
    unfolding after_handler
    process_record message p =
        let (r, world) = handler message p.world in
        after_handler (calls message) message (record p { world = world }) r

    -- A record of a partition that has failed is passed over.
    visit_record : Message V → Progress S → Result (Unit {0}) × Progress S
    unfolding process_record
    visit_record message p =
        if has_failed message.partition p.failed then (ok tt, p) else process_record message p

    -- An exception ends the batch. The records that are left are a function of the progress.
    next_message :
        Result (Unit {0}) × Progress S
        → (Progress S → Result (Unit {0}) × Progress S)
        → Result (Unit {0}) × Progress S
    next_message (ok u, p) more = more p
    next_message (err e, p) more = (err e, p)

    process_messages : List (Message V) → Progress S → Result (Unit {0}) × Progress S
    unfolding visit_record next_message
    process_messages [] p = (ok tt, p)
    process_messages (message ∷ messages) p =
        next_message (visit_record message p) (process_messages messages)

    -- `_process_worker_batch`, of the values of the dict that `poll` returns.
    unfoldable pub process_worker_batch :
        List (List (Message V)) → Progress S → Result (Unit {0}) × Progress S
    unfolding process_messages flatten
    process_worker_batch records p = process_messages (flatten records) (record p { failed = [] })
