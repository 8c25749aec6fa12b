-- ===== src/Worker/Notify.antt =====
-- worker/main.py: `store_attempt`, `handle_notification_job` and `_process_notification_batch`.
use cloud_portfolio.Prelude.{
  ℕ, suc, Bool, false, ◌&&◌, Option, none, some, List, [], ◌∷◌, any, ◌==◌, if◌then◌else◌, Text,
}
use cloud_portfolio.Errors.{Error, Result, ok, err, target_missing, data_error, runtime_error}
use cloud_portfolio.Json.{Value, str, obj}
use cloud_portfolio.Database.Tables.{Database}
use cloud_portfolio.Database.Tx.{Tx}
use cloud_portfolio.Database.Session.{Fault, in_transaction}
use cloud_portfolio.Worker.Handle.{Outcome, success, rejected}
use cloud_portfolio.Worker.Batch.{
  Message, Calls, Progress, assign, has_failed, flatten, after_handler, process_worker_batch,
}
use cloud_portfolio.Worker.Notice.{
  Notice, normalize_notification_payload, insert_notification_attempt,
  insert_notification_attempt_batch,
}

-- How the two attempts of a store fare, and the `reconnect_pool` between them.
pub record Tries : Type 0 where
  pub first : Fault
  pub reconnect : Option Error
  pub second : Fault

-- An exception that is raised at once, with no second attempt.
pub data Retrying : Type 0 where
  at_once later : Retrying

attempt_policy : Error → Retrying
attempt_policy data_error = at_once
attempt_policy target_missing = at_once
attempt_policy e = later

batch_policy : Error → Retrying
batch_policy data_error = at_once
batch_policy e = later

module _ {A : Type 0} where
  second_try : Tries → Tx A → Error → Database → Retrying → Result A × Database
  second_try tries m e db at_once = (err e, db)
  second_try tries m e db later = elim tries.reconnect [
    | some e' ↦ (err e', db)
    | none ↦ in_transaction tries.second m db
  ]

  after_first : (Error → Retrying) → Tries → Tx A → Result A × Database → Result A × Database
  unfolding second_try
  after_first policy tries m (ok a, db) = (ok a, db)
  after_first policy tries m (err e, db) = second_try tries m e db (policy e)

  -- `for attempt in range(2)`
  twice : (Error → Retrying) → Tries → Tx A → Database → Result A × Database
  unfolding after_first in_transaction
  twice policy tries m db = after_first policy tries m (in_transaction tries.first m db)

-- `store_attempt`
unfoldable pub store_attempt : Tries → Notice → Database → Result (Unit {0}) × Database
unfolding twice attempt_policy insert_notification_attempt
store_attempt tries n = twice attempt_policy tries (insert_notification_attempt n)

-- `store_attempt_batch`
unfoldable pub store_attempt_batch :
    Tries → List Notice → Database → Result (List (ℕ × ℕ)) × Database
unfolding twice batch_policy insert_notification_attempt_batch
store_attempt_batch tries [] db = (ok [], db)
store_attempt_batch tries (n ∷ ns) db =
    twice batch_policy tries (insert_notification_attempt_batch (n ∷ ns)) db

notification_result : Result (Unit {0}) → Result Outcome
notification_result (ok u) = ok success
notification_result (err target_missing) = ok rejected
notification_result (err data_error) = ok rejected
notification_result (err e) = err e

store_notice : Tries → Result Notice → Database → Result Outcome × Database
unfolding store_attempt notification_result
store_notice tries (err e) db = (ok rejected, db)
store_notice tries (ok n) db =
    let (r, db') = store_attempt tries n db in (notification_result r, db')

-- `loads` is `json.loads`, `none` where it raises.
module _ (loads : Text → Option Value) where
  loaded : Option Value → Result Notice
  unfolding normalize_notification_payload
  loaded none = err runtime_error
  loaded (some v) = normalize_notification_payload v

  -- The value of a record, decoded once more if it is a text, and normalized.
  read_notice : Value → Result Notice
  unfolding loaded
  read_notice (obj d) = normalize_notification_payload (obj d)
  read_notice (str s) = loaded (loads s)
  read_notice v = loaded none

  -- `handle_notification_job`
  unfoldable pub handle_notification_job : Tries → Value → Database → Result Outcome × Database
  unfolding read_notice store_notice
  handle_notification_job tries raw = store_notice tries (read_notice raw)

  abbrev readable : Result Notice → List Notice → List Notice
  readable (ok n) ns = n ∷ ns
  readable (err e) ns = ns

  -- `valid_payloads`
  valid_notices : List (Message Value) → List Notice
  unfolding read_notice
  valid_notices [] = []
  valid_notices (m ∷ ms) = readable (read_notice m.value) (valid_notices ms)

  is_target : List (ℕ × ℕ) → Notice → Bool
  is_target targets n = any (λ t. t.0 == n.event_id && t.1 == n.stream_id) targets

  batch_outcome : List (ℕ × ℕ) → Result Notice → Outcome
  unfolding is_target
  batch_outcome targets (err e) = rejected
  batch_outcome targets (ok n) = if is_target targets n then success else rejected

  module _ (calls : Message Value → Calls) (tries : Tries)
      (record_tries : Message Value → Tries) where
    -- The commits after a batch that is stored, record by record.
    commit_notices :
        List (ℕ × ℕ)
        → List (Message Value)
        → Progress Database
        → Result (Unit {0}) × Progress Database
    unfolding after_handler batch_outcome read_notice
    commit_notices targets [] p = (ok tt, p)
    commit_notices targets (m ∷ ms) p =
        let (r, p') =
          if has_failed m.partition p.failed
          then (ok tt, p)
          else after_handler (calls m) m p (ok (batch_outcome targets (read_notice m.value))) in
        elim r [ ok u ↦ commit_notices targets ms p' | err e ↦ (err e, p') ]

    -- The seek of each partition back to its first record.
    rewind_partitions :
        List (List (Message Value)) → Progress Database → Result (Unit {0}) × Progress Database
    unfolding assign
    rewind_partitions [] p = (ok tt, p)
    rewind_partitions ([] ∷ rest) p = rewind_partitions rest p
    rewind_partitions ((m ∷ ms) ∷ rest) p =
        let next =
          rewind_partitions rest (record p { position = assign p.position m.partition m.offset }) in
        elim (calls m).seek [ some e ↦ (err e, p) | none ↦ next ]

    after_store :
        List (List (Message Value))
        → Progress Database
        → Result (List (ℕ × ℕ))
        → Result (Unit {0}) × Progress Database
    unfolding commit_notices rewind_partitions process_worker_batch handle_notification_job flatten
    after_store records p (ok targets) =
        commit_notices targets (flatten records) (record p { failed = [] })
    after_store records p (err data_error) =
        process_worker_batch (λ m. handle_notification_job (record_tries m) m.value) calls records p
    after_store records p (err e) =
        rewind_partitions records (record p { is_healthy = false; failures = suc p.failures })

    -- `_process_notification_batch`
    unfoldable pub process_notification_batch :
        List (List (Message Value)) → Progress Database → Result (Unit {0}) × Progress Database
    unfolding after_store store_attempt_batch valid_notices flatten
    process_notification_batch records p = elim (flatten records) [
      | [] ↦ (ok tt, p)
      | m ∷ ms ↦
          let (r, db) = store_attempt_batch tries (valid_notices (flatten records)) p.world in
          after_store records (record p { world = db }) r
    ]
