-- ===== src/Worker/Handle.antt =====
-- worker/main.py: the loop of `handle_ingress_job` over a validated job.
pub mod Dead
pub mod Outcomes
pub mod Delays
use cloud_portfolio.Prelude.{
  ℕ, zero, suc, ◌+◌, Bool, true, false, Option, none, some, leb, if◌then◌else◌, Text, codes, ◌++◌,
}
use cloud_portfolio.Errors.{
  Error, Result, ok, err, value_error, authorization_error, owner_conflict, target_missing,
  data_error, sequence_gap, operational_error, interface_error, runtime_error, integrity_error,
  key_error, other_error, http_exception, class_name,
}
use cloud_portfolio.Json.{Value, str, Fields, end, field}
use cloud_portfolio.Json.Checks.{number}
use cloud_portfolio.Database.Tables.{Database}
use cloud_portfolio.Worker.Job.{Job}
use cloud_portfolio.Worker.Transaction.{persist_ingress_job}
use cloud_portfolio.Worker.World.{
  World, Round, update_request_status, move_to_dlq, mark_inline_retry,
}

-- What a handler returns.
pub data Outcome : Type 0 where
  success rejected dlq : Outcome

-- The handler of an exception of `persist_ingress_job`.
pub data Reaction : Type 0 where
  reject give_up_at_once retry propagate : Text → Reaction

abbrev pub public_rejection : Text
public_rejection = codes "Event authorization rejected"

-- The `except` clauses in their order, with the reason that each writes.
unfoldable pub reaction : Error → Reaction
unfolding class_name
reaction (authorization_error m) = reject public_rejection
reaction (value_error m) = reject m
reaction owner_conflict = reject (codes "Request status owner conflict")
reaction target_missing = reject (codes "Notification target event is missing")
reaction data_error = give_up_at_once (codes "invalid_persistence_data:DataError")
reaction sequence_gap = retry (codes "room_sequence_gap")
reaction operational_error = retry (codes "transient_error_max_retries:OperationalError")
reaction interface_error = retry (codes "transient_error_max_retries:InterfaceError")
reaction runtime_error = retry (codes "transient_error_max_retries:RuntimeError")
reaction integrity_error = propagate (codes "IntegrityError")
reaction key_error = propagate (codes "KeyError")
reaction (other_error name) = propagate name
reaction (http_exception status detail) = propagate (codes "HTTPException")

unfoldable pub failed_status : Text → Job → Fields
failed_status reason job = field (codes "request_id") (str job.request_id) (
    field (codes "status") (str (codes "failed")) (
      field (codes "room_id") (number job.room_id) (
        field (codes "user_id") (number job.user_id)
          (field (codes "failed_reason") (str reason) end))))

-- `move_to_dlq(...)` and `return "dlq"`
given_up : Result (Unit {0}) × World → Result Outcome × World
given_up (ok u, w) = (ok dlq, w)
given_up (err e, w) = (err e, w)

-- How a round ends: with a result, or with the job of the next round.
pub data Step : Type 0 where
  done : Result Outcome → World → Step
  again : Job → World → Step

ended : Result Outcome × World → Step
ended (r, w) = done r w

-- The rounds that are left are a function of the job and the world: it waits.
next_round :
    Step → (Job → World → Option (Result Outcome × World)) → Option (Result Outcome × World)
next_round (done r w) more = some (r, w)
next_round (again job w) more = more job w

module _ (max_retries : ℕ) (base : Option ℕ) where
  react : Round → Job → Error → World → Reaction → Step
  unfolding update_request_status failed_status ended given_up move_to_dlq mark_inline_retry
  react round job e w (reject reason) =
      done (ok rejected)
        (update_request_status round.status_fault job.request_id (failed_status reason job) w)
  react round job e w (give_up_at_once reason) = ended (given_up (move_to_dlq round job reason w))
  react round job e w (propagate name) = done (err e) w
  react round job e w (retry reason) =
      if leb max_retries job.retry_count
      then ended (given_up (move_to_dlq round job reason w))
      else let (job', w') = mark_inline_retry base round job w in again job' w'

  after_persist : Round → Job → World → Result Fields → Step
  unfolding react reaction
  after_persist round job w (ok response) = done (ok success) w
  after_persist round job w (err e) = react round job e w (reaction e)

  -- One round of `while True`.
  unfoldable pub round_step : Round → Job → World → Step
  unfolding persist_ingress_job after_persist
  round_step round job w =
      let r = persist_ingress_job round.persist_fault round.times job w.database in
      after_persist round job (record w { database = r.1 }) r.0

  -- The loop, on fuel; `none` means that the fuel ran out. `rounds n` is how round `n` fares.
  handle_rounds : (ℕ → Round) → ℕ → ℕ → Job → World → Option (Result Outcome × World)
  unfolding round_step next_round
  handle_rounds rounds zero n job w = none
  handle_rounds rounds (suc fuel) n job w =
      next_round (round_step (rounds n) job w) (handle_rounds rounds fuel (n + 1))

  -- The loop, with fuel for every retry that is left.
  unfoldable pub handle_validated_job : (ℕ → Round) → Job → World → Option (Result Outcome × World)
  unfolding handle_rounds
  handle_validated_job rounds job w = handle_rounds rounds (max_retries + 1) 0 job w
