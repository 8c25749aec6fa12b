-- ===== src/Worker/Handle/Outcomes.antt =====
-- The loop of `handle_ingress_job`: it ends, it keeps the database consistent, and it leaves a record
-- in the DLQ exactly if it says so.
use cloud_portfolio.Prelude.{
  ℕ, zero, suc, ◌+◌, ◌≤◌, ◌<◌, ◌≡◌, refl, ◌∙◌, ap, Bool, true, false, Option, none, some, List, leb,
  if◌then◌else◌, arith, length,
}
use cloud_portfolio.Errors.{Error, Result, ok, err}
use cloud_portfolio.Json.{Fields}
use cloud_portfolio.Database.Tables.{Database}
use cloud_portfolio.Worker.Job.{Job}
use cloud_portfolio.Worker.Transaction.{persist_ingress_job}
use cloud_portfolio.Worker.Transaction.Invariant.{IsConsistent, persist_ingress_job-IsConsistent}
use cloud_portfolio.Worker.World.{World, Round, mark_inline_retry, retried, queued_status}
use cloud_portfolio.Worker.Handle.Dead.{
  Moved, Keeps, move_to_dlq-Moved, move_to_dlq-Keeps, update_request_status-IsConsistent,
}
use cloud_portfolio.Worker.Handle.{
  Outcome, success, rejected, dlq, Reaction, reject, give_up_at_once, retry, propagate, reaction,
  Step, done, again, ended, given_up, react, after_persist, round_step, next_round, handle_rounds,
  handle_validated_job, failed_status,
}

-- The number of records in the DLQ after a call, by its result. An exception may leave a record,
-- since a send whose answer is lost raises.
abbrev pub Accounted : World → Result Outcome → World → Type 0
Accounted w (ok success) w' = w'.dlq ≡ w.dlq
Accounted w (ok rejected) w' = w'.dlq ≡ w.dlq
Accounted w (ok dlq) w' = length w'.dlq ≡ suc (length w.dlq)
Accounted w (err e) w' = length w'.dlq ≤ suc (length w.dlq)

module _ (max_retries : ℕ) (base : Option ℕ) where
  -- What a round does, by how it ends; another round has one more retry.
  Good : Job → World → Step → Type 0
  Good job w (done r w') = Accounted w r w' × Keeps w w'
  Good job w (again job' w') =
      (w'.dlq ≡ w.dlq)
      × Keeps w w'
      × (job'.retry_count ≡ suc job.retry_count)
      × (job.retry_count < max_retries)

  given_up-Good :
      (job : Job) (w : World) (r : Result (Unit {0}) × World)
      → Moved w r
      → Keeps w r.1
      → Good job w (ended (given_up r))
  unfolding Good ended given_up
  given_up-Good job w (ok u, w') h k = (h, k)
  given_up-Good job w (err e, w') h k = (h, k)

  if-Good :
      (job : Job) (w : World) (b : Bool) (x y : Step)
      → Good job w x
      → (b ≡ false → Good job w y)
      → Good job w (if b then x else y)
  if-Good job w true x y hx hy = hx
  if-Good job w false x y hx hy = hy refl

  react-Good :
      (round : Round) (job : Job) (e : Error) (w : World) (r : Reaction)
      → Good job w (react max_retries base round job e w r)
  unfolding Good react mark_inline_retry retried
  react-Good round job e w (reject reason) = (
    refl,
    update_request_status-IsConsistent round.status_fault job.request_id (failed_status reason job)
        w,
  )
  react-Good round job e w (give_up_at_once reason) =
      given_up-Good job w _ (move_to_dlq-Moved round job reason w)
        (move_to_dlq-Keeps round job reason w)
  react-Good round job e w (propagate name) = (omega arith, λ c. c)
  react-Good round job e w (retry reason) =
      if-Good job w (leb max_retries job.retry_count) _ _
        (given_up-Good job w _ (move_to_dlq-Moved round job reason w)
          (move_to_dlq-Keeps round job reason w))
        λ left. (
          refl,
          update_request_status-IsConsistent round.status_fault job.request_id
              (queued_status round.retry_at (retried base round.clock job)) w,
          omega arith,
          ground arith,
        )

  after_persist-Good :
      (round : Round) (job : Job) (w : World) (r : Result Fields)
      → Good job w (after_persist max_retries base round job w r)
  unfolding Good after_persist
  after_persist-Good round job w (ok response) = (refl, λ c. c)
  after_persist-Good round job w (err e) = react-Good round job e w (reaction e)

  Good-after :
      (job : Job) (w : World) (db : Database) (s : Step)
      → (IsConsistent w.database → IsConsistent db)
      → Good job (record w { database = db }) s
      → Good job w s
  unfolding Good
  Good-after job w db (done (ok success) w') k h = (h.0, λ c. h.1 (k c))
  Good-after job w db (done (ok rejected) w') k h = (h.0, λ c. h.1 (k c))
  Good-after job w db (done (ok dlq) w') k h = (h.0, λ c. h.1 (k c))
  Good-after job w db (done (err e) w') k h = (h.0, λ c. h.1 (k c))
  Good-after job w db (again job' w') k h = (h.0, λ c. h.1 (k c), h.2, h.3)

  round_step-Good :
      (round : Round) (job : Job) (w : World) → Good job w (round_step max_retries base round job w)
  unfolding round_step
  round_step-Good round job w =
      let r = persist_ingress_job round.persist_fault round.times job w.database in
      Good-after job w r.1 _
        (persist_ingress_job-IsConsistent round.persist_fault round.times job w.database)
        (after_persist-Good round job (record w { database = r.1 }) r.0)

-- What a call has done, when it is certain to end.
abbrev Settles : World → Option (Result Outcome × World) → Type 0
Settles w none = ⊥
Settles w (some (r, w')) = Accounted w r w' × (IsConsistent w.database → IsConsistent w'.database)

-- The call has ended, with as many records as its result says and a consistent database.
abbrev pub IsSettled : World → Option (Result Outcome × World) → Type 0
IsSettled w none = ⊥
IsSettled w (some (r, w')) = Accounted w r w' × IsConsistent w'.database

Settles-after :
    (w w' : World) (o : Option (Result Outcome × World))
    → w'.dlq ≡ w.dlq
    → Keeps w w'
    → Settles w' o
    → Settles w o
Settles-after w w' none e k h = h
Settles-after w w' (some (ok success, v)) e k h = (h.0 ∙ e, λ c. h.1 (k c))
Settles-after w w' (some (ok rejected, v)) e k h = (h.0 ∙ e, λ c. h.1 (k c))
Settles-after w w' (some (ok dlq, v)) e k h =
    (h.0 ∙ ap (λ (l : List (ℕ × Fields)). suc (length l)) e, λ c. h.1 (k c))
Settles-after w w' (some (err x, v)) e k h =
    (omega (arith, h.0, ap (λ (l : List (ℕ × Fields)). length l) e), λ c. h.1 (k c))

module _ (max_retries : ℕ) (base : Option ℕ) (rounds : ℕ → Round) where
  next_round-Settles :
      (job : Job) (w : World) (s : Step) (more : Job → World → Option (Result Outcome × World))
      → Good max_retries base job w s
      → ((job' : Job) (w' : World)
          → job'.retry_count ≡ suc job.retry_count
          → job.retry_count < max_retries
          → Settles w' (more job' w'))
      → Settles w (next_round s more)
  unfolding Good next_round
  next_round-Settles job w (done r w') more h k = h
  next_round-Settles job w (again job' w') more h k =
      Settles-after w w' (more job' w') h.0 h.1 (k job' w' h.2 h.3)

  handle_rounds-Settles :
      (fuel n : ℕ) (job : Job) (w : World)
      → max_retries < fuel + job.retry_count
      → 0 < fuel
      → Settles w (handle_rounds max_retries base rounds fuel n job w)
  unfolding handle_rounds
  handle_rounds-Settles zero n job w h p = elim p [ ]
  handle_rounds-Settles (suc fuel) n job w h p =
      next_round-Settles job w (round_step max_retries base (rounds n) job w) _
        (round_step-Good max_retries base (rounds n) job w)
        (λ job' w' e lt.
          handle_rounds-Settles fuel (n + 1) job' w' (omega (arith, e)) (omega (arith, e)))

  Settles-IsSettled :
      (w : World) (o : Option (Result Outcome × World))
      → IsConsistent w.database
      → Settles w o
      → IsSettled w o
  Settles-IsSettled w none c h = h
  Settles-IsSettled w (some (r, w')) c h = (h.0, h.1 c)

  -- On a consistent database, however every round fares, the loop ends within one round more than the
  -- retries that are allowed, and the database is consistent after it; it has added one record to the
  -- DLQ if it returns "dlq", none if it returns "success" or "rejected", and at most one if it raises.
  pub handle_validated_job-IsSettled :
      (job : Job) (w : World)
      → IsConsistent w.database
      → IsSettled w (handle_validated_job max_retries base rounds job w)
  unfolding handle_validated_job
  handle_validated_job-IsSettled job w c =
      Settles-IsSettled w (handle_rounds max_retries base rounds (max_retries + 1) 0 job w) c
        (handle_rounds-Settles (max_retries + 1) 0 job w (omega arith) (omega arith))
