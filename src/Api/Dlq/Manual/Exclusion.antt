-- ===== src/Api/Dlq/Manual/Exclusion.antt =====
-- The replayer of the worker after a manual replay through the API.
use cloud_portfolio.Worker.Replayer
use cloud_portfolio.Prelude.{
  ℕ, ◌≡◌, refl, ap, sym, subst, Bool, true, false, Option, some, Text, codes, ◌⊎◌, inl, inr,
}
use cloud_portfolio.Errors.{Result, ok, err}
use cloud_portfolio.Json.{Value, obj, Fields}
use cloud_portfolio.Json.Checks.{get_or, number}
use cloud_portfolio.Json.Structure.{validate_json_structure, max_json_wire_nesting_depth}
use cloud_portfolio.Database.Tables.{Database}
use cloud_portfolio.Database.Session.{healthy, in_transaction}
use cloud_portfolio.Store.Claim.{
  ClaimState, claimed, persisted, published, in_progress, claim_dlq_replay,
}
use cloud_portfolio.Store.Claim.History.{LaterSteps}
use cloud_portfolio.Worker.World.{World}
use cloud_portfolio.Worker.Replayer.{
  Candidate, Replay, with_room_id, claim_tx, candidate, replay_candidate, replay_one,
}
use cloud_portfolio.Api.Answer.{Answer, done, failed}
use cloud_portfolio.Api.Dlq.Item.{
  Letter, DlqItem, item_of, structured_item, summarize_dlq_item, as_dict,
}
use cloud_portfolio.Api.Dlq.Manual.{
  Replayed, subject, replay_payload, claim_manual_replay, release_claim, after_payload, replay_item,
}
use cloud_portfolio.Api.Dlq.Manual
use cloud_portfolio.Api.Dlq.Manual.Agreement.{safe_int-open_count}
use cloud_portfolio.Api.Dlq.Manual.Eligible.{
  guarded_done, replay_of-done, replay_payload-IsCandidate,
}
use cloud_portfolio.Api.Dlq.Manual.Final.{claim_tx-claimed, replay_item-IsFinal}

-- A call of `replay_one` that sends nothing and does not return `True`.
abbrev pub IsSkipped : World → Result Bool × World → Type 0
IsSkipped w (ok true, w') = ⊥
IsSkipped w (ok false, w') = w'.ingress ≡ w.ingress
IsSkipped w (err e, w') = w'.ingress ≡ w.ingress

module _ (r : Replay) (c : Candidate) (w : World) where
  -- Where every claim says that the event is persisted or published, nothing is sent.
  after_claim-IsSkipped :
      (q : Result ClaimState × Database)
      → ((s : ClaimState) → q.0 ≡ ok s → (s ≡ persisted) ⊎ (s ≡ published))
      → IsSkipped w (Replayer.after_claim r c (record w { database = q.1 }) q.0)
  unfolding Replayer.after_claim
  after_claim-IsSkipped (err e, db) h = refl
  after_claim-IsSkipped (ok persisted, db) h = refl
  after_claim-IsSkipped (ok published, db) h = refl
  after_claim-IsSkipped (ok in_progress, db) h = refl
  after_claim-IsSkipped (ok (claimed t), db) h = elim (h (claimed t) refl) [
    | inl e ↦ cc
    | inr e ↦ cc
  ]

  replay_candidate-IsSkipped :
      ((res : ClaimState × Database)
        → claim_dlq_replay c.request_id c.replay_count r.token r.claimed_at w.database ≡ ok res
        → (res ≡ (persisted, w.database)) ⊎ (res ≡ (published, w.database)))
      → IsSkipped w (replay_candidate r (some c) w)
  unfolding replay_candidate
  replay_candidate-IsSkipped over =
      let q = in_transaction r.claim_fault (claim_tx r c) w.database in
      after_claim-IsSkipped q (λ s e.
        decided s q.1
          (over (s, q.1) (claim_tx-claimed r c w.database q.1 s (ap (λ t. (t, q.1)) e))))
    where
      decided :
          (s : ClaimState) (db : Database)
          → (◌≡◌ {A = ClaimState × Database} (s, db) (persisted, w.database))
            ⊎ (◌≡◌ {A = ClaimState × Database} (s, db) (published, w.database))
          → (s ≡ persisted) ⊎ (s ≡ published)
      decided s db (inl e) = inl (ap (λ p. p.0) e)
      decided s db (inr e) = inr (ap (λ p. p.0) e)

module _ (max_count : ℕ) where
  abbrev HasPayload : DlqItem → Answer Replayed × World → Type 0
  HasPayload item (failed f, w) = Unit
  HasPayload item (done x, w) = (c : Candidate) × (replay_payload max_count item ≡ done c)

  any-HasPayload :
      (item : DlqItem) (c : Candidate) (p : Answer Replayed × World)
      → replay_payload max_count item ≡ done c
      → HasPayload item p
  any-HasPayload item c (failed f, w) h = tt
  any-HasPayload item c (done x, w) h = (c, h)

  after_payload-HasPayload :
      (r : Replay) (item : DlqItem) (token : Text) (w : World) (a : Answer Candidate)
      → replay_payload max_count item ≡ a
      → HasPayload item (after_payload max_count r item token w a)
  unfolding after_payload release_claim
  after_payload-HasPayload r item token w (failed f) h = tt
  after_payload-HasPayload r item token w (done c) h = any-HasPayload item c _ h

  replay_item-HasPayload :
      (r : Replay) (item : DlqItem) (w : World) → HasPayload item (replay_item max_count r item w)
  unfolding replay_item Manual.after_claim
  replay_item-HasPayload r item w = claimed_payload (claim_manual_replay max_count r item w)
    where
      claimed_payload :
          (p : Answer Text × World) → HasPayload item (Manual.after_claim max_count r item p)
      claimed_payload (failed f, w) = tt
      claimed_payload (done token, w) =
          after_payload-HasPayload r item token w (replay_payload max_count item) refl

  module _ (repr : Value → Option Text) (letter : Letter) where
    -- The claim of a manual replay is about the job that it sends.
    item_of-subject :
        (d : Fields) (invalid : Bool) (c : Candidate)
        → replay_payload max_count (item_of repr max_count letter d invalid) ≡ done c
        → ((subject max_count (item_of repr max_count letter d invalid)).request_id ≡ c.request_id)
          × ((item_of repr max_count letter d invalid).replay_count ≡ c.replay_count)
    unfolding replay_payload item_of subject
    item_of-subject d invalid c h =
        let item : DlqItem = item_of repr max_count letter d invalid in
        let (replayable, replayed) = guarded_done item.replayable _ _ c h in
        let (place, count, job, request) = replay_of-done max_count _ _ item c replayed in
        (
          sym request,
          safe_int-open_count max_count c.replay_count (get_or (codes "replay_count") (number 0) d)
              count,
        )

    structured_item-subject :
        (d : Fields) (s : Result (Unit {0})) (c : Candidate)
        → replay_payload max_count (structured_item repr max_count letter d s) ≡ done c
        → ((subject max_count (structured_item repr max_count letter d s)).request_id
            ≡ c.request_id)
          × ((structured_item repr max_count letter d s).replay_count ≡ c.replay_count)
    unfolding structured_item
    structured_item-subject d (ok u) c h = item_of-subject d false c h
    structured_item-subject d (err e) c h = item_of-subject _ true c h

    summarize_dlq_item-subject :
        (c : Candidate)
        → replay_payload max_count (summarize_dlq_item repr max_count letter) ≡ done c
        → ((subject max_count (summarize_dlq_item repr max_count letter)).request_id ≡ c.request_id)
          × ((summarize_dlq_item repr max_count letter).replay_count ≡ c.replay_count)
    unfolding summarize_dlq_item
    summarize_dlq_item-subject c h =
        structured_item-subject (as_dict repr letter.value)
          (validate_json_structure max_json_wire_nesting_depth (obj (as_dict repr letter.value))) c
          h

    -- Let a dead letter that is a dict have been replayed by hand, with an answer and its mark stored,
    -- and nothing in between its claim and its mark. After any transactions but the reset of the demo,
    -- `replay_one` of the worker neither sends the letter nor returns `True`, however its claim fares.
    pub replay_item-IsExclusive :
        (loads : Text → Option Value) (first second : Replay) (d : Fields) (w w' later : World)
        (x : Replayed)
        → letter.value ≡ obj d
        → replay_item max_count first (summarize_dlq_item repr max_count letter) w ≡ (done x, w')
        → first.mark_fault ≡ healthy
        → LaterSteps w'.database later.database
        → IsSkipped later (replay_one loads max_count second (obj d) later)
    unfolding replay_one
    replay_item-IsExclusive loads first second d w w' later x value h quiet steps =
        let item : DlqItem = summarize_dlq_item repr max_count letter in
        let (c, payload) = subst (HasPayload item) h (replay_item-HasPayload first item w) in
        let (named, count) = summarize_dlq_item-subject c payload in
        let taken : Candidate = record c { job = with_room_id c.job } in
        subst (λ o. IsSkipped later (replay_candidate second o later))
          (sym (replay_payload-IsCandidate repr max_count letter d c value payload))
          (replay_candidate-IsSkipped second taken later (λ res e.
            replay_item-IsFinal max_count first item w w' x later.database second.token
              second.claimed_at res h quiet steps
              (subst
                (λ k.
                  claim_dlq_replay k item.replay_count second.token second.claimed_at later.database
                  ≡ ok res)
                (sym named)
                (subst
                  (λ n.
                    claim_dlq_replay c.request_id n second.token second.claimed_at later.database
                    ≡ ok res)
                  (sym count) e))))
