-- ===== src/Api/Dlq/Manual/Sent.antt =====
-- What a manual replay sends.
use cloud_portfolio.Prelude.{
  ℕ, ◌+◌, ◌≤◌, ◌<◌, ◌≡◌, refl, ap, ◌∙◌, Option, none, some, [], ◌∷◌, ◌++◌, ltb, pos, Text, codes,
  arith, ◌⊎◌, inl, inr, if-result,
}
use cloud_portfolio.Json.{Value, int, str, Fields, get, put}
use cloud_portfolio.Json.Checks.{get_or, number}
use cloud_portfolio.Json.Lookup.{get-put, get-put_other}
use cloud_portfolio.Worker.Outbox.{Send, acknowledged, refused, unanswered}
use cloud_portfolio.Worker.World.{World}
use cloud_portfolio.Worker.Replayer.{Candidate, Replay, replayed_job}
use cloud_portfolio.Api.Answer.{Answer, done, failed, http, publish_ingress_job}
use cloud_portfolio.Api.Dlq.Item.{DlqItem, safe_optional_positive_int, selected_event_field}
use cloud_portfolio.Api.Dlq.Manual.{
  Replayed, replay_limit, open_count, replay_of, replay_payload, claim_manual_replay, release_claim,
  mark_claim, after_send, after_payload, after_claim, replay_item,
}

replayed_job-count :
    (at : Text) (c : Candidate)
    → get (codes "replay_count") (replayed_job at c) ≡ some (number (c.replay_count + 1))
unfolding replayed_job
replayed_job-count at c =
    get-put_other (codes "replay_count") (codes "next_retry_at") _
      (put (codes "retry_count") (number 0) (
        put (codes "replayed_at") (str at)
          (put (codes "replay_count") (number (c.replay_count + 1)) c.job)))
      refl
    ∙ get-put_other (codes "replay_count") (codes "retry_count") _
        (put (codes "replayed_at") (str at)
          (put (codes "replay_count") (number (c.replay_count + 1)) c.job))
        refl
    ∙ get-put_other (codes "replay_count") (codes "replayed_at") _
        (put (codes "replay_count") (number (c.replay_count + 1)) c.job) refl
    ∙ get-put (codes "replay_count") _ c.job

module _ (max_count : ℕ) (w : World) where
  -- One record has been sent, whose count is one more and within the limit.
  pub record IsSent (stream_id count : ℕ) (w' : World) : Type 0 where
    pub job : Fields
    pub sent : w'.ingress ≡ w.ingress ++ (stream_id, job) ∷ []
    pub counted : get (codes "replay_count") job ≡ some (number count)
    pub limited : count ≤ max_count

  abbrev pub IsReplayed : Answer Replayed × World → Type 0
  IsReplayed (done x, w') = IsSent x.stream_id x.replay_count w'
  IsReplayed (failed f, w') =
      (w'.ingress ≡ w.ingress)
      ⊎ ((stream_id : ℕ) × (count : ℕ) × IsSent stream_id count w'
          × (f ≡ http 503 (codes "Kafka unavailable")))

  abbrev IsLimited : Answer Candidate → Type 0
  IsLimited (done c) = c.replay_count < max_count
  IsLimited (failed f) = Unit

  open_count-below : (v : Value) (n : ℕ) → open_count max_count v ≡ some n → n < max_count
  unfolding open_count replay_limit
  open_count-below (int (pos m)) n h = ground (arith, h)
  open_count-below _ n h = cc

  replay_of-IsLimited :
      (stream : Option ℕ) (o : Option ℕ) (item : DlqItem)
      → ((n : ℕ) → o ≡ some n → n < max_count)
      → IsLimited (replay_of max_count stream o item)
  unfolding replay_of
  replay_of-IsLimited none o item h = tt
  replay_of-IsLimited (some s) none item h = tt
  replay_of-IsLimited (some s) (some n) item h = h n refl

  replay_payload-IsLimited : (item : DlqItem) → IsLimited (replay_payload max_count item)
  unfolding replay_payload
  replay_payload-IsLimited item =
      if-result IsLimited item.replayable _ _
        (λ p.
          replay_of-IsLimited
            (safe_optional_positive_int
              (selected_event_field item.payload (codes "stream_id") (codes "room_id")))
            (open_count max_count (get_or (codes "replay_count") (number 0) item.payload)) item
            (open_count-below (get_or (codes "replay_count") (number 0) item.payload)))
        (λ p. tt)

  sent_as :
      (r : Replay) (c : Candidate) (w' : World)
      → c.replay_count < max_count
      → w'.ingress ≡ w.ingress ++ (c.room_id, replayed_job r.replayed_at c) ∷ []
      → IsSent c.room_id (c.replay_count + 1) w'
  sent_as r c w' below e = record {
    job = replayed_job r.replayed_at c;
    sent = e;
    counted = replayed_job-count r.replayed_at c;
    limited = omega (arith, below);
  }

  after_send-IsReplayed :
      (r : Replay) (item : DlqItem) (token : Text) (c : Candidate) (send : Send) (v : World)
      → v.ingress ≡ w.ingress
      → c.replay_count < max_count
      → IsReplayed (
          after_send max_count r item token c
            (publish_ingress_job send c.room_id (replayed_job r.replayed_at c) v))
  unfolding after_send publish_ingress_job mark_claim release_claim
  after_send-IsReplayed r item token c acknowledged v same below =
      sent_as r c _ below (ap (λ x. x ++ (c.room_id, replayed_job r.replayed_at c) ∷ []) same)
  after_send-IsReplayed r item token c (refused e) v same below = inl same
  after_send-IsReplayed r item token c (unanswered e) v same below = inr (
    c.room_id,
    c.replay_count + 1,
    sent_as r c _ below (ap (λ x. x ++ (c.room_id, replayed_job r.replayed_at c) ∷ []) same),
    refl,
  )

  after_payload-IsReplayed :
      (r : Replay) (item : DlqItem) (token : Text) (v : World) (a : Answer Candidate)
      → v.ingress ≡ w.ingress
      → IsLimited a
      → IsReplayed (after_payload max_count r item token v a)
  unfolding after_payload release_claim
  after_payload-IsReplayed r item token v (failed f) same limited = inl same
  after_payload-IsReplayed r item token v (done c) same limited =
      after_send-IsReplayed r item token c r.send v same limited

  after_claim-IsReplayed :
      (r : Replay) (item : DlqItem) (p : Answer Text × World)
      → p.1.ingress ≡ w.ingress
      → IsReplayed (after_claim max_count r item p)
  unfolding after_claim
  after_claim-IsReplayed r item (failed f, v) same = inl same
  after_claim-IsReplayed r item (done token, v) same =
      after_payload-IsReplayed r item token v (replay_payload max_count item) same
        (replay_payload-IsLimited item)

  claim_manual_replay-ingress :
      (r : Replay) (item : DlqItem) → (claim_manual_replay max_count r item w).1.ingress ≡ w.ingress
  unfolding claim_manual_replay
  claim_manual_replay-ingress r item =
      if-result (λ (p : Answer Text × World). p.1.ingress ≡ w.ingress) item.replayable _ _
        (λ x.
          if-result (λ (p : Answer Text × World). p.1.ingress ≡ w.ingress)
            (ltb item.replay_count (replay_limit max_count)) _ _ (λ y. refl) (λ y. refl))
        (λ x. refl)

  pub replay_item-IsReplayed :
      (r : Replay) (item : DlqItem) → IsReplayed (replay_item max_count r item w)
  unfolding replay_item
  replay_item-IsReplayed r item =
      after_claim-IsReplayed r item (claim_manual_replay max_count r item w)
        (claim_manual_replay-ingress r item)
