-- ===== src/Api/Dlq/Manual/Final.antt =====
-- What a manual replay leaves of its claim.
use cloud_portfolio.Prelude.{ℕ, ◌≡◌, refl, ap, ◌∙◌, subst, Bool, ltb, Text, ◌⊎◌, if-result}
use cloud_portfolio.Errors.{Result, ok, err}
use cloud_portfolio.Json.{Fields}
use cloud_portfolio.Database.Tables.{Database}
use cloud_portfolio.Database.Session.{healthy, in_transaction, in_transaction-ok, finish}
use cloud_portfolio.Store.Claim.{
  ClaimState, claimed, persisted, published, in_progress, claim_dlq_replay,
  mark_dlq_replay_published,
}
use cloud_portfolio.Store.Claim.History.{LaterSteps, stop}
use cloud_portfolio.Store.Claim.Lease.{claim_dlq_replay-token}
use cloud_portfolio.Store.Claim.Published.{
  mark_dlq_replay_published-IsFinal, mark_dlq_replay_published-returns,
}
use cloud_portfolio.Worker.Outbox.{Send, acknowledged, refused, unanswered}
use cloud_portfolio.Worker.World.{World}
use cloud_portfolio.Worker.Replayer.{Candidate, Replay, claim_tx, mark_tx, kept, replayed_job}
use cloud_portfolio.Api.Answer.{Answer, done, failed, publish_ingress_job}
use cloud_portfolio.Api.Dlq.Item.{DlqItem}
use cloud_portfolio.Api.Dlq.Manual.{
  Replayed, replay_limit, subject, claim_answer, claim_manual_replay, mark_claim, release_claim,
  after_send, after_payload, after_claim, replay_payload, replay_item,
}

kept-ok :
    {A : Type 0} (db db' : Database) (a : A) (x : Result (A × Database))
    → kept db x ≡ (ok a, db')
    → x ≡ ok (a, db')
unfolding kept
kept-ok db db' a (ok (b, d)) h = cc
kept-ok db db' a (err e) h = cc

-- The claim that lets a manual replay go on has been given by `claim_dlq_replay`.
pub claim_tx-claimed :
    (r : Replay) (c : Candidate) (db db' : Database) (s : ClaimState)
    → in_transaction r.claim_fault (claim_tx r c) db ≡ (ok s, db')
    → claim_dlq_replay c.request_id c.replay_count r.token r.claimed_at db ≡ ok (s, db')
claim_tx-claimed r c db db' s h =
    kept-ok db db' s (claim_dlq_replay c.request_id c.replay_count r.token r.claimed_at db)
      (unfold claim_tx in in_transaction-ok r.claim_fault (claim_tx r c) db db' s h)

-- A call that sends nothing and is not answered with a replay.
abbrev pub IsRefused : World → Answer Replayed × World → Type 0
IsRefused w (done x, w') = ⊥
IsRefused w (failed f, w') = w'.ingress ≡ w.ingress

module _ (max_count : ℕ) (r : Replay) (item : DlqItem) where
  claim_answer-done :
      (s : Result ClaimState) (token : Text)
      → claim_answer max_count s ≡ done token
      → s ≡ ok (claimed token)
  unfolding claim_answer
  claim_answer-done (err e) token h = cc
  claim_answer-done (ok persisted) token h = cc
  claim_answer-done (ok published) token h = cc
  claim_answer-done (ok in_progress) token h = cc
  claim_answer-done (ok (claimed t)) token h = cc

  -- What an answer that goes on says of the claim.
  abbrev IsClaimed : World → Answer Text × World → Type 0
  IsClaimed w (failed f, w') = Unit
  IsClaimed w (done token, w') =
      in_transaction r.claim_fault (claim_tx r (subject max_count item)) w.database
      ≡ (ok (claimed token), w'.database)

  claim_answer-IsClaimed :
      (w : World) (q : Result ClaimState × Database)
      → in_transaction r.claim_fault (claim_tx r (subject max_count item)) w.database ≡ q
      → IsClaimed w (claim_answer max_count q.0, record w { database = q.1 })
  unfolding claim_answer
  claim_answer-IsClaimed w (err e, db) h = tt
  claim_answer-IsClaimed w (ok persisted, db) h = tt
  claim_answer-IsClaimed w (ok published, db) h = tt
  claim_answer-IsClaimed w (ok in_progress, db) h = tt
  claim_answer-IsClaimed w (ok (claimed t), db) h = h

  claim_manual_replay-IsClaimed : (w : World) → IsClaimed w (claim_manual_replay max_count r item w)
  unfolding claim_manual_replay
  claim_manual_replay-IsClaimed w =
      if-result (IsClaimed w) item.replayable _ _
        (λ x.
          if-result (IsClaimed w) (ltb item.replay_count (replay_limit max_count)) _ _
            (λ y. claim_answer-IsClaimed w _ refl) (λ y. tt))
        (λ x. tt)

  -- A replay that is answered has been claimed, and its claim is what the mark starts from.
  abbrev IsMarked : World → Answer Replayed × World → Type 0
  IsMarked w (failed f, w') = Unit
  IsMarked w (done x, w') =
      (token : Text) × (db : Database) × (in_transaction r.claim_fault
          (claim_tx r (subject max_count item)) w.database
        ≡ (ok (claimed token), db))
      × (w'.database
          ≡ (in_transaction r.mark_fault (mark_tx r (subject max_count item) token) db).1)

  after_send-IsMarked :
      (w v : World) (token : Text) (c : Candidate) (job : Fields) (send : Send)
      → IsClaimed w (done token, v)
      → IsMarked w (after_send max_count r item token c (publish_ingress_job send c.room_id job v))
  unfolding after_send publish_ingress_job mark_claim release_claim
  after_send-IsMarked w v token c job acknowledged h = (token, v.database, h, refl)
  after_send-IsMarked w v token c job (refused e) h = tt
  after_send-IsMarked w v token c job (unanswered e) h = tt

  after_payload-IsMarked :
      (w v : World) (token : Text) (a : Answer Candidate)
      → IsClaimed w (done token, v)
      → IsMarked w (after_payload max_count r item token v a)
  unfolding after_payload release_claim
  after_payload-IsMarked w v token (failed f) h = tt
  after_payload-IsMarked w v token (done c) h =
      after_send-IsMarked w v token c (replayed_job r.replayed_at c) r.send h

  after_claim-IsMarked :
      (w : World) (p : Answer Text × World)
      → IsClaimed w p
      → IsMarked w (after_claim max_count r item p)
  unfolding after_claim
  after_claim-IsMarked w (failed f, v) h = tt
  after_claim-IsMarked w (done token, v) h =
      after_payload-IsMarked w v token (replay_payload max_count item) h

  replay_item-IsMarked : (w : World) → IsMarked w (replay_item max_count r item w)
  unfolding replay_item
  replay_item-IsMarked w =
      after_claim-IsMarked w (claim_manual_replay max_count r item w)
        (claim_manual_replay-IsClaimed w)

  marked_by :
      (took : Bool) (token : Text) (db db'' : Database)
      → mark_dlq_replay_published
          (subject max_count item).request_id
          item.replay_count
          token
          r.marked_at
          db
        ≡ ok (took, db'')
      → (in_transaction healthy (mark_tx r (subject max_count item) token) db).1 ≡ db''
  unfolding mark_tx in_transaction subject finish kept
  marked_by took token db db'' e = ap (λ m. (finish db (kept db m)).1) e

  -- Once a manual replay is answered and its mark has been stored, `claim_dlq_replay` says of the same
  -- request and count, after any transactions but the reset, whenever and with whatever token it is
  -- called, that the event is persisted or published, and changes nothing.
  pub replay_item-IsFinal :
      (w w' : World) (x : Replayed) (later : Database) (second : Text) (now : ℕ)
      (res : ClaimState × Database)
      → replay_item max_count r item w ≡ (done x, w')
      → r.mark_fault ≡ healthy
      → LaterSteps w'.database later
      → claim_dlq_replay (subject max_count item).request_id item.replay_count second now later
        ≡ ok res
      → (res ≡ (persisted, later)) ⊎ (res ≡ (published, later))
  unfolding subject
  replay_item-IsFinal w w' x later second now res h quiet steps e =
      let request_id = (subject max_count item).request_id in
      let (token, db, given, marked) = subst (IsMarked w) h (replay_item-IsMarked w) in
      let claim = claim_tx-claimed r (subject max_count item) w.database db (claimed token) given in
      let own : token ≡ r.token =
        claim_dlq_replay-token request_id r.token token item.replay_count r.claimed_at w.database db
          claim in
      let (took, db'', returns) =
        mark_dlq_replay_published-returns request_id r.token item.replay_count r.claimed_at
          r.marked_at w.database db (claimed token, db) claim in
      let after : w'.database ≡ db'' =
        marked
        ∙ ap (λ f. (in_transaction f (mark_tx r (subject max_count item) token) db).1) quiet
        ∙ ap (λ t. (in_transaction healthy (mark_tx r (subject max_count item) t) db).1) own
        ∙ marked_by took r.token db db'' returns in
      (mark_dlq_replay_published-IsFinal request_id item.replay_count r.token second token
        r.claimed_at r.marked_at now w.database db db db'' later res took claim stop returns
        (subst (λ (d : Database). LaterSteps d later) after steps) e).1
