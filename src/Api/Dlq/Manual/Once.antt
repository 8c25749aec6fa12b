-- ===== src/Api/Dlq/Manual/Once.antt =====
-- After a manual replay: later calls for the same item.
use cloud_portfolio.Prelude.{ℕ, ◌≡◌, refl, ap, ltb, Text, ◌⊎◌, inl, inr, if-result}
use cloud_portfolio.Errors.{Result, ok, err}
use cloud_portfolio.Database.Tables.{Database}
use cloud_portfolio.Database.Session.{healthy, in_transaction}
use cloud_portfolio.Store.Claim.{
  ClaimState, claimed, persisted, published, in_progress, claim_dlq_replay,
}
use cloud_portfolio.Worker.World.{World}
use cloud_portfolio.Worker.Replayer.{Replay, claim_tx}
use cloud_portfolio.Store.Claim.History.{LaterSteps}
use cloud_portfolio.Api.Answer.{Answer, done, failed}
use cloud_portfolio.Api.Dlq.Item.{DlqItem}
use cloud_portfolio.Api.Dlq.Manual.{
  Replayed, replay_limit, subject, claim_answer, claim_manual_replay, after_claim, replay_item,
}
use cloud_portfolio.Api.Dlq.Manual.Final.{IsRefused, claim_tx-claimed, replay_item-IsFinal}

module _ (max_count : ℕ) (r : Replay) (item : DlqItem) where
  abbrev IsClosed : World → Answer Text × World → Type 0
  IsClosed w (done t, w') = ⊥
  IsClosed w (failed f, w') = w'.ingress ≡ w.ingress

  after_claim-IsRefused :
      (w : World) (p : Answer Text × World)
      → IsClosed w p
      → IsRefused w (after_claim max_count r item p)
  unfolding after_claim
  after_claim-IsRefused w (failed f, v) h = h
  after_claim-IsRefused w (done token, v) h = absurd h

  -- Where every claim says that the event is persisted or published, the claim is not given.
  claim_answer-IsClosed :
      (w : World) (q : Result ClaimState × Database)
      → ((s : ClaimState) → q.0 ≡ ok s → (s ≡ persisted) ⊎ (s ≡ published))
      → IsClosed w (claim_answer max_count q.0, record w { database = q.1 })
  unfolding claim_answer
  claim_answer-IsClosed w (err e, db) h = refl
  claim_answer-IsClosed w (ok persisted, db) h = refl
  claim_answer-IsClosed w (ok published, db) h = refl
  claim_answer-IsClosed w (ok in_progress, db) h = refl
  claim_answer-IsClosed w (ok (claimed t), db) h = elim (h (claimed t) refl) [
    | inl e ↦ cc
    | inr e ↦ cc
  ]

  claim_manual_replay-IsClosed :
      (w : World)
      → ((res : ClaimState × Database)
          → claim_dlq_replay
              (subject max_count item).request_id
              item.replay_count
              r.token
              r.claimed_at
              w.database
            ≡ ok res
          → (res ≡ (persisted, w.database)) ⊎ (res ≡ (published, w.database)))
      → IsClosed w (claim_manual_replay max_count r item w)
  unfolding claim_manual_replay
  claim_manual_replay-IsClosed w over =
      let q = in_transaction r.claim_fault (claim_tx r (subject max_count item)) w.database in
      if-result (IsClosed w) item.replayable _ _
        (λ x.
          if-result (IsClosed w) (ltb item.replay_count (replay_limit max_count)) _ _
            (λ y. claim_answer-IsClosed w q (λ s e. decided s q.1 (
              over (s, q.1)
                (unfold subject in
                  claim_tx-claimed r (subject max_count item) w.database q.1 s
                    (ap (λ t. (t, q.1)) e)))))
            (λ y. refl))
        (λ x. refl)
    where
      decided :
          (s : ClaimState) (db : Database)
          → (◌≡◌ {A = ClaimState × Database} (s, db) (persisted, w.database))
            ⊎ (◌≡◌ {A = ClaimState × Database} (s, db) (published, w.database))
          → (s ≡ persisted) ⊎ (s ≡ published)
      decided s db (inl e) = inl (ap (λ p. p.0) e)
      decided s db (inr e) = inr (ap (λ p. p.0) e)

-- Once a manual replay of an item is answered and its mark has been stored, no later call for the item
-- sends anything, unless the claims have been reset in between.
pub replay_item-once :
    (max_count : ℕ) (first second : Replay) (item : DlqItem) (w w' later : World) (x : Replayed)
    → replay_item max_count first item w ≡ (done x, w')
    → first.mark_fault ≡ healthy
    → LaterSteps w'.database later.database
    → IsRefused later (replay_item max_count second item later)
unfolding replay_item
replay_item-once max_count first second item w w' later x h quiet steps =
    after_claim-IsRefused max_count second item later
      (claim_manual_replay max_count second item later)
      (claim_manual_replay-IsClosed max_count second item later (λ res e.
        replay_item-IsFinal max_count first item w w' x later.database second.token
          second.claimed_at res (unfold replay_item in h) quiet steps e))
