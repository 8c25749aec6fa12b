-- ===== src/Store/Claim/Exclusive.antt =====
-- A claim that is given excludes the others while its lease lasts.
use cloud_portfolio.Prelude.{
  ℕ, ◌+◌, ◌≤◌, ◌≡◌, ◌≢◌, refl, sym, ◌∙◌, ap, subst, ◌++◌, Text, codes, text_eq, text_eq_iff,
  if-result, Bool-cases, ◌⊎◌, inl, inr,
}
use cloud_portfolio.Errors.{ok}
use cloud_portfolio.Database.Tables.{Database}
use cloud_portfolio.Store.Status.{load_request_status}
use cloud_portfolio.Store.Claim.{
  ClaimState, claimed, persisted, in_progress, dlq_replay_claim_lease_seconds, claim_row,
  is_persisted_status, claim_found, claim_key, claim_if_open, claim_dlq_replay,
  dlq_replay_claim_key, dlq_replay_claim_value,
}
use cloud_portfolio.Store.Claim.Lease.{
  IsHeld, IsOpen, claim_if_open-IsOpen, not_expired, claim_existing-leased, claim_value-form,
  claim_dlq_replay-parts, same_key,
}
use cloud_portfolio.Store.Claim.History.{LeaseSteps, Steps-IsFound}

-- While the lease lasts, the transactions of others leave the row of a claim.
pub lease-IsHeld :
    (request_id token key value : Text) (at : ℕ) (db db' : Database)
    → dlq_replay_claim_value request_id token ≡ ok value
    → LeaseSteps request_id token at db db'
    → IsHeld key value at db
    → IsHeld key value at db'
lease-IsHeld request_id token key value at db db' v steps held =
    Steps-IsFound key (claim_row key value at) (λ now. now ≤ at + dlq_replay_claim_lease_seconds)
      (λ w. dlq_replay_claim_value request_id token ≢ ok w)
      (λ now lease. inr (not_expired key value at now lease))
      (λ r t w e by. elim (Bool-cases (text_eq (claim_row key value at).request_id w)) [
        | inl same ↦ absurd (by (v ∙ ap ok ((text_eq_iff value w).0 (unfold claim_row in same))))
        | inr other ↦ other
      ])
      steps held

abbrev IsDenied : Database → ClaimState × Database → Type 0
IsDenied db r = (r ≡ (in_progress, db)) ⊎ (r ≡ (persisted, db))

-- Where a row of the key is held under a lease that lasts, nobody gets the claim.
claim_if_open-IsDenied :
    (request_id key rest value token : Text) (at now : ℕ) (db : Database)
    → IsHeld key (codes "claimed:" ++ rest) at db
    → now ≤ at + dlq_replay_claim_lease_seconds
    → IsDenied db (claim_if_open request_id key value token now db)
unfolding claim_if_open claim_key
claim_if_open-IsDenied request_id key rest value token at now db held lease =
    if-result (IsDenied db) (is_persisted_status (load_request_status request_id db)) _ _
      (λ p. inr refl)
      (λ p. inl (
        ap (claim_found key value token now db) held
        ∙ unfold claim_found in claim_existing-leased key rest value token at now db lease))

-- Let `claim_dlq_replay` have given the claim on a replay. After any transactions but a mark or a release
-- by that claimant, and but the reset of the demo, every call for the same replay that returns within
-- the lease of thirty seconds, with whatever token, says that it is in progress or that the event is
-- persisted, and changes nothing.
pub claim_dlq_replay-Excludes :
    (request_id : Text) (generation : ℕ) (first second given : Text) (at now : ℕ)
    (db db' db'' : Database) (r : ClaimState × Database)
    → claim_dlq_replay request_id generation first at db ≡ ok (claimed given, db')
    → LeaseSteps request_id first at db' db''
    → now ≤ at + dlq_replay_claim_lease_seconds
    → claim_dlq_replay request_id generation second now db'' ≡ ok r
    → (r ≡ (in_progress, db'')) ⊎ (r ≡ (persisted, db''))
claim_dlq_replay-Excludes request_id generation first second given at now db db' db'' r h steps
      lease h' =
    let (key, value, k, v, e) = claim_dlq_replay-parts request_id first generation at db _ h in
    let (key', value', k', v', e') =
      claim_dlq_replay-parts request_id second generation now db'' r h' in
    let (rest, form) = claim_value-form request_id first value v in
    let held : IsOpen request_id key value at (claimed given, db') =
      subst (IsOpen request_id key value at) e
        (claim_if_open-IsOpen request_id key value first at db) in
    let later : IsHeld key value at db'' =
      lease-IsHeld request_id first key value at db' db'' v steps held in
    let same : key' ≡ key = same_key key key' (dlq_replay_claim_key request_id generation) k k' in
    subst (IsDenied db'') e' (
      subst (λ t. IsDenied db'' (claim_if_open request_id t value' second now db'')) (sym same)
        (claim_if_open-IsDenied request_id key rest value' second at now db''
          (subst (λ t. IsHeld key t at db'') form later) lease))
