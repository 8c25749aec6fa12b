-- ===== src/Store/Claim/Lease.antt =====
-- What one replayer's claim means to the others: it excludes them while its lease lasts, and a replay
-- that is marked as published stays so.
use cloud_portfolio.Prelude.{
  ℕ, ◌+◌, ◌≤◌, ◌≡◌, refl, sym, subst, true, false, Option, none, some, ◌++◌, Text, codes, arith,
  text_eq_refl, if-result, if-false,
}
use cloud_portfolio.Errors.{Result, ok, >>=-eq-ok}
use cloud_portfolio.Database.Tables.{Database, IntakeKey}
use cloud_portfolio.Database.Find.{find, find-append, find-replaced}
use cloud_portfolio.Store.Status.{load_request_status}
use cloud_portfolio.Store.Claim.{
  ClaimState, claimed, persisted, published, in_progress, dlq_replay_claim_lease_seconds, is_claim,
  is_persisted_status, claim_row, is_expired, is_published, claim_existing, claim_found, claim_key,
  claim_if_open, claim_dlq_replay, dlq_replay_claim_key, validate_claim_token,
  dlq_replay_claim_value,
}

-- The row of a key: who holds the claim, and since when.
abbrev pub IsHeld : Text → Text → ℕ → Database → Type 0
IsHeld key value at db = find (is_claim key) db.intake ≡ some (claim_row key value at)

pub is_claim-row : (key value : Text) (at : ℕ) → is_claim key (claim_row key value at) ≡ true
unfolding is_claim claim_row
is_claim-row key value at = text_eq_refl key

-- A call that gives the claim leaves a row of its token and its time; any other leaves the database as it was.
abbrev IsGranted : Text → Text → ℕ → Database → ClaimState × Database → Type 0
IsGranted key value now db (claimed token, db') = IsHeld key value now db'
IsGranted key value now db (persisted, db') = db' ≡ db
IsGranted key value now db (published, db') = db' ≡ db
IsGranted key value now db (in_progress, db') = db' ≡ db

claim_existing-IsGranted :
    (key value token : Text) (now : ℕ) (row : IntakeKey) (db : Database)
    → find (is_claim key) db.intake ≡ some row
    → IsGranted key value now db (claim_existing key value token now row db)
unfolding claim_existing
claim_existing-IsGranted key value token now row db e =
    if-result (IsGranted key value now db) (is_published row.request_id) _ _ (λ p. refl)
      (λ p.
        if-result (IsGranted key value now db) (is_expired now row) _ _
          (λ x.
            find-replaced (is_claim key) (claim_row key value now) db.intake row
              (is_claim-row key value now) e)
          (λ x. refl))

claim_found-IsGranted :
    (key value token : Text) (now : ℕ) (db : Database) (o : Option IntakeKey)
    → find (is_claim key) db.intake ≡ o
    → IsGranted key value now db (claim_found key value token now db o)
unfolding claim_found
claim_found-IsGranted key value token now db none e =
    rw
      (
        find-append (is_claim key) db.intake (claim_row key value now),
        e,
        is_claim-row key value now,
      )
      refl
claim_found-IsGranted key value token now db (some row) e =
    claim_existing-IsGranted key value token now row db e

-- What `claim_if_open` leaves of a claim that it gives.
abbrev pub IsOpen : Text → Text → Text → ℕ → ClaimState × Database → Type 0
IsOpen request_id key value now (claimed token, db') = IsHeld key value now db'
IsOpen request_id key value now _ = Unit

IsGranted-IsOpen :
    (request_id key value : Text) (now : ℕ) (db : Database) (r : ClaimState × Database)
    → is_persisted_status (load_request_status request_id db) ≡ false
    → IsGranted key value now db r
    → IsOpen request_id key value now r
IsGranted-IsOpen request_id key value now db (claimed token, db') not_yet g = g
IsGranted-IsOpen request_id key value now db (persisted, db') not_yet g = tt
IsGranted-IsOpen request_id key value now db (published, db') not_yet g = tt
IsGranted-IsOpen request_id key value now db (in_progress, db') not_yet g = tt

pub claim_if_open-IsOpen :
    (request_id key value token : Text) (now : ℕ) (db : Database)
    → IsOpen request_id key value now (claim_if_open request_id key value token now db)
unfolding claim_if_open claim_key
claim_if_open-IsOpen request_id key value token now db =
    if-result (IsOpen request_id key value now)
      (is_persisted_status (load_request_status request_id db)) _ _ (λ p. tt)
      (λ p.
        IsGranted-IsOpen request_id key value now db _ p
          (claim_found-IsGranted key value token now db (find (is_claim key) db.intake) refl))

pub not_expired :
    (key value : Text) (at now : ℕ)
    → now ≤ at + dlq_replay_claim_lease_seconds
    → is_expired now (claim_row key value at) ≡ false
unfolding is_expired claim_row
not_expired key value at now lease = ground arith

pub claim_existing-leased :
    (key rest value token : Text) (at now : ℕ) (db : Database)
    → now ≤ at + dlq_replay_claim_lease_seconds
    → claim_existing key value token now (claim_row key (codes "claimed:" ++ rest) at) db
      ≡ (in_progress, db)
unfolding claim_existing claim_row is_published
claim_existing-leased key rest value token at now db lease =
    if-false _ _ _ (unfold claim_row in not_expired key (codes "claimed:" ++ rest) at now lease)

-- The value of a claim has the prefix of claims.
pub claim_value-form :
    (request_id token value : Text)
    → dlq_replay_claim_value request_id token ≡ ok value
    → (rest : Text) × (value ≡ codes "claimed:" ++ rest)
unfolding dlq_replay_claim_value
claim_value-form request_id token value h =
    let (u, e, h1) = >>=-eq-ok (validate_claim_token request_id token) _ h in
    (token ++ (codes ":" ++ request_id), sym (ok_inj h1))
  where
    ok_inj : {a b : Text} → ok a ≡ ok b → a ≡ b
    ok_inj e = cc

pub claim_dlq_replay-parts :
    (request_id token : Text) (generation now : ℕ) (db : Database) (r : ClaimState × Database)
    → claim_dlq_replay request_id generation token now db ≡ ok r
    → (key : Text) × (value : Text) × (dlq_replay_claim_key request_id generation ≡ ok key)
      × (dlq_replay_claim_value request_id token ≡ ok value)
      × (claim_if_open request_id key value token now db ≡ r)
unfolding claim_dlq_replay
claim_dlq_replay-parts request_id token generation now db r h =
    let (key, e, h1) = >>=-eq-ok (dlq_replay_claim_key request_id generation) _ h in
    let (value, e1, h2) = >>=-eq-ok (dlq_replay_claim_value request_id token) _ h1 in
    (key, value, e, e1, ok_inj h2)
  where
    ok_inj : {a b : ClaimState × Database} → ok a ≡ ok b → a ≡ b
    ok_inj e = cc

pub same_key : (a b : Text) (r : Result Text) → r ≡ ok a → r ≡ ok b → b ≡ a
same_key a b r h k = cc

-- A claim is given under the token of the call.
abbrev NamesToken : Text → ClaimState × Database → Type 0
NamesToken token (claimed given, db') = given ≡ token
NamesToken token _ = Unit

claim_found-token :
    (key value token : Text) (now : ℕ) (db : Database) (o : Option IntakeKey)
    → NamesToken token (claim_found key value token now db o)
unfolding claim_found claim_existing
claim_found-token key value token now db none = refl
claim_found-token key value token now db (some row) =
    if-result (NamesToken token) (is_published row.request_id) _ _ (λ p. tt)
      (λ p. if-result (NamesToken token) (is_expired now row) _ _ (λ x. refl) (λ x. tt))

pub claim_dlq_replay-token :
    (request_id token given : Text) (generation now : ℕ) (db db' : Database)
    → claim_dlq_replay request_id generation token now db ≡ ok (claimed given, db')
    → given ≡ token
claim_dlq_replay-token request_id token given generation now db db' h =
    let (key, value, k, v, e) = claim_dlq_replay-parts request_id token generation now db _ h in
    subst (NamesToken token) e (
      unfold claim_if_open in
      unfold claim_key in
      if-result (NamesToken token) (is_persisted_status (load_request_status request_id db)) _ _
        (λ p. tt) (λ p. claim_found-token key value token now db (find (is_claim key) db.intake)))
