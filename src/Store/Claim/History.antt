-- ===== src/Store/Claim/History.antt =====
-- What the transactions of other calls do to the row of a claim.
use cloud_portfolio.Prelude.{
  ℕ, ◌+◌, ◌≤◌, ◌≡◌, ◌≢◌, refl, sym, ◌∙◌, ap, subst, Bool, true, false, Option, none, some, ◌++◌,
  Text, codes, arith, text_eq, text_eq_iff, if-result, Bool-cases, ◌⊎◌, inl, inr,
}
use cloud_portfolio.Errors.{ok, >>=-eq-ok}
use cloud_portfolio.Database.Tables.{Database, IntakeKey}
use cloud_portfolio.Database.Find.{find, find-append, find-passes, find-kept, find-left}
use cloud_portfolio.Store.Status.{load_request_status}
use cloud_portfolio.Store.Claim.{
  ClaimState, is_claim, is_persisted_status, claim_row, is_expired, is_published, claim_existing,
  claim_found, claim_key, claim_if_open, claim_dlq_replay, holds_claim, mark_found, mark_key,
  mark_dlq_replay_published, release_key, release_dlq_replay_claim, dlq_replay_claim_key,
  dlq_replay_claim_value, dlq_replay_claim_lease_seconds,
}
use cloud_portfolio.Store.Claim.Lease.{claim_dlq_replay-parts}

-- One transaction: a claim of any replay at an admitted time; a mark or a release by the claimant of
-- an admitted value; or one that leaves the claims alone, as all transactions but these and the reset
-- of the demo do.
pub data Step (When : ℕ → Type 0) (By : Text → Type 0) (db : Database) : Database → Type 0 where
  claims :
      (request_id : Text) (generation : ℕ) (token : Text) (now : ℕ) {s : ClaimState}
      {db' : Database}
      → When now
      → claim_dlq_replay request_id generation token now db ≡ ok (s, db')
      → Step When By db db'
  marks :
      (request_id : Text) (generation : ℕ) (token value : Text) (now : ℕ) {took : Bool}
      {db' : Database}
      → dlq_replay_claim_value request_id token ≡ ok value
      → By value
      → mark_dlq_replay_published request_id generation token now db ≡ ok (took, db')
      → Step When By db db'
  releases :
      (request_id : Text) (generation : ℕ) (token value : Text) {db' : Database}
      → dlq_replay_claim_value request_id token ≡ ok value
      → By value
      → release_dlq_replay_claim request_id generation token db ≡ ok db'
      → Step When By db db'
  untouched : {db' : Database} → db'.intake ≡ db.intake → Step When By db db'

-- Any number of transactions, one after the other.
pub data Steps (When : ℕ → Type 0) (By : Text → Type 0) : Database → Database → Type 0 where
  stop : {db : Database} → Steps When By db db
  next :
      {db db' db'' : Database}
      → Step When By db db'
      → Steps When By db' db''
      → Steps When By db db''

is_claim-other :
    (key k value : Text) (now : ℕ)
    → text_eq k key ≡ false
    → is_claim key (claim_row k value now) ≡ false
unfolding is_claim claim_row
is_claim-other key k value now h = ground (arith, h)

mark_parts :
    (request_id token value : Text) (generation now : ℕ) (db : Database) (r : Bool × Database)
    → dlq_replay_claim_value request_id token ≡ ok value
    → mark_dlq_replay_published request_id generation token now db ≡ ok r
    → (k : Text) × (mark_key request_id k value now db ≡ r)
unfolding mark_dlq_replay_published
mark_parts request_id token value generation now db r v h =
    let (k, e, h1) = >>=-eq-ok (dlq_replay_claim_key request_id generation) _ h in
    let (value', e1, h2) = >>=-eq-ok (dlq_replay_claim_value request_id token) _ h1 in
    let same : value' ≡ value = cc in
    (k, subst (λ t. mark_key request_id k t now db ≡ r) same (ok_inj h2))
  where
    ok_inj : {a b : Bool × Database} → ok a ≡ ok b → a ≡ b
    ok_inj e = cc

release_parts :
    (request_id token value : Text) (generation : ℕ) (db db' : Database)
    → dlq_replay_claim_value request_id token ≡ ok value
    → release_dlq_replay_claim request_id generation token db ≡ ok db'
    → (k : Text) × (release_key k value db ≡ db')
unfolding release_dlq_replay_claim
release_parts request_id token value generation db db' v h =
    let (k, e, h1) = >>=-eq-ok (dlq_replay_claim_key request_id generation) _ h in
    let (value', e1, h2) = >>=-eq-ok (dlq_replay_claim_value request_id token) _ h1 in
    let same : value' ≡ value = cc in (k, subst (λ t. release_key k t db ≡ db') same (ok_inj h2))
  where
    ok_inj : {a b : Database} → ok a ≡ ok b → a ≡ b
    ok_inj e = cc

-- At most the claimant itself is left out, and claims after the lease.
abbrev pub LeaseSteps : Text → Text → ℕ → Database → Database → Type 0
LeaseSteps request_id token at =
    Steps (λ now. now ≤ at + dlq_replay_claim_lease_seconds)
      (λ value. dlq_replay_claim_value request_id token ≢ ok value)

-- All transactions on the claims but the reset of the demo.
abbrev pub LaterSteps : Database → Database → Type 0
LaterSteps = Steps (λ now. Unit {0}) (λ value. Unit {0})

-- A row is of one key.
apart :
    (key k : Text) (y : IntakeKey)
    → text_eq k key ≡ false
    → is_claim key y ≡ true
    → is_claim k y ≡ false
unfolding is_claim
apart key k y h e = elim (Bool-cases (text_eq y.idem_key k)) [
  | inl same ↦
      let own : text_eq y.idem_key key ≡ true = ground (arith, e) in
      let equal : k ≡ key =
        sym ((text_eq_iff y.idem_key k).0 same) ∙ (text_eq_iff y.idem_key key).0 own in
      cc (h, (text_eq_iff k key).1 equal)
  | inr other ↦ ground (arith, other)
]

module _ (key : Text) (row : IntakeKey) where
  abbrev pub IsFound : Database → Type 0
  IsFound db = find (is_claim key) db.intake ≡ some row

  found_row : (db : Database) → IsFound db → is_claim key row ≡ true
  found_row db h = find-passes (is_claim key) db.intake row h

  -- No claim changes the row at that time.
  abbrev pub IsFixed : ℕ → Type 0
  IsFixed now = (is_published row.request_id ≡ true) ⊎ (is_expired now row ≡ false)

  own-IsFound :
      (value token : Text) (now : ℕ) (db : Database)
      → IsFixed now
      → IsFound db
      → IsFound (claim_existing key value token now row db).1
  unfolding claim_existing
  own-IsFound value token now db fixed h =
      if-result (λ (r : ClaimState × Database). IsFound r.1) (is_published row.request_id) _ _
        (λ p. h)
        (λ p.
          if-result (λ (r : ClaimState × Database). IsFound r.1) (is_expired now row) _ _
            (λ q. elim fixed [ inl e ↦ cc (e, p) | inr e ↦ cc (e, q) ]) (λ q. h))

  other-IsFound :
      (k value token : Text) (now : ℕ) (db : Database) (o : Option IntakeKey)
      → text_eq k key ≡ false
      → IsFound db
      → IsFound (claim_found k value token now db o).1
  unfolding claim_found claim_existing
  other-IsFound k value token now db none d h =
      rw (find-append (is_claim key) db.intake (claim_row k value now), h) refl
  other-IsFound k value token now db (some r) d h =
      if-result (λ (r : ClaimState × Database). IsFound r.1) (is_published r.request_id) _ _
        (λ p. h)
        (λ p.
          if-result (λ (r : ClaimState × Database). IsFound r.1) (is_expired now r) _ _
            (λ q.
              find-kept (is_claim key) (is_claim k) (claim_row k value now) db.intake row
                (λ y e f. is_claim-other key k value now d) (apart key k row d (found_row db h)) h)
            (λ q. h))

  claim_if_open-IsFound :
      (request_id k value token : Text) (now : ℕ) (db : Database)
      → IsFixed now
      → IsFound db
      → IsFound (claim_if_open request_id k value token now db).1
  unfolding claim_if_open claim_key
  claim_if_open-IsFound request_id k value token now db fixed h =
      if-result (λ (r : ClaimState × Database). IsFound r.1)
        (is_persisted_status (load_request_status request_id db)) _ _ (λ p. h)
        (λ p. elim (Bool-cases (text_eq k key)) [
          | inl same ↦
              subst
                (λ t. IsFound (claim_found t value token now db (find (is_claim t) db.intake)).1)
                (sym ((text_eq_iff k key).0 same))
                (subst (λ o. IsFound (claim_found key value token now db o).1) (sym h)
                  (unfold claim_found in own-IsFound value token now db fixed h))
          | inr other ↦ other-IsFound k value token now db (find (is_claim k) db.intake) other h
        ])

  not_held :
      (k value : Text) → text_eq row.request_id value ≡ false → holds_claim k value row ≡ false
  unfolding holds_claim
  not_held k value d = ground (arith, d)

  comes_after :
      (k value published : Text) (now : ℕ) (y : IntakeKey)
      → holds_claim k value y ≡ true
      → is_claim key y ≡ false
      → is_claim key (claim_row k published now) ≡ false
  unfolding holds_claim
  comes_after k value published now y h fails = elim (Bool-cases (text_eq k key)) [
    | inl same ↦
        let own : is_claim k y ≡ true = ground (arith, h) in
        cc (fails, subst (λ t. is_claim t y ≡ true) ((text_eq_iff k key).0 same) own)
    | inr other ↦ is_claim-other key k published now other
  ]

  mark_key-IsFound :
      (request_id k value : Text) (now : ℕ) (db : Database)
      → text_eq row.request_id value ≡ false
      → IsFound db
      → IsFound (mark_key request_id k value now db).1
  unfolding mark_key
  mark_key-IsFound request_id k value now db d h = by_row (find (holds_claim k value) db.intake)
    where
      by_row : (o : Option IntakeKey) → IsFound (mark_found request_id k value now db o).1
      by_row none = unfold mark_found in h
      by_row (some r) =
          unfold mark_found in
          find-kept (is_claim key) (holds_claim k value)
            (claim_row k (codes "published:" ++ request_id) now) db.intake row
            (comes_after k value (codes "published:" ++ request_id) now) (not_held k value d) h

  release_key-IsFound :
      (k value : Text) (db : Database)
      → text_eq row.request_id value ≡ false
      → IsFound db
      → IsFound (release_key k value db)
  unfolding release_key
  release_key-IsFound k value db d h =
      find-left (is_claim key) (holds_claim k value) db.intake row (not_held k value d) h

  module _ (When : ℕ → Type 0) (By : Text → Type 0) (fixed : (now : ℕ) → When now → IsFixed now)
      (others : (request_id token value : Text)
        → dlq_replay_claim_value request_id token ≡ ok value
        → By value
        → text_eq row.request_id value ≡ false) where
    Step-IsFound : {db db' : Database} → Step When By db db' → IsFound db → IsFound db'
    Step-IsFound {db} {db'} (claims request_id generation token now {s = s} when e) h =
        let (k, value, ke, v, r) =
          claim_dlq_replay-parts request_id token generation now db (s, db') e in
        subst (λ (q : ClaimState × Database). IsFound q.1) r
          (claim_if_open-IsFound request_id k value token now db (fixed now when) h)
    Step-IsFound {db} {db'} (marks request_id generation token value now {took = took} v by e) h =
        let (k, r) = mark_parts request_id token value generation now db (took, db') v e in
        subst (λ (q : Bool × Database). IsFound q.1) r
          (mark_key-IsFound request_id k value now db (others request_id token value v by) h)
    Step-IsFound {db} {db'} (releases request_id generation token value v by e) h =
        let (k, r) = release_parts request_id token value generation db db' v e in
        subst IsFound r (release_key-IsFound k value db (others request_id token value v by) h)
    Step-IsFound (untouched e) h = ap (find (is_claim key)) e ∙ h

    -- No such transactions change the row.
    pub Steps-IsFound : {db db' : Database} → Steps When By db db' → IsFound db → IsFound db'
    Steps-IsFound stop h = h
    Steps-IsFound (next step rest) h = Steps-IsFound rest (Step-IsFound step h)
