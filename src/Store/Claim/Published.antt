-- ===== src/Store/Claim/Published.antt =====
-- A replay that its claimant marks as published is not given to anyone again.
use cloud_portfolio.Prelude.{
  ℕ, ◌≡◌, refl, sym, ◌∙◌, ap, subst, Bool, true, false, some, List, [], ◌∷◌, ◌++◌, Text, codes,
  arith, text_eq, text_eq_refl, if-result, Bool-cases, ◌⊎◌, inl, inr,
}
use cloud_portfolio.Errors.{Result, ok}
use cloud_portfolio.Database.Tables.{Database, IntakeKey}
use cloud_portfolio.Database.Find.{find, update_where}
use cloud_portfolio.Store.Status.{load_request_status}
use cloud_portfolio.Store.Claim.{
  ClaimState, claimed, persisted, published, is_claim, is_persisted_status, claim_row, is_published,
  claim_existing, claim_found, claim_key, claim_if_open, claim_dlq_replay, holds_claim, mark_found,
  mark_key, mark_dlq_replay_published, dlq_replay_claim_key, dlq_replay_claim_value,
}
use cloud_portfolio.Store.Claim.History.{LeaseSteps, LaterSteps, Steps-IsFound}
use cloud_portfolio.Store.Claim.Exclusive.{lease-IsHeld}
use cloud_portfolio.Store.Claim.Lease.{
  claim_value-form, IsHeld, IsOpen, claim_dlq_replay-parts, same_key, claim_if_open-IsOpen,
  is_claim-row,
}

module _ {ℓ} {A : Type ℓ} where
  -- A row that passes a narrower test, found by the wider one, is found by the narrower.
  find-narrower :
      (p q : A → Bool) (xs : List A) (x : A)
      → find p xs ≡ some x
      → q x ≡ true
      → (y : A) × (find q xs ≡ some y)
  unfolding find
  find-narrower p q [] x e h = cc
  find-narrower p q (y ∷ ys) x e h = elim (Bool-cases (q y)) [
    | inl passes ↦ (y, rw passes refl)
    | inr fails ↦
        let (z, f) = find-narrower p q ys x (ground (arith, e, h, fails)) h in (z, rw fails f)
  ]

  -- Where the found row is replaced, by a test that is narrower, its replacement is found.
  find-updated :
      (p q : A → Bool) (row : A) (xs : List A) (x : A)
      → ((y : A) → q y ≡ true → p y ≡ true)
      → p row ≡ true
      → find p xs ≡ some x
      → q x ≡ true
      → find p (update_where q (λ r. row) xs) ≡ some row
  unfolding find update_where
  find-updated p q row [] x n h e k = cc
  find-updated p q row (y ∷ ys) x n h e k = elim (Bool-cases (q y)) [
    | inl passes ↦ rw (passes, h) refl
    | inr fails ↦
        rw (fails, wide fails) (find-updated p q row ys x n h (ground (arith, e, k, fails)) k)
  ]
    where
      wide : q y ≡ false → p y ≡ false
      wide fails = ground (arith, e, k, fails)

holds_claim-wide :
    (key value : Text) (y : IntakeKey) → holds_claim key value y ≡ true → is_claim key y ≡ true
unfolding holds_claim
holds_claim-wide key value y h = ground (arith, h)

holds_claim-row :
    (key value : Text) (at : ℕ) → holds_claim key value (claim_row key value at) ≡ true
unfolding holds_claim
holds_claim-row key value at =
    let own : text_eq (claim_row key value at).request_id value ≡ true =
      unfold claim_row in text_eq_refl value in
    ground (arith, is_claim-row key value at, own)

-- The claimant's mark takes effect, and leaves a row that counts as published.
mark_found-IsHeld :
    (request_id key value : Text) (at now : ℕ) (db : Database) (row : IntakeKey)
    → IsHeld key value at db
    → ((mark_found request_id key value now db (some row)).0 ≡ true)
      × IsHeld key
          (codes "published:" ++ request_id)
          now
          (mark_found request_id key value now db (some row)).1
unfolding mark_found
mark_found-IsHeld request_id key value at now db row held = (
  refl,
  find-updated (is_claim key) (holds_claim key value)
      (claim_row key (codes "published:" ++ request_id) now) db.intake (claim_row key value at)
      (holds_claim-wide key value) (is_claim-row key (codes "published:" ++ request_id) now) held
      (holds_claim-row key value at),
)

mark_key-IsHeld :
    (request_id key value : Text) (at now : ℕ) (db : Database)
    → IsHeld key value at db
    → (db' : Database) × (mark_key request_id key value now db ≡ (true, db'))
      × IsHeld key (codes "published:" ++ request_id) now db'
unfolding mark_key
mark_key-IsHeld request_id key value at now db held =
    let (row, found) =
      find-narrower (is_claim key) (holds_claim key value) db.intake (claim_row key value at) held
        (holds_claim-row key value at) in
    let marked = mark_found request_id key value now db (some row) in
    let (took, left) = mark_found-IsHeld request_id key value at now db row held in
    (
      marked.1,
      ap (mark_found request_id key value now db) found ∙ ap (λ b. (b, marked.1)) took,
      left,
    )

-- Nobody gets a claim whose row counts as published.
abbrev IsOver : Database → ClaimState × Database → Type 0
IsOver db r = (r ≡ (persisted, db)) ⊎ (r ≡ (published, db))

claim_existing-IsOver :
    (request_id key value token : Text) (at now : ℕ) (db : Database)
    → claim_existing key value token now (claim_row key (codes "published:" ++ request_id) at) db
      ≡ (published, db)
unfolding claim_existing claim_row is_published
claim_existing-IsOver request_id key value token at now db = refl

claim_if_open-IsOver :
    (request_id key value token : Text) (at now : ℕ) (db : Database)
    → IsHeld key (codes "published:" ++ request_id) at db
    → IsOver db (claim_if_open request_id key value token now db)
unfolding claim_if_open claim_key
claim_if_open-IsOver request_id key value token at now db held =
    if-result (IsOver db) (is_persisted_status (load_request_status request_id db)) _ _
      (λ p. inl refl)
      (λ p. inr (
        ap (claim_found key value token now db) held
        ∙ unfold claim_found in claim_existing-IsOver request_id key value token at now db))

mark_parts :
    (request_id token key value : Text) (generation now : ℕ) (db : Database)
    → dlq_replay_claim_key request_id generation ≡ ok key
    → dlq_replay_claim_value request_id token ≡ ok value
    → mark_dlq_replay_published request_id generation token now db
      ≡ ok (mark_key request_id key value now db)
unfolding mark_dlq_replay_published
mark_parts request_id token key value generation now db k v = rw (k, v) refl

ok_pair :
    (a b : Bool) (d e : Database)
    → ◌≡◌ {A = Result (Bool × Database)} (ok (a, d)) (ok (b, e))
    → (a ≡ b) × (d ≡ e)
ok_pair a b d e h = (cc, cc)

-- No transaction but the reset takes away a row that counts as published.
later-IsHeld :
    (request_id key : Text) (at : ℕ) (db db' : Database)
    → LaterSteps db db'
    → IsHeld key (codes "published:" ++ request_id) at db
    → IsHeld key (codes "published:" ++ request_id) at db'
later-IsHeld request_id key at db db' steps held =
    Steps-IsFound key (claim_row key (codes "published:" ++ request_id) at) (λ now. Unit {0})
      (λ value. Unit {0}) (λ now u. inl (unfold claim_row in unfold is_published in refl))
      (λ r t w e by.
        let (rest, form) = claim_value-form r t w e in
        subst
          (λ x. text_eq (claim_row key (codes "published:" ++ request_id) at).request_id x ≡ false)
          (sym form) (unfold claim_row in unfold text_eq in refl))
      steps held

-- Let a replayer have been given the claim on a replay, and mark it as published, after any transactions
-- within its lease but the reset of the demo and a mark or a release of its own. Then the mark takes
-- effect, and after any further transactions but the reset every call of `claim_dlq_replay` for the
-- replay that returns, at whatever time and with whatever token, says that the event is persisted or
-- published, and changes nothing.
pub mark_dlq_replay_published-IsFinal :
    (request_id : Text) (generation : ℕ) (first second given : Text) (at marked now : ℕ)
    (db db1 db2 db3 db4 : Database) (r : ClaimState × Database) (took : Bool)
    → claim_dlq_replay request_id generation first at db ≡ ok (claimed given, db1)
    → LeaseSteps request_id first at db1 db2
    → mark_dlq_replay_published request_id generation first marked db2 ≡ ok (took, db3)
    → LaterSteps db3 db4
    → claim_dlq_replay request_id generation second now db4 ≡ ok r
    → (took ≡ true) × ((r ≡ (persisted, db4)) ⊎ (r ≡ (published, db4)))
mark_dlq_replay_published-IsFinal request_id generation first second given at marked now db db1 db2
      db3 db4 r took h lease m later h' =
    let (key, value, k, v, e) = claim_dlq_replay-parts request_id first generation at db _ h in
    let (key', value', k', v', e') =
      claim_dlq_replay-parts request_id second generation now db4 r h' in
    let open_claim : IsOpen request_id key value at (claimed given, db1) =
      subst (IsOpen request_id key value at) e
        (claim_if_open-IsOpen request_id key value first at db) in
    let held : IsHeld key value at db2 =
      lease-IsHeld request_id first key value at db1 db2 v lease open_claim in
    let same : key' ≡ key = same_key key key' (dlq_replay_claim_key request_id generation) k k' in
    let (after, eq, over) = mark_key-IsHeld request_id key value at marked db2 held in
    let done =
      ok_pair took true db3 after
        (sym m ∙ mark_parts request_id first key value generation marked db2 k v ∙ ap ok eq) in
    let still : IsHeld key (codes "published:" ++ request_id) marked db4 =
      later-IsHeld request_id key marked db3 db4 later
        (subst (IsHeld key (codes "published:" ++ request_id) marked) (sym done.1) over) in
    (
      done.0,
      subst (IsOver db4) e' (
          subst (λ t. IsOver db4 (claim_if_open request_id t value' second now db4)) (sym same)
            (claim_if_open-IsOver request_id key value' second marked now db4 still)),
    )

-- Where a claim was decided, the mark by the same token is decided too.
pub mark_dlq_replay_published-returns :
    (request_id token : Text) (generation at now : ℕ) (db db' : Database)
    (r : ClaimState × Database)
    → claim_dlq_replay request_id generation token at db ≡ ok r
    → (took : Bool) × (db'' : Database) × (mark_dlq_replay_published request_id generation token now
          db'
        ≡ ok (took, db''))
mark_dlq_replay_published-returns request_id token generation at now db db' r h =
    let (key, value, k, v, e) = claim_dlq_replay-parts request_id token generation at db r h in
    let marked = mark_key request_id key value now db' in
    (marked.0, marked.1, mark_parts request_id token key value generation now db' k v)
